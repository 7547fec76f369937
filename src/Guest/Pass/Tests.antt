-- ===== src/Guest/Pass/Tests.antt =====
-- A run at a clock that steps do move.
use xpute.Common.{ℕ, ◌+◌, ◌≡◌, refl, Bool, true, none, some, [], ◌∷◌, ltb, arith}
use xpute.Common.Int.{pos}
use xpute.Guest.Pass.{Pass, run, run_items, remaining, is_over}
use xpute.Guest.Pass.Visited.{Tried, run_correct}

-- The clock is the state; an item takes as long as it says, and an empty one did no work.
abbrev clock : ℕ → ℕ × ℕ
clock t = (t, t)

abbrev spend : ℕ → ℕ → Bool × ℕ
spend i t = (ltb 0 i, t + i)

abbrev turn : Pass
turn = record { t0 = 100; total_ms = 16; reserve_ms = 4; hard_slack_ms = 8 }

-- 12 are left: the empty item and the first three of 5 fit, the third being begun before the deadline.
out_of_time :
    run clock spend turn (0 ∷ 5 ∷ 5 ∷ 5 ∷ 5 ∷ []) none 100
    ≡ (record { ran = 3; visited = 4; elapsed_ms = pos 15; stopped_early = true }, 115)
unfolding run run_items remaining is_over
out_of_time = refl

-- Past the deadline from the start, one item that works is still run.
always_one :
    run clock spend turn (5 ∷ 5 ∷ []) none 200
    ≡ (record { ran = 1; visited = 1; elapsed_ms = pos 5; stopped_early = true }, 205)
unfolding run run_items remaining is_over
always_one = refl

capped :
    run clock spend turn (1 ∷ 0 ∷ 1 ∷ 1 ∷ []) (some 2) 100
    ≡ (record { ran = 2; visited = 3; elapsed_ms = pos 2; stopped_early = true }, 102)
unfolding run run_items remaining is_over
capped = refl

run_correct_example :
    (count : ℕ) × Tried clock spend turn
      (0 ∷ 5 ∷ 5 ∷ 5 ∷ 5 ∷ [])
      none
      100
      (run clock spend turn (0 ∷ 5 ∷ 5 ∷ 5 ∷ 5 ∷ []) none 100)
      count
run_correct_example = run_correct clock spend turn (0 ∷ 5 ∷ 5 ∷ 5 ∷ 5 ∷ []) none 100 (omega arith)
