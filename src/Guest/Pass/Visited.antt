-- ===== src/Guest/Pass/Visited.antt =====
-- What a run visits, and why it stops.
use xpute.Common.{
  ℕ, zero, suc, ◌+◌, ◌-◌, ◌^◌, ◌≤◌, ◌<◌, ◌≡◌, ◌⊎◌, inl, inr, refl, sym, ap, ◌∙◌, Bool, true, false,
  Option, none, some, List, length, arith, Bool-cases,
}
use xpute.Common.Int.{pos}
use xpute.Guest.Pass.{PassStat, Pass, limits_of, cap_of, since, run_items, run}
use xpute.Guest.Pass.Items.{IsOver-same, after, worked, run_items-Ran}

-- The most work that a run may do: as many as it is told, or as a count of 32 bits can count.
abbrev pub max_work : Option ℕ → ℕ
max_work none = 4294967295
max_work (some n) = n

cap_of-max_work : (most : Option ℕ) → cap_of most ≡ max_work most
cap_of-max_work none = refl
cap_of-max_work (some n) = refl

module _ {S I : Type 0} (now : S → ℕ × S) (step : I → S → Bool × S) where
  -- The state as the first item is come to, after the clock was read for the start and for what remains.
  abbrev pub begun : S → S
  begun s = (now (now s).1).1

  -- The start and what is left then of the whole budget less the reserve.
  abbrev pub deadline : Pass → S → ℕ
  deadline p s = (now s).0 + (p.t0 + p.total_ms - (p.reserve_ms + (now (now s).1).0))

  -- So many items were tried: one of them, and past the hard deadline; or one did work, and the most work is done or
  -- the deadline past.
  abbrev pub Over : Pass → List I → Option ℕ → S → ℕ → Type 0
  Over p items most s k =
      let there = (now (after now step k items (begun s))).0 in
      ((0 < k) × (deadline p s + p.hard_slack_ms ≤ there))
      ⊎ ((0 < worked now step k items (begun s))
          × ((max_work most ≤ worked now step k items (begun s)) ⊎ (deadline p s ≤ there)))

  -- So many items were tried, and counted with those that did work, and it was over at none of them. All of them and
  -- the run not stopped early; or some left, at least one tried, and it is over. What elapsed is from the first
  -- reading of the clock to the last.
  abbrev pub Tried : Pass → List I → Option ℕ → S → PassStat × S → ℕ → Type 0
  Tried p items most s out count =
      let there = after now step count items (begun s) in
      (out.0.visited ≡ count)
      × (out.0.ran ≡ worked now step count items (begun s))
      × ((k : ℕ) → k < count → ¬ Over p items most s k)
      × (((out.0.stopped_early ≡ false)
            × (count ≡ length items)
            × (out.0.elapsed_ms ≡ since (now s).0 (now there).0)
            × (out.1 ≡ (now there).1))
          ⊎ ((out.0.stopped_early ≡ true)
              × (count < length items)
              × (0 < count)
              × (out.0.elapsed_ms ≡ since (now s).0 (now (now there).1).0)
              × (out.1 ≡ (now (now there).1).1)
              × Over p items most s count))

  Over-later :
      (p : Pass) (items : List I) (most : Option ℕ) (s : S) (k : ℕ) → Over p items most s k → 0 < k
  Over-later p items most s zero (inl (h, q)) = h
  Over-later p items most s zero (inr (h, q)) = h
  Over-later p items most s (suc k) o = omega arith

  -- A run over fewer than 2^32 items, from any state, under any clock and steps: it tries the first so many of the
  -- items in order, each once, and counts them and those that did work. It stops as soon as it is over, and only
  -- then: once an item was tried, at the hard deadline, which is the slack past the deadline; once one did work, at
  -- the most work, or at the deadline, which is the start and what the reserve leaves of the budget. Not stopped
  -- early, all are tried; stopped, at least one, and some are left. What elapsed is from the first reading of the
  -- clock to the last.
  pub run_correct :
      (p : Pass) (items : List I) (most : Option ℕ) (s : S)
      → length items < 2 ^ 32
      → (count : ℕ) × Tried p items most s (run now step p items most s) count
  unfolding run
  run_correct p items most s fits =
      let stat : PassStat = record {
        ran = 0;
        visited = 0;
        elapsed_ms = pos 0;
        stopped_early = false;
      } in
      let left = p.t0 + p.total_ms - p.reserve_ms - (now (now s).1).0 in
      let limits = limits_of p most (now s).0 left in
      let out = run_items now step limits items stat (begun s) in
      let r = run_items-Ran now step limits items stat (begun s) refl (omega arith) (omega arith) in
      let n = r.count in
      let at_deadline : (now s).0 + left ≡ deadline p s = omega arith in
      let cap : cap_of most ≡ max_work most = cap_of-max_work most in
      (
        n,
        (
          r.visited ∙ (omega arith),
          r.ran ∙ (omega arith),
          (λ k h o. r.going k h (
              IsOver-same (max_work most) (deadline p s) (deadline p s + p.hard_slack_ms) k
                (worked now step k items (begun s)) (now (after now step k items (begun s))).0
                (sym cap, sym at_deadline, omega arith) (omega arith) (omega arith) o)),
          elim (Bool-cases out.0.stopped_early) [
            | inr whole ↦
                let (all, end) = r.whole whole in
                inl (whole, all, ap (λ t. since (now s).0 (now t).0) end, ap (λ t. (now t).1) end)
            | inl part ↦
                let (some_left, end, why) = r.part part in
                let over : Over p items most s n =
                  IsOver-same limits.cap limits.deadline limits.hard_deadline _ _
                    (now (after now step n items (begun s))).0 (cap, at_deadline, omega arith)
                    (omega arith) (omega arith) why in
                inr (
                  part,
                  some_left,
                  Over-later p items most s n over,
                  ap (λ t. since (now s).0 (now t).0) end,
                  ap (λ t. (now t).1) end,
                  over,
                )
          ],
        ),
      )
