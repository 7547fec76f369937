-- ===== src/Guest/Edge/Tests.antt =====
-- A turn over an edge with room for two, and one that parks too many.
use xpute.Common.{ℕ, ◌+◌, ◌<◌, ◌≡◌, ◌⊎◌, refl, false, none, some, List, [], ◌∷◌, length, arith}
use xpute.Status.{Errno, done, bug}
use xpute.Guest.Edge.{
  Edge, Ask, at_time, extend, to_park, park, ask_all, fall, rise, spent, wake_from,
}
use xpute.Guest.Edge.Asked.{parks}
use xpute.Guest.Edge.Turn.{Next, turn_correct}

-- The state is the time and what was woken, the last first.
abbrev clock : ℕ × List ℕ → ℕ × (ℕ × List ℕ)
clock s = (s.0, s)

abbrev note : ℕ → ℕ × List ℕ → ℕ × List ℕ
note w s = (s.0, w ∷ s.1)

abbrev idle : Edge ℕ
idle = record {
  cap = 2;
  edge_at = 0;
  quota_ms = 0;
  until = 0;
  parked = λ i. 0;
  parked_len = 0;
  asked = false;
  next_wake = none;
}

abbrev two : List (Ask ℕ)
two = to_park 7 ∷ at_time 40 ∷ to_park 8 ∷ extend 9 ∷ []

too_many : ask_all (to_park 6 ∷ two) idle ≡ bug Errno.enospc
unfolding ask_all park
too_many = refl

earliest_wins :
    fall clock (record idle { next_wake = some 40 }) (30, []) ≡ ((some 10, (30, [])), idle)
unfolding fall
earliest_wins = refl

no_wake : (fall clock idle (30, [])).0.0 ≡ none
unfolding fall
no_wake = refl

spent_at : (spent clock (rise clock note 5 idle (30, [])).0 (34, [])).0 ≡ false
unfolding spent rise wake_from
spent_at = refl

turn_correct_example :
    ((ask_all two idle ≡ bug Errno.enospc) × (2 < 0 + length (parks two)))
    ⊎ ((e' : Edge ℕ) × (ask_all two idle ≡ done e')
        × Next clock note two idle 5 (30, []) (50, []) e')
turn_correct_example = turn_correct clock note two idle 5 (30, []) (50, []) (omega arith)
