-- ===== src/Collection/Deque/Tests.antt =====
-- Runs of a deque of three slots, and the witnesses.
use native.Mathlib.Omega.{arith}
use xpute.Common.{ℕ, ◌≡◌, refl, none, some, List, [], ◌∷◌, length}
use xpute.Status.{Errno, done, bug}
use xpute.Collection.Deque
use xpute.Collection.Deque.{Deque}
use xpute.Collection.Deque.Refine.{IsValid, contents}
use xpute.Collection.Deque.Spec.{
  Op, push_back, push_front, pop_front, pop_back, ring_step, list_run, ring_run,
}
use xpute.Collection.Deque.Simulate.{run_refines}

-- Two values that lie past the end of the buffer and at its start.
abbrev wrapped : Deque ℕ
wrapped = record { buf = 5 ∷ 0 ∷ 4 ∷ []; head = 2; len = 2 }

wrapped-IsValid : IsValid wrapped
wrapped-IsValid = record { small = omega arith; head_in = omega arith; len_in = omega arith }

abbrev history : List (Op ℕ)
history = push_front 3 ∷ pop_back ∷ pop_front ∷ push_back 6 ∷ pop_front ∷ pop_front ∷ pop_front ∷ []

history_run :
    ring_run 0 history wrapped ≡ done (none ∷ some 5 ∷ some 3 ∷ none ∷ some 4 ∷ some 6 ∷ none ∷ [])
unfolding ring_run ring_step Deque.push_front Deque.push_back Deque.pop_front Deque.pop_back
history_run = refl

overfull : ring_run 0 (push_back 6 ∷ push_back 7 ∷ []) wrapped ≡ bug Errno.enospc
unfolding ring_run ring_step Deque.push_back
overfull = refl

run_refines_example :
    ring_run 0 history wrapped ≡ list_run (length wrapped.buf) history (contents 0 wrapped)
run_refines_example = run_refines 0 history {d = wrapped} wrapped-IsValid
