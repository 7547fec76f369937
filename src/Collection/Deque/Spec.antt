-- ===== src/Collection/Deque/Spec.antt =====
-- What kit/collection/deque.hpp promises: a list of at most `room` values, oldest first, worked at
-- both ends. Calls are data, so that a client's whole history is a list of them.
use xpute.Common.{ℕ, Option, none, some, List, [], ◌∷◌, ◌++◌, length, ◌==◌, not}
use xpute.Status.{Errno, Run, done, ◌>>=◌, ◌>>◌, ensure}
use xpute.Collection.Deque
use xpute.Collection.Deque.{Deque}

pub data Op {ℓ} (A : Type ℓ) : Type ℓ where
  push_back push_front : A → Op A
  pop_front pop_back clear : Op A

module _ {ℓ} {A : Type ℓ} where
  -- The last value, and those before it.
  unfoldable pub unsnoc : List A → Option A × List A
  unsnoc [] = (none, [])
  unsnoc (x ∷ []) = (some x, [])
  unsnoc (x ∷ y ∷ r) = let (last, front) = unsnoc (y ∷ r) in (last, x ∷ front)

  unfoldable pub uncons : List A → Option A × List A
  uncons [] = (none, [])
  uncons (x ∷ r) = (some x, r)

  -- One call on the promised list.
  unfoldable pub list_step : ℕ → Op A → List A → Run (Option A × List A)
  unfolding unsnoc uncons
  list_step room (push_back v) q = do
    ensure (not (length q == room)) Errno.enospc
    done (none, q ++ (v ∷ []))
  list_step room (push_front v) q = do
    ensure (not (length q == room)) Errno.enospc
    done (none, v ∷ q)
  list_step room pop_front q = done (uncons q)
  list_step room pop_back q = done (unsnoc q)
  list_step room clear q = done (none, [])

  -- The same call on the ring.
  unfoldable pub ring_step : A → Op A → Deque A → Run (Option A × Deque A)
  ring_step blank (push_back v) d = do d' ← Deque.push_back d v; done (none, d')
  ring_step blank (push_front v) d = do d' ← Deque.push_front d v; done (none, d')
  ring_step blank pop_front d = done (Deque.pop_front blank d)
  ring_step blank pop_back d = done (Deque.pop_back blank d)
  ring_step blank clear d = done (none, Deque.clear blank d)

  -- A history of calls, with what each answers.
  unfoldable pub list_run : ℕ → List (Op A) → List A → Run (List (Option A))
  list_run room [] q = done []
  list_run room (o ∷ os) q = do
    (r, q') ← list_step room o q
    rs ← list_run room os q'
    done (r ∷ rs)

  unfoldable pub ring_run : A → List (Op A) → Deque A → Run (List (Option A))
  ring_run blank [] d = done []
  ring_run blank (o ∷ os) d = do
    (r, d') ← ring_step blank o d
    rs ← ring_run blank os d'
    done (r ∷ rs)
