-- ===== src/Collection/Heap.antt =====
-- kit/collection/heap.hpp: a binary heap over an array the caller owns, and heapsort. An array is its element at
-- each index; the moves of a loop are given, and `none` would be a loop that is out of them.
pub mod Order
pub mod Sift
pub mod Build
pub mod Sort
pub mod Queue
mod Tests
use xpute.Common.{
  ℕ, zero, suc, ◌+◌, ◌-◌, ◌*◌, ◌/◌, ◌%◌, ◌^◌, Bool, true, false, not, ◌&&◌, Option, none, some, ltb,
  leb, ◌==◌, if◌then◌else◌,
}

pub record Element (A : Type 0) : Type 0 where
  pub key : ℕ
  pub val : A

abbrev pub Array : Type 0 → Type 0
Array A = ℕ → Element A

infixl 5 ◌>>=◌
abbrev pub ◌>>=◌ {ℓ κ} : {A : Type ℓ} {B : Type κ} → Option A → (A → Option B) → Option B
none >>= f = none
some a >>= f = f a

-- `MIN` puts the smallest key first.
unfoldable pub ahead : Bool → ℕ → ℕ → Bool
ahead true x y = ltb x y
ahead false x y = ltb y x

module _ {A : Type 0} where
  -- `a[i] = e`
  unfoldable pub update : Array A → ℕ → Element A → Array A
  update a i e j = if i == j then e else a j

  -- The child to compare with, the one that is ahead of the other.
  unfoldable pub pick : Bool → Array A → ℕ → ℕ → ℕ
  unfolding ahead
  pick min a child sz =
      if ltb (child + 1) sz && ahead min (a (child + 1)).key (a child).key then child + 1 else child

  -- The loop of `heapify`: the array, and where the hole is left.
  unfoldable pub sink : Bool → ℕ → Array A → ℕ → Element A → ℕ → Option (Array A × ℕ)
  unfolding ahead update pick
  sink min zero a i e sz = none
  sink min (suc f) a i e sz =
      let child = pick min a (2 * i + 1) sz in
      let rest = sink min f (update a i (a child)) child e sz in
      if not (ltb (2 * i + 1) sz)
      then some (a, i)
      else if not (ahead min (a child).key e.key)
      then some (a, i)
      else rest

  unfoldable pub heapify : Bool → Array A → ℕ → ℕ → Option (Array A)
  unfolding sink update
  heapify min a root sz =
      sink min (sz + 1) a root (a root) sz >>= λ p. some (update p.0 p.1 (a root))

  unfoldable pub build_from : Bool → ℕ → Array A → ℕ → Option (Array A)
  unfolding heapify
  build_from min zero a sz = some a
  build_from min (suc i) a sz = heapify min a i sz >>= λ b. build_from min i b sz

  unfoldable pub build_of : Bool → Array A → ℕ → Option (Array A)
  unfolding build_from
  build_of min a sz = build_from min (sz / 2) a sz

  -- The loop of `push`: parents that `e` is ahead of come down.
  unfoldable pub rise : Bool → ℕ → Array A → ℕ → Element A → Option (Array A × ℕ)
  unfolding ahead update
  rise min zero a i e = none
  rise min (suc f) a i e =
      let p = (i - 1) / 2 in
      let rest = rise min f (update a i (a p)) p e in
      if not (ltb 0 i)
      then some (a, i)
      else if not (ahead min e.key (a p).key)
      then some (a, i)
      else rest

  unfoldable pub push : Bool → Element A → Array A → ℕ → Option (Array A × ℕ)
  unfolding rise update
  push min e a size =
      rise min (size + 1) (update a size e) size e >>= λ p. some (update p.0 p.1 e, size + 1)

  unfoldable pub top : Array A → ℕ → Option (Element A)
  top a size = if size == 0 then none else some (a 0)

  -- What is taken out, the array and its size.
  unfoldable pub pop : Bool → Array A → ℕ → Option (Option (Element A) × (Array A × ℕ))
  unfolding heapify update
  pop min a zero = some (none, (a, 0))
  pop min a (suc n) =
      let b = update a 0 (a n) in
      (if n == 0 then some b else heapify min b 0 n) >>= λ c. some (some (a 0), (c, n))

  unfoldable pub replace_root : Bool → Element A → Array A → ℕ → Option (Array A)
  unfolding heapify update
  replace_root min e a size = heapify min (update a 0 e) 0 size

  unfoldable pub swap : Array A → ℕ → ℕ → Array A
  unfolding update
  swap a i j = update (update a i (a j)) j (a i)

  -- The loop of `heapsort` from `end` down to 1.
  unfoldable pub sort_from : ℕ → Array A → Option (Array A)
  unfolding heapify swap
  sort_from zero a = some a
  sort_from (suc k) a = heapify false (swap a 0 (suc k)) 0 (suc k) >>= sort_from k

  unfoldable pub heapsort : Array A → ℕ → Option (Array A)
  unfolding build_of sort_from
  heapsort a n = if leb n 1 then some a else build_of false a n >>= sort_from (n - 1)
