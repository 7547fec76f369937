-- ===== src/Guest/Handle/Inv.antt =====
-- The table's representation invariant: the free slots form a list through `next`, slots past the
-- highest one given out were never taken, and no counter wraps.
use xpute.Common.{
  subst, ◌∙◌, ℕ, zero, suc, ◌+◌, ◌^◌, ◌≤◌, ◌<◌, ◌≡◌, ◌≢◌, sym, ap, List, [], ◌∷◌, length, get_or,
  set, get_or-set_ne, arith, All, ◌==◌, if◌then◌else◌,
}
use xpute.Guest.Handle.{Slot, Table, vacant, slot_at}

module _ {A : Type 0} (blank : A) where
  -- The slots of the free list from `f` on: each was given out, is free, and is met once.
  abbrev pub Chain : List (Slot A) → ℕ → ℕ → List ℕ → Type 0
  Chain ss top f [] = f ≡ 0
  Chain ss top f (x ∷ xs) =
      (f ≡ x)
      × (0 < x)
      × (x ≤ top)
      × ((get_or ss x (vacant blank)).made ≡ 0)
      × All (λ y. x ≢ y) xs
      × Chain ss top (get_or ss x (vacant blank)).next xs

  -- How many slots hold a live handle's value.
  abbrev pub taken_slots : List (Slot A) → ℕ
  taken_slots [] = 0
  taken_slots (s ∷ ss) = (if s.made == 0 then 0 else 1) + taken_slots ss

  pub taken_slots-set :
      (ss : List (Slot A)) (i : ℕ) (s : Slot A)
      → i < length ss
      → taken_slots (set ss i s) + (if (get_or ss i (vacant blank)).made == 0 then 0 else 1)
        ≡ taken_slots ss + (if s.made == 0 then 0 else 1)
  taken_slots-set [] i s h = absurd (omega arith)
  taken_slots-set (x ∷ ss) zero s h = omega arith
  taken_slots-set (x ∷ ss) (suc i) s h = omega (arith, taken_slots-set ss i s (omega arith))

  -- `frees` is the free list that the table holds.
  pub record IsValid (t : Table A) (frees : List ℕ) : Type 0 where
    pub chain : Chain t.slots t.top t.free frees
    pub counted : t.count + length frees ≡ t.top
    pub lives : t.count ≡ taken_slots t.slots
    pub top_in : t.top < length t.slots
    pub size : length t.slots ≤ 2 ^ 16
    pub untaken : (i : ℕ) → t.top < i → (slot_at blank t i).made ≡ 0
    pub generations : (i : ℕ) → (slot_at blank t i).generation < 2 ^ 16
    pub epochs : t.epoch + 1 < 2 ^ 64

  -- A slot that is off the free list can be written without moving the list.
  pub Chain-set :
      (xs : List ℕ) (ss : List (Slot A)) (top f i : ℕ) (s : Slot A)
      → All (λ y. i ≢ y) xs
      → Chain ss top f xs
      → Chain (set ss i s) top f xs
  Chain-set [] ss top f i s a c = c
  Chain-set (x ∷ xs) ss top f i s a (e, p, q, m, d, c) =
      let same = get_or-set_ne ss s (vacant blank) a.0 in
      (
        e,
        p,
        q,
        ap (λ (r : Slot A). r.made) same ∙ m,
        d,
        subst (λ (r : Slot A). Chain (set ss i s) top r.next xs) (sym same)
            (Chain-set xs ss top _ i s a.1 c),
      )

  pub Chain-top :
      (xs : List ℕ) (ss : List (Slot A)) (top top' f : ℕ)
      → top ≤ top'
      → Chain ss top f xs
      → Chain ss top' f xs
  Chain-top [] ss top top' f h c = c
  Chain-top (x ∷ xs) ss top top' f h (e, p, q, m, d, c) =
      (e, p, omega arith, m, d, Chain-top xs ss top top' _ h c)

  -- What is live, or past the slots given out, is off the free list.
  pub Chain-live :
      (xs : List ℕ) (ss : List (Slot A)) (top f i : ℕ)
      → Chain ss top f xs
      → (get_or ss i (vacant blank)).made ≢ 0
      → All (λ y. i ≢ y) xs
  Chain-live [] ss top f i c h = tt
  Chain-live (x ∷ xs) ss top f i (e, p, q, m, d, c) h = (
    λ same. h (ap (λ k. (get_or ss k (vacant blank)).made) same ∙ m),
    Chain-live xs ss top _ i c h,
  )

  pub Chain-past :
      (xs : List ℕ) (ss : List (Slot A)) (top f i : ℕ)
      → Chain ss top f xs
      → top < i
      → All (λ y. i ≢ y) xs
  Chain-past [] ss top f i c h = tt
  Chain-past (x ∷ xs) ss top f i (e, p, q, m, d, c) h = (omega arith, Chain-past xs ss top _ i c h)
