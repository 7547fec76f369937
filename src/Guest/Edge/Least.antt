-- ===== src/Guest/Edge/Least.antt =====
-- The least of some times, and the greatest.
use native.Mathlib.Decide.{dec_lt}
use xpute.Common.{
  ℕ, ◌≤◌, ◌≡◌, ◌⊎◌, inl, inr, refl, Option, none, some, List, [], ◌∷◌, ◌++◌, All, max, min, arith,
}
use xpute.Guest.Edge.{sooner}

-- A number is one of these.
abbrev pub IsOneOf : List ℕ → ℕ → Type 0
IsOneOf [] m = ⊥
IsOneOf (t ∷ ts) m = (m ≡ t) ⊎ IsOneOf ts m

-- The least of these numbers, none where there are none, and the greatest.
abbrev pub IsLeast : List ℕ → Option ℕ → Type 0
IsLeast ts none = ts ≡ []
IsLeast ts (some m) = IsOneOf ts m × All (λ t. m ≤ t) ts

abbrev pub IsGreatest : List ℕ → ℕ → Type 0
IsGreatest ts m = IsOneOf ts m × All (λ t. t ≤ m) ts

abbrev pub as_list : Option ℕ → List ℕ
as_list none = []
as_list (some t) = t ∷ []

pub as_list-IsLeast : (o : Option ℕ) → IsLeast (as_list o ++ []) o
as_list-IsLeast none = refl
as_list-IsLeast (some t) = (inl refl, (omega arith, tt))

min-IsLeast :
    (a b : ℕ) (ts : List ℕ) (o : Option ℕ) → IsLeast (min a b ∷ ts) o → IsLeast (a ∷ b ∷ ts) o
min-IsLeast a b ts none e = absurd (cc)
min-IsLeast a b ts (some m) (inr i, (p, q)) = (inr (inr i), (omega arith, (omega arith, q)))
min-IsLeast a b ts (some m) (inl i, (p, q)) = elim (dec_lt a b) [
  | yes h ↦ (inl (omega arith), (omega arith, (omega arith, q)))
  | no h ↦ (inr (inl (omega arith)), (omega arith, (omega arith, q)))
]

pub sooner-IsLeast :
    (o : Option ℕ) (t : ℕ) (ts : List ℕ) (r : Option ℕ)
    → IsLeast (sooner o t ∷ ts) r
    → IsLeast (as_list o ++ (t ∷ ts)) r
sooner-IsLeast none t ts r l = l
sooner-IsLeast (some m) t ts r l = min-IsLeast m t ts r l

pub max-IsGreatest :
    (a b : ℕ) (ts : List ℕ) (m : ℕ) → IsGreatest (max a b ∷ ts) m → IsGreatest (a ∷ b ∷ ts) m
max-IsGreatest a b ts m (inr i, (p, q)) = (inr (inr i), (omega arith, (omega arith, q)))
max-IsGreatest a b ts m (inl i, (p, q)) = elim (dec_lt a b) [
  | yes h ↦ (inr (inl (omega arith)), (omega arith, (omega arith, q)))
  | no h ↦ (inl (omega arith), (omega arith, (omega arith, q)))
]
