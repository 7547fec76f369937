-- ===== src/Common/Tabulate.antt =====
-- A list by its entries, and what a change to one of them does.
use Prim.Native.Nat.{ℕ, zero, suc, ◌+◌, ◌≤◌, ◌<◌}
use mathlib.Core.Path.{◌≡◌, refl, ap, ap₂, ◌∙◌}
use mathlib.Core.Logic.{◌≢◌}
use mathlib.Core.List.{List, [], ◌∷◌}
use native.Mathlib.Omega.{arith}
use xpute.Common.Lists.{length, get_or, set}

module _ {A : Type 0} where
  -- `f lo`, `f (lo + 1)`, … , `n` of them.
  unfoldable pub tabulate : (ℕ → A) → ℕ → ℕ → List A
  tabulate f lo zero = []
  tabulate f lo (suc n) = f lo ∷ tabulate f (lo + 1) n

  pub length-tabulate : (f : ℕ → A) (lo n : ℕ) → length (tabulate f lo n) ≡ n
  unfolding tabulate
  length-tabulate f lo zero = refl
  length-tabulate f lo (suc n) = ap suc (length-tabulate f (lo + 1) n)

  pub get_or-tabulate :
      (f : ℕ → A) (lo n i : ℕ) (d : A) → i < n → get_or (tabulate f lo n) i d ≡ f (lo + i)
  unfolding tabulate
  get_or-tabulate f lo zero i d h = absurd (omega arith)
  get_or-tabulate f lo (suc n) zero d h = ap f (omega arith)
  get_or-tabulate f lo (suc n) (suc i) d h =
      get_or-tabulate f (lo + 1) n i d (omega arith) ∙ ap f (omega arith)

  pub tabulate-eq :
      (f g : ℕ → A) (lo n : ℕ)
      → ((j : ℕ) → lo ≤ j → j < lo + n → g j ≡ f j)
      → tabulate g lo n ≡ tabulate f lo n
  unfolding tabulate
  tabulate-eq f g lo zero h = refl
  tabulate-eq f g lo (suc n) h =
      ap₂ ◌∷◌ (h lo (omega arith) (omega arith))
        (tabulate-eq f g (lo + 1) n (λ j p q. h j (omega arith) (omega arith)))

  pub tabulate-set :
      (f g : ℕ → A) (lo n i : ℕ)
      → ((j : ℕ) → lo ≤ j → j < lo + n → j ≢ lo + i → g j ≡ f j)
      → i < n
      → tabulate g lo n ≡ set (tabulate f lo n) i (g (lo + i))
  unfolding tabulate
  tabulate-set f g lo zero i h p = absurd (omega arith)
  tabulate-set f g lo (suc n) zero h p =
      ap₂ ◌∷◌ (ap g (omega arith))
        (tabulate-eq f g (lo + 1) n (λ j a b. h j (omega arith) (omega arith) (omega arith)))
  tabulate-set f g lo (suc n) (suc i) h p =
      ap₂ ◌∷◌ (h lo (omega arith) (omega arith) (omega arith)) (
        tabulate-set f g (lo + 1) n i (λ j a b c. h j (omega arith) (omega arith) (omega arith))
          (omega arith)
        ∙ ap (λ k. set (tabulate f (lo + 1) n) i (g k)) (omega arith))
