-- ===== src/Gpu/Enum.antt =====
-- gpu/enum.spec.hpp: WebGPU's enumerations. A member's number is its place in the list of its spec's
-- strings.
pub mod Texture
pub mod Vertex
pub mod Blend
pub mod Sample
pub mod Pass
pub mod Device
use native.Mathlib.Nat.{le_trans}
use xpute.Common.{
  ℕ, zero, suc, ◌↔◌, ◌^◌, ◌≤◌, ◌<◌, ◌≡◌, sym, ap, ◌∙◌, arith, Option, none, some, some_inj, List,
  [], ◌∷◌, length, get_elem?,
}

-- An enumeration: each member's number (`static_cast`), and its members in order.
pub record Coded (A : Type 0) : Type 0 where
  pub code : A → ℕ
  pub members : List A
  pub place : (a : A) → get_elem? members (code a) ≡ some a
  pub few : length members ≤ 2 ^ 8

-- `u`: a member as a word.
abbrev pub u : {A : Type 0} ⦃c : Coded A⦄ → A → ℕ
u ⦃c⦄ = c.code

get_elem?-some :
    {A : Type 0} (xs : List A) (i : ℕ) (a : A) → get_elem? xs i ≡ some a → i < length xs
get_elem?-some [] i a h = absurd (cc)
get_elem?-some (x ∷ xs) zero a h = omega arith
get_elem?-some (x ∷ xs) (suc i) a h = omega (arith, get_elem?-some xs i a h)

module _ {A : Type 0} ⦃c : Coded A⦄ where
  -- Two members of one number are one member, and every number fits the byte that the source keeps it
  -- in.
  pub u-member : (a b : A) → (u a < 2 ^ 8) × ((u a ≡ u b) ↔ (a ≡ b))
  u-member a b = (
    omega (arith, c.few, get_elem?-some c.members (c.code a) a (c.place a)),
    (λ e. some_inj (sym (c.place a) ∙ ap (get_elem? c.members) e ∙ c.place b), λ e. ap c.code e),
  )
