-- ===== src/Guest/Handle/Empty.antt =====
-- A table that nothing was taken of yet: it is valid, and no slot of it was made in an epoch to come.
use xpute.Common.{
  ℕ, zero, suc, ◌^◌, ◌≤◌, ◌<◌, ◌≡◌, refl, ap, arith, [], length-replicate, get_or, replicate,
}
use xpute.Guest.Handle.{Slot, vacant, empty_table}
use xpute.Guest.Handle.Inv.{IsValid, taken_slots}
use xpute.Guest.Handle.Since.{Dated}

module _ {A : Type 0} (blank : A) where
  all_vacant : (n j : ℕ) → get_or (replicate n (vacant blank)) j (vacant blank) ≡ vacant blank
  all_vacant zero j = refl
  all_vacant (suc n) zero = refl
  all_vacant (suc n) (suc j) = all_vacant n j

  none_taken : (n : ℕ) → taken_slots blank (replicate n (vacant blank)) ≡ 0
  none_taken zero = refl
  none_taken (suc n) = omega (arith, none_taken n)

  pub empty_table-IsValid : (n : ℕ) → 0 < n → n ≤ 2 ^ 16 → IsValid blank (empty_table blank n) []
  empty_table-IsValid n p q = record {
    chain = refl;
    counted = refl;
    lives = omega (arith, none_taken n);
    top_in = omega (arith, length-replicate n (vacant blank));
    size = omega (arith, length-replicate n (vacant blank));
    untaken = λ i h. ap (λ (s : Slot A). s.made) (all_vacant n i);
    generations = λ i. omega (arith, ap (λ (s : Slot A). s.generation) (all_vacant n i));
    epochs = omega arith;
  }

  pub empty_table-Dated : (n : ℕ) → Dated blank (empty_table blank n)
  empty_table-Dated n j = omega (arith, ap (λ (s : Slot A). s.made) (all_vacant n j))
