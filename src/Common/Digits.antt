-- ===== src/Common/Digits.antt =====
-- The native bit operations stand for a recursion on binary digits that is given a count of digits to
-- go. Any count that is enough gives the same number, so each operation has an equation for its
-- lowest digit.
use Prim.Native.Nat.{
  ℕ, zero, suc, ◌+◌, ◌*◌, ◌/◌, ◌%◌, ◌≤◌, min, max, bit_and, bit_or, digits, bitwise,
  bit_and-bitwise, bit_or-bitwise,
}
use mathlib.Core.Path.{◌≡◌, refl, sym, ◌∙◌, ap}
use native.Mathlib.Omega.{arith}

module _ (out : ℕ → ℕ) (op : ℕ → ℕ → ℕ) where
  digits_enough : (bound n x y : ℕ) → n ≤ bound → x ≤ n → digits out op n x y ≡ digits out op x x y
  digits_enough bound zero zero y p q = refl
  digits_enough bound (suc n) zero y p q = refl
  digits_enough bound zero (suc x) y p q = absurd (omega arith)
  digits_enough zero (suc n) (suc x) y p q = absurd (omega arith)
  digits_enough (suc bound) (suc n) (suc x) y p q =
      let half : suc x / 2 ≤ x = omega arith in
      let full = digits_enough bound n (suc x / 2) (y / 2) (omega arith) (omega arith) in
      let own = digits_enough bound x (suc x / 2) (y / 2) (omega arith) half in
      ap (λ d. d * 2 + op (suc x % 2) (y % 2)) (full ∙ sym own)

  -- Where `out` itself goes by the lowest digit, the whole operation does.
  lowest_digit :
      ((y : ℕ) → out y ≡ 2 * out (y / 2) + op 0 (y % 2))
      → (x y : ℕ) → bitwise out op x y ≡ 2 * bitwise out op (x / 2) (y / 2) + op (x % 2) (y % 2)
  lowest_digit h zero y = h y
  lowest_digit h (suc x) y =
      omega (arith, digits_enough x x (suc x / 2) (y / 2) (omega arith) (omega arith))

pub bit_and_step : (x y : ℕ) → bit_and x y ≡ 2 * bit_and (x / 2) (y / 2) + min (x % 2) (y % 2)
bit_and_step x y =
    rw (bit_and-bitwise x y, bit_and-bitwise (x / 2) (y / 2))
      (lowest_digit (λ k. 0) min (λ k. omega arith) x y)

pub bit_or_step : (x y : ℕ) → bit_or x y ≡ 2 * bit_or (x / 2) (y / 2) + max (x % 2) (y % 2)
bit_or_step x y =
    rw (bit_or-bitwise x y, bit_or-bitwise (x / 2) (y / 2))
      (lowest_digit (λ k. k) max (λ k. omega arith) x y)

-- Against no digits: none are common, and the others' are all there is.
pub bit_and-none_below : (bound x : ℕ) → x ≤ bound → (bit_and x 0 ≡ 0) × (bit_or x 0 ≡ x)
bit_and-none_below bound zero h = (bit_and-bitwise 0 0, bit_or-bitwise 0 0)
bit_and-none_below zero (suc x) h = absurd (omega arith)
bit_and-none_below (suc bound) (suc x) h =
    let rest = bit_and-none_below bound (suc x / 2) (omega arith) in
    (omega (arith, bit_and_step (suc x) 0, rest.0), omega (arith, bit_or_step (suc x) 0, rest.1))

pub none-bit_or : (y : ℕ) → bit_or 0 y ≡ y
none-bit_or y = bit_or-bitwise 0 y
