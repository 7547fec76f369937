-- ===== src/Common/Bits.antt =====
-- Masks and shifted fields as arithmetic, for every width.
use Prim.Native.Nat.{ℕ, zero, suc, ◌+◌, ◌-◌, ◌*◌, ◌/◌, ◌%◌, ◌^◌, ◌<◌, bit_and, bit_or}
use mathlib.Core.Path.{◌≡◌, ◌∙◌, ap}
use native.Mathlib.Nat.{pow-suc, mul-add-mod_self_left, mod-eq_of_lt, div-add-mod, mod-lt}
use native.Mathlib.Omega.{arith}
use xpute.Common.Digits.{none-bit_or, bit_and-none_below, bit_and_step, bit_or_step}

bit_and-zero : (x : ℕ) → bit_and x 0 ≡ 0
bit_and-zero x = (bit_and-none_below x x (omega arith)).0

pub bit_or-zero : (x : ℕ) → bit_or x 0 ≡ x
bit_or-zero x = (bit_and-none_below x x (omega arith)).1

pub pow-two_pos : (k : ℕ) → 0 < 2 ^ k
pow-two_pos zero = omega arith
pow-two_pos (suc k) = omega (arith, pow-suc 2 k, pow-two_pos k)

pub mod_unique : (m q s x : ℕ) → x ≡ m * q + s → s < m → x % m ≡ s
mod_unique m q s x e h = rw e (mul-add-mod_self_left m q s ∙ mod-eq_of_lt h)

-- `x % (p * 2)` by the lowest digit of `x`.
pub mod_twice : (p x : ℕ) → 0 < p → x % (p * 2) ≡ x / 2 % p * 2 + x % 2
mod_twice p x h =
    mod_unique (p * 2) (x / 2 / p) _ x (omega (arith, div-add-mod (x / 2) p))
      (omega (arith, mod-lt (x / 2) h))

-- `x & (2^k - 1)` keeps the low `k` bits.
pub bit_and_mask : (k x : ℕ) → bit_and x (2 ^ k - 1) ≡ x % 2 ^ k
bit_and_mask zero x = omega (arith, bit_and-zero x)
bit_and_mask (suc k) x =
    let half : (2 ^ suc k - 1) / 2 ≡ 2 ^ k - 1 = omega (arith, pow-suc 2 k, pow-two_pos k) in
    omega (
      arith,
      pow-suc 2 k,
      pow-two_pos k,
      bit_and_step x (2 ^ suc k - 1),
      ap (λ m. bit_and (x / 2) m) half,
      bit_and_mask k (x / 2),
      mod_twice (2 ^ k) x (pow-two_pos k),
      ap (λ m. x % m) (pow-suc 2 k),
    )

-- The low field first, as `slot | generation << 16` is written.
pub bit_or_low : (k a b : ℕ) → a < 2 ^ k → bit_or a (b * 2 ^ k) ≡ a + b * 2 ^ k
bit_or_low zero zero b h = omega (arith, none-bit_or (b * 2 ^ 0))
bit_or_low zero (suc a) b h = absurd (omega arith)
bit_or_low (suc k) a b h =
    let twice : b * 2 ^ suc k ≡ b * 2 ^ k * 2 = omega (arith, ap (λ m. b * m) (pow-suc 2 k)) in
    let halved : b * 2 ^ suc k / 2 ≡ b * 2 ^ k = omega (arith, twice) in
    omega (
      arith,
      twice,
      bit_or_step a (b * 2 ^ suc k),
      ap (λ m. bit_or (a / 2) m) halved,
      bit_or_low k (a / 2) b (omega (arith, pow-suc 2 k)),
    )

-- The high field first, as `hi << 4 | lo` is written.
pub bit_or_high : (k a b : ℕ) → b < 2 ^ k → bit_or (a * 2 ^ k) b ≡ a * 2 ^ k + b
bit_or_high zero a zero h = omega (arith, bit_or-zero (a * 2 ^ 0))
bit_or_high zero a (suc b) h = absurd (omega arith)
bit_or_high (suc k) a b h =
    let twice : a * 2 ^ suc k ≡ a * 2 ^ k * 2 = omega (arith, ap (λ m. a * m) (pow-suc 2 k)) in
    let halved : a * 2 ^ suc k / 2 ≡ a * 2 ^ k = omega (arith, twice) in
    omega (
      arith,
      twice,
      bit_or_step (a * 2 ^ suc k) b,
      ap (λ m. bit_or m (b / 2)) halved,
      bit_or_high k a (b / 2) (omega (arith, pow-suc 2 k)),
    )
