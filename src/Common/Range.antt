-- ===== src/Common/Range.antt =====
-- A test on each number of a range, which is run rather than proved number by number.
use Prim.Native.Nat.{ℕ, zero, suc, ◌<◌}
use mathlib.Core.Path.{◌≡◌, ap}
use mathlib.Core.Bool.{Bool, true, false, ◌&&◌}
use mathlib.Core.Option.{Option, none, some}
use native.Mathlib.Omega.{arith}
use native.Mathlib.Decide.{dec_lt}
use xpute.Common.Tests.{◌==◌, ==_iff}

unfoldable pub every : (ℕ → Bool) → ℕ → Bool
every p zero = true
every p (suc n) = p n && every p n

pub every-lt : (p : ℕ → Bool) (n i : ℕ) → every p n ≡ true → i < n → p i ≡ true
unfolding every
every-lt p zero i e h = absurd (omega arith)
every-lt p (suc n) i e h = elim (dec_lt i n) [
  | yes below ↦ ground (arith, every-lt p n i)
  | no last ↦ let same : i ≡ n = omega arith in rw same (ground arith)
]

-- Whether an optional number is there, and this one.
abbrev pub names : Option ℕ → ℕ → Bool
names none i = false
names (some j) i = j == i

pub names-some : (o : Option ℕ) (i : ℕ) → names o i ≡ true → o ≡ some i
names-some none i e = absurd (cc)
names-some (some j) i e = ap some ((==_iff j i).0 e)
