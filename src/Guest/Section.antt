-- ===== src/Guest/Section.antt =====
-- guest/mem/section.hpp: ranges laid end to end in a linear memory, each from a multiple of a unit on.
pub mod Layout
mod Tests
use xpute.Common.{
  ℕ, ◌+◌, ◌-◌, ◌*◌, ◌/◌, ◌%◌, ◌^◌, Bool, Option, none, some, List, [], ◌∷◌, take, get_or, leb, ltb,
  not, if◌then◌else◌,
}
use xpute.Status.{Errno, Run, done, bug, ◌>>=◌, ◌>>◌, ensure}
use xpute.Guest.Memory.{u32}

abbrev pub page_bytes : ℕ
page_bytes = 4096

-- `(n + unit - 1) / unit * unit`, in `uint32_t`.
abbrev pub align_up : ℕ → ℕ → ℕ
align_up n unit = u32 (u32 (u32 (n + unit) + 2 ^ 32 - 1) / unit * unit)

-- The sum so far, and the sizes to go.
abbrev pub span_from : ℕ → List ℕ → ℕ → ℕ
span_from span [] unit = span
span_from span (s ∷ bytes) unit = span_from (u32 (span + align_up s unit)) bytes unit

abbrev pub span_of : List ℕ → ℕ → ℕ
span_of bytes unit = span_from 0 bytes unit

abbrev pub nth_at : ℕ → List ℕ → ℕ → ℕ → ℕ
nth_at base bytes unit n = u32 (base + span_of (take n bytes) unit)

pub record Section : Type 0 where
  pub off : ℕ
  pub bytes : ℕ

abbrev pub end : Section → ℕ
end s = u32 (s.off + s.bytes)

pub at : Section → ℕ → ℕ → Option ℕ
at s off n = if ltb s.bytes (off + n) then none else some (u32 (s.off + off))

-- `n` is below the count of `bytes`.
pub nth : Section → List ℕ → ℕ → ℕ → Run Section
nth s bytes unit n = do
  ensure (not (ltb s.bytes (span_of bytes unit))) Errno.einval
  done (record { off = nth_at s.off bytes unit n; bytes = get_or bytes n 0 })
