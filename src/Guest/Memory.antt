-- ===== src/Guest/Memory.antt =====
-- guest/mem.hpp: the memory both sides see. An offset stands for its place from the memory's start, so
-- the base address does not show; `uintptr_t` sums are taken as on a 64-bit machine, where they do not
-- wrap. A word lies low byte first, as on every target.
pub mod Laws
use xpute.Common.{
  ℕ, zero, suc, ◌+◌, ◌-◌, ◌*◌, ◌/◌, ◌%◌, ◌^◌, Bool, true, false, ◌&&◌, Option, none, some, List, [],
  ◌∷◌, length, get_or, ltb, leb, ◌==◌, if◌then◌else◌,
}
use xpute.Status.{Errno, Run, done, ◌>>=◌, ◌>>◌, ensure}

pub record Memory : Type 0 where
  pub size : ℕ
  pub byte : ℕ → ℕ

-- `std::uint32_t` arithmetic.
abbrev pub u32 : ℕ → ℕ
u32 n = n % 2 ^ 32

-- The four bytes at an offset as a word, with no check.
unfoldable pub raw_word : Memory → ℕ → ℕ
raw_word m off =
    m.byte off + m.byte (off + 1) * 2 ^ 8 + m.byte (off + 2) * 2 ^ 16 + m.byte (off + 3) * 2 ^ 24

-- `Memory::within`.
abbrev pub within : Memory → ℕ → ℕ → Bool
within m off len = leb (off + len) m.size

unfoldable pub word : Memory → ℕ → Run ℕ
word m off = do ensure (within m off 4) Errno.efault; done (raw_word m off)

unfoldable pub raw_set_word : Memory → ℕ → ℕ → Memory
raw_set_word m off w = record m {
  byte = λ a.
      if a == off
      then w % 2 ^ 8
      else if a == off + 1
      then w / 2 ^ 8 % 2 ^ 8
      else if a == off + 2
      then w / 2 ^ 16 % 2 ^ 8
      else if a == off + 3
      then w / 2 ^ 24 % 2 ^ 8
      else m.byte a;
}

unfoldable pub set_word : Memory → ℕ → ℕ → Run Memory
set_word m off w = do ensure (within m off 4) Errno.efault; done (raw_set_word m off w)

-- `std::memset(mem.at(off), 0, n)`.
unfoldable pub clear_bytes : Memory → ℕ → ℕ → Memory
clear_bytes m off n = record m { byte = λ a. if leb off a && ltb a (off + n) then 0 else m.byte a }

-- `std::memcpy(mem.at(off), bytes, n)`.
unfoldable pub copy_bytes : Memory → ℕ → List ℕ → Memory
copy_bytes m off bs = record m {
  byte = λ a. if leb off a && ltb a (off + length bs) then get_or bs (a - off) 0 else m.byte a;
}

-- The `n` bytes at an offset, as a span reads them.
unfoldable pub bytes_at : Memory → ℕ → ℕ → List ℕ
bytes_at m off zero = []
bytes_at m off (suc n) = m.byte off ∷ bytes_at m (off + 1) n

-- `Memory::off_of` for a pointer `a` and the memory's start `base`, both addresses.
unfoldable pub off_of : Memory → ℕ → ℕ → Run ℕ
off_of m base a = do
  ensure (leb base a && ltb (a - base) m.size && leb (a - base) (2 ^ 32 - 1)) Errno.efault
  done (a - base)

-- `off_of` of a span, its address and length: an empty span's pointer is only its alignment, so it
-- names 0.
unfoldable pub off_of_span : Memory → ℕ → ℕ × ℕ → Run ℕ
unfolding off_of
off_of_span m base (a, zero) = done 0
off_of_span m base (a, suc n) = off_of m base a
