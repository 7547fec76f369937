-- ===== src/Collection/Deque.antt =====
-- kit/collection/deque.hpp: a ring over a buffer that the caller owns. `T{}`, the value that a slot
-- which is taken out is left with, is the parameter `blank`. Counts are `uint32_t`.
pub mod Refine
pub mod Spec
pub mod Simulate
mod Tests
use xpute.Common.{
  ℕ, suc, ◌+◌, ◌-◌, ◌%◌, ◌^◌, ◌≤◌, ◌<◌, Bool, Option, none, some, List, not, length, get_elem?,
  get_or, set, zero, ◌==◌, if◌then◌else◌,
}
use xpute.Status.{Errno, Run, done, ◌>>=◌, ◌>>◌, ensure}

pub record Deque {ℓ} (A : Type ℓ) : Type ℓ where
  pub buf : List A
  pub head : ℕ
  pub len : ℕ

-- `uint32_t` arithmetic.
abbrev pub u32 : ℕ → ℕ
u32 n = n % 2 ^ 32

module _ {ℓ} {A : Type ℓ} where
  abbrev pub cap : Deque A → ℕ
  cap d = u32 (length d.buf)

  abbrev pub is_empty : Deque A → Bool
  is_empty d = d.len == 0

  abbrev pub is_full : Deque A → Bool
  is_full d = d.len == cap d

  pub front : Deque A → Option A
  front d = if d.len == 0 then none else get_elem? d.buf d.head

  -- The sum is taken in `uint32_t`: `head + len - 1`.
  pub back : Deque A → Option A
  back d =
      if d.len == 0 then none else get_elem? d.buf (u32 (u32 (d.head + d.len) + 2 ^ 32 - 1) % cap d)

  pub push_back : Deque A → A → Run (Deque A)
  push_back d v = do
    ensure (not (is_full d)) Errno.enospc
    done (record d { buf = set d.buf (u32 (d.head + d.len) % cap d) v; len = u32 (d.len + 1) })

  pub push_front : Deque A → A → Run (Deque A)
  push_front d v = do
    ensure (not (is_full d)) Errno.enospc
    let h = u32 (u32 (d.head + cap d) + 2 ^ 32 - 1) % cap d
    done (record d { buf = set d.buf h v; head = h; len = u32 (d.len + 1) })

-- What is taken out, and the deque after; the slot is left `blank`.
module _ {ℓ} {A : Type ℓ} (blank : A) where
  pub pop_front : Deque A → Option A × Deque A
  pop_front d = if d.len == 0 then (none, d) else (
    get_elem? d.buf d.head,
    record d { buf = set d.buf d.head blank; head = u32 (d.head + 1) % cap d; len = d.len - 1 },
  )

  pub pop_back : Deque A → Option A × Deque A
  pop_back d =
      let at = u32 (d.head + (d.len - 1)) % cap d in
      if d.len == 0
      then (none, d)
      else (get_elem? d.buf at, record d { buf = set d.buf at blank; len = d.len - 1 })

  -- `for (i = 0; i < len; i++) buf[(head + i) % cap()] = T{}`, with `n` rounds left. The index is a
  -- `size_t`, so the sum does not wrap at 32 bits.
  pub clear_from : ℕ → ℕ → List A → ℕ → ℕ → List A
  clear_from zero i b h c = b
  clear_from (suc n) i b h c = clear_from n (i + 1) (set b ((h + i) % c) blank) h c

  pub clear : Deque A → Deque A
  unfolding clear_from
  clear d = record { buf = clear_from d.len 0 d.buf d.head (cap d); head = 0; len = 0 }
