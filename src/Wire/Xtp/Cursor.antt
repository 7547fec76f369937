-- ===== src/Wire/Xtp/Cursor.antt =====
-- kit/wire/xtp/cursor.hpp and cursor.cpp: cursors over a packet in memory. A span of the packet is where it
-- starts and how long it is, and a cursor's own span is from the packet's first byte.
pub mod Read
pub mod Deep
pub mod Within
pub mod Order
pub mod Total
pub mod Spans
mod Tests
use xpute.Common.{
  ℕ, zero, suc, ◌+◌, ◌-◌, ◌*◌, ◌/◌, ◌%◌, ◌^◌, Bool, true, false, not, ◌&&◌, ◌||◌, Option, none,
  some, List, [], ◌∷◌, take, drop, ltb, ◌==◌, if◌then◌else◌, min,
}
use xpute.Status.{Errno, Result, val, err, marshal_error}
use xpute.Wire.Tlv.{from_le}
use xpute.Wire.Xtp.{
  ScalarType, SequenceType, SpecialType, special_type, scalar_type, sequence_type, word_sz, Desc,
  get_word, get_len, get_desc, align_sz,
}

abbrev pub u32 : ℕ → ℕ
u32 x = x % 2 ^ 32

abbrev pub bad {ℓ} : {A : Type ℓ} → Result A
bad = err (marshal_error Errno.ebadmsg)

infixl 5 ◌>>=◌
abbrev pub ◌>>=◌ {ℓ κ} : {A : Type ℓ} {B : Type κ} → Result A → (A → Result B) → Result B
val a >>= f = f a
err e >>= f = err e

pub record Span : Type 0 where
  pub from : ℕ
  pub size : ℕ

-- `pkt` is the length of the span it reads in, `len` a branch's children.
pub record Cursor : Type 0 where
  pub pkt : ℕ
  pub base : ℕ
  pub ty : ℕ
  pub len : ℕ

-- A number is the bits of its type.
pub data Value : Type 0 where
  null : Value
  boolean : Bool → Value
  number : ScalarType → ℕ → Value
  str : Span → Value
  array : SequenceType → Span → Value
  bitset : Span → ℕ → Value
  strs : Span → Span → ℕ → Value
  branch : Cursor → Value

abbrev pub branch_type : ℕ
branch_type = special_type SpecialType.branch

unfoldable pub is_null : Cursor → Bool
is_null c = c.base == 0

unfoldable pub is_branch : Cursor → Bool
unfolding is_null
is_branch c = not (is_null c) && (c.ty == branch_type)

unfoldable pub as_branch : Cursor → Result Cursor
unfolding is_null is_branch
as_branch c =
    if is_null c then err (marshal_error Errno.efault) else if not (is_branch c) then bad else val c

abbrev pub magic : ℕ
magic = 0x00505458

abbrev pub hdr_sz : ℕ
hdr_sz = 2 * word_sz

abbrev pub magic_ok : Result ℕ → Bool
magic_ok (err e) = false
magic_ok (val m) = m == magic

module _ (mem : List ℕ) where
  unfoldable pub load : ℕ → ℕ → ℕ
  unfolding from_le
  load n off = from_le (take n (drop off mem))

  unfoldable pub cursor_at : ℕ → ℕ → ℕ → Result Cursor
  unfolding align_sz get_len
  cursor_at pkt base ty = align_sz ty >>= λ unit.
      if not (base % unit == 0)
      then bad
      else if not (ty == branch_type)
      then val (record { pkt = pkt; base = base; ty = ty; len = 0 })
      else if ltb pkt (base + word_sz)
      then bad
      else get_len mem base >>= λ n.
          if ltb ((pkt - base - word_sz) / word_sz) n
          then bad
          else val (record { pkt = pkt; base = base; ty = ty; len = n })

  -- Where the first present child of `n` from the `j`th starts, or the branch's end.
  unfoldable pub next_from : Cursor → ℕ → ℕ → ℕ
  unfolding get_word
  next_from b zero j = u32 b.pkt
  next_from b (suc n) j =
      let off = (get_word mem (u32 (b.base + word_sz + j * word_sz))).0 in
      let rest = next_from b n (j + 1) in
      if not (off == 0) then u32 (min (b.base + off) b.pkt) else rest

  unfoldable pub end_of : Cursor → ℕ → ℕ
  unfolding next_from
  end_of b idx = next_from b (b.len - (idx + 1)) (idx + 1)

  -- A present child, at `off` from the branch's base.
  unfoldable pub present_child : Cursor → ℕ → Desc → Result Cursor
  unfolding cursor_at end_of
  present_child b idx d =
      let child = u32 (b.base + d.off) in
      let end = end_of b idx in
      if not (ltb d.off (b.pkt - b.base))
      then bad
      else if ltb child (u32 (b.base + word_sz + b.len * word_sz)) || not (ltb child end)
      then bad
      else cursor_at end child d.ty

  unfoldable pub child_at : Cursor → ℕ → Result Cursor
  unfolding present_child get_desc
  child_at b idx =
      if not (ltb idx b.len)
      then err (marshal_error Errno.efault)
      else get_desc mem (u32 (b.base + word_sz + idx * word_sz)) >>= λ d.
          if d.off == 0
          then val (record { pkt = b.pkt; base = 0; ty = d.ty; len = 0 })
          else present_child b idx d

  unfoldable pub branch_at : Cursor → ℕ → Result Cursor
  unfolding child_at as_branch
  branch_at b idx = child_at b idx >>= as_branch

  -- The root, which a packet of no payload has not.
  unfoldable pub root_at : ℕ → Desc → Result Cursor
  unfolding cursor_at
  root_at size d =
      if ltb (size - hdr_sz) d.off
      then bad
      else if d.off == 0
      then val (record { pkt = size; base = 0; ty = d.ty; len = 0 })
      else cursor_at (u32 (hdr_sz + d.off)) hdr_sz d.ty

  -- `TreeReader::make` of a packet of `size` bytes, and `read`.
  unfoldable pub read_tree : ℕ → Result Cursor
  unfolding root_at get_len get_desc
  read_tree size =
      if ltb size hdr_sz
      then bad
      else if not (magic_ok (get_len mem 0))
      then bad
      else get_desc mem word_sz >>= root_at size
