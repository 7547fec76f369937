-- ===== src/Wire/Xtp/Cursor/Read.antt =====
-- kit/wire/xtp/cursor.cpp: what a cursor reads of its node.
use xpute.Common.{
  ℕ, zero, suc, ◌+◌, ◌-◌, ◌*◌, ◌/◌, ◌%◌, ◌^◌, Bool, true, false, not, ◌||◌, Option, none, some,
  List, [], ◌∷◌, take, drop, ltb, ◌==◌, if◌then◌else◌,
}
use xpute.Status.{Result, val}
use xpute.Codec.Utf8.{is_utf8}
use xpute.Wire.Xtp.{
  ScalarType, SequenceType, scalar_type, sequence_type, word_sz, get_len, elem_sz, array_of,
}
use xpute.Wire.Xtp.Cursor.{Span, Cursor, Value, is_null, is_branch, load, child_at, bad, ◌>>=◌, u32}

abbrev pub scalar_types : List ScalarType
scalar_types =
    ScalarType.u8 ∷ ScalarType.i8 ∷ ScalarType.u16 ∷ ScalarType.i16 ∷ ScalarType.u32
    ∷ ScalarType.i32 ∷ ScalarType.u64 ∷ ScalarType.i64 ∷ ScalarType.f32 ∷ ScalarType.f64
    ∷ ScalarType.boolean ∷ []

abbrev pub sequence_types : List SequenceType
sequence_types =
    SequenceType.u8_array ∷ SequenceType.i8_array ∷ SequenceType.u16_array ∷ SequenceType.i16_array
    ∷ SequenceType.u32_array ∷ SequenceType.i32_array ∷ SequenceType.u64_array
    ∷ SequenceType.i64_array ∷ SequenceType.f32_array ∷ SequenceType.f64_array ∷ SequenceType.bitset
    ∷ SequenceType.str ∷ SequenceType.strs ∷ []

-- The case of a switch whose label is the type.
unfoldable pub labelled : {A : Type 0} → (A → ℕ) → ℕ → List A → Option A
labelled f t [] = none
labelled f t (a ∷ more) = if f a == t then some a else labelled f t more

unfoldable pub scalar_sz : ScalarType → ℕ
scalar_sz ScalarType.u8 = 1
scalar_sz ScalarType.i8 = 1
scalar_sz ScalarType.u16 = 2
scalar_sz ScalarType.i16 = 2
scalar_sz ScalarType.u32 = 4
scalar_sz ScalarType.i32 = 4
scalar_sz ScalarType.u64 = 8
scalar_sz ScalarType.i64 = 8
scalar_sz ScalarType.f32 = 4
scalar_sz ScalarType.f64 = 8
scalar_sz ScalarType.boolean = 1

abbrev pub scalar_value : ScalarType → ℕ → Value
scalar_value ScalarType.boolean x = Value.boolean (not (x == 0))
scalar_value s x = Value.number s x

module _ (mem : List ℕ) where
  unfoldable pub scalar : ScalarType → Cursor → Result ℕ
  unfolding scalar_sz load
  scalar s c = if ltb c.pkt (c.base + scalar_sz s) then bad else val (load mem (scalar_sz s) c.base)

  -- The length before a payload, which must be in the packet.
  unfoldable pub payload_len : Cursor → Result ℕ
  unfolding get_len
  payload_len c = if ltb c.pkt (c.base + word_sz) then bad else get_len mem c.base

  unfoldable pub array : ℕ → Cursor → Result Span
  unfolding payload_len
  array elem c = payload_len c >>= λ len.
      if ltb (c.pkt - (c.base + word_sz)) (len * elem)
      then bad
      else val (record { from = c.base + word_sz; size = len * elem })

  unfoldable pub bitset : Cursor → Result (Span × ℕ)
  unfolding payload_len
  bitset c = payload_len c >>= λ len.
      if ltb (c.pkt - (c.base + word_sz)) ((len + 7) / 2 ^ 3)
      then bad
      else val (record { from = c.base + word_sz; size = (len + 7) / 2 ^ 3 }, len)

  abbrev pub bytes_of : Span → List ℕ
  bytes_of s = take s.size (drop s.from mem)

  unfoldable pub utf8_at : Span → Bool
  utf8_at s = elim (is_utf8 (bytes_of s)) [ none ↦ false | some b ↦ b ]

  unfoldable pub str : Cursor → Result Span
  unfolding payload_len utf8_at load
  str c = payload_len c >>= λ nbyte.
      let s : Span = record { from = c.base + word_sz; size = nbyte } in
      if ltb (c.pkt - (c.base + word_sz)) (nbyte + 1)
      then bad
      else if not (load mem 1 (c.base + word_sz + nbyte) == 0)
      then bad
      else if not (utf8_at s)
      then bad
      else val s

  -- `off(i)`, of the offsets at `payload`.
  abbrev pub str_off : ℕ → ℕ → ℕ
  str_off payload i = load mem 4 (payload + u32 (4 * i))

  -- The loop over the `n` strings from the `i`th, each checked against the blob's length.
  unfoldable pub strs_ok : ℕ → ℕ → ℕ → ℕ → ℕ → Bool
  unfolding load utf8_at
  strs_ok payload blob total zero i = true
  strs_ok payload blob total (suc n) i =
      let a = str_off payload i in
      let b = str_off payload (i + 1) in
      let rest = strs_ok payload blob total n (i + 1) in
      if ltb b a || ltb total b
      then false
      else if not (utf8_at (record { from = blob + a; size = b - a }))
      then false
      else rest

  unfoldable pub strs : Cursor → Result (Span × Span × ℕ)
  unfolding payload_len strs_ok load
  strs c = payload_len c >>= λ n.
      let payload = c.base + word_sz in
      let blob = payload + 4 * (n + 1) in
      let total = str_off payload n in
      if ltb c.pkt blob
      then bad
      else if ltb (c.pkt - blob) total
      then bad
      else if not (strs_ok payload blob total n 0)
      then bad
      else val
          (record { from = payload; size = 4 * (n + 1) }, record { from = blob; size = total }, n)

  unfoldable pub get_sequence : Cursor → SequenceType → Result Value
  unfolding array bitset str strs elem_sz
  get_sequence c SequenceType.bitset = bitset c >>= λ p. val (Value.bitset p.0 p.1)
  get_sequence c SequenceType.str = str c >>= λ s. val (Value.str s)
  get_sequence c SequenceType.strs = strs c >>= λ p. val (Value.strs p.0 p.1 p.2)
  get_sequence c q = array (elem_sz q) c >>= λ s. val (Value.array q s)

  -- A leaf, by the labels of the two switches that its type has.
  unfoldable pub get_leaf_as : Cursor → Option ScalarType → Option SequenceType → Result Value
  unfolding scalar get_sequence
  get_leaf_as c (some s) q = scalar s c >>= λ x. val (scalar_value s x)
  get_leaf_as c none (some q) = get_sequence c q
  get_leaf_as c none none = bad

  unfoldable pub get_leaf : Cursor → Result Value
  unfolding get_leaf_as labelled scalar_type sequence_type
  get_leaf c =
      get_leaf_as c (labelled scalar_type c.ty scalar_types)
        (labelled sequence_type c.ty sequence_types)

  unfoldable pub get : Cursor → Result Value
  unfolding get_leaf is_null is_branch
  get c =
      if is_null c then val Value.null else if is_branch c then val (Value.branch c) else get_leaf c

  -- `get_as`, by what the variant holds.
  unfoldable pub get_as {ℓ} : {A : Type ℓ} → (Value → Option A) → Cursor → Result A
  unfolding get
  get_as held c = get c >>= λ v. elim (held v) [ some x ↦ val x | none ↦ bad ]

  unfoldable pub get_at : Cursor → ℕ → Result Value
  unfolding child_at get
  get_at b idx = child_at mem b idx >>= get

  unfoldable pub get_array : ScalarType → Cursor → Result Span
  unfolding array is_null sequence_type scalar_sz
  get_array s c = elim (array_of s) [
    | none ↦ bad
    | some q ↦ if is_null c || not (c.ty == sequence_type q) then bad else array (scalar_sz s) c
  ]

  unfoldable pub get_str_ref : Cursor → Result Span
  unfolding str is_null sequence_type
  get_str_ref c = if is_null c || not (c.ty == sequence_type SequenceType.str) then bad else str c

  unfoldable pub get_strs : Cursor → Result (Span × Span × ℕ)
  unfolding strs is_null sequence_type
  get_strs c = if is_null c || not (c.ty == sequence_type SequenceType.strs) then bad else strs c

  -- `Strs::get`, of its offsets, its text and its count. The size is a number of 32 bits: it wraps where the offsets
  -- are out of order.
  unfoldable pub strs_get : Span → Span → ℕ → ℕ → Option Span
  unfolding load
  strs_get offs blob len i =
      let a = str_off offs.from i in
      let b = str_off offs.from (i + 1) in
      let size = if ltb b a then b + 2 ^ 32 - a else b - a in
      if not (ltb i len) then none else some (record { from = blob.from + a; size = size })

  -- `Bitset::operator[]`.
  unfoldable pub bitset_at : Span → ℕ → Bool
  unfolding load
  bitset_at packed i = load mem 1 (packed.from + i / 2 ^ 3) / 2 ^ (i % 2 ^ 3) % 2 == 1
