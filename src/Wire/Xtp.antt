-- ===== src/Wire/Xtp.antt =====
-- kit/wire/xtp: packets of one tree. So far the types of its nodes and the words they are read from.
pub mod Known
pub mod Cursor
pub mod Alone
pub mod Writer
mod Tests
use Prim.Native.Nat.{bit_and, bit_or}
use xpute.Common.{
  ℕ, zero, suc, ◌+◌, ◌-◌, ◌*◌, ◌%◌, ◌^◌, Bool, true, false, not, ◌&&◌, ◌||◌, Option, none, some,
  List, [], ◌∷◌, take, drop, ltb, leb, ◌==◌, if◌then◌else◌,
}
use xpute.Status.{Errno, Result, val, err, marshal_error}
use xpute.Wire.Tlv.{from_le}

abbrev pub bit_leaf : ℕ
bit_leaf = 128

abbrev pub bit_seq : ℕ
bit_seq = 32

abbrev pub class_mask : ℕ
class_mask = 24

abbrev pub class_u : ℕ
class_u = 0

abbrev pub class_i : ℕ
class_i = 8

abbrev pub class_f : ℕ
class_f = 16

abbrev pub class_r : ℕ
class_r = 24

abbrev pub arg_mask : ℕ
arg_mask = 7

unfoldable pub int_type : ℕ → Bool → ℕ
int_type log2_width sign =
    bit_or (bit_or bit_leaf (if sign then class_i else class_u)) (bit_and log2_width arg_mask)

unfoldable pub float_type : ℕ → ℕ
float_type log2_width = bit_or (bit_or bit_leaf class_f) (bit_and log2_width arg_mask)

unfoldable pub nonnum_type : ℕ → ℕ
nonnum_type x = bit_or (bit_or bit_leaf class_r) (bit_and x arg_mask)

pub data ScalarType : Type 0 where
  u8 i8 u16 i16 u32 i32 u64 i64 f32 f64 boolean : ScalarType

unfoldable pub scalar_type : ScalarType → ℕ
unfolding int_type float_type nonnum_type
scalar_type ScalarType.u8 = int_type 0 false
scalar_type ScalarType.i8 = int_type 0 true
scalar_type ScalarType.u16 = int_type 1 false
scalar_type ScalarType.i16 = int_type 1 true
scalar_type ScalarType.u32 = int_type 2 false
scalar_type ScalarType.i32 = int_type 2 true
scalar_type ScalarType.u64 = int_type 3 false
scalar_type ScalarType.i64 = int_type 3 true
scalar_type ScalarType.f32 = float_type 2
scalar_type ScalarType.f64 = float_type 3
scalar_type ScalarType.boolean = nonnum_type 0

pub data SequenceType : Type 0 where
  u8_array i8_array u16_array i16_array u32_array i32_array u64_array i64_array : SequenceType
  f32_array f64_array bitset str strs : SequenceType

unfoldable pub sequence_type : SequenceType → ℕ
unfolding int_type float_type nonnum_type
sequence_type SequenceType.u8_array = bit_or bit_seq (int_type 0 false)
sequence_type SequenceType.i8_array = bit_or bit_seq (int_type 0 true)
sequence_type SequenceType.u16_array = bit_or bit_seq (int_type 1 false)
sequence_type SequenceType.i16_array = bit_or bit_seq (int_type 1 true)
sequence_type SequenceType.u32_array = bit_or bit_seq (int_type 2 false)
sequence_type SequenceType.i32_array = bit_or bit_seq (int_type 2 true)
sequence_type SequenceType.u64_array = bit_or bit_seq (int_type 3 false)
sequence_type SequenceType.i64_array = bit_or bit_seq (int_type 3 true)
sequence_type SequenceType.f32_array = bit_or bit_seq (float_type 2)
sequence_type SequenceType.f64_array = bit_or bit_seq (float_type 3)
sequence_type SequenceType.bitset = bit_or bit_seq (nonnum_type 0)
sequence_type SequenceType.str = bit_or bit_seq (nonnum_type 1)
sequence_type SequenceType.strs = bit_or bit_seq (nonnum_type 2)

pub data SpecialType : Type 0 where
  nil branch graft : SpecialType

abbrev pub special_type : SpecialType → ℕ
special_type SpecialType.nil = 0
special_type SpecialType.branch = 32
special_type SpecialType.graft = 64

unfoldable pub type_is_leaf : ℕ → Bool
type_is_leaf t = not (bit_and t bit_leaf == 0)

unfoldable pub type_is_special : ℕ → Bool
unfolding type_is_leaf
type_is_special t = not (type_is_leaf t)

unfoldable pub type_is_scalar : ℕ → Bool
unfolding type_is_leaf
type_is_scalar t = type_is_leaf t && (bit_and t bit_seq == 0)

unfoldable pub type_is_seq : ℕ → Bool
unfolding type_is_leaf
type_is_seq t = type_is_leaf t && not (bit_and t bit_seq == 0)

unfoldable pub type_is_nonnum : ℕ → Bool
unfolding type_is_leaf
type_is_nonnum t = type_is_leaf t && (bit_and t class_mask == class_r)

unfoldable pub type_is_float : ℕ → Bool
unfolding type_is_leaf
type_is_float t = type_is_leaf t && (bit_and t class_mask == class_f)

unfoldable pub type_is_signed : ℕ → Bool
unfolding type_is_leaf
type_is_signed t = type_is_leaf t && (bit_and t class_mask == class_i)

unfoldable pub type_arg_of : ℕ → ℕ
type_arg_of t = bit_and t arg_mask

-- The array of an element, none for what the wire has no array of.
abbrev pub array_of : ScalarType → Option SequenceType
array_of ScalarType.u8 = some SequenceType.u8_array
array_of ScalarType.i8 = some SequenceType.i8_array
array_of ScalarType.u16 = some SequenceType.u16_array
array_of ScalarType.i16 = some SequenceType.i16_array
array_of ScalarType.u32 = some SequenceType.u32_array
array_of ScalarType.i32 = some SequenceType.i32_array
array_of ScalarType.u64 = some SequenceType.u64_array
array_of ScalarType.i64 = some SequenceType.i64_array
array_of ScalarType.f32 = some SequenceType.f32_array
array_of ScalarType.f64 = some SequenceType.f64_array
array_of ScalarType.boolean = none

abbrev pub word_sz : ℕ
word_sz = 8

abbrev pub reserved : ℕ
reserved = 0

abbrev pub desc_type_mask : ℕ
desc_type_mask = 255

-- The bits that no type has, of a byte.
abbrev pub unused_bits : ℕ
unused_bits = 2 ^ 8 - 1 - (128 + 32 + 24 + 7)

-- Whether a leaf's argument is one that its class has.
abbrev pub arg_is_known : ℕ → Bool
arg_is_known t =
    let arg = type_arg_of t in
    let class = bit_and t class_mask in
    if class == class_f
    then arg == 2 || arg == 3
    else if class == class_r
    then leb arg (if type_is_seq t then 2 else 0)
    else leb arg 3

unfoldable pub type_is_known : ℕ → Bool
unfolding type_is_leaf type_is_seq type_arg_of
type_is_known t =
    if t == special_type SpecialType.nil || t == special_type SpecialType.branch
    then true
    else if not (type_is_leaf t) || not (bit_and t unused_bits == 0)
    then false
    else arg_is_known t

-- A word's low half and its high half. A packet is at least as long as what is read of it.
unfoldable pub get_word : List ℕ → ℕ → ℕ × ℕ
unfolding from_le
get_word buf off = (from_le (take 4 (drop off buf)), from_le (take 4 (drop (off + 4) buf)))

unfoldable pub get_len : List ℕ → ℕ → Result ℕ
unfolding get_word
get_len buf off =
    let w = get_word buf off in
    if w.1 == reserved then val w.0 else err (marshal_error Errno.ebadmsg)

pub record Desc : Type 0 where
  pub off : ℕ
  pub ty : ℕ

unfoldable pub get_desc : List ℕ → ℕ → Result Desc
unfolding get_word type_is_known
get_desc buf off =
    let w = get_word buf off in
    let t = bit_and w.1 desc_type_mask in
    if not (w.1 == t) || not (type_is_known t)
    then err (marshal_error Errno.ebadmsg)
    else val (record { off = w.0; ty = t })

unfoldable pub one_of : ℕ → List ScalarType → Bool
unfolding scalar_type
one_of t [] = false
one_of t (s ∷ ss) = t == scalar_type s || one_of t ss

unfoldable pub align_sz : ℕ → Result ℕ
unfolding type_is_seq one_of
align_sz t =
    if t == special_type SpecialType.branch || type_is_seq t
    then val word_sz
    else if one_of t (ScalarType.u8 ∷ ScalarType.i8 ∷ ScalarType.boolean ∷ [])
    then val 1
    else if one_of t (ScalarType.u16 ∷ ScalarType.i16 ∷ [])
    then val 2
    else if one_of t (ScalarType.u32 ∷ ScalarType.i32 ∷ ScalarType.f32 ∷ [])
    then val 4
    else if one_of t (ScalarType.u64 ∷ ScalarType.i64 ∷ ScalarType.f64 ∷ [])
    then val 8
    else err (marshal_error Errno.ebadmsg)

unfoldable pub elem_sz : SequenceType → ℕ
unfolding sequence_type type_is_nonnum type_arg_of
elem_sz SequenceType.strs = 4
elem_sz t = if type_is_nonnum (sequence_type t) then 1 else 2 ^ type_arg_of (sequence_type t)
