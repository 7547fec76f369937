-- ===== src/Wire/Xtp/Tests.antt =====
-- Runs on a few types and words, and the witness.
use xpute.Common.{◌≡◌, ◌↔◌, refl, arith, true, [], ◌∷◌}
use xpute.Status.{Errno, val, err, marshal_error}
use xpute.Wire.Tlv.{from_le}
use xpute.Wire.Xtp.{
  SequenceType, ScalarType, type_is_known, type_is_leaf, type_is_seq, type_arg_of, type_is_nonnum,
  sequence_type, int_type, float_type, nonnum_type, scalar_type, get_word, get_desc, align_sz,
  elem_sz, one_of,
}
use xpute.Wire.Xtp.Known.{Kind, kind_type, type_is_known-Kind}

-- The root word of eight bytes of text.
text_root :
    get_desc (8 ∷ 0 ∷ 0 ∷ 0 ∷ 185 ∷ 0 ∷ 0 ∷ 0 ∷ []) 0
    ≡ val (record { off = 8; ty = sequence_type SequenceType.str })
unfolding get_desc get_word from_le type_is_known type_is_leaf type_is_seq type_arg_of sequence_type
    nonnum_type
text_root = refl

reserved_set : get_desc (8 ∷ 0 ∷ 0 ∷ 0 ∷ 185 ∷ 1 ∷ 0 ∷ 0 ∷ []) 0 ≡ err (marshal_error Errno.ebadmsg)
unfolding get_desc get_word from_le
reserved_set = refl

aligned : align_sz (scalar_type ScalarType.f32) ≡ val 4
unfolding align_sz scalar_type float_type int_type nonnum_type type_is_seq type_is_leaf one_of
aligned = refl

element : elem_sz SequenceType.u16_array ≡ 2
unfolding elem_sz sequence_type int_type type_is_nonnum type_is_leaf type_arg_of
element = refl

type_is_known-Kind_example :
    ((type_is_known 185 ≡ true) ↔ ((k : Kind) × (kind_type k ≡ 185)))
    × ((j k : Kind) → kind_type j ≡ kind_type k → j ≡ k)
type_is_known-Kind_example = type_is_known-Kind 185 (omega arith)
