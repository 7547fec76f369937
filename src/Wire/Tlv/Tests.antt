-- ===== src/Wire/Tlv/Tests.antt =====
-- Runs on a few bytes, and the witnesses.
use xpute.Common.{◌≡◌, refl, arith, true, none, some, List, [], ◌∷◌}
use xpute.Status.{Errno, val, err, marshal_error}
use xpute.Wire.Tlv.{
  Value, End, reader, write_all, write, put, le, from_le, finish, read_all, read_from, next,
  payload, tag_of, scalar, run,
}
use xpute.Wire.Tlv.RoundTrip.{ReadsAll, empty_writer, read_all-write_all}
use xpute.Wire.Tlv.Ends.{Finishes, read_all_ends}

abbrev three : List Value
three = Value.boolean true ∷ Value.u16 770 ∷ Value.str (104 ∷ 105 ∷ []) ∷ []

three_bytes :
    (finish (write_all three empty_writer).1).buf
    ≡ 1 ∷ 1 ∷ 4 ∷ 2 ∷ 3 ∷ 16 ∷ 2 ∷ 0 ∷ 0 ∷ 0 ∷ 104 ∷ 105 ∷ 0 ∷ []
unfolding write_all write put le
three_bytes = refl

-- A length that runs past the end.
cut_off :
    read_all (reader (2 ∷ 7 ∷ 32 ∷ 9 ∷ 0 ∷ 0 ∷ 0 ∷ 1 ∷ []))
    ≡ some (
      err (marshal_error Errno.ebadmsg),
      Value.u8 7 ∷ [],
      record { buf = 2 ∷ 7 ∷ 32 ∷ 9 ∷ 0 ∷ 0 ∷ 0 ∷ 1 ∷ []; off = 7; end = none },
    )
unfolding read_from next payload tag_of scalar run from_le
cut_off = refl

read_all-write_all_example :
    let w = write_all three empty_writer in
    (w.0 ≡ val tt)
    × ReadsAll (finish w.1).buf three End.closed
    × ReadsAll w.1.buf three End.unclosed
read_all-write_all_example = read_all-write_all three (tt, (omega arith, (omega arith, tt)))

read_all_ends_example :
    Finishes (32 ∷ 255 ∷ 255 ∷ 255 ∷ 255 ∷ []) (read_all (reader (32 ∷ 255 ∷ 255 ∷ 255 ∷ 255 ∷ [])))
read_all_ends_example = read_all_ends (32 ∷ 255 ∷ 255 ∷ 255 ∷ 255 ∷ [])
