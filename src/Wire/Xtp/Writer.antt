-- ===== src/Wire/Xtp/Writer.antt =====
-- kit/wire/xtp/encode.hpp and encode.cpp: the writer of a packet into a buffer, which is the list of its bytes.
-- A call that takes a lambda takes a function, and `write_node` writes the tree that data says.
pub mod Tree
pub mod Lengths
pub mod Kept
pub mod Entry
pub mod Safe
pub mod Text
pub mod Nodes
pub mod Packet
mod Tests
use Prim.Native.Nat.{bit_or}
use xpute.Common.{
  ℕ, zero, suc, ◌+◌, ◌-◌, ◌*◌, ◌/◌, ◌%◌, ◌^◌, Bool, true, false, not, ◌&&◌, ◌||◌, Option, none,
  some, List, [], ◌∷◌, ◌++◌, length, take, drop, replicate, get_or, ltb, leb, ◌==◌, if◌then◌else◌,
  min, is_some, is_none,
}
use xpute.Status.{
  Errno, Error, Result, val, err, marshal_error, Run, done, bug, ensure, ◌>>=◌, ◌>>◌,
}
use xpute.Wire.Tlv.{le}
use xpute.Wire.Xtp.{
  ScalarType, SequenceType, SpecialType, special_type, scalar_type, sequence_type, word_sz,
  reserved, Desc, get_len, get_desc, align_sz, array_of,
}
use xpute.Wire.Xtp.Cursor.{u32, magic, hdr_sz, magic_ok}
use xpute.Wire.Xtp.Cursor.Read.{scalar_sz}

abbrev pub max_pkt_sz : ℕ
max_pkt_sz = 0x7fffffff

pub record Frame : Type 0 where
  pub base : ℕ
  pub cnt : ℕ
  pub written : ℕ
  pub root : Bool

pub record PacketWriter : Type 0 where
  pub buf : List ℕ
  pub frame : Frame
  pub root_type : ℕ
  pub lim : ℕ
  pub failure : Option Error

-- Bytes in place of those from `off` on.
unfoldable pub put : ℕ → List ℕ → List ℕ → List ℕ
put off bytes buf = take off buf ++ (bytes ++ drop (off + length bytes) buf)

-- `memset` to zero from one offset up to another.
unfoldable pub clear : ℕ → ℕ → List ℕ → List ℕ
unfolding put
clear from end buf = put from (replicate (end - from) 0) buf

unfoldable pub set_word : ℕ → ℕ → ℕ → List ℕ → List ℕ
unfolding put le
set_word off lo hi buf = put (off + 4) (le 4 hi) (put off (le 4 lo) buf)

-- A number up to the next multiple of a unit, which is a power of two.
abbrev pub round_up : ℕ → ℕ → ℕ
round_up n unit = (n + unit - 1) / unit * unit

abbrev pub word_up : ℕ → ℕ
word_up n = round_up n word_sz

abbrev pub root_frame : Frame
root_frame = record { base = 0; cnt = 1; written = 0; root = true }

unfoldable pub packet_writer : List ℕ → PacketWriter
unfolding clear
packet_writer bytes =
    let buf = take (min (length bytes) max_pkt_sz) bytes in
    let short = ltb (length buf) hdr_sz in
    record {
      buf = if short then buf else clear 0 hdr_sz buf;
      frame = root_frame;
      root_type = special_type SpecialType.nil;
      lim = hdr_sz;
      failure = if short then some (marshal_error Errno.einval) else none;
    }

-- An offset or none, and the writer after.
abbrev pub Placed : Type 0
Placed = Option ℕ × PacketWriter

unfoldable pub spoil : Errno → PacketWriter → Placed
spoil e w = (none, if is_some w.failure then w else record w { failure = some (marshal_error e) })

unfoldable pub reserve : ℕ → ℕ → PacketWriter → Placed
unfolding spoil clear
reserve unit bytes w =
    let base = round_up w.lim unit in
    let end = base + bytes in
    if is_some w.failure
    then (none, w)
    else if ltb (length w.buf) end
    then spoil Errno.eoverflow w
    else (some (u32 base), record w { buf = clear w.lim end w.buf; lim = u32 end })

abbrev pub place_of : ℕ → Option ℕ → ℕ
place_of base none = 0
place_of base (some at_) = u32 (at_ + 2 ^ 32 - base)

unfoldable pub entry : ℕ → Placed → Run PacketWriter
unfolding set_word
entry ty (at_, w) =
    let f = w.frame in
    let next = record f { written = f.written + 1 } in
    ensure (ltb f.written f.cnt) Errno.enospc
    >> done (
        if f.root
        then record w { root_type = ty; frame = next }
        else if is_some w.failure
        then record w { frame = next }
        else record w {
          buf =
              set_word (u32 (f.base + word_sz + f.written * word_sz)) (place_of f.base at_) ty
                w.buf;
          frame = next;
        })

-- What is done at a place, where there is one.
unfoldable pub at_place : (ℕ → List ℕ → List ℕ) → Placed → Placed
at_place change (none, w) = (none, w)
at_place change (some at_, w) = (some at_, record w { buf = change at_ w.buf })

unfoldable pub scalar : ScalarType → Option ℕ → PacketWriter → Run PacketWriter
unfolding entry at_place reserve put le scalar_sz scalar_type
scalar s none w = entry (scalar_type s) (none, w)
scalar s (some x) w =
    entry (scalar_type s)
      (at_place (λ at_. put at_ (le (scalar_sz s) x)) (reserve (scalar_sz s) (scalar_sz s) w))

unfoldable pub seq : ℕ → ℕ → PacketWriter → Placed
unfolding at_place reserve set_word
seq len bytes w =
    at_place (λ at_. set_word at_ len reserved) (reserve word_sz (word_sz + word_up bytes) w)

-- The elements, each stored after the one before.
unfoldable pub store_all : ℕ → ℕ → List ℕ → List ℕ → List ℕ
unfolding put le
store_all sz off [] buf = buf
store_all sz off (x ∷ xs) buf = store_all sz (off + sz) xs (put off (le sz x) buf)

unfoldable pub array : ScalarType → SequenceType → Option (List ℕ) → PacketWriter → Run PacketWriter
unfolding entry at_place seq store_all scalar_sz sequence_type
array s q none w = entry (sequence_type q) (none, w)
array s q (some xs) w =
    let len = u32 (length xs) in
    entry (sequence_type q) (
      at_place (λ at_. store_all (scalar_sz s) (at_ + word_sz) (take len xs))
        (seq len (len * scalar_sz s) w))

-- The bits that are set, each put into its byte from the `i`th on.
unfoldable pub set_bits : ℕ → ℕ → List ℕ → List ℕ → List ℕ
unfolding put
set_bits payload i [] buf = buf
set_bits payload i (b ∷ bs) buf =
    let k = payload + i / 2 ^ 3 in
    set_bits payload (i + 1) bs
      (if b == 0 then buf else put k (bit_or (get_or buf k 0) (2 ^ (i % 2 ^ 3)) ∷ []) buf)

unfoldable pub bitset : Option (List ℕ) → PacketWriter → Run PacketWriter
unfolding entry at_place seq set_bits sequence_type
bitset none w = entry (sequence_type SequenceType.bitset) (none, w)
bitset (some bits) w =
    let len = u32 (length bits) in
    entry (sequence_type SequenceType.bitset)
      (at_place (λ at_. set_bits (at_ + word_sz) 0 (take len bits)) (seq len ((len + 7) / 2 ^ 3) w))

unfoldable pub str_payload : PacketWriter → ℕ
str_payload w = u32 (word_up w.lim + word_sz)

unfoldable pub str_room : PacketWriter → Placed
unfolding spoil
str_room w =
    let payload = word_up w.lim + word_sz in
    if is_some w.failure
    then (none, w)
    else if ltb (length w.buf) payload
    then spoil Errno.eoverflow w
    else (some (u32 (length w.buf - payload)), w)

unfoldable pub str_commit : ℕ → PacketWriter → Placed
unfolding str_payload spoil clear set_word
str_commit len w =
    let payload = str_payload w in
    let end = word_up (payload + len + 1) in
    let base = payload - word_sz in
    if ltb (length w.buf) end then spoil Errno.eoverflow w else (
      some base,
      record w {
        buf = set_word base len reserved (clear (payload + len) end (clear w.lim base w.buf));
        lim = u32 end;
      },
    )

-- What a writer of text answered: how long it is, or that it did not fit.
unfoldable pub str_answer : Option ℕ → ℕ → PacketWriter → Placed
unfolding str_commit spoil
str_answer none room w = spoil Errno.eoverflow w
str_answer (some n) room w = if leb n room then str_commit (u32 n) w else spoil Errno.eoverflow w

-- `write` is given the room: the bytes that it puts at its start, and the length it answers.
unfoldable pub str_put : (ℕ → List ℕ × Option ℕ) → Placed → Placed
unfolding str_payload str_answer put
str_put write (none, w) = (none, w)
str_put write (some room, w) =
    str_answer (write room).1 room (record w { buf = put (str_payload w) (write room).0 w.buf })

unfoldable pub str_with : (ℕ → List ℕ × Option ℕ) → PacketWriter → Run PacketWriter
unfolding str_put str_room entry sequence_type
str_with write w = entry (sequence_type SequenceType.str) (str_put write (str_room w))

unfoldable pub str : Option (List ℕ) → PacketWriter → Run PacketWriter
unfolding str_with entry sequence_type
str none w = entry (sequence_type SequenceType.str) (none, w)
str (some s) w =
    str_with (λ room. if ltb room (length s) then ([], none) else (s, some (length s))) w
