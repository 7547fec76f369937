-- ===== src/Wire/Xtp/Writer/Tree.antt =====
-- kit/wire/xtp/encode.hpp and encode.cpp: strings, branches, grafts, and the end of a packet. The calls that
-- write a tree are data.
use xpute.Common.{
  ℕ, ◌+◌, ◌-◌, ◌*◌, ◌%◌, false, not, ◌&&◌, ◌||◌, Option, none, some, List, [], ◌∷◌, length, take,
  drop, ltb, ◌==◌, if◌then◌else◌, is_some,
}
use xpute.Status.{Errno, Error, Result, val, err, marshal_error, Run, done, ensure, ◌>>=◌, ◌>>◌}
use xpute.Wire.Tlv.{le}
use xpute.Wire.Xtp.{
  ScalarType, SequenceType, SpecialType, special_type, sequence_type, word_sz, reserved, Desc,
  get_len, get_desc, align_sz,
}
use xpute.Wire.Xtp.Cursor.{u32, magic, hdr_sz, magic_ok}
use xpute.Wire.Xtp.Writer.{
  Frame, PacketWriter, Placed, packet_writer, put, clear, set_word, word_up, spoil, reserve, entry,
  at_place, scalar, seq, array, bitset, str,
}

abbrev pub lane_of : ℕ → ℕ
lane_of n = 4 * (n + 1)

abbrev pub blob_len : List (List ℕ) → ℕ
blob_len [] = 0
blob_len (s ∷ ss) = length s + blob_len ss

-- The strings' bytes from `off` of the text on, and the offset after each.
unfoldable pub store_strs : ℕ → ℕ → ℕ → ℕ → List (List ℕ) → List ℕ → List ℕ
unfolding put le
store_strs payload lane i off [] buf = buf
store_strs payload lane i off (s ∷ ss) buf =
    let next = u32 (off + length s) in
    store_strs payload lane (i + 1) next ss
      (put (payload + 4 * (i + 1)) (le 4 next) (put (payload + lane + off) s buf))

unfoldable pub strs : Option (List (List ℕ)) → PacketWriter → Run PacketWriter
unfolding entry at_place seq store_strs put le sequence_type
strs none w = entry (sequence_type SequenceType.strs) (none, w)
strs (some items) w =
    let n = u32 (length items) in
    let lane = lane_of n in
    entry (sequence_type SequenceType.strs) (
      at_place
        (λ at_ buf.
          store_strs (at_ + word_sz) lane 0 0 (take n items) (put (at_ + word_sz) (le 4 0) buf))
        (seq n (lane + blob_len items) w))

unfoldable pub branch_open : ℕ → PacketWriter → Placed
unfolding at_place reserve set_word
branch_open cnt w =
    at_place (λ at_. set_word at_ cnt reserved) (reserve word_sz (word_sz + cnt * word_sz) w)

unfoldable pub branch_close : Placed → Placed
unfolding spoil clear
branch_close (at_, w) =
    let end = word_up w.lim in
    if not (is_some at_) || is_some w.failure
    then (at_, w)
    else if ltb (length w.buf) end
    then spoil Errno.eoverflow w
    else (at_, record w { buf = clear w.lim end w.buf; lim = u32 end })

abbrev pub value_or {ℓ} : {A : Type ℓ} → A → Option A → A
value_or a none = a
value_or a (some b) = b

unfoldable pub branch : ℕ → (PacketWriter → Run PacketWriter) → PacketWriter → Run PacketWriter
unfolding branch_open branch_close entry
branch cnt fill w = do
  let (at_, w1) = branch_open cnt w
  let inner : Frame = record { base = value_or 0 at_; cnt = cnt; written = 0; root = false }
  w2 ← fill (record w1 { frame = inner })
  ensure (w2.frame.written == w2.frame.cnt) Errno.enotrecoverable
  entry (special_type SpecialType.branch) (branch_close (at_, record w2 { frame = w.frame }))

-- The header of a packet that may be grafted.
unfoldable pub graft_desc : List ℕ → Result Desc
unfolding get_len get_desc
graft_desc pkt =
    if ltb (length pkt) hdr_sz
    then err (marshal_error Errno.ebadmsg)
    else if magic_ok (get_len pkt 0)
    then get_desc pkt word_sz
    else err (marshal_error Errno.ebadmsg)

abbrev pub unit_or_none : Result ℕ → Option ℕ
unit_or_none (val u) = some u
unit_or_none (err e) = none

-- The payload copied, where its unit is known and divides it.
unfoldable pub graft_payload : List ℕ → ℕ → Option ℕ → PacketWriter → Placed
unfolding spoil at_place reserve put
graft_payload pkt size none w = spoil Errno.ebadmsg w
graft_payload pkt size (some unit) w =
    if not (size % unit == 0)
    then spoil Errno.ebadmsg w
    else at_place (λ at_. put at_ (take size (drop hdr_sz pkt))) (reserve unit size w)

unfoldable pub graft_at : List ℕ → Desc → PacketWriter → Placed
unfolding spoil graft_payload align_sz
graft_at pkt d w =
    if ltb (length pkt - hdr_sz) d.off
    then spoil Errno.ebadmsg w
    else if d.off == 0
    then (none, w)
    else graft_payload pkt d.off (unit_or_none (align_sz d.ty)) w

unfoldable pub graft : List ℕ → PacketWriter → Run PacketWriter
unfolding graft_desc graft_at spoil entry
graft pkt w = elim (graft_desc pkt) [
  | err e ↦ entry (special_type SpecialType.nil) (spoil Errno.ebadmsg w)
  | val d ↦ entry d.ty (graft_at pkt d w)
]

unfoldable pub finish_as : Option Error → PacketWriter → Result ℕ × PacketWriter
unfolding clear set_word
finish_as (some e) w = (err e, w)
finish_as none w =
    let end = word_up w.lim in
    if ltb (length w.buf) end then (err (marshal_error Errno.eoverflow), w) else (
      val (u32 end),
      record w {
        buf =
            set_word word_sz (w.lim - hdr_sz) w.root_type
              (set_word 0 magic reserved (clear w.lim end w.buf));
      },
    )

unfoldable pub finish : PacketWriter → Run (Result ℕ × PacketWriter)
unfolding finish_as
finish w =
    ensure (w.frame.root && w.frame.written == w.frame.cnt) Errno.enotrecoverable
    >> done (finish_as w.failure w)

-- A node as a caller writes it.
mutual
  pub data Node : Type 0 where
    nil no_branch : Node
    number : ScalarType → Option ℕ → Node
    numbers : ScalarType → SequenceType → Option (List ℕ) → Node
    bits : Option (List ℕ) → Node
    text : Option (List ℕ) → Node
    texts : Option (List (List ℕ)) → Node
    graft_of : List ℕ → Node
    branch_of : ℕ → Nodes → Node

  pub data Nodes : Type 0 where
    end : Nodes
    and : Node → Nodes → Nodes

unfoldable mutual
  unfolding entry scalar array bitset str strs graft branch

  pub write_node : Node → PacketWriter → Run PacketWriter
  write_node nil w = entry (special_type SpecialType.nil) (none, w)
  write_node no_branch w = entry (special_type SpecialType.branch) (none, w)
  write_node (number s x) w = scalar s x w
  write_node (numbers s q xs) w = array s q xs w
  write_node (bits b) w = bitset b w
  write_node (text t) w = str t w
  write_node (texts ts) w = strs ts w
  write_node (graft_of pkt) w = graft pkt w
  write_node (branch_of cnt ns) w = branch cnt (write_nodes ns) w

  pub write_nodes : Nodes → PacketWriter → Run PacketWriter
  write_nodes end w = done w
  write_nodes (and n ns) w = write_node n w >>= write_nodes ns

-- A packet of one tree, from the buffer to its length or why it was refused.
unfoldable pub write_packet : List ℕ → Node → Run (Result ℕ × PacketWriter)
unfolding packet_writer write_node finish
write_packet bytes n = write_node n (packet_writer bytes) >>= finish
