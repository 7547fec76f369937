-- ===== src/Wire/Xtp/Writer/Tests.antt =====
-- A packet of a byte and a text, written over a used buffer, and the theorems at it.
use xpute.Common.{
  ℕ, ◌≤◌, ◌<◌, ◌≡◌, ◌%◌, refl, Option, none, some, List, [], ◌∷◌, length, replicate, min, arith,
}
use xpute.Status.{Errno, Result, val, err, marshal_error, Run, done, bug}
use xpute.Wire.Xtp.{ScalarType}
use xpute.Wire.Xtp.Writer.{PacketWriter, packet_writer, max_pkt_sz}
use xpute.Wire.Xtp.Writer.Tree.{Node, number, text, branch_of, end, and, write_node, write_packet}
use xpute.Wire.Xtp.Writer.Entry.{Adds}
use xpute.Wire.Xtp.Writer.Nodes.{write_node_correct}
use xpute.Wire.Xtp.Writer.Packet.{packet_writer-IsValid, write_packet_correct}

abbrev used : ℕ → List ℕ
used n = replicate n 0xff

abbrev greeting : Node
greeting =
    branch_of 2 (and (number ScalarType.u8 (some 7)) (and (text (some (0x68 ∷ 0x69 ∷ []))) end))

-- What a run leaves: its result and its bytes.
abbrev left : Run (Result ℕ × PacketWriter) → Option (Result ℕ × List ℕ)
left (done (r, w)) = some (r, w.buf)
left (bug e) = none

greeting_bytes :
    left (write_packet (used 64) greeting)
    ≡ some (
      val 64,
      0x58 ∷ 0x54 ∷ 0x50 ∷ 0 ∷ 0 ∷ 0 ∷ 0 ∷ 0 ∷ 48 ∷ 0 ∷ 0 ∷ 0 ∷ 0x20 ∷ 0 ∷ 0 ∷ 0 ∷ 2 ∷ 0 ∷ 0 ∷ 0 ∷ 0
          ∷ 0 ∷ 0 ∷ 0 ∷ 24 ∷ 0 ∷ 0 ∷ 0 ∷ 0x80 ∷ 0 ∷ 0 ∷ 0 ∷ 32 ∷ 0 ∷ 0 ∷ 0 ∷ 0xb9 ∷ 0 ∷ 0 ∷ 0 ∷ 7
          ∷ 0 ∷ 0 ∷ 0 ∷ 0 ∷ 0 ∷ 0 ∷ 0 ∷ 2 ∷ 0 ∷ 0 ∷ 0 ∷ 0 ∷ 0 ∷ 0 ∷ 0 ∷ 0x68 ∷ 0x69 ∷ 0 ∷ 0 ∷ 0 ∷ 0
          ∷ 0 ∷ 0 ∷ [],
    )
unfolding write_packet
greeting_bytes = refl

write_node_correct_example :
    Adds 1 (packet_writer (used 64)) (write_node greeting (packet_writer (used 64)))
unfolding packet_writer
write_node_correct_example =
    write_node_correct greeting (packet_writer (used 64)) (refl, (tt, (tt, tt)))
      (packet_writer-IsValid (used 64)) (omega arith)

write_packet_correct_example :
    (out : Result ℕ × PacketWriter) × (write_packet (used 64) greeting ≡ done out)
    × (length out.1.buf ≡ min 64 max_pkt_sz)
    × ((len : ℕ) → out.0 ≡ val len → (16 ≤ len) × (len ≤ 64) × (len % 8 ≡ 0))
    × (length (used 64) < 16 → out.0 ≡ err (marshal_error Errno.einval))
write_packet_correct_example = write_packet_correct (used 64) greeting (refl, (tt, (tt, tt)))
