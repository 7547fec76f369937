-- ===== src/Wire/Xtp/Writer/Packet.antt =====
-- A whole packet: whatever the buffer and the tree, it ends in a length that fits or in the first refusal.
use xpute.Common.{
  either_way, ℕ, ◌+◌, ◌-◌, ◌%◌, ◌≤◌, ◌<◌, ◌≡◌, inl, inr, refl, sym, ap, ◌∙◌, true, List, length,
  min, take, Option, none, some, ltb, ◌==◌, ◌&&◌, arith, ltb→ge, eq→==, length-take, Bool-cases,
  lt→ltb, some_inj,
}
use native.Mathlib.Nat.{le_refl}
use xpute.Status.{Errno, Error, Result, val, err, marshal_error, done, ◌>>=◌, ◌>>◌, ensure}
use xpute.Wire.Xtp.Cursor.{u32, magic}
use xpute.Wire.Xtp.Writer.{
  Frame, PacketWriter, max_pkt_sz, packet_writer, root_frame, clear, set_word, word_up,
}
use xpute.Wire.Xtp.Cursor.Within.{val_inj}
use xpute.Wire.Xtp.Writer.Tree.{Node, finish_as, finish, write_packet}
use xpute.Wire.Xtp.Writer.Lengths.{length-clear, length-set_word}
use xpute.Wire.Xtp.Writer.Kept.{IsValid}
use xpute.Wire.Xtp.Writer.Nodes.{IsCounted, write_node_correct}

pub packet_writer-IsValid : (bytes : List ℕ) → IsValid (packet_writer bytes)
unfolding packet_writer
packet_writer-IsValid bytes =
    let buf = take (min (length bytes) max_pkt_sz) bytes in
    let cap : length buf ≤ max_pkt_sz =
      omega (arith, length-take (min (length bytes) max_pkt_sz) bytes) in
    elim (Bool-cases (ltb (length buf) 16)) [
      | inl short ↦ rw short (record {
        capped = cap;
        lo = λ e. absurd (cc);
        hi = λ e. absurd (cc);
        framed = λ e h. absurd (cc);
      })
      | inr long ↦
          let room = ltb→ge (length buf) 16 long in
          let same = length-clear 0 16 buf (omega arith) room in
          rw long (record {
            capped = omega arith;
            lo = λ e. le_refl 16;
            hi = λ e. omega arith;
            framed = λ e h. absurd (cc);
          })
    ]

root_first : (bytes : List ℕ) → (packet_writer bytes).frame ≡ root_frame
unfolding packet_writer
root_first bytes = refl

starts : (bytes : List ℕ) → (packet_writer bytes).frame.written < (packet_writer bytes).frame.cnt
unfolding packet_writer
starts bytes = omega arith

length-packet_writer :
    (bytes : List ℕ) → length (packet_writer bytes).buf ≡ min (length bytes) max_pkt_sz
unfolding packet_writer
length-packet_writer bytes =
    let buf = take (min (length bytes) max_pkt_sz) bytes in
    let few = length-take (min (length bytes) max_pkt_sz) bytes in
    either_way (λ (b : List ℕ). length b ≡ min (length bytes) max_pkt_sz) (ltb (length buf) 16)
      (λ h. omega (arith, few))
      (λ h. length-clear 0 16 buf (omega arith) (ltb→ge (length buf) 16 h) ∙ (omega (arith, few)))

too_short :
    (bytes : List ℕ)
    → length bytes < 16
    → (packet_writer bytes).failure ≡ some (marshal_error Errno.einval)
unfolding packet_writer
too_short bytes h =
    let buf = take (min (length bytes) max_pkt_sz) bytes in
    let short =
      lt→ltb (length buf) 16 (omega (arith, length-take (min (length bytes) max_pkt_sz) bytes)) in
    rw short refl

-- How a packet ends: the refusal, or a length in whole words that the buffer has.
pub record Ends (w : PacketWriter) (out : Result ℕ × PacketWriter) : Type 0 where
  pub same_len : length out.1.buf ≡ length w.buf
  pub refused : (e : Error) → w.failure ≡ some e → out ≡ (err e, w)
  pub fits : (n : ℕ) → out.0 ≡ val n → (16 ≤ n) × (n ≤ length w.buf) × (n % 8 ≡ 0) × (w.lim ≤ n)

finish_as-Ends :
    (w : PacketWriter) → IsValid w → (o : Option Error) → w.failure ≡ o → Ends w (finish_as o w)
unfolding finish_as
finish_as-Ends w v (some x) h = record {
  same_len = refl;
  refused = λ e z. ap (λ y. (err y, w)) (some_inj (sym h ∙ z));
  fits = λ n z. absurd (cc);
}
finish_as-Ends w v none h =
    let hi = v.hi h in
    let lo = v.lo h in
    let cap = v.capped in
    either_way (Ends w) (ltb (length w.buf) (word_up w.lim))
      (λ z. record { same_len = refl; refused = λ e y. absurd (cc); fits = λ n y. absurd (cc) })
      λ z.
        let room = ltb→ge (length w.buf) (word_up w.lim) z in
        let b1 = clear w.lim (word_up w.lim) w.buf in
        let one = length-clear w.lim (word_up w.lim) w.buf hi room in
        let two = length-set_word 0 magic 0 b1 (omega arith) in
        let b2 = set_word 0 magic 0 b1 in
        let three = length-set_word 8 (w.lim - 16) w.root_type b2 (omega arith) in
        record {
          same_len = three ∙ two ∙ one;
          refused = λ e y. absurd (cc);
          fits = λ n y.
              let same : u32 (word_up w.lim) ≡ n = val_inj y in
              (omega arith, omega arith, omega arith, omega arith);
        }

finish-Ends :
    (w : PacketWriter)
    → IsValid w
    → w.frame.root ≡ true
    → w.frame.written ≡ w.frame.cnt
    → (out : Result ℕ × PacketWriter) × (finish w ≡ done out) × Ends w out
unfolding finish
finish-Ends w v r c =
    let counted : (w.frame.root && w.frame.written == w.frame.cnt) ≡ true =
      ap (λ b. b && w.frame.written == w.frame.cnt) r ∙ eq→== w.frame.written w.frame.cnt c in
    (
      finish_as w.failure w,
      ap (λ b. ensure b Errno.enotrecoverable >> done (finish_as w.failure w)) counted,
      finish_as-Ends w v w.failure refl,
    )

-- Whatever the buffer and the tree, its branches counted right: writing it and finishing is not a bug, and leaves a
-- buffer as long as at first, which is at most the cap. Where it comes to a length, this is at least the header's, in
-- whole words, and within the buffer; a buffer shorter than the header is refused, as EINVAL.
pub write_packet_correct :
    (bytes : List ℕ) (n : Node)
    → IsCounted n
    → (out : Result ℕ × PacketWriter) × (write_packet bytes n ≡ done out)
      × (length out.1.buf ≡ min (length bytes) max_pkt_sz)
      × ((len : ℕ) → out.0 ≡ val len → (16 ≤ len) × (len ≤ length bytes) × (len % 8 ≡ 0))
      × (length bytes < 16 → out.0 ≡ err (marshal_error Errno.einval))
unfolding write_packet
write_packet_correct bytes n c =
    let w0 = packet_writer bytes in
    let (w1, e1, o) = write_node_correct n w0 c (packet_writer-IsValid bytes) (starts bytes) in
    let frame =
      o.frame ∙ ap (λ (f : Frame). record f { written = f.written + 1 }) (root_first bytes) in
    let (out, e2, ends) =
      finish-Ends w1 o.valid (ap (λ (f : Frame). f.root) frame)
        (ap (λ (f : Frame). f.written) frame ∙ sym (ap (λ (f : Frame). f.cnt) frame)) in
    let len = ends.same_len ∙ o.same_len ∙ length-packet_writer bytes in
    (
      out,
      ap (λ r. r >>= finish) e1 ∙ e2,
      len,
      λ k h.
          let (lo, hi, words, past) = ends.fits k h in
          (lo, omega (arith, o.same_len, length-packet_writer bytes, hi), words),
      λ h.
          let (failed, _, _) = o.first (marshal_error Errno.einval) (too_short bytes h) in
          ap (λ (p : Result ℕ × PacketWriter). p.0)
            (ends.refused (marshal_error Errno.einval) failed),
    )
