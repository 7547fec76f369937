-- ===== src/Wire/Xtp/Writer/Text.antt =====
-- A string that is written in place, by whoever keeps to the room it is given.
use xpute.Common.{
  either_way, ℕ, ◌+◌, ◌-◌, ◌≤◌, ◌<◌, ◌≡◌, ◌∙◌, List, [], length, Option, none, some, ltb, leb,
  is_some, if◌then◌else◌, arith, ltb→ge,
}
use native.Mathlib.Nat.{le_refl}
use xpute.Status.{Errno}
use xpute.Wire.Xtp.{SequenceType, sequence_type}
use xpute.Wire.Xtp.Cursor.{u32}
use xpute.Wire.Xtp.Writer.{
  PacketWriter, Placed, put, clear, set_word, word_up, str_payload, str_room, str_commit,
  str_answer, str_put, str_with, str,
}
use xpute.Wire.Xtp.Writer.Lengths.{length-put, length-clear, length-set_word}
use xpute.Wire.Xtp.Writer.Kept.{
  IsValid, Kept, Kept-self, Kept-trans, Kept-IsValid, going_or_not, spoil-Kept, change-Kept,
}
use xpute.Wire.Xtp.Writer.Entry.{Adds, entry-Adds}

-- It writes no more than the room.
abbrev pub KeepsTo : (ℕ → List ℕ × Option ℕ) → Type 0
KeepsTo write = (room : ℕ) → length (write room).0 ≤ room

module _ {w : PacketWriter} (v : IsValid w) where
  str_commit-Kept :
      (len : ℕ) → w.failure ≡ none → word_up w.lim + 8 ≤ length w.buf → Kept w (str_commit len w).1
  unfolding str_commit str_payload
  str_commit-Kept len going room =
      let cap = v.capped in
      let hi = v.hi going in
      let payload = str_payload w in
      let start : payload ≡ word_up w.lim + 8 = omega arith in
      let end = word_up (payload + len + 1) in
      let base = payload - 8 in
      either_way (λ (p : Placed). Kept w p.1) (ltb (length w.buf) end)
        (λ h. spoil-Kept v Errno.eoverflow)
        λ h.
          let fits = ltb→ge (length w.buf) end h in
          let one = length-clear w.lim base w.buf hi (omega arith) in
          let b1 = clear w.lim base w.buf in
          let two = length-clear (payload + len) end b1 (omega arith) (omega arith) in
          let b2 = clear (payload + len) end b1 in
          let three = length-set_word base len 0 b2 (omega arith) in
          change-Kept v (set_word base len 0 b2) (u32 end) going (three ∙ two ∙ one) (omega arith)
            (omega arith)

  pub str_answer-Kept :
      (n : Option ℕ) (room : ℕ)
      → w.failure ≡ none
      → word_up w.lim + 8 ≤ length w.buf
      → Kept w (str_answer n room w).1
  unfolding str_answer
  str_answer-Kept none room going h = spoil-Kept v Errno.eoverflow
  str_answer-Kept (some n) room going h =
      either_way (λ (p : Placed). Kept w p.1) (leb n room) (λ z. str_commit-Kept (u32 n) going h)
        (λ z. spoil-Kept v Errno.eoverflow)

module _ {w : PacketWriter} (v : IsValid w) where
  str_put-Kept :
      (write : ℕ → List ℕ × Option ℕ) → KeepsTo write → Kept w (str_put write (str_room w)).1
  unfolding str_put str_room str_payload
  str_put-Kept write keeps =
      either_way (λ (p : Placed). Kept w (str_put write p).1) (is_some w.failure) (λ h. Kept-self v)
        λ h.
          let going = going_or_not w.failure h in
          let payload = word_up w.lim + 8 in
          either_way (λ (p : Placed). Kept w (str_put write p).1) (ltb (length w.buf) payload)
            (λ z. spoil-Kept v Errno.eoverflow)
            λ z.
              let room = ltb→ge (length w.buf) payload z in
              let cap = v.capped in
              let n = u32 (length w.buf - payload) in
              let bytes = (write n).0 in
              let within = keeps n in
              let same = length-put (str_payload w) bytes w.buf (omega arith) in
              let written =
                change-Kept v (put (str_payload w) bytes w.buf) w.lim going same (le_refl w.lim)
                  (v.hi going) in
              let w' = record w { buf = put (str_payload w) bytes w.buf } in
              let v' = Kept-IsValid v written in
              Kept-trans written
                (str_answer-Kept v' (write n).1 n going (omega (arith, room, same)))

  module _ (room : w.frame.written < w.frame.cnt) where
    pub str_with-Adds :
        (write : ℕ → List ℕ × Option ℕ) → KeepsTo write → Adds 1 w (str_with write w)
    unfolding str_with
    str_with-Adds write keeps =
        entry-Adds v (sequence_type SequenceType.str) (str_put write (str_room w)) room
          (str_put-Kept write keeps)

    pub str-Adds : (s : Option (List ℕ)) → Adds 1 w (str s w)
    unfolding str
    str-Adds none = entry-Adds v (sequence_type SequenceType.str) (none, w) room (Kept-self v)
    str-Adds (some s) =
        str_with-Adds (λ n. if ltb n (length s) then ([], none) else (s, some (length s)))
          λ n.
            either_way (λ (p : List ℕ × Option ℕ). length p.0 ≤ n) (ltb n (length s))
              (λ h. omega arith) (λ h. ltb→ge n (length s) h)
