-- ===== src/Gpu/Call/Ticket.antt =====
-- What waits for the host: the word holds the ticket, whether or not the record was written.
use xpute.Common.{
  ℕ, ◌+◌, ◌-◌, ◌*◌, ◌^◌, ◌≤◌, ◌<◌, ◌≡◌, ◌≢◌, refl, ◌∙◌, arith, Bool, true, false, List, [], ◌∷◌,
  le→leb, lt→ltb,
}
use xpute.Status.{done}
use xpute.Guest.Memory.{Memory, off_of, raw_word, raw_set_word}
use xpute.Guest.Memory.Laws.{raw_word-set, raw_word-Same, size-raw_set_word}
use xpute.Guest.Stream.{Stream, MarkState}
use xpute.Guest.Stream.Inv.{IsValid}
use xpute.Gpu.Op.{op_queue_done}
use xpute.Gpu.Record.{Part, words, emit}
use xpute.Gpu.Record.Emit.{Emitted, emit_correct, recorded, dropped, already_spilled, no_room}
use xpute.Gpu.Call.{Sent, send, ticketed, queue_done}

module _ (base word : ℕ) {m : Memory} {s : Stream} (v : IsValid m s) (low : base ≤ word)
    (below : word - base + 4 ≤ s.at) where
  -- The word's offset in the memory.
  abbrev pub at : ℕ
  at = word - base

  off_of-ok : off_of m base word ≡ done at
  unfolding off_of
  off_of-ok =
      rw
        (
          le→leb base word low,
          lt→ltb at m.size (omega (arith, v)),
          le→leb at (2 ^ 32 - 1) (omega (arith, v)),
        )
        refl

  abbrev set : ℕ → Memory
  set ticket = raw_set_word m at ticket

  set-IsValid : (ticket : ℕ) → IsValid (set ticket) s
  set-IsValid ticket =
      let size = size-raw_set_word m at ticket in
      record {
        placed = v.placed;
        head_in = v.head_in;
        room = v.room;
        in_mem = omega (arith, v, size);
        small = omega (arith, v, size);
      }

  -- A call that was answered, its word holding the ticket.
  abbrev pub Answered : ℕ → Sent → Type 0
  Answered ticket x =
      (sent : Bool) × (s' : Stream) × (m' : Memory) × (x ≡ done (sent, s', m'))
      × (raw_word m' at ≡ ticket)

  emit_answers :
      (op : ℕ) (ps : List Part) (ticket : ℕ)
      → ticket < 2 ^ 32
      → s.mark ≢ MarkState.off_mark
      → Emitted op ps (set ticket) s
      → Answered ticket (emit op ps (s, set ticket))
  emit_answers op ps ticket h k (recorded m' e a b w u) = (
    true,
    _,
    m',
    e,
    raw_word-Same (set ticket) m' 0 (s.at + 4 * (s.head + s.len)) at w.grown.below (omega arith)
          (omega (arith, v))
        ∙ raw_word-set m at ticket h,
  )
  emit_answers op ps ticket h k (dropped e a b) = (false, _, _, e, raw_word-set m at ticket h)
  emit_answers op ps ticket h k (already_spilled e a) = (false, _, _, e, raw_word-set m at ticket h)
  emit_answers op ps ticket h k (no_room e a b) = absurd (k a)

  -- In a transaction, for a word below the stream's range, `queue_done` is never a bug, and the word holds
  -- the ticket after it, whether its record was written or dropped.
  pub queue_done_correct :
      (ticket : ℕ)
      → ticket < 2 ^ 32
      → s.mark ≢ MarkState.off_mark
      → Answered ticket (queue_done base word ticket (s, m))
  unfolding queue_done ticketed send words
  queue_done_correct ticket h k = rw off_of-ok (
      emit_answers op_queue_done (words (at ∷ ticket ∷ [])) ticket h k (
        emit_correct op_queue_done (words (at ∷ ticket ∷ [])) (set-IsValid ticket)
          (omega arith, (omega arith, (omega (arith, v), (h, tt))))))
