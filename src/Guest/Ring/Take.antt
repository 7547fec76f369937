-- ===== src/Guest/Ring/Take.antt =====
-- `peek` reads the oldest entry of the ring seen as a queue, and `advance` takes it.
use native.Mathlib.Decide.{dec_lt}
use xpute.Common.{
  ℕ, suc, ◌+◌, ◌-◌, ◌*◌, ◌%◌, ◌≤◌, ◌<◌, ◌≡◌, refl, sym, ap, ap₂, ◌∙◌, ◌⊎◌, inl, inr, arith, Option,
  none, some, List, [], ◌∷◌, ◌==◌, ne→==, eq→==,
}
use xpute.Common.Tabulate.{tabulate-eq, get_or-tabulate}
use xpute.Collection.Deque.Refine.{window}
use xpute.Status.{Errno, done, bug}
use xpute.Guest.Memory.{Memory, u32, raw_set_word}
use xpute.Guest.Memory.Laws.{
  raw_word-lt, word-at, set_word-at, Same, raw_set_word-Same, raw_set_word-IsBytes, raw_word-Same,
  raw_word-set, bytes_at-Same,
}
use xpute.Guest.Frame
use xpute.Guest.Frame.{Frame}
use xpute.Guest.Ring.{Ring, index, peek, advance, is_empty, frame_at, entry_at}
use xpute.Guest.Ring.Inv.{
  Layout, IsValid, raw_head, raw_tail, used, index-lt, index-add, frame_addr, slot_within,
}
use xpute.Guest.Ring.Queue.{frame_off, slot_off, Entry, entry, entries, no_entry, queue}
use xpute.Guest.Ring.Refine.{head-ok, len-ok}

-- The frame that an entry's words say.
abbrev pub frame_of : Entry → Frame
frame_of e = record {
  tag = e.tag;
  cmd = Frame.cmd_of e.cmd;
  flags = Frame.flags_of e.cmd;
  result = e.result;
  pkt_at = e.pkt_at;
}

abbrev pub first_frame : List Entry → Option Frame
first_frame [] = none
first_frame (e ∷ es) = some (frame_of e)

module _ (m : Memory) (r : Ring) (v : IsValid m r) where
  abbrev l : Layout m.size r
  l = v.layout

  abbrev first : Entry
  first = entry m r (index r (raw_head m r))

  is_empty-ok : is_empty m r ≡ done (used m r == 0)
  unfolding is_empty
  is_empty-ok = rw (len-ok m r v) refl

  frame_at-ok : (pos : ℕ) → frame_at m r pos ≡ done (frame_of (entry m r (index r pos)))
  unfolding frame_at entry
  frame_at-ok pos =
      let here = frame_addr l pos in
      let room = index-lt l pos in
      let f = u32 (r.at + u32 (4 * entry_at r pos)) in
      let o = frame_off r (index r pos) in
      rw
        (
          word-at m (u32 (f + 4 * 1)) (o + 4) (omega (arith, here, room, l))
              (omega (arith, room, l)),
          word-at m (u32 (f + 4 * 0)) o (omega (arith, here, room, l)) (omega (arith, room, l)),
          word-at m (u32 (f + 4 * 2)) (o + 8) (omega (arith, here, room, l))
              (omega (arith, room, l)),
          word-at m (u32 (f + 4 * 3)) (o + 12) (omega (arith, here, room, l))
              (omega (arith, room, l)),
        )
        refl

  queue-empty : used m r ≡ 0 → queue m r ≡ []
  unfolding window
  queue-empty e = ap (window no_entry r.cap (entries m r) (index r (raw_head m r))) e

  -- The queue's entries but the first are a window from the next position.
  queue-uncons :
      (n : ℕ)
      → used m r ≡ suc n
      → queue m r
        ≡ first ∷ window no_entry r.cap (entries m r) ((index r (raw_head m r) + 1) % r.cap) n
  unfolding window
  queue-uncons n e =
      ap (window no_entry r.cap (entries m r) (index r (raw_head m r))) e
      ∙ ap (λ x. x ∷ window no_entry r.cap (entries m r) ((index r (raw_head m r) + 1) % r.cap) n)
          (get_or-tabulate (entry m r) 0 r.cap (index r (raw_head m r)) no_entry
              (index-lt l (raw_head m r))
            ∙ ap (entry m r) (omega arith))

  abbrev advanced : Memory
  advanced = raw_set_word m (r.at + 4) (u32 (raw_head m r + 1))

  advanced-Same : (lo hi : ℕ) → (hi ≤ r.at + 4) ⊎ (r.at + 8 ≤ lo) → Same m advanced lo hi
  advanced-Same lo hi h =
      raw_set_word-Same m (r.at + 4) (u32 (raw_head m r + 1)) lo hi (omega arith)

  advanced-entry : (i : ℕ) → i < r.cap → entry advanced r i ≡ entry m r i
  unfolding entry
  advanced-entry i h =
      let o = frame_off r i in
      let s = advanced-Same o (o + 16) (omega arith) in
      let within = slot_within l i h in
      let slots : Same m advanced (slot_off r i) (slot_off r i + r.slot_bytes) = elim l.apart [
        | inl below ↦ advanced-Same _ _ (omega arith)
        | inr above ↦ advanced-Same _ _ (omega arith)
      ] in
      rw
        (
          raw_word-Same m advanced o (o + 16) o s (omega arith) (omega arith),
          raw_word-Same m advanced o (o + 16) (o + 4) s (omega arith) (omega arith),
          raw_word-Same m advanced o (o + 16) (o + 8) s (omega arith) (omega arith),
          raw_word-Same m advanced o (o + 16) (o + 12) s (omega arith) (omega arith),
          bytes_at-Same m advanced _ _ (slot_off r i) r.slot_bytes slots (omega arith)
              (omega arith),
        )
        refl

  advanced-head : raw_head advanced r ≡ u32 (raw_head m r + 1)
  advanced-head = raw_word-set m (r.at + 4) (u32 (raw_head m r + 1)) (omega arith)

  advanced-tail : raw_tail advanced r ≡ raw_tail m r
  advanced-tail =
      raw_word-Same m advanced (r.at + 8) (r.at + 12) (r.at + 8) (advanced-Same _ _ (omega arith))
        (omega arith) (omega arith)

  advanced-used : (n : ℕ) → used m r ≡ suc n → used advanced r ≡ n
  advanced-used n e = omega (
    arith,
    advanced-head,
    advanced-tail,
    raw_word-lt m (r.at + 8) v.bytes,
    raw_word-lt m (r.at + 4) v.bytes,
  )

  advanced-queue :
      (n : ℕ)
      → used m r ≡ suc n
      → queue advanced r
        ≡ window no_entry r.cap (entries m r) ((index r (raw_head m r) + 1) % r.cap) n
  advanced-queue n e =
      ap₂ (λ h k. window no_entry r.cap (entries advanced r) (index r h) k) advanced-head
        (advanced-used n e)
      ∙ ap (λ i. window no_entry r.cap (entries advanced r) i n) (index-add l (raw_head m r) 1)
      ∙ ap (λ es. window no_entry r.cap es ((index r (raw_head m r) + 1) % r.cap) n)
          (tabulate-eq (entry m r) (entry advanced r) 0 r.cap
            (λ i p q. advanced-entry i (omega arith)))

  advanced-IsValid : (n : ℕ) → used m r ≡ suc n → IsValid advanced r
  unfolding raw_set_word
  advanced-IsValid n e = record {
    layout = l;
    bytes = raw_set_word-IsBytes m (r.at + 4) (u32 (raw_head m r + 1)) v.bytes;
    window = omega (arith, advanced-used n e, v.window);
  }

  advance-ok : (n : ℕ) → used m r ≡ suc n → advance m r ≡ done advanced
  unfolding advance
  advance-ok n e =
      rw
        (
          is_empty-ok,
          ne→== (used m r) 0 (omega arith),
          head-ok m r v,
          set_word-at m (u32 (r.at + 4 * 1)) (r.at + 4) (u32 (raw_head m r + 1)) (omega (arith, l))
              (omega (arith, l)),
        )
        refl

  -- What an advance comes to: the bug of an empty ring, or the queue without its first entry.
  pub data Advanced : Type 0 where
    was_empty : advance m r ≡ bug Errno.enotrecoverable → queue m r ≡ [] → Advanced
    took :
        (m' : Memory)
        → advance m r ≡ done m'
        → queue m r ≡ first ∷ queue m' r
        → IsValid m' r
        → Advanced

  -- Advancing a valid ring that is empty is the bug ENOTRECOVERABLE. Else it returns, the ring stays
  -- valid, and seen as a queue it is what it was without its first entry.
  pub advance_correct : Advanced
  unfolding advance
  advance_correct = elim (dec_lt 0 (used m r)) [
    | yes some_left ↦
        let n = used m r - 1 in
        let e : used m r ≡ suc n = omega arith in
        took advanced (advance-ok n e)
          (queue-uncons n e ∙ ap (◌∷◌ first) (sym (advanced-queue n e))) (advanced-IsValid n e)
    | no none_left ↦
        let e : used m r ≡ 0 = omega arith in
        was_empty (rw (is_empty-ok, eq→== (used m r) 0 e) refl) (queue-empty e)
  ]

  -- Peeking at a valid ring answers the frame of the queue's first entry, and none for an empty one; it
  -- is never a bug.
  pub peek_refines : peek m r ≡ done (first_frame (queue m r))
  unfolding peek
  peek_refines = elim (dec_lt 0 (used m r)) [
    | yes some_left ↦
        let n = used m r - 1 in
        let e : used m r ≡ suc n = omega arith in
        rw
          (
            is_empty-ok,
            ne→== (used m r) 0 (omega arith),
            head-ok m r v,
            frame_at-ok (raw_head m r),
            queue-uncons n e,
          )
          refl
    | no none_left ↦
        let e : used m r ≡ 0 = omega arith in
        rw (is_empty-ok, eq→== (used m r) 0 e, head-ok m r v, queue-empty e) refl
  ]
