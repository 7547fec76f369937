-- ===== src/Guest/Ring/Refine.antt =====
-- A ring in memory refines a bounded queue: `push` appends an entry, `peek` and `advance` take the
-- oldest, and the refusals change nothing.
use xpute.Common.{
  ℕ, ◌+◌, ◌-◌, ◌%◌, ◌^◌, ◌≤◌, ◌<◌, ◌≡◌, refl, ap, ◌∙◌, arith, Option, none, some, List, [], ◌∷◌,
  ◌++◌, length, All, leb, gt→leb, le→leb, lt→ltb, ge→ltb, Bool, true, false, replicate,
}
use xpute.Status.{Errno, done}
use xpute.Guest.Memory.{Memory, u32, bytes_at}
use xpute.Guest.Memory.Laws.{raw_word-lt, word-at}
use xpute.Guest.Frame
use xpute.Guest.Ring.{Ring, index, push, lay, pushed, len, head, tail, padded}
use xpute.Guest.Ring.Inv.{
  Layout, IsValid, raw_head, raw_tail, used, index-lt, index-add, slot_addr, slot_within,
}
use xpute.Guest.Ring.Queue.{slot_off, queue}
use native.Mathlib.Decide.{dec_lt}
use xpute.Guest.Ring.Append.{
  Laid, Laid-refl, out, queue-out, out-entry, out-publish, out-IsValid, laid, laid-Laid,
  laid_payload,
}

module _ (m : Memory) (r : Ring) (v : IsValid m r) where
  abbrev l : Layout m.size r
  l = v.layout

  pub head-ok : head m r ≡ done (raw_head m r)
  unfolding head
  head-ok = word-at m _ (r.at + 4) (omega (arith, l)) (omega (arith, l))

  tail-ok : tail m r ≡ done (raw_tail m r)
  unfolding tail
  tail-ok = word-at m _ (r.at + 8) (omega (arith, l)) (omega (arith, l))

  pub len-ok : len m r ≡ done (used m r)
  unfolding len
  len-ok = rw (tail-ok, head-ok)

  -- The producer's position is the consumer's and as many as are used.
  tail_index : index r (raw_tail m r) ≡ (index r (raw_head m r) + used m r) % r.cap
  tail_index =
      let t = raw_word-lt m (r.at + 8) v.bytes in
      let h = raw_word-lt m (r.at + 4) v.bytes in
      let back : raw_tail m r ≡ u32 (raw_head m r + used m r) = omega arith in
      ap (index r) back ∙ index-add l (raw_head m r) (used m r)

  -- The packet that a frame is pushed with, as its entry will hold it.
  abbrev pub pkt_off : Option (List ℕ) → ℕ
  pkt_off none = 0
  pkt_off (some bs) = slot_off r (index r (raw_tail m r))

  abbrev pub pkt_payload : Option (List ℕ) → List ℕ
  pkt_payload none = bytes_at m (slot_off r (index r (raw_tail m r))) r.slot_bytes
  pkt_payload (some bs) =
      bs
      ++ (replicate (padded (length bs) - length bs) 0
          ++ bytes_at m (slot_off r (index r (raw_tail m r)) + padded (length bs))
              (r.slot_bytes - padded (length bs)))

  abbrev pub pkt_fits : Option (List ℕ) → Bool
  pkt_fits none = true
  pkt_fits (some bs) = leb (padded (length bs)) r.slot_bytes

  abbrev pub PktBytes : Option (List ℕ) → Type 0
  PktBytes none = Unit {0}
  PktBytes (some bs) = All (λ b. b < 2 ^ 8) bs

  -- What a push comes to: EAGAIN for a full ring, EMSGSIZE for a packet past a slot, and no change in
  -- either; else the entry, at the end of the queue.
  pub data Pushed (tag cmd flags result : ℕ) (pkt : Option (List ℕ)) : Type 0 where
    full :
        push m r tag cmd flags result pkt ≡ done (Errno.eagain, m)
        → used m r ≡ r.cap
        → Pushed tag cmd flags result pkt
    too_long :
        push m r tag cmd flags result pkt ≡ done (Errno.emsgsize, m)
        → used m r < r.cap
        → pkt_fits pkt ≡ false
        → Pushed tag cmd flags result pkt
    appended :
        (m' : Memory)
        → push m r tag cmd flags result pkt ≡ done (Errno.ok, m')
        → used m r < r.cap
        → pkt_fits pkt ≡ true
        → queue m' r
          ≡ queue m r
            ++ (record {
              tag = tag;
              cmd = Frame.cmd_word cmd flags;
              result = result;
              pkt_at = pkt_off pkt;
              payload = pkt_payload pkt;
            }
                ∷ [])
        → IsValid m' r
        → Pushed tag cmd flags result pkt

  module _ (tag cmd flags result : ℕ) (tag_in : tag < 2 ^ 32) (flags_in : flags < 2 ^ 16)
      (result_in : result < 2 ^ 32) where
    push-full :
        (pkt : Option (List ℕ))
        → used m r ≡ r.cap
        → push m r tag cmd flags result pkt ≡ done (Errno.eagain, m)
    unfolding push
    push-full pkt all_used = rw (len-ok, tail-ok, le→leb r.cap (used m r) (omega arith))

    push-room :
        (pkt : Option (List ℕ))
        → used m r < r.cap
        → push m r tag cmd flags result pkt
          ≡ pushed m r tag cmd flags result (lay m r (raw_tail m r) pkt)
    unfolding push
    push-room pkt room = rw (len-ok, tail-ok, gt→leb r.cap (used m r) room)

    push-Laid :
        (pkt : Option (List ℕ)) (n : Memory) (at : ℕ)
        → used m r < r.cap
        → pkt_fits pkt ≡ true
        → lay m r (raw_tail m r) pkt ≡ some (at, n)
        → at ≡ pkt_off pkt
        → bytes_at n (slot_off r (index r (raw_tail m r))) r.slot_bytes ≡ pkt_payload pkt
        → Laid m n r (index r (raw_tail m r))
        → at < 2 ^ 32
        → Pushed tag cmd flags result pkt
    unfolding pushed
    push-Laid pkt n at room fits e off same d at_in =
        let grown = queue-out m n r v room d tag cmd flags result at tail_index in
        let new =
          out-entry m n r v room d tag cmd flags result at tag_in flags_in result_in at_in in
        appended (out m n r v room d tag cmd flags result at)
          (push-room pkt room ∙ rw (e, out-publish m n r v room d tag cmd flags result at)) room
          fits (grown ∙ ap (λ x. queue m r ++ (x ∷ [])) (new ∙ rw (off, same)))
          (out-IsValid m n r v room d tag cmd flags result at)

    -- A push on a valid ring, of words that fit their fields and of bytes, comes to one of three. A full
    -- ring answers EAGAIN, and a packet that padded is longer than a slot EMSGSIZE, and the memory is
    -- unchanged. Else it answers ok, the ring stays valid, and seen as a queue it has one entry more, at
    -- its end: the tag, the command word, the result, and the slot at the tail that holds the packet
    -- padded with zeros to a word.
    pub push_correct : (pkt : Option (List ℕ)) → PktBytes pkt → Pushed tag cmd flags result pkt
    unfolding lay pushed
    push_correct none b = elim (dec_lt (used m r) r.cap) [
      | yes room ↦
          push-Laid none m 0 room refl refl refl refl (Laid-refl m r _ v.bytes) (omega arith)
      | no full_up ↦ full (push-full none (omega (arith, v.window))) (omega (arith, v.window))
    ]
    push_correct (some bs) b = elim (dec_lt (used m r) r.cap) [
      | yes room ↦ elim (dec_lt r.slot_bytes (padded (length bs))) [
        | yes long ↦
            too_long (push-room (some bs) room ∙ rw (lt→ltb r.slot_bytes (padded (length bs)) long))
              room (gt→leb (padded (length bs)) r.slot_bytes long)
        | no short ↦
            let pos = raw_tail m r in
            let in_cap = index-lt l pos in
            let within = slot_within l (index r pos) in_cap in
            let ok : padded (length bs) ≤ r.slot_bytes = omega arith in
            push-Laid (some bs) (laid m r l v.bytes (index r pos) in_cap bs b ok)
              (slot_off r (index r pos)) room (le→leb (padded (length bs)) r.slot_bytes ok)
              (rw (ge→ltb r.slot_bytes (padded (length bs)) ok, slot_addr l pos) refl) refl
              (laid_payload m r l v.bytes (index r pos) in_cap bs b ok)
              (laid-Laid m r l v.bytes (index r pos) in_cap bs b ok) (omega (arith, within, l))
      ]
      | no full_up ↦ full (push-full (some bs) (omega (arith, v.window))) (omega (arith, v.window))
    ]
