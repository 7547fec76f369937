-- ===== src/Guest/Ring/Publish.antt =====
-- `publish` writes the frame that the tail names and then the tail, and no other byte.
use xpute.Common.{ℕ, ◌+◌, ◌*◌, ◌^◌, ◌≤◌, ◌<◌, ◌≡◌, refl, ◌⊎◌, inl, inr, arith}
use xpute.Status.{done}
use xpute.Guest.Memory.{Memory, u32, raw_set_word, bytes_at}
use xpute.Guest.Memory.Laws.{
  Same, Same-trans, Same-sub, bytes_at-Same, raw_word-Same, raw_word-set, raw_set_word-Same,
  set_word-at, word-at, IsBytes, raw_set_word-IsBytes,
}
use xpute.Guest.Frame
use xpute.Guest.Frame.{cmd_word_fields}
use xpute.Guest.Ring.{Ring, index, publish, entry_at}
use xpute.Guest.Ring.Inv.{Layout, raw_head, raw_tail, index-lt, frame_addr, slot_within}
use xpute.Guest.Ring.Queue.{frame_off, slot_off, entry, OnlyEntry}

module _ (m : Memory) (r : Ring) (l : Layout m.size r) (tag cmd flags result pkt_at : ℕ) where
  abbrev pub at_index : ℕ
  at_index = index r (raw_tail m r)

  abbrev pub written : Memory
  written =
      let f = frame_off r at_index in
      raw_set_word
        (raw_set_word (raw_set_word (raw_set_word m f tag) (f + 4) (Frame.cmd_word cmd flags))
          (f + 8) result)
        (f + 12) pkt_at

  abbrev pub published : Memory
  published = raw_set_word written (r.at + 8) (u32 (raw_tail m r + 1))

  pub publish-ok : publish m r tag cmd flags result pkt_at ≡ done published
  unfolding publish raw_set_word
  publish-ok =
      let f = u32 (r.at + u32 (4 * entry_at r (raw_tail m r))) in
      let here = frame_addr l (raw_tail m r) in
      let room = index-lt l (raw_tail m r) in
      let o = frame_off r at_index in
      let m₁ = raw_set_word m o tag in
      let m₂ = raw_set_word m₁ (o + 4) (Frame.cmd_word cmd flags) in
      let m₃ = raw_set_word m₂ (o + 8) result in
      let m₄ = raw_set_word m₃ (o + 12) pkt_at in
      rw (
        word-at m (u32 (r.at + 4 * 2)) (r.at + 8) (omega (arith, l)) (omega (arith, l)),
        set_word-at m (u32 (f + 4 * 0)) o tag (omega (arith, here, room, l))
            (omega (arith, room, l)),
        set_word-at m₁ (u32 (f + 4 * 1)) (o + 4) (Frame.cmd_word cmd flags)
            (omega (arith, here, room, l)) (omega (arith, room, l)),
        set_word-at m₂ (u32 (f + 4 * 2)) (o + 8) result (omega (arith, here, room, l))
            (omega (arith, room, l)),
        set_word-at m₃ (u32 (f + 4 * 3)) (o + 12) pkt_at (omega (arith, here, room, l))
            (omega (arith, room, l)),
        set_word-at m₄ (u32 (r.at + 4 * 2)) (r.at + 8) (u32 (raw_tail m r + 1)) (omega (arith, l))
            (omega (arith, l)),
      )

  written-Same :
      (lo hi : ℕ)
      → (hi ≤ frame_off r at_index) ⊎ (frame_off r at_index + 16 ≤ lo)
      → Same m written lo hi
  written-Same lo hi h =
      let o = frame_off r at_index in
      let m₁ = raw_set_word m o tag in
      let m₂ = raw_set_word m₁ (o + 4) (Frame.cmd_word cmd flags) in
      let m₃ = raw_set_word m₂ (o + 8) result in
      Same-trans m m₁ written lo hi (raw_set_word-Same m o tag lo hi (omega arith)) (
        Same-trans m₁ m₂ written lo hi (raw_set_word-Same m₁ (o + 4) _ lo hi (omega arith)) (
          Same-trans m₂ m₃ written lo hi (raw_set_word-Same m₂ (o + 8) result lo hi (omega arith))
            (raw_set_word-Same m₃ (o + 12) pkt_at lo hi (omega arith))))

  -- Publishing touches the tail's frame and the tail alone.
  pub published-Same :
      (lo hi : ℕ)
      → (hi ≤ frame_off r at_index) ⊎ (frame_off r at_index + 16 ≤ lo)
      → (hi ≤ r.at + 8) ⊎ (r.at + 12 ≤ lo)
      → Same m published lo hi
  published-Same lo hi h k =
      Same-trans m written published lo hi (written-Same lo hi h)
        (raw_set_word-Same written (r.at + 8) (u32 (raw_tail m r + 1)) lo hi (omega arith))

  pub published-head : raw_head published r ≡ raw_head m r
  published-head =
      raw_word-Same m published (r.at + 4) (r.at + 8) (r.at + 4)
        (published-Same (r.at + 4) (r.at + 8) (omega arith) (omega arith)) (omega arith)
        (omega arith)

  pub published-tail : raw_tail published r ≡ u32 (raw_tail m r + 1)
  published-tail = raw_word-set written (r.at + 8) (u32 (raw_tail m r + 1)) (omega arith)

  pub published-IsBytes : IsBytes m → IsBytes published
  published-IsBytes b = raw_set_word-IsBytes written _ _ (
      raw_set_word-IsBytes _ _ _
        (raw_set_word-IsBytes _ _ _ (raw_set_word-IsBytes _ _ _ (raw_set_word-IsBytes m _ _ b))))

  pub published-size : published.size ≡ m.size
  unfolding raw_set_word
  published-size = refl

  pub published-slots : Same m published r.slot_base (r.slot_base + r.cap * r.slot_bytes)
  published-slots =
      let room = index-lt l (raw_tail m r) in
      elim l.apart [
        | inl below ↦ published-Same _ _ (omega arith) (omega arith)
        | inr above ↦ published-Same _ _ (omega arith) (omega arith)
      ]

  pub published-OnlyEntry : OnlyEntry m published r at_index
  published-OnlyEntry =
      let room = index-lt l (raw_tail m r) in
      let within = slot_within l at_index room in
      record {
        frames_below = published-Same _ _ (omega arith) (omega arith);
        frames_above = published-Same _ _ (omega arith) (omega arith);
        slots_below = Same-sub m published _ _ _ _ published-slots (omega arith) (omega arith);
        slots_above = Same-sub m published _ _ _ _ published-slots (omega arith) (omega arith);
      }

  -- The frame at the tail holds the four words, and its slot what it held.
  pub published-entry :
      tag < 2 ^ 32
      → flags < 2 ^ 16
      → result < 2 ^ 32
      → pkt_at < 2 ^ 32
      → entry published r at_index ≡ record {
        tag = tag;
        cmd = Frame.cmd_word cmd flags;
        result = result;
        pkt_at = pkt_at;
        payload = bytes_at m (slot_off r at_index) r.slot_bytes;
      }
  unfolding entry
  published-entry p q s t =
      let o = frame_off r at_index in
      let room = index-lt l (raw_tail m r) in
      let m₁ = raw_set_word m o tag in
      let m₂ = raw_set_word m₁ (o + 4) (Frame.cmd_word cmd flags) in
      let m₃ = raw_set_word m₂ (o + 8) result in
      let last =
        raw_set_word-Same written (r.at + 8) (u32 (raw_tail m r + 1)) o (o + 16) (omega arith) in
      let w₁ = raw_set_word-Same m₁ (o + 4) (Frame.cmd_word cmd flags) o (o + 4) (omega arith) in
      let w₂ = raw_set_word-Same m₂ (o + 8) result o (o + 8) (omega arith) in
      let w₃ = raw_set_word-Same m₃ (o + 12) pkt_at o (o + 12) (omega arith) in
      rw (
        raw_word-Same written published o (o + 16) o last (omega arith) (omega arith),
        raw_word-Same written published o (o + 16) (o + 4) last (omega arith) (omega arith),
        raw_word-Same written published o (o + 16) (o + 8) last (omega arith) (omega arith),
        raw_word-Same written published o (o + 16) (o + 12) last (omega arith) (omega arith),
        raw_word-Same m₃ written o (o + 12) o w₃ (omega arith) (omega arith),
        raw_word-Same m₃ written o (o + 12) (o + 4) w₃ (omega arith) (omega arith),
        raw_word-Same m₃ written o (o + 12) (o + 8) w₃ (omega arith) (omega arith),
        raw_word-Same m₂ m₃ o (o + 8) o w₂ (omega arith) (omega arith),
        raw_word-Same m₂ m₃ o (o + 8) (o + 4) w₂ (omega arith) (omega arith),
        raw_word-Same m₁ m₂ o (o + 4) o w₁ (omega arith) (omega arith),
        raw_word-set m o tag p,
        raw_word-set m₁ (o + 4) (Frame.cmd_word cmd flags) (cmd_word_fields cmd flags q).2,
        raw_word-set m₂ (o + 8) result s,
        raw_word-set m₃ (o + 12) pkt_at t,
        bytes_at-Same m published _ _ (slot_off r at_index) r.slot_bytes published-slots
            (omega arith) (slot_within l at_index room),
      )
