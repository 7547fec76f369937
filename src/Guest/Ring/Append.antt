-- ===== src/Guest/Ring/Append.antt =====
-- What laying a payload and then publishing does to the ring seen as a queue.
use xpute.Common.{
  ℕ, suc, ◌+◌, ◌-◌, ◌*◌, ◌%◌, ◌^◌, ◌≤◌, ◌<◌, ◌≡◌, refl, sym, subst, ap, ap₂, ◌∙◌, ◌⊎◌, inl, inr,
  arith, List, [], ◌∷◌, ◌++◌, length, All, replicate,
}
use xpute.Common.Tabulate.{length-tabulate}
use xpute.Collection.Deque.Refine.{window, window_push}
use xpute.Status.{done}
use xpute.Guest.Memory.{Memory, u32, bytes_at, copy_bytes, clear_bytes}
use xpute.Guest.Memory.Laws.{
  IsBytes, raw_word-lt, raw_word-Same, Same, Same-trans, Same-sub, copy_bytes-Same,
  clear_bytes-Same, copy_bytes-IsBytes, clear_bytes-IsBytes, size-copy_bytes, size-clear_bytes,
  bytes_at-append, bytes_at-copy, bytes_at-clear, bytes_at-Same,
}
use xpute.Guest.Frame
use xpute.Guest.Ring.{Ring, index, publish, padded, pad}
use xpute.Guest.Ring.Inv.{Layout, IsValid, raw_head, raw_tail, used, index-lt, slot_within}
use xpute.Guest.Ring.Queue.{slot_off, entry, entries, no_entry, queue, OnlyEntry, entries-set}
use xpute.Guest.Ring.Publish.{
  published, publish-ok, published-entry, published-head, published-tail, published-size,
  published-IsBytes, published-OnlyEntry,
}

-- A memory in which the slot of index `i` alone was written.
pub record Laid (m n : Memory) (r : Ring) (i : ℕ) : Type 0 where
  pub same_size : n.size ≡ m.size
  pub bytes : IsBytes n
  pub ring : Same m n r.at (r.at + 4 * (8 + 4 * r.cap))
  pub below : Same m n r.slot_base (slot_off r i)
  pub above : Same m n (slot_off r i + r.slot_bytes) (r.slot_base + r.cap * r.slot_bytes)

pub Laid-refl : (m : Memory) (r : Ring) (i : ℕ) → IsBytes m → Laid m m r i
Laid-refl m r i b = record {
  same_size = refl;
  bytes = b;
  ring = λ a p q. refl;
  below = λ a p q. refl;
  above = λ a p q. refl;
}

pub Laid-trans : (m n o : Memory) (r : Ring) (i : ℕ) → Laid m n r i → Laid n o r i → Laid m o r i
Laid-trans m n o r i a b = record {
  same_size = omega (arith, a.same_size, b.same_size);
  bytes = b.bytes;
  ring = Same-trans m n o _ _ a.ring b.ring;
  below = Same-trans m n o _ _ a.below b.below;
  above = Same-trans m n o _ _ a.above b.above;
}

module _ (m n : Memory) (r : Ring) (v : IsValid m r) (room : used m r < r.cap)
    (d : Laid m n r (index r (raw_tail m r))) (tag cmd flags result pkt_at : ℕ) where
  abbrev pub i : ℕ
  i = index r (raw_tail m r)

  pub ln : Layout n.size r
  ln = subst (λ s. Layout s r) (sym d.same_size) v.layout

  abbrev pub out : Memory
  out = published n r ln tag cmd flags result pkt_at

  same_tail : raw_tail n r ≡ raw_tail m r
  same_tail = raw_word-Same m n _ _ (r.at + 8) d.ring (omega arith) (omega arith)

  same_head : raw_head n r ≡ raw_head m r
  same_head = raw_word-Same m n _ _ (r.at + 4) d.ring (omega arith) (omega arith)

  out-OnlyEntry : OnlyEntry m out r i
  out-OnlyEntry =
      let o =
        subst (λ t. OnlyEntry n out r (index r t)) same_tail
          (published-OnlyEntry n r ln tag cmd flags result pkt_at) in
      let in_cap = index-lt v.layout (raw_tail m r) in
      record {
        frames_below =
            Same-trans m n out _ _ (Same-sub m n _ _ _ _ d.ring (omega arith) (omega arith))
              o.frames_below;
        frames_above =
            Same-trans m n out _ _ (Same-sub m n _ _ _ _ d.ring (omega arith) (omega arith))
              o.frames_above;
        slots_below = Same-trans m n out _ _ d.below o.slots_below;
        slots_above = Same-trans m n out _ _ d.above o.slots_above;
      }

  used-out : used out r ≡ suc (used m r)
  used-out = omega (
    arith,
    room,
    v.layout,
    same_tail,
    same_head,
    published-head n r ln tag cmd flags result pkt_at,
    published-tail n r ln tag cmd flags result pkt_at,
    raw_word-lt m (r.at + 8) v.bytes,
    raw_word-lt m (r.at + 4) v.bytes,
  )

  -- The queue is one entry longer at its end.
  pub queue-out :
      index r (raw_tail m r) ≡ (index r (raw_head m r) + used m r) % r.cap
      → queue out r ≡ queue m r ++ (entry out r i ∷ [])
  queue-out at =
      let head = published-head n r ln tag cmd flags result pkt_at ∙ same_head in
      ap₂ (λ h k. window no_entry r.cap (entries out r) (index r h) k) head used-out
      ∙ ap (λ es. window no_entry r.cap es (index r (raw_head m r)) (suc (used m r)))
          (entries-set v.layout m out i (index-lt v.layout (raw_tail m r)) out-OnlyEntry)
      ∙ window_push no_entry r.cap (entries m r) (index r (raw_head m r)) (used m r) i
          (entry out r i) (length-tabulate (entry m r) 0 r.cap) (index-lt v.layout (raw_head m r))
          room at

  pub out-IsValid : IsValid out r
  out-IsValid = record {
    layout = subst (λ s. Layout s r) (sym (published-size n r ln tag cmd flags result pkt_at)) ln;
    bytes = published-IsBytes n r ln tag cmd flags result pkt_at d.bytes;
    window = omega (arith, used-out, room);
  }

  pub out-entry :
      tag < 2 ^ 32
      → flags < 2 ^ 16
      → result < 2 ^ 32
      → pkt_at < 2 ^ 32
      → entry out r i ≡ record {
        tag = tag;
        cmd = Frame.cmd_word cmd flags;
        result = result;
        pkt_at = pkt_at;
        payload = bytes_at n (slot_off r i) r.slot_bytes;
      }
  out-entry p q s t =
      subst
        (λ k. entry out r (index r k) ≡ record {
          tag = tag;
          cmd = Frame.cmd_word cmd flags;
          result = result;
          pkt_at = pkt_at;
          payload = bytes_at n (slot_off r (index r k)) r.slot_bytes;
        })
        same_tail (published-entry n r ln tag cmd flags result pkt_at p q s t)

  pub out-publish : publish n r tag cmd flags result pkt_at ≡ done out
  out-publish = publish-ok n r ln tag cmd flags result pkt_at

-- A payload copied into its slot, padded to a word, at `o`.
module _ (m : Memory) (r : Ring) (l : Layout m.size r) (b : IsBytes m) (i : ℕ) (h : i < r.cap)
    (bs : List ℕ) (small : All (λ b. b < 2 ^ 8) bs) (fits : padded (length bs) ≤ r.slot_bytes) where
  abbrev o : ℕ
  o = slot_off r i

  abbrev copied : Memory
  copied = copy_bytes m o bs

  abbrev pub laid : Memory
  laid = pad copied o (u32 (length bs))

  within : o + r.slot_bytes ≤ r.slot_base + r.cap * r.slot_bytes
  within = slot_within l i h

  plain : (u32 (length bs) ≡ length bs) × (u32 (o + length bs) ≡ o + length bs)
  plain = omega (arith, within, l)

  laid_eq : laid ≡ clear_bytes copied (o + length bs) (padded (length bs) - length bs)
  laid_eq = rw (plain.0, plain.1)

  outside : (lo hi : ℕ) → (hi ≤ o) ⊎ (o + r.slot_bytes ≤ lo) → Same m laid lo hi
  outside lo hi p =
      subst (λ n. Same m n lo hi) (sym laid_eq)
        (Same-trans m copied (clear_bytes copied (o + length bs) (padded (length bs) - length bs))
          lo hi (copy_bytes-Same m o bs lo hi (omega arith))
          (clear_bytes-Same copied _ _ lo hi (omega arith)))

  pub laid-Laid : Laid m laid r i
  laid-Laid = record {
    same_size = size-clear_bytes copied _ _ ∙ size-copy_bytes m o bs;
    bytes = clear_bytes-IsBytes copied _ _ (copy_bytes-IsBytes m o bs small b);
    ring = elim l.apart [
      | inl below ↦ outside _ _ (omega (arith, within))
      | inr above ↦ outside _ _ (omega (arith, within))
    ];
    below = outside _ _ (omega arith);
    above = outside _ _ (omega arith);
  }

  -- The slot then holds the bytes, zeros up to a whole word, and what it held past that.
  pub laid_payload :
      bytes_at laid o r.slot_bytes
      ≡ bs
        ++ (replicate (padded (length bs) - length bs) 0
            ++ bytes_at m (o + padded (length bs)) (r.slot_bytes - padded (length bs)))
  laid_payload =
      let n = length bs in
      let p = padded n in
      let z = clear_bytes copied (o + n) (p - n) in
      let up : n ≤ p = omega arith in
      rw (laid_eq) (
        bytes_at-append z o n (r.slot_bytes - n) r.slot_bytes (omega arith)
        ∙ ap₂ (λ (x y : List ℕ). x ++ y)
            (bytes_at-Same copied z o (o + n) o n (clear_bytes-Same copied _ _ _ _ (omega arith))
                (omega arith) (omega arith)
              ∙ bytes_at-copy m o bs)
            (bytes_at-append z (o + n) (p - n) (r.slot_bytes - p) (r.slot_bytes - n) (omega arith)
              ∙ ap₂ (λ (x y : List ℕ). x ++ y)
                  (bytes_at-clear copied (o + n) (p - n) (p - n) (o + n) (omega arith)
                    (omega arith))
                  (ap (λ k. bytes_at z k (r.slot_bytes - p)) (omega arith)
                    ∙ bytes_at-Same copied z (o + p) (o + r.slot_bytes) (o + p) (r.slot_bytes - p)
                        (clear_bytes-Same copied _ _ _ _ (omega arith)) (omega arith) (omega arith)
                    ∙ bytes_at-Same m copied (o + p) (o + r.slot_bytes) (o + p) (r.slot_bytes - p)
                        (copy_bytes-Same m o bs _ _ (omega arith)) (omega arith) (omega arith))))
