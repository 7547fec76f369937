-- ===== src/Guest/Ring/Init.antt =====
-- `init` makes a valid ring that holds nothing.
use native.Mathlib.Nat.{mod_self}
use Prim.Native.Nat.{bit_and}
use xpute.Common.{
  ℕ, ◌+◌, ◌-◌, ◌*◌, ◌%◌, ◌^◌, ◌≤◌, ◌<◌, ◌≡◌, refl, sym, subst, ap, ◌∙◌, arith, true, eq→==, ne→==,
  [],
}
use xpute.Common.Bits.{bit_and_mask, pow-two_pos}
use xpute.Collection.Deque.Refine.{window}
use xpute.Status.{done}
use xpute.Guest.Memory.{Memory, u32, raw_word, raw_set_word, clear_bytes}
use xpute.Guest.Memory.Laws.{
  IsBytes, word-at, set_word-at, raw_word-Same, raw_word-set, raw_set_word-Same,
  raw_set_word-IsBytes, clear_bytes-IsBytes, Same-trans,
}
use xpute.Guest.Ring.{Ring, index, power_of_two, ring_bytes, make, init}
use xpute.Guest.Ring.Inv.{Layout, IsValid, raw_head, used, cap_pos, slot_within}
use xpute.Guest.Ring.Queue.{entries, no_entry, queue}

power_of_two-pow : (n w : ℕ) → n ≡ 2 ^ w → power_of_two n ≡ true
unfolding power_of_two
power_of_two-pow n w e =
    let none_shared : bit_and n (n - 1) ≡ 0 = rw e (bit_and_mask w (2 ^ w) ∙ mod_self (2 ^ w)) in
    rw (ne→== n 0 (omega (arith, e, pow-two_pos w)), eq→== (bit_and n (n - 1)) 0 none_shared) refl

raw_word-clear :
    (m : Memory) (off n k : ℕ) → off ≤ k → k + 4 ≤ off + n → raw_word (clear_bytes m off n) k ≡ 0
unfolding raw_word clear_bytes
raw_word-clear m off n k p q = ground arith

module _ (m : Memory) (r : Ring) (l : Layout m.size r) (b : IsBytes m) (slot_width : ℕ)
    (slot_power : r.slot_bytes ≡ 2 ^ slot_width) where
  small : (r.cap < 2 ^ 32) × (r.slot_bytes < 2 ^ 32) × (r.slot_base < 2 ^ 32)
  small = (omega (arith, l), omega (arith, l, slot_within l 0 (cap_pos l)), omega (arith, l))

  abbrev cleared : Memory
  cleared = clear_bytes m r.at (ring_bytes r.cap)

  abbrev with_cap : Memory
  with_cap = raw_set_word cleared r.at r.cap

  abbrev with_slot : Memory
  with_slot = raw_set_word with_cap (r.at + 12) r.slot_bytes

  abbrev made : Memory
  made = raw_set_word with_slot (r.at + 16) r.slot_base

  whole : ring_bytes r.cap ≡ 4 * (8 + 4 * r.cap)
  whole = omega (arith, l)

  -- A word of the header that none of the three writes touches is 0.
  header-zero :
      (k : ℕ)
      → r.at ≤ k
      → k + 4 ≤ r.at + 4 * (8 + 4 * r.cap)
      → r.at + 4 ≤ k
      → k + 4 ≤ r.at + 12
      → raw_word made k ≡ 0
  header-zero k p q s t =
      raw_word-Same cleared made k (k + 4) k
        (Same-trans cleared with_cap made k (k + 4)
          (raw_set_word-Same cleared r.at r.cap k (k + 4) (omega arith))
          (Same-trans with_cap with_slot made k (k + 4)
            (raw_set_word-Same with_cap (r.at + 12) r.slot_bytes k (k + 4) (omega arith))
            (raw_set_word-Same with_slot (r.at + 16) r.slot_base k (k + 4) (omega arith))))
        (omega arith) (omega arith)
      ∙ raw_word-clear m r.at (ring_bytes r.cap) k p (omega (arith, whole))

  cap-back : raw_word made r.at ≡ r.cap
  cap-back =
      raw_word-Same with_cap made r.at (r.at + 4) r.at
        (Same-trans with_cap with_slot made r.at (r.at + 4)
          (raw_set_word-Same with_cap (r.at + 12) r.slot_bytes r.at (r.at + 4) (omega arith))
          (raw_set_word-Same with_slot (r.at + 16) r.slot_base r.at (r.at + 4) (omega arith)))
        (omega arith) (omega arith)
      ∙ raw_word-set cleared r.at r.cap small.0

  slot_bytes-back : raw_word made (r.at + 12) ≡ r.slot_bytes
  slot_bytes-back =
      raw_word-Same with_slot made (r.at + 12) (r.at + 16) (r.at + 12)
        (raw_set_word-Same with_slot (r.at + 16) r.slot_base (r.at + 12) (r.at + 16) (omega arith))
        (omega arith) (omega arith)
      ∙ raw_word-set with_cap (r.at + 12) r.slot_bytes small.1

  slot_base-back : raw_word made (r.at + 16) ≡ r.slot_base
  slot_base-back = raw_word-set with_slot (r.at + 16) r.slot_base small.2

  sizes :
      (cleared.size ≡ m.size)
      × (with_cap.size ≡ m.size)
      × (with_slot.size ≡ m.size)
      × (made.size ≡ m.size)
  unfolding raw_set_word clear_bytes
  sizes = (refl, refl, refl, refl)

  made-ok : make made r.at ≡ done r
  unfolding make
  made-ok =
      rw
        (
          word-at made (u32 (r.at + 4 * 0)) r.at (omega (arith, l)) (omega (arith, l, sizes)),
          word-at made (u32 (r.at + 4 * 3)) (r.at + 12) (omega (arith, l))
              (omega (arith, l, sizes)),
          word-at made (u32 (r.at + 4 * 4)) (r.at + 16) (omega (arith, l))
              (omega (arith, l, sizes)),
          cap-back,
          slot_bytes-back,
          slot_base-back,
          power_of_two-pow r.cap l.width l.power,
        )
        refl

  init-ok : init m r.at r.cap r.slot_base r.slot_bytes ≡ done (r, made)
  unfolding init
  init-ok =
      rw
        (
          power_of_two-pow r.cap l.width l.power,
          power_of_two-pow r.slot_bytes slot_width slot_power,
          eq→== (r.slot_bytes % 8) 0 l.whole,
          set_word-at cleared (u32 (r.at + 4 * 0)) r.at r.cap (omega (arith, l))
              (omega (arith, l, sizes)),
          set_word-at with_cap (u32 (r.at + 4 * 3)) (r.at + 12) r.slot_bytes (omega (arith, l))
              (omega (arith, l, sizes)),
          set_word-at with_slot (u32 (r.at + 4 * 4)) (r.at + 16) r.slot_base (omega (arith, l))
              (omega (arith, l, sizes)),
          made-ok,
        )
        refl

  none_used : used made r ≡ 0
  none_used = omega (
    arith,
    l,
    header-zero (r.at + 4) (omega arith) (omega (arith, cap_pos l)) (omega arith) (omega arith),
    header-zero (r.at + 8) (omega arith) (omega (arith, cap_pos l)) (omega arith) (omega arith),
  )

  -- In a memory of bytes where a ring may lie, with slots of a power of two bytes: `init` returns that
  -- ring, valid, and its queue is empty.
  pub init_correct :
      (m' : Memory) × (init m r.at r.cap r.slot_base r.slot_bytes ≡ done (r, m'))
      × IsValid m' r
      × (queue m' r ≡ [])
  unfolding window
  init_correct = (
    made,
    init-ok,
    record {
      layout = subst (λ s. Layout s r) (sym sizes.3) l;
      bytes = raw_set_word-IsBytes with_slot (r.at + 16) r.slot_base (
          raw_set_word-IsBytes with_cap (r.at + 12) r.slot_bytes (
            raw_set_word-IsBytes cleared r.at r.cap
              (clear_bytes-IsBytes m r.at (ring_bytes r.cap) b)));
      window = omega (arith, none_used);
    },
    ap (window no_entry r.cap (entries made r) (index r (raw_head made r))) none_used,
  )
