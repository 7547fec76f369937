-- ===== src/Guest/Ring/Packet.antt =====
-- `pkt`: a frame that the other side wrote names bytes of one slot, or is refused.
use native.Mathlib.Decide.{dec_lt}
use native.Mathlib.Nat.{div-add-mod}
use xpute.Common.{
  ℕ, ◌+◌, ◌-◌, ◌*◌, ◌/◌, ◌%◌, ◌^◌, ◌≤◌, ◌<◌, ◌≡◌, ◌≢◌, refl, ◌∙◌, ◌⊎◌, inl, inr, arith, ltb, ne→==,
  eq→==, lt→ltb, ge→ltb, if◌then◌else◌,
}
use xpute.Status.{Errno, done, Result, val, err, marshal_error}
use xpute.Guest.Memory.{Memory, u32, raw_word}
use xpute.Guest.Memory.Laws.{word-at}
use xpute.Guest.Frame.{Frame}
use xpute.Guest.Ring.{Ring, pkt, padded, slots_bytes}
use xpute.Guest.Ring.Inv.{IsValid}
use xpute.Guest.Ring.Queue.{slot_off}

-- What a packet's span may be: none for a frame with no packet, or the start of a slot and whole words
-- that end in it; the only error is EBADMSG.
abbrev pub InSlot : Ring → ℕ → Result (ℕ × ℕ) → Type 0
InSlot r pkt_at (val (off, n)) =
    ((pkt_at ≡ 0) × (off ≡ 0) × (n ≡ 0))
    ⊎ ((i : ℕ) × (i < r.cap)
        × (off ≡ slot_off r i)
        × (off ≡ pkt_at)
        × (16 ≤ n)
        × (n ≤ r.slot_bytes))
InSlot r pkt_at (err e) = e ≡ marshal_error Errno.ebadmsg

module _ (m : Memory) (r : Ring) (v : IsValid m r) (f : Frame) (in_range : f.pkt_at < 2 ^ 32) where
  abbrev off : ℕ
  off = f.pkt_at - r.slot_base

  spanned : slots_bytes r.cap r.slot_bytes ≡ r.cap * r.slot_bytes
  spanned = omega (arith, v.layout)

  abbrev slot : ℕ
  slot = off / r.slot_bytes

  -- An offset of whole slots that leaves room for a header is the start of a slot.
  slot_of : off % r.slot_bytes ≡ 0 → off ≡ slot * r.slot_bytes
  slot_of h = omega (arith, div-add-mod off r.slot_bytes)

  in_cap : off % r.slot_bytes ≡ 0 → off + 16 ≤ r.cap * r.slot_bytes → slot < r.cap
  in_cap h k = elim (dec_lt slot r.cap) [
    | yes p ↦ p
    | no p ↦
        let more : r.cap * r.slot_bytes ≤ slot * r.slot_bytes = grind arith in
        absurd (omega (arith, slot_of h))
  ]

  abbrev Safe : Type 0
  Safe = (x : Result (ℕ × ℕ)) × (pkt m r f ≡ done x) × InSlot r f.pkt_at x

  abbrev refused : Result (ℕ × ℕ)
  refused = err (marshal_error Errno.ebadmsg)

  abbrev span : ℕ
  span = padded (16 + raw_word m (f.pkt_at + 8))

  named :
      f.pkt_at ≢ 0
      → r.slot_base ≤ f.pkt_at
      → off % r.slot_bytes ≡ 0
      → off + 16 ≤ r.cap * r.slot_bytes
      → pkt m r f ≡ done (if ltb r.slot_bytes span then refused else val (f.pkt_at, span))
  unfolding pkt
  named some_pkt above whole room =
      rw
        (
          ne→== f.pkt_at 0 some_pkt,
          ge→ltb f.pkt_at r.slot_base above,
          eq→== (off % r.slot_bytes) 0 whole,
          spanned,
          ge→ltb (r.cap * r.slot_bytes) (off + 16) room,
          word-at m (u32 (f.pkt_at + 8)) (f.pkt_at + 8) (omega (arith, v.layout))
              (omega (arith, v.layout)),
        )
        refl

  in_slots :
      f.pkt_at ≢ 0
      → r.slot_base ≤ f.pkt_at
      → off % r.slot_bytes ≡ 0
      → off + 16 ≤ r.cap * r.slot_bytes
      → Safe
  in_slots some_pkt above whole room = elim (dec_lt r.slot_bytes span) [
    | yes long ↦
        (refused, named some_pkt above whole room ∙ rw (lt→ltb r.slot_bytes span long) refl, refl)
    | no short ↦ (
      val (f.pkt_at, span),
      named some_pkt above whole room ∙ rw (ge→ltb r.slot_bytes span (omega arith)) refl,
      inr (slot, in_cap whole room, omega (arith, slot_of whole), refl, omega arith, omega arith),
    )
  ]

  above_base : f.pkt_at ≢ 0 → r.slot_base ≤ f.pkt_at → Safe
  unfolding pkt
  above_base some_pkt above = elim (dec_lt 0 (off % r.slot_bytes)) [
    | no whole ↦ elim (dec_lt (r.cap * r.slot_bytes) (off + 16)) [
      | yes past ↦ (
        refused,
        rw
            (
              ne→== f.pkt_at 0 some_pkt,
              ge→ltb f.pkt_at r.slot_base above,
              eq→== (off % r.slot_bytes) 0 (omega arith),
              spanned,
              lt→ltb (r.cap * r.slot_bytes) (off + 16) past,
            )
            refl,
        refl,
      )
      | no room ↦ in_slots some_pkt above (omega arith) (omega arith)
    ]
    | yes part ↦ (
      refused,
      rw
          (
            ne→== f.pkt_at 0 some_pkt,
            ge→ltb f.pkt_at r.slot_base above,
            ne→== (off % r.slot_bytes) 0 (omega arith),
          )
          refl,
      refl,
    )
  ]

  -- On a valid ring, whatever the frame says, its offset of 32 bits: reading its packet returns, and
  -- answers the empty span for offset 0, EBADMSG, or a span that starts at a slot of the ring and ends
  -- within it.
  pub pkt_safe : (x : Result (ℕ × ℕ)) × (pkt m r f ≡ done x) × InSlot r f.pkt_at x
  unfolding pkt
  pkt_safe = elim (dec_lt 0 f.pkt_at) [
    | no no_pkt ↦
        (val (0, 0), rw (eq→== f.pkt_at 0 (omega arith)) refl, inl (omega arith, refl, refl))
    | yes some_pkt ↦ elim (dec_lt f.pkt_at r.slot_base) [
      | yes below ↦ (
        refused,
        rw (ne→== f.pkt_at 0 (omega arith), lt→ltb f.pkt_at r.slot_base below) refl,
        refl,
      )
      | no above ↦ above_base (omega arith) (omega arith)
    ]
  ]
