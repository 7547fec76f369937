-- ===== src/Guest/Ring/Inv.antt =====
-- The invariant of a ring in memory, and the addresses that its operations compute: none wraps, and
-- what belongs to one position lies apart from what belongs to another.
use native.Mathlib.Decide.{dec_lt}
use native.Mathlib.Nat.{mod-mod_of_dvd, mod-lt, pow-suc, mod-add-mod, dvd-mul_right}
use Prim.Native.Nat.{◌∣◌}
use xpute.Common.{
  ℕ, zero, suc, ◌+◌, ◌-◌, ◌*◌, ◌%◌, ◌^◌, ◌≤◌, ◌<◌, ◌≡◌, sym, subst, ap, ◌∙◌, ◌⊎◌, arith,
}
use xpute.Common.Bits.{bit_and_mask, pow-two_pos}
use xpute.Guest.Memory.{Memory, u32, raw_word}
use xpute.Guest.Memory.Laws.{IsBytes}
use xpute.Guest.Ring.{Ring, index, entry_at, slot_at}

abbrev pub raw_head : Memory → Ring → ℕ
raw_head m r = raw_word m (r.at + 4)

abbrev pub raw_tail : Memory → Ring → ℕ
raw_tail m r = raw_word m (r.at + 8)

-- How far the producer is ahead, its position having wrapped or not.
abbrev pub used : Memory → Ring → ℕ
used m r = u32 (raw_tail m r + 2 ^ 32 - raw_head m r)

-- Where a ring lies: its header and frames in one range, its slots in another, both in the memory,
-- whose size fits 32 bits; `width` is the cap's logarithm.
pub record Layout (size : ℕ) (r : Ring) : Type 0 where
  pub width : ℕ
  pub power : r.cap ≡ 2 ^ width
  pub small : size < 2 ^ 32
  pub frames_in : r.at + 4 * (8 + 4 * r.cap) ≤ size
  pub slots_in : r.slot_base + r.cap * r.slot_bytes ≤ size
  pub based : 0 < r.slot_base
  pub sized : 0 < r.slot_bytes
  pub whole : r.slot_bytes % 8 ≡ 0
  pub apart :
      (r.slot_base + r.cap * r.slot_bytes ≤ r.at) ⊎ (r.at + 4 * (8 + 4 * r.cap) ≤ r.slot_base)

pub record IsValid (m : Memory) (r : Ring) : Type 0 where
  pub layout : Layout m.size r
  pub bytes : IsBytes m
  pub window : used m r ≤ r.cap

pow_dvd : (n w : ℕ) → w ≤ n → (q : ℕ) × (2 ^ n ≡ 2 ^ w * q)
pow_dvd zero zero h = (1, omega arith)
pow_dvd zero (suc w) h = absurd (omega arith)
pow_dvd (suc n) w h = elim (dec_lt w (suc n)) [
  | yes p ↦ let (q, e) = pow_dvd n w (omega arith) in (q * 2, omega (arith, e, pow-suc 2 n))
  | no p ↦ let same : suc n ≡ w = omega arith in (1, omega (arith, ap (λ k. 2 ^ k) same))
]

-- A power of two that fits 32 bits divides 2^32.
wrap_dvd : (c w : ℕ) → c ≡ 2 ^ w → c ≤ 2 ^ 32 → c ∣ 2 ^ 32
wrap_dvd c w e h = elim (dec_lt 32 w) [
  | yes p ↦ let (q, f) = pow_dvd w 33 (omega arith) in absurd (grind (arith, pow-two_pos w))
  | no p ↦
      let (q, f) = pow_dvd 32 w (omega arith) in
      subst (λ m. c ∣ m) (sym f) (subst (λ b. b ∣ 2 ^ w * q) (sym e) (dvd-mul_right (2 ^ w) q))
]

module _ {size : ℕ} {r : Ring} (l : Layout size r) where
  pub cap_pos : 0 < r.cap
  cap_pos = rw l.power (pow-two_pos l.width)

  pub index-mod : (pos : ℕ) → index r pos ≡ pos % r.cap
  index-mod pos = rw l.power (bit_and_mask l.width pos)

  pub index-lt : (pos : ℕ) → index r pos < r.cap
  index-lt pos = rw (index-mod pos) (mod-lt pos cap_pos)

  -- The index `n` positions on, also where the position wraps past 0.
  pub index-add : (pos n : ℕ) → index r (u32 (pos + n)) ≡ (index r pos + n) % r.cap
  index-add pos n =
      let fits : r.cap ≤ 2 ^ 32 = omega (arith, l.frames_in, l.small) in
      rw (index-mod (u32 (pos + n)), index-mod pos)
        (mod-mod_of_dvd r.cap (pos + n) (wrap_dvd r.cap l.width l.power fits)
          ∙ sym (mod-add-mod pos r.cap n))

  pub frame_addr :
      (pos : ℕ) → u32 (r.at + u32 (4 * entry_at r pos)) ≡ r.at + 4 * (8 + 4 * index r pos)
  frame_addr pos = omega (arith, index-lt pos, l.frames_in, l.small)

  pub slot_within :
      (i : ℕ)
      → i < r.cap
      → r.slot_base + i * r.slot_bytes + r.slot_bytes ≤ r.slot_base + r.cap * r.slot_bytes
  slot_within i h = grind arith

  pub slot_addr : (pos : ℕ) → slot_at r pos ≡ r.slot_base + index r pos * r.slot_bytes
  slot_addr pos = omega (arith, slot_within (index r pos) (index-lt pos), l.slots_in, l.small)

pub slot_before : (b i j s : ℕ) → i < j → b + i * s + s ≤ b + j * s
slot_before b i j s h = grind arith
