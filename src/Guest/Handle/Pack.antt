-- ===== src/Guest/Handle/Pack.antt =====
-- A handle's two fields are read back as they were packed.
use xpute.Common.{ℕ, ◌+◌, ◌*◌, ◌/◌, ◌%◌, ◌^◌, ◌<◌, ◌≡◌, arith}
use xpute.Common.Bits.{bit_and_mask, bit_or_low}
use xpute.Guest.Handle.{handle_slot, handle_of}

pub handle_slot-mod : (h : ℕ) → handle_slot h ≡ h % 2 ^ 16
unfolding handle_slot
handle_slot-mod h = bit_and_mask 16 h

pub handle_of-add : (s g : ℕ) → s < 2 ^ 16 → g < 2 ^ 16 → handle_of s g ≡ s + g * 2 ^ 16
unfolding handle_of
handle_of-add s g p q =
    let fits : g * 2 ^ 16 % 2 ^ 32 ≡ g * 2 ^ 16 = omega arith in rw fits (bit_or_low 16 s g p)

-- The slot and the generation of a handle are those that it was made of, and a handle of a
-- generation that is not 0 is not 0.
pub handle_fields :
    (s g : ℕ)
    → s < 2 ^ 16
    → g < 2 ^ 16
    → (handle_slot (handle_of s g) ≡ s) × (handle_of s g / 2 ^ 16 ≡ g)
handle_fields s g p q = omega (arith, handle_of-add s g p q, handle_slot-mod (handle_of s g))

-- Two handles of one slot and one generation are one number.
pub handle_unique : (h k : ℕ) → handle_slot h ≡ handle_slot k → h / 2 ^ 16 ≡ k / 2 ^ 16 → h ≡ k
handle_unique h k p q = omega (arith, handle_slot-mod h, handle_slot-mod k)
