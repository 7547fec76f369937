-- ===== src/Codec/Encoding/Hex.antt =====
-- Hex gives back what it was made of.
use Prim.Native.Nat.{bit_and}
use xpute.Common.{
  ℕ, ◌*◌, ◌/◌, ◌%◌, ◌^◌, ◌≤◌, ◌<◌, ◌≡◌, refl, ap, ap₂, arith, some, List, [], ◌∷◌, length, All,
  le→leb, eq→==, true,
}
use xpute.Common.Bits.{bit_and_mask, bit_or_high}
use xpute.Common.Range.{every, every-lt, names, names-some}
use xpute.Status.{done, val}
use xpute.Codec.Encoding.{
  hex_char, hex_val, hex_text, hex_encode, hex_bytes, hex_decode, hex_len, one, both, hex_byte,
  before,
}

hex_digits : every (λ i. names (hex_val (hex_char i)) i) 16 ≡ true
unfolding every hex_val
hex_digits = refl

hex_val-hex_char : (i : ℕ) → i < 16 → hex_val (hex_char i) ≡ some i
hex_val-hex_char i h =
    names-some (hex_val (hex_char i)) i
      (every-lt (λ k. names (hex_val (hex_char k)) k) 16 i hex_digits h)

length-hex_text : (bs : List ℕ) → length (hex_text bs) ≡ length bs * 2
unfolding hex_text
length-hex_text [] = refl
length-hex_text (b ∷ bs) = omega (arith, length-hex_text bs)

hex_byte-digits :
    (b : ℕ)
    → b < 2 ^ 8
    → hex_byte (both (hex_val (hex_char (b / 2 ^ 4))) (hex_val (hex_char (bit_and b 15)))) ≡ some b
hex_byte-digits b p =
    let low = bit_and_mask 4 b in
    rw (low, hex_val-hex_char (b / 2 ^ 4) (omega arith), hex_val-hex_char (b % 2 ^ 4) (omega arith))
      (ap some (omega (arith, bit_or_high 4 (b / 2 ^ 4) (b % 2 ^ 4) (omega arith))))

hex_bytes-hex_text : (bs : List ℕ) → All (λ b. b < 2 ^ 8) bs → hex_bytes (hex_text bs) ≡ some bs
unfolding hex_bytes hex_text
hex_bytes-hex_text [] a = refl
hex_bytes-hex_text (b ∷ bs) (p, a) =
    ap₂ (λ x y. before (one x) y) (hex_byte-digits b p) (hex_bytes-hex_text bs a)

-- Bytes written as hex, with room for twice as many characters, are text of that length, and read back
-- with room for as many bytes they are the same bytes.
pub hex_decode-hex_encode :
    (bs : List ℕ) (room back : ℕ)
    → All (λ b. b < 2 ^ 8) bs
    → hex_len (length bs) ≤ room
    → length bs ≤ back
    → (text : List ℕ) × (hex_encode bs room ≡ done text)
      × (length text ≡ hex_len (length bs))
      × (hex_decode text back ≡ done (val bs))
unfolding hex_encode hex_decode
hex_decode-hex_encode bs room back a p q =
    let size = length-hex_text bs in
    (
      hex_text bs,
      rw (le→leb (hex_len (length bs)) room p) refl,
      size,
      rw
          (
            size,
            eq→== (length bs * 2 % 2) 0 (omega arith),
            le→leb (length bs * 2 / 2) back (omega arith),
            hex_bytes-hex_text bs a,
          )
          refl,
    )
