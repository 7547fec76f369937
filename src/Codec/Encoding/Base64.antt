-- ===== src/Codec/Encoding/Base64.antt =====
-- Base64url gives back what it was made of.
use Prim.Native.Nat.{bit_or}
use xpute.Common.{
  ℕ, ◌+◌, ◌-◌, ◌*◌, ◌/◌, ◌%◌, ◌^◌, ◌≤◌, ◌<◌, ◌≡◌, ◌≢◌, refl, ap, ap₂, ◌∙◌, arith, some, List, [],
  ◌∷◌, length, All, le→leb, eq→==, ne→==, true, ◌==◌, if◌then◌else◌,
}
use xpute.Common.Bits.{bit_and_mask, bit_or_high, bit_or-zero}
use xpute.Common.Range.{every, every-lt, names, names-some}
use xpute.Status.{done, val}
use xpute.Guest.Memory.{u32}
use xpute.Codec.Encoding.{
  b64url_char, b64url_val, base64url_text, base64url_encode, base64url_bytes, base64url_decode,
  base64url_len, sextet, group_word, group_bytes, before,
}

digits : every (λ i. names (b64url_val (b64url_char i)) i) 64 ≡ true
unfolding every b64url_val
digits = refl

b64url_val-sextet : (w shift : ℕ) → b64url_val (sextet w shift) ≡ some (w / 2 ^ shift % 64)
b64url_val-sextet w shift =
    let v = w / 2 ^ shift in
    rw (bit_and_mask 6 v) (
      names-some (b64url_val (b64url_char (v % 64))) (v % 64)
        (every-lt (λ k. names (b64url_val (b64url_char k)) k) 64 (v % 64) digits (omega arith)))

-- Four values are the digits of a word in base 64.
group_word-digits :
    (a b c d : ℕ)
    → a < 64
    → b < 64
    → c < 64
    → d < 64
    → group_word (some a) (some b) (some c) (some d) ≡ some (((a * 64 + b) * 64 + c) * 64 + d)
group_word-digits a b c d p q r s =
    let e₁ : bit_or (u32 (0 * 64)) a ≡ a = omega (arith, bit_or_high 6 0 a p) in
    let f₂ : u32 (a * 64) ≡ a * 64 = omega arith in
    let e₂ : bit_or (a * 64) b ≡ a * 64 + b = bit_or_high 6 a b q in
    let f₃ : u32 ((a * 64 + b) * 64) ≡ (a * 64 + b) * 64 = omega arith in
    let e₃ : bit_or ((a * 64 + b) * 64) c ≡ (a * 64 + b) * 64 + c =
      bit_or_high 6 (a * 64 + b) c r in
    let f₄ : u32 (((a * 64 + b) * 64 + c) * 64) ≡ ((a * 64 + b) * 64 + c) * 64 = omega arith in
    let e₄ : bit_or (((a * 64 + b) * 64 + c) * 64) d ≡ ((a * 64 + b) * 64 + c) * 64 + d =
      bit_or_high 6 ((a * 64 + b) * 64 + c) d s in
    rw (e₁, f₂, e₂, f₃, e₃, f₄, e₄) refl

-- The word of 24 bits that a group's four digits are taken from comes back from them.
group_word-sextets :
    (w : ℕ)
    → w < 2 ^ 24
    → group_word
        (b64url_val (sextet w 18))
        (b64url_val (sextet w 12))
        (b64url_val (sextet w 6))
        (b64url_val (sextet w 0))
      ≡ some w
group_word-sextets w h =
    rw
      (b64url_val-sextet w 18, b64url_val-sextet w 12, b64url_val-sextet w 6, b64url_val-sextet w 0)
      (group_word-digits (w / 2 ^ 18 % 64) (w / 2 ^ 12 % 64) (w / 2 ^ 6 % 64) (w / 2 ^ 0 % 64)
          (omega arith) (omega arith) (omega arith) (omega arith)
        ∙ ap some (omega arith))

group_word-three :
    (w : ℕ)
    → w < 2 ^ 24
    → w % 64 ≡ 0
    → group_word
        (b64url_val (sextet w 18))
        (b64url_val (sextet w 12))
        (b64url_val (sextet w 6))
        (some 0)
      ≡ some w
group_word-three w h z =
    rw (b64url_val-sextet w 18, b64url_val-sextet w 12, b64url_val-sextet w 6)
      (group_word-digits (w / 2 ^ 18 % 64) (w / 2 ^ 12 % 64) (w / 2 ^ 6 % 64) 0 (omega arith)
          (omega arith) (omega arith) (omega arith)
        ∙ ap some (omega arith))

group_word-two :
    (w : ℕ)
    → w < 2 ^ 24
    → w % 4096 ≡ 0
    → group_word (b64url_val (sextet w 18)) (b64url_val (sextet w 12)) (some 0) (some 0) ≡ some w
group_word-two w h z =
    rw (b64url_val-sextet w 18, b64url_val-sextet w 12)
      (group_word-digits (w / 2 ^ 18 % 64) (w / 2 ^ 12 % 64) 0 0 (omega arith) (omega arith)
          (omega arith) (omega arith)
        ∙ ap some (omega arith))

-- The words of one, two and three bytes as sums.
word_one : (a : ℕ) → bit_or (a * 2 ^ 16) 0 ≡ a * 2 ^ 16
word_one a = bit_or-zero (a * 2 ^ 16)

word_two : (a b : ℕ) → b < 2 ^ 8 → bit_or (a * 2 ^ 16) (b * 2 ^ 8) ≡ a * 2 ^ 16 + b * 2 ^ 8
word_two a b q = bit_or_high 16 a (b * 2 ^ 8) (omega arith)

word_three :
    (a b c : ℕ)
    → b < 2 ^ 8
    → c < 2 ^ 8
    → bit_or (bit_or (a * 2 ^ 16) (b * 2 ^ 8)) c ≡ a * 2 ^ 16 + b * 2 ^ 8 + c
word_three a b c q r =
    let apart : a * 2 ^ 16 + b * 2 ^ 8 ≡ (a * 2 ^ 8 + b) * 2 ^ 8 = omega arith in
    ap (λ x. bit_or x c) (word_two a b q ∙ apart) ∙ bit_or_high 8 (a * 2 ^ 8 + b) c r ∙ omega arith

-- The bytes that a group's word holds.
last_one : (w a : ℕ) → w ≡ a * 2 ^ 16 → a < 2 ^ 8 → group_bytes 2 (some w) ≡ some (a ∷ [])
last_one w a e p =
    rw (bit_and_mask 16 w, eq→== (w % 2 ^ 16) 0 (omega arith))
      (ap (λ x. some (x ∷ [])) (omega arith))

last_two :
    (w a b : ℕ)
    → w ≡ a * 2 ^ 16 + b * 2 ^ 8
    → a < 2 ^ 8
    → b < 2 ^ 8
    → group_bytes 3 (some w) ≡ some (a ∷ b ∷ [])
last_two w a b e p q =
    rw (bit_and_mask 8 w, eq→== (w % 2 ^ 8) 0 (omega arith))
      (ap₂ (λ x y. some (x ∷ y ∷ [])) (omega arith) (omega arith))

whole :
    (w a b c : ℕ)
    → w ≡ a * 2 ^ 16 + b * 2 ^ 8 + c
    → a < 2 ^ 8
    → b < 2 ^ 8
    → c < 2 ^ 8
    → group_bytes 4 (some w) ≡ some (a ∷ b ∷ c ∷ [])
whole w a b c e p q r =
    ap₂ (λ x (r : List ℕ). some (x ∷ r)) (omega arith)
      (ap₂ (λ x y. x ∷ y ∷ []) (omega arith) (omega arith))

-- No text's length is one past whole groups, and a text's length gives back its bytes'.
lengths :
    (n : ℕ)
    → let c = base64url_len n in
      (c % 4 ≢ 1) × (c / 4 * 3 + (if c % 4 == 0 then 0 else c % 4 - 1) ≡ n)
lengths n = ground arith

length-base64url_text : (bs : List ℕ) → length (base64url_text bs) ≡ base64url_len (length bs)
unfolding base64url_text
length-base64url_text [] = refl
length-base64url_text (a ∷ []) = refl
length-base64url_text (a ∷ b ∷ []) = refl
length-base64url_text (a ∷ b ∷ c ∷ bs) = ground (arith, length-base64url_text bs)

base64url_bytes-base64url_text :
    (bs : List ℕ) → All (λ b. b < 2 ^ 8) bs → base64url_bytes (base64url_text bs) ≡ some bs
unfolding base64url_bytes base64url_text
base64url_bytes-base64url_text [] x = refl
base64url_bytes-base64url_text (a ∷ []) (p, x) =
    let w = bit_or (a * 2 ^ 16) 0 in
    let e = word_one a in
    ap (group_bytes 2) (group_word-two w (omega arith) (omega arith)) ∙ last_one w a e p
base64url_bytes-base64url_text (a ∷ b ∷ []) (p, (q, x)) =
    let w = bit_or (a * 2 ^ 16) (b * 2 ^ 8) in
    let e = word_two a b q in
    ap (group_bytes 3) (group_word-three w (omega arith) (omega arith)) ∙ last_two w a b e p q
base64url_bytes-base64url_text (a ∷ b ∷ c ∷ bs) (p, (q, (r, x))) =
    let w = bit_or (bit_or (a * 2 ^ 16) (b * 2 ^ 8)) c in
    let e = word_three a b c q r in
    ap₂ before (ap (group_bytes 4) (group_word-sextets w (omega arith)) ∙ whole w a b c e p q r)
      (base64url_bytes-base64url_text bs x)

-- Bytes written as base64url, with the room that takes, are text of the length that it says, and read
-- back with room for as many bytes they are the same bytes.
pub base64url_decode-base64url_encode :
    (bs : List ℕ) (room back : ℕ)
    → All (λ b. b < 2 ^ 8) bs
    → base64url_len (length bs) ≤ room
    → length bs ≤ back
    → (text : List ℕ) × (base64url_encode bs room ≡ done text)
      × (length text ≡ base64url_len (length bs))
      × (base64url_decode text back ≡ done (val bs))
unfolding base64url_encode base64url_decode
base64url_decode-base64url_encode bs room back a p q =
    let size = length-base64url_text bs in
    (
      base64url_text bs,
      rw (le→leb (base64url_len (length bs)) room p) refl,
      size,
      rw
          (
            size,
            ne→== (base64url_len (length bs) % 4) 1 (lengths (length bs)).0,
            (lengths (length bs)).1,
            le→leb (length bs) back q,
            base64url_bytes-base64url_text bs a,
          )
          refl,
    )
