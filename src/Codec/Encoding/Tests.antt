-- ===== src/Codec/Encoding/Tests.antt =====
-- Runs of the codecs, and the witnesses.
use native.Mathlib.Omega.{arith}
use xpute.Common.{ℕ, ◌≡◌, refl, List, [], ◌∷◌, length}
use xpute.Status.{Errno, done, val, err, marshal_error}
use xpute.Codec.Encoding.{
  hex_encode, hex_bytes, hex_decode, hex_val, hex_len, base64url_encode, base64url_decode,
  base64url_len, base64url_bytes, b64url_val,
}
use xpute.Codec.Encoding.Hex.{hex_decode-hex_encode}
use xpute.Codec.Encoding.Base64.{base64url_decode-base64url_encode}

-- "ff" and "0A", which either case spells.
upper_case : hex_decode (102 ∷ 102 ∷ 48 ∷ 65 ∷ []) 2 ≡ done (val (255 ∷ 10 ∷ []))
unfolding hex_decode hex_bytes hex_val
upper_case = refl

odd_length : hex_decode (48 ∷ []) 4 ≡ done (err (marshal_error Errno.ebadmsg))
unfolding hex_decode
odd_length = refl

-- "Zg" is the byte of 'f', and "Zh" has bits set past it.
one_byte : base64url_decode (90 ∷ 103 ∷ []) 1 ≡ done (val (102 ∷ []))
unfolding base64url_decode base64url_bytes b64url_val
one_byte = refl

bits_past : base64url_decode (90 ∷ 104 ∷ []) 1 ≡ done (err (marshal_error Errno.ebadmsg))
unfolding base64url_decode base64url_bytes b64url_val
bits_past = refl

hex_decode-hex_encode_example :
    (text : List ℕ) × (hex_encode (255 ∷ 7 ∷ []) 4 ≡ done text)
    × (length text ≡ hex_len 2)
    × (hex_decode text 2 ≡ done (val (255 ∷ 7 ∷ [])))
hex_decode-hex_encode_example =
    hex_decode-hex_encode (255 ∷ 7 ∷ []) 4 2 (omega arith, (omega arith, tt)) (omega arith)
      (omega arith)

base64url_decode-base64url_encode_example :
    (text : List ℕ) × (base64url_encode (1 ∷ 2 ∷ 3 ∷ 255 ∷ []) 6 ≡ done text)
    × (length text ≡ base64url_len 4)
    × (base64url_decode text 4 ≡ done (val (1 ∷ 2 ∷ 3 ∷ 255 ∷ [])))
base64url_decode-base64url_encode_example =
    base64url_decode-base64url_encode (1 ∷ 2 ∷ 3 ∷ 255 ∷ []) 6 4
      (omega arith, (omega arith, (omega arith, (omega arith, tt)))) (omega arith) (omega arith)
