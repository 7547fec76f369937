-- ===== src/Codec/Encoding.antt =====
-- kit/codec/encoding.cpp and encoding.hpp: hex and unpadded base64url. Text is a list of character
-- codes. Both write their output from its start, one place after another: a call answers what it
-- wrote, and is given the output's size as `room`. What a call that failed wrote before is not kept.
pub mod Hex
pub mod Base64
mod Tests
use Prim.Native.Nat.{bit_and, bit_or}
use xpute.Common.{
  ℕ, zero, suc, ◌+◌, ◌-◌, ◌*◌, ◌/◌, ◌%◌, ◌^◌, Bool, true, false, not, ◌&&◌, ◌||◌, Option, none,
  some, List, [], ◌∷◌, ◌++◌, length, get_or, ltb, leb, ◌==◌, if◌then◌else◌,
}
use xpute.Status.{Errno, Run, done, ◌>>=◌, ◌>>◌, ensure, Result, val, err, marshal_error}
use xpute.Guest.Memory.{u32}

-- "0123456789abcdef".
abbrev pub hex_chars : List ℕ
hex_chars = 48 ∷ 49 ∷ 50 ∷ 51 ∷ 52 ∷ 53 ∷ 54 ∷ 55 ∷ 56 ∷ 57 ∷ 97 ∷ 98 ∷ 99 ∷ 100 ∷ 101 ∷ 102 ∷ []

abbrev pub hex_char : ℕ → ℕ
hex_char i = get_or hex_chars i 0

-- 'A' to 'Z', 'a' to 'z', '0' to '9', '-' and '_'.
abbrev pub b64url_char : ℕ → ℕ
b64url_char i =
    if ltb i 26
    then 65 + i
    else if ltb i 52
    then 97 + (i - 26)
    else if ltb i 62
    then 48 + (i - 52)
    else if i == 62
    then 45
    else if i == 63
    then 95
    else 0

-- A character's value; none stands for the source's -1.
unfoldable pub hex_val : ℕ → Option ℕ
hex_val c =
    if leb 48 c && leb c 57
    then some (c - 48)
    else if leb 97 c && leb c 102
    then some (c - 97 + 10)
    else if leb 65 c && leb c 70
    then some (c - 65 + 10)
    else none

unfoldable pub b64url_val : ℕ → Option ℕ
b64url_val c =
    if leb 65 c && leb c 90
    then some (c - 65)
    else if leb 97 c && leb c 122
    then some (c - 97 + 26)
    else if leb 48 c && leb c 57
    then some (c - 48 + 52)
    else if c == 45
    then some 62
    else if c == 95
    then some 63
    else none

abbrev pub hex_len : ℕ → ℕ
hex_len bytes = bytes * 2

abbrev pub base64url_len : ℕ → ℕ
base64url_len bytes = bytes / 3 * 4 + (if bytes % 3 == 0 then 0 else bytes % 3 + 1)

pub hex_text : List ℕ → List ℕ
hex_text [] = []
hex_text (b ∷ bs) = hex_char (b / 2 ^ 4) ∷ hex_char (bit_and b 15) ∷ hex_text bs

pub hex_encode : List ℕ → ℕ → Run (List ℕ)
unfolding hex_text
hex_encode bs room = do ensure (leb (hex_len (length bs)) room) Errno.enospc; done (hex_text bs)

abbrev pub both : Option ℕ → Option ℕ → Option (ℕ × ℕ)
both (some a) (some b) = some (a, b)
both (some a) none = none
both none b = none

abbrev pub hex_byte : Option (ℕ × ℕ) → Option ℕ
hex_byte none = none
hex_byte (some (hi, lo)) = some (bit_or (hi * 2 ^ 4) lo % 2 ^ 8)

-- One decoded byte before the rest, where both decode.
abbrev pub before : Option (List ℕ) → Option (List ℕ) → Option (List ℕ)
before none r = none
before (some b) none = none
before (some b) (some bs) = some (b ++ bs)

abbrev pub one : Option ℕ → Option (List ℕ)
one none = none
one (some b) = some (b ∷ [])

pub hex_bytes : List ℕ → Option (List ℕ)
hex_bytes [] = some []
hex_bytes (c ∷ []) = none
hex_bytes (c ∷ d ∷ cs) = before (one (hex_byte (both (hex_val c) (hex_val d)))) (hex_bytes cs)

abbrev pub answer : Option (List ℕ) → Result (List ℕ)
answer none = err (marshal_error Errno.ebadmsg)
answer (some bs) = val bs

pub hex_decode : List ℕ → ℕ → Run (Result (List ℕ))
unfolding hex_bytes
hex_decode cs room =
    if not (length cs % 2 == 0)
    then done (err (marshal_error Errno.ebadmsg))
    else (do ensure (leb (length cs / 2) room) Errno.enospc; done (answer (hex_bytes cs)))

-- `w >> shift & 63`, as a character.
abbrev pub sextet : ℕ → ℕ → ℕ
sextet w shift = b64url_char (bit_and (w / 2 ^ shift) 63)

-- The last group has one or two bytes left.
pub base64url_text : List ℕ → List ℕ
base64url_text [] = []
base64url_text (a ∷ []) = let w = bit_or (a * 2 ^ 16) 0 in sextet w 18 ∷ sextet w 12 ∷ []
base64url_text (a ∷ b ∷ []) =
    let w = bit_or (a * 2 ^ 16) (b * 2 ^ 8) in sextet w 18 ∷ sextet w 12 ∷ sextet w 6 ∷ []
base64url_text (a ∷ b ∷ c ∷ rest) =
    let w = bit_or (bit_or (a * 2 ^ 16) (b * 2 ^ 8)) c in
    sextet w 18 ∷ sextet w 12 ∷ sextet w 6 ∷ sextet w 0 ∷ base64url_text rest

pub base64url_encode : List ℕ → ℕ → Run (List ℕ)
unfolding base64url_text
base64url_encode bs room = do
  ensure (leb (base64url_len (length bs)) room) Errno.enospc
  done (base64url_text bs)

-- One character's value after the word so far; a place past the group's end is 0.
abbrev pub shifted : Option ℕ → Option ℕ → Option ℕ
shifted none v = none
shifted (some w) none = none
shifted (some w) (some v) = some (bit_or (u32 (w * 2 ^ 6)) v)

-- The word of a group of up to four characters, and none where one has no value.
abbrev pub group_word : Option ℕ → Option ℕ → Option ℕ → Option ℕ → Option ℕ
group_word v₀ v₁ v₂ v₃ = shifted (shifted (shifted (shifted (some 0) v₀) v₁) v₂) v₃

-- The bytes of a group of `n` characters; bits past the last byte must be 0.
abbrev pub group_bytes : ℕ → Option ℕ → Option (List ℕ)
group_bytes n none = none
group_bytes n (some w) =
    if (n == 2 && not (bit_and w (2 ^ 16 - 1) == 0)) || (n == 3 && not (bit_and w (2 ^ 8 - 1) == 0))
    then none
    else some (
        w / 2 ^ 16 % 2 ^ 8
        ∷ ((if ltb 2 n then w / 2 ^ 8 % 2 ^ 8 ∷ [] else [])
            ++ (if ltb 3 n then w % 2 ^ 8 ∷ [] else [])))

pub base64url_bytes : List ℕ → Option (List ℕ)
base64url_bytes [] = some []
base64url_bytes (c ∷ []) = group_bytes 1 (group_word (b64url_val c) (some 0) (some 0) (some 0))
base64url_bytes (c ∷ d ∷ []) =
    group_bytes 2 (group_word (b64url_val c) (b64url_val d) (some 0) (some 0))
base64url_bytes (c ∷ d ∷ e ∷ []) =
    group_bytes 3 (group_word (b64url_val c) (b64url_val d) (b64url_val e) (some 0))
base64url_bytes (c ∷ d ∷ e ∷ f ∷ cs) =
    before (group_bytes 4 (group_word (b64url_val c) (b64url_val d) (b64url_val e) (b64url_val f)))
      (base64url_bytes cs)

pub base64url_decode : List ℕ → ℕ → Run (Result (List ℕ))
unfolding base64url_bytes
base64url_decode cs room =
    if length cs % 4 == 1 then done (err (marshal_error Errno.ebadmsg)) else (do
      let rest = if length cs % 4 == 0 then 0 else length cs % 4 - 1
      ensure (leb (length cs / 4 * 3 + rest) room) Errno.enospc
      done (answer (base64url_bytes cs)))
