-- ===== src/Wire/Tlv.antt =====
-- kit/wire/tlv.hpp and tlv.cpp: values one after another, each a tag and a payload, up to an end. A
-- signed number and a float are their bit patterns, text is its bytes. The sums of the source are of 64
-- bits and of a length below 2^32, so they do not wrap.
pub mod Step
pub mod RoundTrip
pub mod Ends
mod Tests
use xpute.Common.{
  ℕ, zero, suc, ◌+◌, ◌*◌, ◌/◌, ◌%◌, ◌^◌, Bool, true, false, not, Option, none, some, List, [], ◌∷◌,
  ◌++◌, length, take, drop, get_or, ltb, leb, ◌==◌, if◌then◌else◌,
}
use xpute.Status.{Errno, Result, val, err, marshal_error}

pub data Tag : Type 0 where
  end boolean u8 i8 u16 i16 u32 i32 u64 i64 f32 f64 str bytes : Tag

abbrev pub tag_byte : Tag → ℕ
tag_byte Tag.end = 0
tag_byte Tag.boolean = 1
tag_byte Tag.u8 = 2
tag_byte Tag.i8 = 3
tag_byte Tag.u16 = 4
tag_byte Tag.i16 = 5
tag_byte Tag.u32 = 6
tag_byte Tag.i32 = 7
tag_byte Tag.u64 = 8
tag_byte Tag.i64 = 9
tag_byte Tag.f32 = 10
tag_byte Tag.f64 = 11
tag_byte Tag.str = 16
tag_byte Tag.bytes = 32

pub data End : Type 0 where
  closed unclosed : End

pub data Value : Type 0 where
  boolean : Bool → Value
  u8 i8 u16 i16 u32 i32 u64 i64 f32 f64 : ℕ → Value
  str bytes : List ℕ → Value

-- The low `n` bytes of a number, low byte first, and the number that bytes are.
unfoldable pub le : ℕ → ℕ → List ℕ
le zero x = []
le (suc n) x = x % 2 ^ 8 ∷ le n (x / 2 ^ 8)

unfoldable pub from_le : List ℕ → ℕ
from_le [] = 0
from_le (b ∷ bs) = b + 2 ^ 8 * from_le bs

pub record Writer : Type 0 where
  pub buf : List ℕ
  pub sealed : Bool

abbrev pub tagged : Tag → List ℕ → List ℕ
tagged t payload = tag_byte t ∷ payload

abbrev pub flag : Bool → ℕ
flag true = 1
flag false = 0

-- What `put` appends.
unfoldable pub put : Value → List ℕ
unfolding le
put (Value.boolean x) = tagged Tag.boolean (flag x ∷ [])
put (Value.u8 x) = tagged Tag.u8 (le 1 x)
put (Value.i8 x) = tagged Tag.i8 (le 1 x)
put (Value.u16 x) = tagged Tag.u16 (le 2 x)
put (Value.i16 x) = tagged Tag.i16 (le 2 x)
put (Value.u32 x) = tagged Tag.u32 (le 4 x)
put (Value.i32 x) = tagged Tag.i32 (le 4 x)
put (Value.u64 x) = tagged Tag.u64 (le 8 x)
put (Value.i64 x) = tagged Tag.i64 (le 8 x)
put (Value.f32 x) = tagged Tag.f32 (le 4 x)
put (Value.f64 x) = tagged Tag.f64 (le 8 x)
put (Value.str s) = tagged Tag.str (le 4 (length s % 2 ^ 32) ++ s)
put (Value.bytes b) = tagged Tag.bytes (le 4 (length b % 2 ^ 32) ++ b)

unfoldable pub write : Value → Writer → Result (Unit {0}) × Writer
unfolding put
write v w =
    if w.sealed
    then (err (marshal_error Errno.ebadmsg), w)
    else (val tt, record w { buf = w.buf ++ put v })

-- It stops at the first that fails.
unfoldable pub write_all : List Value → Writer → Result (Unit {0}) × Writer
unfolding write
write_all [] w = (val tt, w)
write_all (v ∷ vs) w =
    let rest = write_all vs (write v w).1 in
    elim (write v w).0 [ err e ↦ (err e, (write v w).1) | val u ↦ rest ]

abbrev pub finish : Writer → Writer
finish w = if w.sealed then w else record { buf = w.buf ++ (tag_byte Tag.end ∷ []); sealed = true }

pub record Reader : Type 0 where
  pub buf : List ℕ
  pub off : ℕ
  pub end : Option End

abbrev pub reader : List ℕ → Reader
reader buf = record { buf = buf; off = 0; end = none }

-- A value, none at an end, or a fault, and the reader after it.
abbrev pub Out : Type 0
Out = Result (Option Value) × Reader

abbrev pub fault : Reader → Out
fault r = (err (marshal_error Errno.ebadmsg), r)

abbrev pub has : Reader → ℕ → Bool
has r n = leb (r.off + n) (length r.buf)

abbrev pub advance : ℕ → Reader → Reader
advance n r = record r { off = r.off + n }

-- The next `n` bytes.
abbrev pub ahead : Reader → ℕ → List ℕ
ahead r n = take n (drop r.off r.buf)

-- `scalar`, for a number of `n` bytes.
unfoldable pub scalar : ℕ → (ℕ → Value) → Reader → Out
unfolding from_le
scalar n c r = if has r n then (val (some (c (from_le (ahead r n)))), advance n r) else fault r

abbrev pub span_of : (List ℕ → Value) → ℕ → Reader → Out
span_of c len r = if has r len then (val (some (c (ahead r len))), advance len r) else fault r

-- `run`: a length of four bytes, and as many bytes.
unfoldable pub run : (List ℕ → Value) → Reader → Out
unfolding from_le
run c r = if has r 4 then span_of c (from_le (ahead r 4)) (advance 4 r) else fault r

unfoldable pub tag_of : ℕ → Option Tag
tag_of b =
    if b == 0
    then some Tag.end
    else if b == 1
    then some Tag.boolean
    else if b == 2
    then some Tag.u8
    else if b == 3
    then some Tag.i8
    else if b == 4
    then some Tag.u16
    else if b == 5
    then some Tag.i16
    else if b == 6
    then some Tag.u32
    else if b == 7
    then some Tag.i32
    else if b == 8
    then some Tag.u64
    else if b == 9
    then some Tag.i64
    else if b == 10
    then some Tag.f32
    else if b == 11
    then some Tag.f64
    else if b == 16
    then some Tag.str
    else if b == 32
    then some Tag.bytes
    else none

-- What comes after a tag.
unfoldable pub payload : Option Tag → Reader → Out
unfolding scalar run
payload none r = fault r
payload (some Tag.end) r = (val none, record r { end = some End.closed })
payload (some Tag.boolean) r =
    if has r 1
    then (val (some (Value.boolean (not (get_or r.buf r.off 0 == 0)))), advance 1 r)
    else fault r
payload (some Tag.u8) r = scalar 1 Value.u8 r
payload (some Tag.i8) r = scalar 1 Value.i8 r
payload (some Tag.u16) r = scalar 2 Value.u16 r
payload (some Tag.i16) r = scalar 2 Value.i16 r
payload (some Tag.u32) r = scalar 4 Value.u32 r
payload (some Tag.i32) r = scalar 4 Value.i32 r
payload (some Tag.u64) r = scalar 8 Value.u64 r
payload (some Tag.i64) r = scalar 8 Value.i64 r
payload (some Tag.f32) r = scalar 4 Value.f32 r
payload (some Tag.f64) r = scalar 8 Value.f64 r
payload (some Tag.str) r = run Value.str r
payload (some Tag.bytes) r = run Value.bytes r

abbrev pub next_open : Reader → Out
next_open r =
    if ltb r.off (length r.buf)
    then payload (tag_of (get_or r.buf r.off 0)) (advance 1 r)
    else (val none, record r { end = some End.unclosed })

unfoldable pub next : Reader → Out
unfolding tag_of payload
next r = elim r.end [ some e ↦ (val none, r) | none ↦ next_open r ]

-- The loop's rounds: none where they run out, else how it ended, what was read and the reader.
unfoldable pub read_from :
    ℕ → Reader → List Value → Option (Result (Unit {0}) × List Value × Reader)
unfolding next
read_from zero r out = none
read_from (suc n) r out = elim (next r).0 [
  | err e ↦ some (err e, out, (next r).1)
  | val none ↦ some (val tt, out, (next r).1)
  | val (some v) ↦ read_from n (next r).1 (out ++ (v ∷ []))
]

-- A round for each byte and one more.
abbrev pub read_all : Reader → Option (Result (Unit {0}) × List Value × Reader)
read_all r = read_from (length r.buf + 1) r []
