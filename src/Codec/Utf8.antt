-- ===== src/Codec/Utf8.antt =====
-- kit/codec/encoding.hpp, its UTF-8: one step over a text of bytes, the test, and the lossy decoding.
-- Loops that go on by a step's length are given the rounds they may take; none is out of rounds.
pub mod Steps
mod Tests
use xpute.Common.{
  ℕ, zero, suc, ◌+◌, ◌-◌, Bool, true, false, not, ◌&&◌, ◌||◌, Option, none, some, List, [], ◌∷◌,
  ◌++◌, length, get_or, take, drop, ltb, leb, ◌==◌, if◌then◌else◌,
}

pub record Utf8Step : Type 0 where
  pub len : ℕ
  pub bad : ℕ

-- The length that a first byte says, 0 for none.
abbrev pub len_of : ℕ → ℕ
len_of b =
    if ltb b 0x80
    then 1
    else if leb 0xc2 b && ltb b 0xe0
    then 2
    else if leb 0xe0 b && ltb b 0xf0
    then 3
    else if leb 0xf0 b && ltb b 0xf5
    then 4
    else 0

-- The range of the byte at place `k`, which for the second depends on the first.
abbrev pub lo : ℕ → ℕ → ℕ
lo b k = if k == 1 && b == 0xf0 then 0x90 else if k == 1 && b == 0xe0 then 0xa0 else 0x80

abbrev pub hi : ℕ → ℕ → ℕ
hi b k = if k == 1 && b == 0xf4 then 0x8f else if k == 1 && b == 0xed then 0x9f else 0xbf

-- The good bytes after the first, from place `k` on, with so many places to go.
unfoldable pub good_from : ℕ → List ℕ → ℕ → ℕ → ℕ → ℕ → ℕ
good_from zero s i b k good = good
good_from (suc n) s i b k good =
    let more = good_from n s i b (k + 1) (good + 1) in
    let c = get_or s (i + k) 0 in
    if not (ltb (i + k) (length s))
    then good
    else if ltb c (lo b k) || ltb (hi b k) c
    then good
    else more

abbrev pub good_of : List ℕ → ℕ → ℕ
good_of s i =
    let b = get_or s i 0 in if len_of b == 0 then 0 else good_from (len_of b - 1) s i b 1 1

unfoldable pub utf8_step : List ℕ → ℕ → Utf8Step
unfolding good_from
utf8_step s i =
    let n = len_of (get_or s i 0) in
    let good = good_of s i in
    if not (n == 0) && good == n
    then record { len = n; bad = 0 }
    else record { len = 0; bad = if good == 0 then 1 else good }

unfoldable pub is_utf8_from : ℕ → List ℕ → ℕ → Option Bool
unfolding utf8_step
is_utf8_from zero s i = none
is_utf8_from (suc n) s i =
    let c = utf8_step s i in
    let rest = is_utf8_from n s (i + c.len) in
    if ltb i (length s) then (if c.len == 0 then some false else rest) else some true

unfoldable pub is_utf8 : List ℕ → Option Bool
unfolding is_utf8_from
is_utf8 s = is_utf8_from (length s + 1) s 0

-- U+FFFD.
abbrev pub fffd : List ℕ
fffd = 0xef ∷ 0xbf ∷ 0xbd ∷ []

-- What is put before the rest, where the rest came to an end.
abbrev pub puts : List (List ℕ) → Option (List (List ℕ)) → Option (List (List ℕ))
puts xs none = none
puts xs (some ys) = some (xs ++ ys)

-- The spans that are put, in order: `plain` is where the bytes not yet put begin.
pub lossy_from : ℕ → List ℕ → ℕ → ℕ → Option (List (List ℕ))
unfolding utf8_step
lossy_from zero s plain i = none
lossy_from (suc n) s plain i =
    let c = utf8_step s i in
    let on = lossy_from n s plain (i + c.len) in
    let past = lossy_from n s (i + c.bad) (i + c.bad) in
    if ltb i (length s)
    then (if not (c.len == 0) then on else puts (take (i - plain) (drop plain s) ∷ fffd ∷ []) past)
    else some (drop plain s ∷ [])

pub utf8_lossy : List ℕ → Option (List (List ℕ))
unfolding lossy_from
utf8_lossy s = lossy_from (length s + 1) s 0 0
