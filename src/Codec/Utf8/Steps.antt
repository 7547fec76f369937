-- ===== src/Codec/Utf8/Steps.antt =====
-- A step goes on, and never past the text's end; so the loops come to an end.
use native.Mathlib.Decide.{dec_lt}
use xpute.Common.{
  ℕ, zero, suc, ◌+◌, ◌-◌, ◌≤◌, ◌<◌, ◌≡◌, ◌⊎◌, inl, inr, refl, arith, Bool, true, false, some, List,
  [], ◌∷◌, length, get_or, lt→ltb, ge→ltb, ne→==, eq→==, Bool-cases, ◌==◌, ◌++◌, take, drop,
}
use xpute.Codec.Utf8.{
  Utf8Step, len_of, good_from, utf8_step, is_utf8_from, is_utf8, lossy_from, utf8_lossy, fffd,
}

-- As many good bytes as there were, or more, at most one at each place to go, and all in the text.
good_from-bounds :
    (n : ℕ) (s : List ℕ) (i b k good : ℕ)
    → good ≤ k
    → i + good ≤ length s
    → (good ≤ good_from n s i b k good)
      × (good_from n s i b k good ≤ good + n)
      × (i + good_from n s i b k good ≤ length s)
unfolding good_from
good_from-bounds zero s i b k good h p = omega arith
good_from-bounds (suc n) s i b k good h p = elim (dec_lt (i + k) (length s)) [
  | yes q ↦ ground (
    arith,
    lt→ltb (i + k) (length s) q,
    good_from-bounds n s i b (k + 1) (good + 1) (omega arith) (omega arith),
  )
  | no q ↦ ground (arith, ge→ltb (i + k) (length s) (omega arith))
]

-- What a step may say at a place in the text.
abbrev pub Steps : List ℕ → ℕ → Utf8Step → Type 0
Steps s i c =
    ((1 ≤ c.len) × (c.len ≤ 4) × (c.bad ≡ 0) × (i + c.len ≤ length s))
    ⊎ ((c.len ≡ 0) × (1 ≤ c.bad) × (c.bad ≤ 4) × (i + c.bad ≤ length s))

-- A step at a place in a text is a character of one to four bytes that ends in the text, or a bad prefix
-- of one to four bytes that does.
pub utf8_step-Steps : (s : List ℕ) (i : ℕ) → i < length s → Steps s i (utf8_step s i)
unfolding utf8_step
utf8_step-Steps s i h =
    let b = get_or s i 0 in
    let g = good_from-bounds (len_of b - 1) s i b 1 1 (omega arith) (omega arith) in
    ground (arith, g)

is_utf8_from-ends :
    (n : ℕ) (s : List ℕ) (i : ℕ)
    → length s + 1 ≤ i + n
    → i ≤ length s
    → (r : Bool) × (is_utf8_from n s i ≡ some r)
unfolding is_utf8_from
is_utf8_from-ends zero s i h p = absurd (omega arith)
is_utf8_from-ends (suc n) s i h p = elim (dec_lt i (length s)) [
  | no past ↦ (true, rw (ge→ltb i (length s) (omega arith)) refl)
  | yes inside ↦ elim (utf8_step-Steps s i inside) [
    | inl (least, most, bad, fits) ↦
        let (r, e) = is_utf8_from-ends n s (i + (utf8_step s i).len) (omega arith) fits in
        (r, rw (lt→ltb i (length s) inside, ne→== (utf8_step s i).len 0 (omega arith)) e)
    | inr (none_good, least, most, fits) ↦
        (false, rw (lt→ltb i (length s) inside, eq→== (utf8_step s i).len 0 none_good) refl)
  ]
]

lossy_from-ends :
    (n : ℕ) (s : List ℕ) (plain i : ℕ)
    → length s + 1 ≤ i + n
    → i ≤ length s
    → (r : List (List ℕ)) × (lossy_from n s plain i ≡ some r)
unfolding lossy_from
lossy_from-ends zero s plain i h p = absurd (omega arith)
lossy_from-ends (suc n) s plain i h p = elim (dec_lt i (length s)) [
  | no past ↦ (drop plain s ∷ [], rw (ge→ltb i (length s) (omega arith)) refl)
  | yes inside ↦ elim (utf8_step-Steps s i inside) [
    | inl (least, most, bad, fits) ↦
        let (r, e) = lossy_from-ends n s plain (i + (utf8_step s i).len) (omega arith) fits in
        (r, rw (lt→ltb i (length s) inside, ne→== (utf8_step s i).len 0 (omega arith)) e)
    | inr (none_good, least, most, fits) ↦
        let next = i + (utf8_step s i).bad in
        let (r, e) = lossy_from-ends n s next next (omega arith) fits in
        (
          (take (i - plain) (drop plain s) ∷ fffd ∷ []) ++ r,
          rw (lt→ltb i (length s) inside, eq→== (utf8_step s i).len 0 none_good, e) refl,
        )
  ]
]

-- The test and the lossy decoding come to an end on every text: a round for each byte and one more are
-- enough.
pub utf8_ends :
    (s : List ℕ)
    → ((r : Bool) × (is_utf8 s ≡ some r)) × ((r : List (List ℕ)) × (utf8_lossy s ≡ some r))
unfolding is_utf8 utf8_lossy
utf8_ends s = (
  is_utf8_from-ends (length s + 1) s 0 (omega arith) (omega arith),
  lossy_from-ends (length s + 1) s 0 0 (omega arith) (omega arith),
)

lossy_from-valid :
    (n : ℕ) (s : List ℕ) (plain i : ℕ)
    → is_utf8_from n s i ≡ some true
    → lossy_from n s plain i ≡ some (drop plain s ∷ [])
unfolding is_utf8_from lossy_from
lossy_from-valid zero s plain i h = absurd (cc)
lossy_from-valid (suc n) s plain i h = elim (dec_lt i (length s)) [
  | no past ↦ rw (ge→ltb i (length s) (omega arith)) refl
  | yes inside ↦
      let within = lt→ltb i (length s) inside in
      elim (Bool-cases ((utf8_step s i).len == 0)) [
        | inl bad ↦ let never : some false ≡ some true = rw (within, bad) at h in absurd (cc)
        | inr good ↦
            rw (within, good)
              (lossy_from-valid n s plain (i + (utf8_step s i).len) (rw (within, good) at h))
      ]
]

-- Text that the test takes for UTF-8 decodes to itself, whole and put once.
pub utf8_lossy-valid : (s : List ℕ) → is_utf8 s ≡ some true → utf8_lossy s ≡ some (s ∷ [])
unfolding is_utf8 utf8_lossy
utf8_lossy-valid s h = lossy_from-valid (length s + 1) s 0 0 h
