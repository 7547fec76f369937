-- ===== src/Guest/Section/Layout.antt =====
-- Where sections lie: what is reached through one is in it, and two of one layout do not meet.
use native.Mathlib.Decide.{dec_lt}
use native.Mathlib.Nat.{div-add-mod', mod-lt}
use xpute.Common.{
  ℕ, zero, suc, ◌+◌, ◌-◌, ◌*◌, ◌/◌, ◌^◌, ◌≤◌, ◌<◌, ◌≡◌, ◌∙◌, ◌⊎◌, inl, inr, refl, ap, arith, none,
  some, List, [], ◌∷◌, take, get_or, length, All, lt→ltb, ge→ltb,
}
use xpute.Status.{done}
use xpute.Guest.Memory.{u32}
use xpute.Guest.Section.{Section, align_up, span_from, span_of, nth_at, at, nth}

-- A size rounded up to the unit, as a number that does not wrap.
abbrev pub rounded : ℕ → ℕ → ℕ
rounded n unit = (n + unit - 1) / unit * unit

abbrev pub spanned : List ℕ → ℕ → ℕ
spanned [] unit = 0
spanned (s ∷ bytes) unit = rounded s unit + spanned bytes unit

rounded-ge : (n unit : ℕ) → 0 < unit → n ≤ rounded n unit
rounded-ge n unit h = omega (arith, div-add-mod' (n + unit - 1) unit, mod-lt (n + unit - 1) h)

align_up-rounded : (n unit : ℕ) → 0 < unit → n + unit ≤ 2 ^ 32 → align_up n unit ≡ rounded n unit
align_up-rounded n unit h k =
    let sum : u32 (u32 (n + unit) + 2 ^ 32 - 1) ≡ n + unit - 1 = omega arith in
    ap (λ x. u32 (x / unit * unit)) sum ∙ omega (arith, div-add-mod' (n + unit - 1) unit)

span_from-spanned :
    (bytes : List ℕ) (span unit : ℕ)
    → 0 < unit
    → All (λ n. n + unit ≤ 2 ^ 32) bytes
    → span + spanned bytes unit < 2 ^ 32
    → span_from span bytes unit ≡ span + spanned bytes unit
span_from-spanned [] span unit p a h = omega arith
span_from-spanned (s ∷ bytes) span unit p (q, a) h =
    let step = align_up-rounded s unit p q in
    let first : u32 (span + align_up s unit) ≡ span + rounded s unit = omega (arith, step) in
    ap (λ x. span_from x bytes unit) first
    ∙ span_from-spanned bytes (span + rounded s unit) unit p a (omega arith)
    ∙ omega arith

-- On a section that ends within 32 bits, what `at` answers is where `n` bytes from an offset lie, and
-- they end in the section; it answers none exactly when they would run past its end.
pub at_correct :
    (s : Section) (off n : ℕ)
    → s.off + s.bytes < 2 ^ 32
    → ((at s off n ≡ none) × (s.bytes < off + n))
      ⊎ ((at s off n ≡ some (s.off + off)) × (s.off + off + n ≤ s.off + s.bytes))
unfolding at
at_correct s off n h = elim (dec_lt s.bytes (off + n)) [
  | yes p ↦ inl (rw (lt→ltb s.bytes (off + n) p) refl, p)
  | no p ↦ inr (rw (ge→ltb s.bytes (off + n) (omega arith)) (ap some (omega arith)), omega arith)
]

-- The first `i` sizes' span, and the next one's own, are within that of the first `j`.
spanned-take :
    (bytes : List ℕ) (i j unit : ℕ)
    → 0 < unit
    → i < j
    → j ≤ length bytes
    → spanned (take i bytes) unit + get_or bytes i 0 ≤ spanned (take j bytes) unit
spanned-take [] i j unit p q r = absurd (omega arith)
spanned-take (s ∷ bytes) zero zero unit p q r = absurd (omega arith)
spanned-take (s ∷ bytes) zero (suc j) unit p q r = omega (arith, rounded-ge s unit p)
spanned-take (s ∷ bytes) (suc i) zero unit p q r = absurd (omega arith)
spanned-take (s ∷ bytes) (suc i) (suc j) unit p q r =
    omega (arith, spanned-take bytes i j unit p (omega arith) (omega arith))

spanned-take_le : (bytes : List ℕ) (i unit : ℕ) → spanned (take i bytes) unit ≤ spanned bytes unit
spanned-take_le [] zero unit = omega arith
spanned-take_le [] (suc i) unit = omega arith
spanned-take_le (s ∷ bytes) zero unit = omega arith
spanned-take_le (s ∷ bytes) (suc i) unit = omega (arith, spanned-take_le bytes i unit)

spanned-all :
    (bytes : List ℕ) (i unit : ℕ)
    → 0 < unit
    → i < length bytes
    → spanned (take i bytes) unit + get_or bytes i 0 ≤ spanned bytes unit
spanned-all bytes i unit p h =
    omega (
      arith,
      spanned-take bytes i (suc i) unit p (omega arith) h,
      spanned-take_le bytes (suc i) unit,
    )

All-take :
    (bytes : List ℕ) (i unit : ℕ)
    → All (λ n. n + unit ≤ 2 ^ 32) bytes
    → All (λ n. n + unit ≤ 2 ^ 32) (take i bytes)
All-take bytes zero unit a = tt
All-take [] (suc i) unit a = tt
All-take (s ∷ bytes) (suc i) unit (p, a) = (p, All-take bytes i unit a)

module _ (s : Section) (bytes : List ℕ) (unit : ℕ) (p : 0 < unit)
    (small : All (λ n. n + unit ≤ 2 ^ 32) bytes) (laid : spanned bytes unit ≤ s.bytes)
    (ends : s.off + s.bytes < 2 ^ 32) where
  placed : (i : ℕ) → nth_at s.off bytes unit i ≡ s.off + spanned (take i bytes) unit
  placed i =
      let le = spanned-take_le bytes i unit in
      ap (λ x. u32 (s.off + x))
        (span_from-spanned (take i bytes) 0 unit p (All-take bytes i unit small)
          (omega (arith, le)))
      ∙ omega (arith, le)

  nth-done :
      (i : ℕ)
      → nth s bytes unit i
        ≡ done (record { off = s.off + spanned (take i bytes) unit; bytes = get_or bytes i 0 })
  unfolding nth
  nth-done i =
      let whole = span_from-spanned bytes 0 unit p small (omega arith) in
      rw (placed i, ge→ltb s.bytes (span_of bytes unit) (omega (arith, whole))) refl

  -- Where each size and the unit, which is not 0, come to at most 2^32, and the sizes, each rounded up to the unit, fit
  -- a section that ends within 32 bits: the sections of two of them, one before the other, are given out, have the
  -- sizes asked for, do not meet, and lie in the section.
  pub nth-apart :
      (i j : ℕ)
      → i < j
      → j < length bytes
      → (a : Section) × (b : Section) × (nth s bytes unit i ≡ done a)
        × (nth s bytes unit j ≡ done b)
        × (a.bytes ≡ get_or bytes i 0)
        × (b.bytes ≡ get_or bytes j 0)
        × (s.off ≤ a.off)
        × (a.off + a.bytes ≤ b.off)
        × (b.off + b.bytes ≤ s.off + s.bytes)
  nth-apart i j h k = (
    record { off = s.off + spanned (take i bytes) unit; bytes = get_or bytes i 0 },
    record { off = s.off + spanned (take j bytes) unit; bytes = get_or bytes j 0 },
    nth-done i,
    nth-done j,
    refl,
    refl,
    omega arith,
    omega (arith, spanned-take bytes i j unit p h (omega arith)),
    omega (arith, spanned-all bytes j unit p k, laid),
  )
