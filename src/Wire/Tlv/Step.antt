-- ===== src/Wire/Tlv/Step.antt =====
-- One round of a reader that is before a value: it answers the value and is past it.
use xpute.Common.{
  ℕ, zero, suc, ◌+◌, ◌*◌, ◌/◌, ◌%◌, ◌^◌, ◌≤◌, ◌<◌, ◌≡◌, refl, sym, ap, ap₂, ◌∙◌, arith, Bool, true,
  false, Option, none, some, List, [], ◌∷◌, ◌++◌, length, take, drop, get_or, length-append,
  length-drop, take-length-append, drop-length-append, le→leb, lt→ltb, ge→ltb,
}
use xpute.Status.{Result, val, err}
use xpute.Wire.Tlv.{
  Tag, tag_byte, Value, End, le, from_le, Reader, Out, has, advance, ahead, scalar, run, span_of,
  payload, tag_of, next, flag, read_from,
}

pub length-le : (n x : ℕ) → length (le n x) ≡ n
unfolding le
length-le zero x = refl
length-le (suc n) x = omega (arith, length-le n (x / 2 ^ 8))

-- What a number of so many bytes is below.
abbrev pub bound : ℕ → ℕ
bound zero = 1
bound (suc n) = 2 ^ 8 * bound n

pub from_le-le : (n x : ℕ) → x < bound n → from_le (le n x) ≡ x
unfolding le from_le
from_le-le zero x h = omega arith
from_le-le (suc n) x h = omega (arith, from_le-le n (x / 2 ^ 8) (omega arith))

drop-none : {A : Type 0} (n : ℕ) → drop {A = A} n [] ≡ []
drop-none zero = refl
drop-none (suc n) = refl

drop-add : {A : Type 0} (a b : ℕ) (xs : List A) → drop (a + b) xs ≡ drop b (drop a xs)
drop-add zero b xs = ap (λ k. drop k xs) (omega arith)
drop-add (suc a) b [] = drop-none (suc a + b) ∙ sym (drop-none b)
drop-add (suc a) b (x ∷ xs) =
    let shift : suc a + b ≡ suc (a + b) = omega arith in
    ap (λ k. drop k (x ∷ xs)) shift ∙ drop-add a b xs

get_or-drop : {A : Type 0} (xs : List A) (i : ℕ) (d : A) → get_or xs i d ≡ get_or (drop i xs) 0 d
get_or-drop [] zero d = refl
get_or-drop [] (suc i) d = refl
get_or-drop (x ∷ xs) zero d = refl
get_or-drop (x ∷ xs) (suc i) d = get_or-drop xs i d

-- A reader before some bytes.
pub record At (r : Reader) (xs : List ℕ) : Type 0 where
  pub going : r.end ≡ none
  pub rest : drop r.off r.buf ≡ xs
  pub inside : r.off ≤ length r.buf

pub At-length : {r : Reader} {xs : List ℕ} → At r xs → r.off + length xs ≡ length r.buf
At-length {r} {xs} a = omega (arith, a.inside, length-drop r.off r.buf, ap length a.rest)

module _ (r : Reader) (n : ℕ) (xs ys : List ℕ) (a : At r (xs ++ ys)) (e : length xs ≡ n) where
  At-has : has r n ≡ true
  At-has = le→leb (r.off + n) (length r.buf) (omega (arith, e, At-length a, length-append xs ys))

  At-ahead : ahead r n ≡ xs
  At-ahead = ap₂ take (sym e) a.rest ∙ take-length-append xs ys

  At-advance : At (advance n r) ys
  At-advance = record {
    going = a.going;
    rest = drop-add r.off n r.buf ∙ ap₂ drop (sym e) a.rest ∙ drop-length-append xs ys;
    inside = omega (arith, e, At-length a, length-append xs ys);
  }

-- A round that answers a value and is before what follows it.
abbrev pub Reads : Out → Value → List ℕ → Type 0
Reads o v ys = (r' : Reader) × (o ≡ (val (some v), r')) × At r' ys

pub scalar-Reads :
    (n : ℕ) (c : ℕ → Value) (r : Reader) (x : ℕ) (ys : List ℕ)
    → At r (le n x ++ ys)
    → x < bound n
    → Reads (scalar n c r) (c x) ys
unfolding scalar
scalar-Reads n c r x ys a h =
    let e = length-le n x in
    (
      advance n r,
      rw (At-has r n (le n x) ys a e, At-ahead r n (le n x) ys a e, from_le-le n x h) refl,
      At-advance r n (le n x) ys a e,
    )

span-Reads :
    (c : List ℕ → Value) (r : Reader) (s ys : List ℕ)
    → At r (s ++ ys)
    → Reads (span_of c (length s) r) (c s) ys
span-Reads c r s ys a = (
  advance (length s) r,
  rw (At-has r (length s) s ys a refl, At-ahead r (length s) s ys a refl) refl,
  At-advance r (length s) s ys a refl,
)

pub run-Reads :
    (c : List ℕ → Value) (r : Reader) (s ys : List ℕ)
    → At r (le 4 (length s % 2 ^ 32) ++ (s ++ ys))
    → length s < 2 ^ 32
    → Reads (run c r) (c s) ys
unfolding run
run-Reads c r s ys a h =
    let n = length s % 2 ^ 32 in
    let e = length-le 4 n in
    let all : n ≡ length s = omega arith in
    let (r', f, b) = span-Reads c (advance 4 r) s ys (At-advance r 4 (le 4 n) (s ++ ys) a e) in
    (
      r',
      rw
          (
            At-has r 4 (le 4 n) (s ++ ys) a e,
            At-ahead r 4 (le 4 n) (s ++ ys) a e,
            from_le-le 4 n (omega arith),
            all,
          )
          f,
      b,
    )

tag_of-tag_byte : (t : Tag) → tag_of (tag_byte t) ≡ some t
unfolding tag_of
tag_of-tag_byte Tag.end = refl
tag_of-tag_byte _ = refl

pub next_tag :
    (t : Tag) (r : Reader) (ys : List ℕ)
    → At r (tag_byte t ∷ ys)
    → (next r ≡ payload (some t) (advance 1 r)) × At (advance 1 r) ys
unfolding next
next_tag t r ys a = (
  rw
      (
        a.going,
        lt→ltb r.off (length r.buf) (omega (arith, At-length a)),
        get_or-drop r.buf r.off 0,
        a.rest,
        tag_of-tag_byte t,
      )
      refl,
  At-advance r 1 (tag_byte t ∷ []) ys a refl,
)

pub flag-Reads :
    (x : Bool) (r : Reader) (ys : List ℕ)
    → At r (flag x ∷ ys)
    → Reads (payload (some Tag.boolean) r) (Value.boolean x) ys
unfolding payload
flag-Reads true r ys a = (
  advance 1 r,
  rw (At-has r 1 (1 ∷ []) ys a refl, get_or-drop r.buf r.off 0, a.rest) refl,
  At-advance r 1 (1 ∷ []) ys a refl,
)
flag-Reads false r ys a = (
  advance 1 r,
  rw (At-has r 1 (0 ∷ []) ys a refl, get_or-drop r.buf r.off 0, a.rest) refl,
  At-advance r 1 (0 ∷ []) ys a refl,
)

-- No value is left: the byte that ends the sequence, or none.
pub next_ends :
    (r : Reader)
    → (At r (tag_byte Tag.end ∷ []) → ((next r).0 ≡ val none) × ((next r).1.end ≡ some End.closed))
      × (At r [] → ((next r).0 ≡ val none) × ((next r).1.end ≡ some End.unclosed))
unfolding next payload
next_ends r = (
  λ a. let (e, b) = next_tag Tag.end r [] a in rw e (refl, refl),
  λ a. rw (a.going, ge→ltb r.off (length r.buf) (omega (arith, At-length a))) (refl, refl),
)

-- What the loop makes of a round.
abbrev pub goes_on : ℕ → List Value → Out → Option (Result (Unit {0}) × List Value × Reader)
goes_on n out o = elim o.0 [
  | err x ↦ some (err x, out, o.1)
  | val none ↦ some (val tt, out, o.1)
  | val (some v) ↦ read_from n o.1 (out ++ (v ∷ []))
]

pub read_from-round :
    (n : ℕ) (r : Reader) (out : List Value) {o : Out}
    → next r ≡ o
    → read_from (suc n) r out ≡ goes_on n out o
unfolding read_from
read_from-round n r out e = ap (goes_on n out) e
