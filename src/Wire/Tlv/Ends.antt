-- ===== src/Wire/Tlv/Ends.antt =====
-- Reading ends on any bytes, within them.
use xpute.Common.{
  ℕ, zero, suc, ◌+◌, ◌≤◌, ◌<◌, ◌≡◌, refl, sym, ap, ap₂, subst, not, ◌==◌, get_or, ◌∙◌, ◌⊎◌, inl,
  inr, arith, true, Option, none, some, List, [], ◌∷◌, ◌++◌, length, drop, length-take, length-drop,
  le→leb, gt→leb, lt→ltb, ge→ltb,
}
use native.Mathlib.Decide.{dec_lt}
use xpute.Status.{Errno, Result, val, err, marshal_error}
use xpute.Wire.Tlv.{
  Tag, Value, End, Reader, Out, reader, fault, advance, ahead, from_le, scalar, run, has, put, le,
  tag_byte, payload, tag_of, next, read_from, read_all,
}
use xpute.Wire.Tlv.Step.{read_from-round}
use xpute.Wire.Tlv.RoundTrip.{length-put}

-- What reading a payload comes to: a value, with the reader moved on within its bytes by those that its encoding
-- takes past the tag; the end's tag; or the fault EBADMSG.
data Turn (t : Option Tag) (r : Reader) (o : Out) : Type 0 where
  value :
      (v : Value) (r' : Reader)
      → o ≡ (val (some v), r')
      → (r'.buf ≡ r.buf) × (r'.end ≡ r.end)
      → r'.off + 1 ≡ r.off + length (put v)
      → r'.off ≤ length r.buf
      → Turn t r o
  close : t ≡ some Tag.end → o ≡ (val none, record r { end = some End.closed }) → Turn t r o
  faulty : (r' : Reader) → o ≡ fault r' → Turn t r o

scalar-Turn :
    {t : Option Tag} (n : ℕ) (c : ℕ → Value) (r : Reader)
    → ((x : ℕ) → length (put (c x)) ≡ n + 1)
    → Turn t r (scalar n c r)
unfolding scalar
scalar-Turn n c r w = elim (dec_lt (length r.buf) (r.off + n)) [
  | yes h ↦ faulty r (rw (gt→leb (r.off + n) (length r.buf) h) refl)
  | no h ↦
      value (c (from_le (ahead r n))) (advance n r)
        (rw (le→leb (r.off + n) (length r.buf) (omega arith)) refl) (refl, refl)
        (omega (arith, w (from_le (ahead r n)))) (omega arith)
]

-- A run of text or bytes: its length, then as many bytes.
run-Turn :
    {t : Option Tag} (c : List ℕ → Value) (r : Reader)
    → ((b : List ℕ) → length (put (c b)) ≡ length b + 5)
    → Turn t r (run c r)
unfolding run
run-Turn c r w = elim (dec_lt (length r.buf) (r.off + 4)) [
  | yes h ↦ faulty r (rw (gt→leb (r.off + 4) (length r.buf) h) refl)
  | no h ↦
      let n = from_le (ahead r 4) in
      let after = advance 4 r in
      let here : has r 4 ≡ true = le→leb (r.off + 4) (length r.buf) (omega arith) in
      elim (dec_lt (length r.buf) (r.off + 4 + n)) [
        | yes k ↦ faulty after (rw (here, gt→leb (r.off + 4 + n) (length r.buf) k) refl)
        | no k ↦
            let long : length (ahead after n) ≡ n =
              omega (arith, length-take n (drop after.off r.buf), length-drop after.off r.buf) in
            value (c (ahead after n)) (advance n after)
              (rw (here, le→leb (r.off + 4 + n) (length r.buf) (omega arith)) refl) (refl, refl)
              (omega (arith, w (ahead after n), long)) (omega arith)
      ]
]

payload-Turn : (t : Option Tag) (r : Reader) → Turn t r (payload t r)
unfolding payload put le
payload-Turn none r = faulty r refl
payload-Turn (some Tag.end) r = close refl refl
payload-Turn (some Tag.boolean) r = elim (dec_lt (length r.buf) (r.off + 1)) [
  | yes h ↦ faulty r (rw (gt→leb (r.off + 1) (length r.buf) h) refl)
  | no h ↦
      value (Value.boolean (not (get_or r.buf r.off 0 == 0))) (advance 1 r)
        (rw (le→leb (r.off + 1) (length r.buf) (omega arith)) refl) (refl, refl) (omega arith)
        (omega arith)
]
payload-Turn (some Tag.u8) r = scalar-Turn 1 Value.u8 r (λ x. omega arith)
payload-Turn (some Tag.i8) r = scalar-Turn 1 Value.i8 r (λ x. omega arith)
payload-Turn (some Tag.u16) r = scalar-Turn 2 Value.u16 r (λ x. omega arith)
payload-Turn (some Tag.i16) r = scalar-Turn 2 Value.i16 r (λ x. omega arith)
payload-Turn (some Tag.u32) r = scalar-Turn 4 Value.u32 r (λ x. omega arith)
payload-Turn (some Tag.i32) r = scalar-Turn 4 Value.i32 r (λ x. omega arith)
payload-Turn (some Tag.u64) r = scalar-Turn 8 Value.u64 r (λ x. omega arith)
payload-Turn (some Tag.i64) r = scalar-Turn 8 Value.i64 r (λ x. omega arith)
payload-Turn (some Tag.f32) r = scalar-Turn 4 Value.f32 r (λ x. omega arith)
payload-Turn (some Tag.f64) r = scalar-Turn 8 Value.f64 r (λ x. omega arith)
payload-Turn (some Tag.str) r = run-Turn Value.str r (λ b. omega arith)
payload-Turn (some Tag.bytes) r = run-Turn Value.bytes r (λ b. omega arith)

tag_of-end : (b : ℕ) → tag_of b ≡ some Tag.end → b ≡ tag_byte Tag.end
unfolding tag_of
tag_of-end b e = ground (arith, e)

-- What a round comes to, by where it stands: a value, with the reader moved on by all that its encoding takes; the
-- end's tag there; no byte there; or the fault EBADMSG.
data Round (r : Reader) (o : Out) : Type 0 where
  value :
      (v : Value) (r' : Reader)
      → o ≡ (val (some v), r')
      → (r'.buf ≡ r.buf) × (r'.end ≡ none)
      → r'.off ≡ r.off + length (put v)
      → r'.off ≤ length r.buf
      → Round r o
  close :
      (r' : Reader)
      → o ≡ (val none, r')
      → r'.end ≡ some End.closed
      → r.off < length r.buf
      → get_or r.buf r.off 0 ≡ tag_byte Tag.end
      → Round r o
  ran_out :
      (r' : Reader)
      → o ≡ (val none, r')
      → r'.end ≡ some End.unclosed
      → length r.buf ≤ r.off
      → Round r o
  faulty : (r' : Reader) → o ≡ fault r' → Round r o

Turn-Round :
    (r : Reader) (o : Out)
    → r.end ≡ none
    → r.off < length r.buf
    → Turn (tag_of (get_or r.buf r.off 0)) (advance 1 r) o
    → Round r o
Turn-Round r o e h (Turn.value v r' f (b, k) p q) = Round.value v r' f (b, k ∙ e) (omega arith) q
Turn-Round r o e h (Turn.close t f) = Round.close _ f refl h (tag_of-end (get_or r.buf r.off 0) t)
Turn-Round r o e h (Turn.faulty r' f) = Round.faulty r' f

next-Round : (r : Reader) → r.end ≡ none → Round r (next r)
unfolding next
next-Round r e = elim (dec_lt r.off (length r.buf)) [
  | yes h ↦
      let f : next r ≡ payload (tag_of (get_or r.buf r.off 0)) (advance 1 r) =
        rw (e, lt→ltb r.off (length r.buf) h) refl in
      subst (Round r) (sym f)
        (Turn-Round r _ e h (payload-Turn (tag_of (get_or r.buf r.off 0)) (advance 1 r)))
  | no h ↦
      Round.ran_out (record r { end = some End.unclosed })
        (rw (e, ge→ltb r.off (length r.buf) (omega arith)) refl) refl (omega arith)
]

-- The bytes that values take.
abbrev pub taken_by : List Value → ℕ
taken_by [] = 0
taken_by (v ∷ vs) = length (put v) + taken_by vs

taken_by-append :
    (xs : List Value) (v : Value) → taken_by (xs ++ (v ∷ [])) ≡ taken_by xs + length (put v)
taken_by-append [] v = omega arith
taken_by-append (x ∷ xs) v = omega (arith, taken_by-append xs v)

-- How reading of these bytes ends, having read these values: closed, the end's tag next after the bytes of the
-- values; unclosed, the values taking all of the bytes; or at fault.
abbrev pub Good : List ℕ → Result (Unit {0}) → List Value → Reader → Type 0
Good bs x vs r =
    ((x ≡ val tt)
      × (r.end ≡ some End.closed)
      × (taken_by vs < length bs)
      × (get_or bs (taken_by vs) 0 ≡ tag_byte Tag.end))
    ⊎ ((x ≡ val tt) × (r.end ≡ some End.unclosed) × (taken_by vs ≡ length bs))
    ⊎ (x ≡ err (marshal_error Errno.ebadmsg))

abbrev pub Finishes : List ℕ → Option (Result (Unit {0}) × List Value × Reader) → Type 0
Finishes bs o =
    (x : Result (Unit {0})) × (vs : List Value) × (r : Reader) × (o ≡ some (x, vs, r))
    × Good bs x vs r

module _ (bs : List ℕ) where
  finishes :
      (n : ℕ) (r : Reader) (out : List Value)
      → (r.buf ≡ bs) × (r.end ≡ none)
      → r.off ≡ taken_by out
      → r.off ≤ length bs
      → length bs < r.off + n
      → Finishes bs (read_from n r out)
  finishes zero r out s t q h = absurd (omega arith)
  finishes (suc n) r out (b, s) t q h =
      round
        (λ v r' (b', s') p l.
          finishes n r' (out ++ (v ∷ [])) (b' ∙ b, s') (omega (arith, taken_by-append out v))
            (omega (arith, ap length b)) (omega (arith, length-put v)))
        (next-Round r s)
    where
      round :
          ((v : Value) (r' : Reader)
            → (r'.buf ≡ r.buf) × (r'.end ≡ none)
            → r'.off ≡ r.off + length (put v)
            → r'.off ≤ length r.buf
            → Finishes bs (read_from n r' (out ++ (v ∷ []))))
          → Round r (next r)
          → Finishes bs (read_from (suc n) r out)
      round more (Round.value v r' e k p l) = rw (read_from-round n r out e) (more v r' k p l)
      round more (Round.close r' e f p g) = (
        val tt,
        out,
        r',
        read_from-round n r out e,
        inl (refl, f, omega (arith, ap length b), sym (ap₂ (λ xs i. get_or xs i 0) b t) ∙ g),
      )
      round more (Round.ran_out r' e f p) = (
        val tt,
        out,
        r',
        read_from-round n r out e,
        inr (inl (refl, f, omega (arith, ap length b))),
      )
      round more (Round.faulty r' e) =
          (err (marshal_error Errno.ebadmsg), out, r', read_from-round n r out e, inr (inr refl))

-- On any bytes at all reading ends, in a round for each byte and one more. All is read and the end told: closed,
-- where the end's tag is next after the bytes that the values read take, and unclosed, where they take all of the
-- bytes; or the fault is EBADMSG.
pub read_all_ends : (bs : List ℕ) → Finishes bs (read_all (reader bs))
read_all_ends bs =
    finishes bs (length bs + 1) (reader bs) [] (refl, refl) refl (omega arith) (omega arith)
