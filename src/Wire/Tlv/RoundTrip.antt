-- ===== src/Wire/Tlv/RoundTrip.antt =====
-- What was written is read back, and a sequence that was not finished is told from one that was.
use xpute.Common.{
  ℕ, zero, suc, ◌+◌, ◌%◌, ◌^◌, ◌≤◌, ◌<◌, ◌≡◌, refl, sym, ap, ◌∙◌, arith, false, none, some, List,
  [], ◌∷◌, ◌++◌, length, length-append, append_nil, append_assoc, subst, All,
}
use xpute.Status.{val}
use xpute.Wire.Tlv.{
  Tag, tag_byte, Value, End, Writer, Reader, le, put, write, write_all, finish, reader, payload,
  next, read_from, read_all, flag,
}
use xpute.Wire.Tlv.Step.{
  At, Reads, next_tag, scalar-Reads, run-Reads, flag-Reads, next_ends, read_from-round,
}

-- A value of its type: its bit pattern has its width, and a length is of 32 bits.
abbrev pub InWidth : Value → Type 0
InWidth (Value.boolean x) = Unit
InWidth (Value.u8 x) = x < 2 ^ 8
InWidth (Value.i8 x) = x < 2 ^ 8
InWidth (Value.u16 x) = x < 2 ^ 16
InWidth (Value.i16 x) = x < 2 ^ 16
InWidth (Value.u32 x) = x < 2 ^ 32
InWidth (Value.i32 x) = x < 2 ^ 32
InWidth (Value.u64 x) = x < 2 ^ 64
InWidth (Value.i64 x) = x < 2 ^ 64
InWidth (Value.f32 x) = x < 2 ^ 32
InWidth (Value.f64 x) = x < 2 ^ 64
InWidth (Value.str s) = length s < 2 ^ 32
InWidth (Value.bytes b) = length b < 2 ^ 32

-- A round goes on as its payload does.
after_tag :
    (t : Tag) (r : Reader) (ps ys : List ℕ) (v : Value)
    → At r (tag_byte t ∷ (ps ++ ys))
    → ((r' : Reader) → At r' (ps ++ ys) → Reads (payload (some t) r') v ys)
    → Reads (next r) v ys
after_tag t r ps ys v a f =
    let (e, b) = next_tag t r (ps ++ ys) a in let (r', g, c) = f _ b in (r', e ∙ g, c)

next-put :
    (v : Value) (r : Reader) (ys : List ℕ) → InWidth v → At r (put v ++ ys) → Reads (next r) v ys
unfolding put payload
next-put (Value.boolean x) r ys h a =
    after_tag Tag.boolean r (flag x ∷ []) ys _ a (λ r' b. flag-Reads x r' ys b)
next-put (Value.u8 x) r ys h a =
    after_tag Tag.u8 r (le 1 x) ys _ a (λ r' b. scalar-Reads 1 Value.u8 r' x ys b h)
next-put (Value.i8 x) r ys h a =
    after_tag Tag.i8 r (le 1 x) ys _ a (λ r' b. scalar-Reads 1 Value.i8 r' x ys b h)
next-put (Value.u16 x) r ys h a =
    after_tag Tag.u16 r (le 2 x) ys _ a (λ r' b. scalar-Reads 2 Value.u16 r' x ys b h)
next-put (Value.i16 x) r ys h a =
    after_tag Tag.i16 r (le 2 x) ys _ a (λ r' b. scalar-Reads 2 Value.i16 r' x ys b h)
next-put (Value.u32 x) r ys h a =
    after_tag Tag.u32 r (le 4 x) ys _ a (λ r' b. scalar-Reads 4 Value.u32 r' x ys b h)
next-put (Value.i32 x) r ys h a =
    after_tag Tag.i32 r (le 4 x) ys _ a (λ r' b. scalar-Reads 4 Value.i32 r' x ys b h)
next-put (Value.u64 x) r ys h a =
    after_tag Tag.u64 r (le 8 x) ys _ a (λ r' b. scalar-Reads 8 Value.u64 r' x ys b h)
next-put (Value.i64 x) r ys h a =
    after_tag Tag.i64 r (le 8 x) ys _ a (λ r' b. scalar-Reads 8 Value.i64 r' x ys b h)
next-put (Value.f32 x) r ys h a =
    after_tag Tag.f32 r (le 4 x) ys _ a (λ r' b. scalar-Reads 4 Value.f32 r' x ys b h)
next-put (Value.f64 x) r ys h a =
    after_tag Tag.f64 r (le 8 x) ys _ a (λ r' b. scalar-Reads 8 Value.f64 r' x ys b h)
next-put (Value.str s) r ys h a =
    after_tag Tag.str r (le 4 (length s % 2 ^ 32) ++ s) ys _ a
      (λ r' b. run-Reads Value.str r' s ys b h)
next-put (Value.bytes s) r ys h a =
    after_tag Tag.bytes r (le 4 (length s % 2 ^ 32) ++ s) ys _ a
      (λ r' b. run-Reads Value.bytes r' s ys b h)

-- The values' bytes, one after another.
abbrev pub encoded : List Value → List ℕ
encoded [] = []
encoded (v ∷ vs) = put v ++ encoded vs

-- How reading ends, what it read, and what the reader knows of the end.
record Ended (n : ℕ) (r : Reader) (out vs : List Value) (how : End) : Type 0 where
  after : Reader
  reads : read_from n r out ≡ some (val tt, vs, after)
  end : after.end ≡ some how

ends :
    (n : ℕ) (r : Reader) (out : List Value) (how : End)
    → ((next r).0 ≡ val none) × ((next r).1.end ≡ some how)
    → Ended (suc n) r out out how
unfolding read_from
ends n r out how (e, f) = record { after = (next r).1; reads = rw (read_from, e) refl; end = f }

values :
    (vs : List Value) (n : ℕ) (r : Reader) (out : List Value) (tail : List ℕ) (how : End)
    → All InWidth vs
    → length vs < n
    → ((r' : Reader) → At r' tail → ((next r').0 ≡ val none) × ((next r').1.end ≡ some how))
    → At r (encoded vs ++ tail)
    → Ended n r out (out ++ vs) how
unfolding read_from
values vs zero r out tail how w h last a = absurd (omega arith)
values [] (suc n) r out tail how w h last a =
    subst (λ l. Ended (suc n) r out l how) (sym (append_nil out)) (ends n r out how (last r a))
values (v ∷ vs) (suc n) r out tail how w h last a =
    let (r', e, b) =
      next-put v r (encoded vs ++ tail) w.0
        (subst (At r) (append_assoc (put v) (encoded vs) tail) a) in
    let rest = values vs n r' (out ++ (v ∷ [])) tail how w.1 (omega arith) last b in
    record {
      after = rest.after;
      reads =
          read_from-round n r out e
          ∙ rest.reads
          ∙ ap (λ l. some (val tt, l, rest.after)) (append_assoc out (v ∷ []) vs);
      end = rest.end;
    }

write_all-encoded :
    (vs : List Value) (b : List ℕ)
    → write_all vs (record { buf = b; sealed = false })
      ≡ (val tt, record { buf = b ++ encoded vs; sealed = false })
unfolding write_all write
write_all-encoded [] b = ap (λ l. (val tt, record { buf = l; sealed = false })) (sym (append_nil b))
write_all-encoded (v ∷ vs) b =
    write_all-encoded vs (b ++ put v)
    ∙ ap (λ l. (val tt, record { buf = l; sealed = false })) (append_assoc b (put v) (encoded vs))

pub length-put : (v : Value) → 0 < length (put v)
unfolding put
length-put (Value.boolean x) = omega arith
length-put _ = omega arith

length-encoded : (vs : List Value) → length vs ≤ length (encoded vs)
length-encoded [] = omega arith
length-encoded (v ∷ vs) =
    omega (arith, length-encoded vs, length-append (put v) (encoded vs), length-put v)

abbrev pub empty_writer : Writer
empty_writer = record { buf = []; sealed = false }

-- What reading some bytes to the end comes to.
abbrev pub ReadsAll : List ℕ → List Value → End → Type 0
ReadsAll bs vs how =
    (after : Reader) × (read_all (reader bs) ≡ some (val tt, vs, after)) × (after.end ≡ some how)

read_encoded :
    (vs : List Value) (tail : List ℕ) (how : End)
    → All InWidth vs
    → ((r' : Reader) → At r' tail → ((next r').0 ≡ val none) × ((next r').1.end ≡ some how))
    → ReadsAll (encoded vs ++ tail) vs how
read_encoded vs tail how w last =
    let e =
      values vs (length (encoded vs ++ tail) + 1) (reader (encoded vs ++ tail)) [] tail how w
        (omega (arith, length-encoded vs, length-append (encoded vs) tail)) last
        (record { going = refl; rest = refl; inside = omega arith }) in
    (e.after, e.reads, e.end)

-- Values of their widths, written to an empty buffer, are all written. Read to the end they are the same
-- values in their order, and the end is closed where the writer was finished and unclosed where it was
-- not.
pub read_all-write_all :
    (vs : List Value)
    → All InWidth vs
    → let w = write_all vs empty_writer in
      (w.0 ≡ val tt) × ReadsAll (finish w.1).buf vs End.closed × ReadsAll w.1.buf vs End.unclosed
read_all-write_all vs h = rw (write_all-encoded vs []) (
  refl,
  read_encoded vs (tag_byte Tag.end ∷ []) End.closed h (λ r. (next_ends r).0),
  subst (λ l. ReadsAll l vs End.unclosed) (append_nil (encoded vs))
      (read_encoded vs [] End.unclosed h (λ r. (next_ends r).1)),
)
