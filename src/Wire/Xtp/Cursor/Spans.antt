-- ===== src/Wire/Xtp/Cursor/Spans.antt =====
-- What a read hands out lies in the packet, and its text is UTF-8.
use xpute.Common.{
  ℕ, zero, suc, ◌+◌, ◌-◌, ◌*◌, ◌/◌, ◌^◌, ◌≤◌, ◌<◌, ◌≡◌, inl, inr, refl, ap, subst, Bool, true,
  false, not, ◌||◌, Option, none, some, List, ltb, ◌==◌, if◌then◌else◌, arith, ltb→ge, Bool-cases,
  lt→ltb, ge→ltb, ==_iff,
}
use xpute.Status.{Result, val}
use xpute.Codec.Utf8.{is_utf8}
use xpute.Wire.Xtp.{ScalarType, SequenceType, scalar_type, sequence_type, elem_sz}
use xpute.Wire.Xtp.Cursor.{Cursor, Span, Value, is_null, is_branch, load}
use xpute.Wire.Xtp.Cursor.Read.{
  scalar, scalar_value, scalar_types, sequence_types, labelled, payload_len, array, bitset,
  bytes_of, utf8_at, str, str_off, strs_ok, strs, strs_get, get_sequence, get_leaf_as, get_leaf,
  get,
}
use xpute.Wire.Xtp.Cursor.Within.{val_inj, bind_val, unless}

module _ (mem : List ℕ) (c : Cursor) where
  -- A span of the node's payload.
  abbrev pub Inside : Span → Type 0
  Inside s = (c.base + 8 ≤ s.from) × (s.from + s.size ≤ c.pkt)

  abbrev pub IsText : Span → Type 0
  IsText s = is_utf8 (bytes_of mem s) ≡ some true

  -- A string is followed by a NUL in the packet; every one of some strings is text.
  abbrev pub IsSound : Value → Type 0
  IsSound (Value.str s) =
      Inside s × (s.from + s.size < c.pkt) × (load mem 1 (s.from + s.size) ≡ 0) × IsText s
  IsSound (Value.array q s) = Inside s
  IsSound (Value.bitset s n) = Inside s × (n ≤ 8 * s.size)
  IsSound (Value.strs offs blob n) =
      Inside offs
      × Inside blob
      × ((i : ℕ) → i < n → (s : Span) × (strs_get mem offs blob n i ≡ some s) × Inside s × IsText s)
  IsSound v = Unit {0}

  payload_room : {n : ℕ} → payload_len mem c ≡ val n → c.base + 8 ≤ c.pkt
  unfolding payload_len
  payload_room e = ground arith

  utf8_at-IsText : (s : Span) → utf8_at mem s ≡ true → IsText s
  unfolding utf8_at
  utf8_at-IsText s e = of (is_utf8 (bytes_of mem s)) e
    where
      of : (o : Option Bool) → (elim o [ none ↦ false | some b ↦ b ]) ≡ true → o ≡ some true
      of none e = absurd (cc)
      of (some b) e = ap some e

  array-IsSound :
      (q : SequenceType) {s : Span} → array mem (elem_sz q) c ≡ val s → IsSound (Value.array q s)
  unfolding array
  array-IsSound q e =
      let (n, len, e1) = bind_val (payload_len mem c) _ e in
      let (fits, e2) = unless (ltb (c.pkt - (c.base + 8)) (n * elem_sz q)) e1 in
      let room = payload_room len in
      subst (λ (s : Span). Inside s) (val_inj e2)
        (omega arith, omega (arith, room, ltb→ge _ _ fits))

  bitset-IsSound : {p : Span × ℕ} → bitset mem c ≡ val p → IsSound (Value.bitset p.0 p.1)
  unfolding bitset
  bitset-IsSound e =
      let (n, len, e1) = bind_val (payload_len mem c) _ e in
      let (fits, e2) = unless (ltb (c.pkt - (c.base + 8)) ((n + 7) / 2 ^ 3)) e1 in
      let room = payload_room len in
      subst (λ (p : Span × ℕ). Inside p.0 × (p.1 ≤ 8 * p.0.size)) (val_inj e2)
        ((omega arith, omega (arith, room, ltb→ge _ _ fits)), omega arith)

  str-IsSound : {s : Span} → str mem c ≡ val s → IsSound (Value.str s)
  unfolding str
  str-IsSound e =
      let (n, len, e1) = bind_val (payload_len mem c) _ e in
      let (fits, e2) = unless (ltb (c.pkt - (c.base + 8)) (n + 1)) e1 in
      let (ended, e3) = unless (not (load mem 1 (c.base + 8 + n) == 0)) e2 in
      let s : Span = record { from = c.base + 8; size = n } in
      let (text, e4) = unless (not (utf8_at mem s)) e3 in
      let room = payload_room len in
      let within = ltb→ge _ _ fits in
      subst (λ s. IsSound (Value.str s)) (val_inj e4)
        (
          (omega arith, omega (arith, room, within)),
          omega (arith, room, within),
          ground arith,
          utf8_at-IsText s (ground arith),
        )

  -- What the loop over some strings finds of each.
  abbrev IsFound : ℕ → ℕ → ℕ → ℕ → Type 0
  IsFound payload blob total k =
      (str_off mem payload k ≤ str_off mem payload (k + 1))
      × (str_off mem payload (k + 1) ≤ total)
      × (utf8_at mem (record {
        from = blob + str_off mem payload k;
        size = str_off mem payload (k + 1) - str_off mem payload k;
      })
          ≡ true)

  module _ (payload blob total : ℕ) where
    strs_ok-first :
        (n i : ℕ)
        → strs_ok mem payload blob total (suc n) i ≡ true
        → IsFound payload blob total i × (strs_ok mem payload blob total n (i + 1) ≡ true)
    unfolding strs_ok
    strs_ok-first n i e = of (str_off mem payload i) (str_off mem payload (i + 1)) _ _ e
      where
        of :
            (a b : ℕ) (ok rest : Bool)
            → (if ltb b a || ltb total b then false else if not ok then false else rest) ≡ true
            → ((a ≤ b) × (b ≤ total) × (ok ≡ true)) × (rest ≡ true)
        of a b true true e = ground arith
        of a b true false e = ground arith
        of a b false rest e = ground arith

    strs_ok-each :
        (n i k : ℕ)
        → strs_ok mem payload blob total n i ≡ true
        → i ≤ k
        → k < i + n
        → IsFound payload blob total k
    strs_ok-each zero i k e lo hi = absurd (omega arith)
    strs_ok-each (suc n) i k e lo hi =
        let (first, rest) = strs_ok-first n i e in
        elim (Bool-cases (i == k)) [
          | inl here ↦ subst (IsFound payload blob total) ((==_iff i k).0 here) (first)
          | inr later ↦ strs_ok-each n (i + 1) k rest (ground arith) (omega arith)
        ]

  strs-IsSound : {p : Span × Span × ℕ} → strs mem c ≡ val p → IsSound (Value.strs p.0 p.1 p.2)
  unfolding strs strs_get
  strs-IsSound e =
      let (n, len, e1) = bind_val (payload_len mem c) _ e in
      let payload = c.base + 8 in
      let blob = payload + 4 * (n + 1) in
      let total = str_off mem payload n in
      let (lane, e2) = unless (ltb c.pkt blob) e1 in
      let (fits, e3) = unless (ltb (c.pkt - blob) total) e2 in
      let (ok, e4) = unless (not (strs_ok mem payload blob total n 0)) e3 in
      let room = ltb→ge _ _ lane in
      let within = ltb→ge _ _ fits in
      subst (λ (p : Span × Span × ℕ). IsSound (Value.strs p.0 p.1 p.2)) (val_inj e4)
        (
          (omega arith, omega (arith, room)),
          (omega arith, omega (arith, room, within)),
          λ i h.
              let found =
                strs_ok-each payload blob total n 0 i (ground arith) (omega arith) (omega arith) in
              let a = str_off mem payload i in
              let s : Span = record { from = blob + a; size = str_off mem payload (i + 1) - a } in
              (
                s,
                rw (lt→ltb i n h, ge→ltb (str_off mem payload (i + 1)) a found.0) refl,
                (omega arith, omega (arith, room, within, found)),
                utf8_at-IsText s found.2,
              ),
        )

  get_sequence-IsSound : (q : SequenceType) {v : Value} → get_sequence mem c q ≡ val v → IsSound v
  unfolding get_sequence
  get_sequence-IsSound SequenceType.bitset e =
      let (p, is, e1) = bind_val (bitset mem c) _ e in
      subst IsSound (val_inj e1) (bitset-IsSound is)
  get_sequence-IsSound SequenceType.str e =
      let (s, is, e1) = bind_val (str mem c) _ e in subst IsSound (val_inj e1) (str-IsSound is)
  get_sequence-IsSound SequenceType.strs e =
      let (p, is, e1) = bind_val (strs mem c) _ e in subst IsSound (val_inj e1) (strs-IsSound is)
  get_sequence-IsSound q e =
      let (s, is, e1) = bind_val (array mem (elem_sz q) c) _ e in
      subst IsSound (val_inj e1) (array-IsSound q is)

  scalar_value-IsSound : (s : ScalarType) (x : ℕ) → IsSound (scalar_value s x)
  scalar_value-IsSound ScalarType.boolean x = tt
  scalar_value-IsSound s x = tt

  leaf-IsSound :
      (s : Option ScalarType) (q : Option SequenceType) {v : Value}
      → get_leaf_as mem c s q ≡ val v
      → IsSound v
  unfolding get_leaf_as
  leaf-IsSound (some s) q e =
      let (x, is, e1) = bind_val (scalar mem s c) _ e in
      subst IsSound (val_inj e1) (scalar_value-IsSound s x)
  leaf-IsSound none (some q) e = get_sequence-IsSound q e
  leaf-IsSound none none e = absurd (cc)

  -- What a read hands out lies in the node's payload and in the packet: the bytes of an array, of a bitset with
  -- a bit for each of its count, and of a string, which a NUL of the packet follows and which are UTF-8. Of some
  -- strings the offsets and the text do, and each of the count is got, in the payload and UTF-8.
  pub get-IsSound : {v : Value} → get mem c ≡ val v → IsSound v
  unfolding get get_leaf
  get-IsSound e = of (is_null c) (is_branch c) _ _ e (
      leaf-IsSound (labelled scalar_type c.ty scalar_types)
        (labelled sequence_type c.ty sequence_types))
    where
      of :
          (null b : Bool) (r : Result Value) (v : Value)
          → (if null then val Value.null else if b then val (Value.branch c) else r) ≡ val v
          → (r ≡ val v → IsSound v)
          → IsSound v
      of true b r v e h = subst IsSound (val_inj e) (tt)
      of false true r v e h = subst IsSound (val_inj e) (tt)
      of false false r v e h = h e
