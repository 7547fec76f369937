-- ===== src/Wire/Xtp/Alone/Values.antt =====
-- What is read of a node is of the packet alone.
use xpute.Common.{
  ℕ, zero, suc, ◌+◌, ◌-◌, ◌*◌, ◌≤◌, ◌≡◌, refl, ap, ap₂, false, not, ◌||◌, Option, none, some, List,
  ◌++◌, length, ltb, ◌==◌, if◌then◌else◌, arith, ltb→ge,
}
use xpute.Status.{val}
use xpute.Codec.Utf8.{is_utf8}
use xpute.Wire.Xtp.{ScalarType, SequenceType, scalar_type, sequence_type, word_sz, elem_sz}
use xpute.Wire.Xtp.Cursor.{Cursor, Span, Value, u32, bad, ◌>>=◌, is_null, is_branch}
use xpute.Wire.Xtp.Cursor.Read.{
  scalar_sz, scalar, scalar_value, scalar_types, sequence_types, labelled, payload_len, array,
  bitset, utf8_at, str, str_off, strs_ok, strs, get_sequence, get_leaf_as, get,
}
use xpute.Wire.Xtp.Alone.{guarded, bind_both, take-drop-append, load_alone, get_len_alone}

module _ (mem more : List ℕ) where
  utf8_at_alone :
      (s : Span) → s.from + s.size ≤ length mem → utf8_at (mem ++ more) s ≡ utf8_at mem s
  unfolding utf8_at
  utf8_at_alone s h =
      ap (λ t. elim (is_utf8 t) [ none ↦ false | some b ↦ b ])
        (take-drop-append s.from s.size mem more h)

  module _ (c : Cursor) (fits : c.pkt ≤ length mem) where
    scalar_alone : (s : ScalarType) → scalar (mem ++ more) s c ≡ scalar mem s c
    unfolding scalar
    scalar_alone s = guarded (ltb c.pkt (c.base + scalar_sz s)) _ λ e. ap val (
        load_alone mem more (scalar_sz s) c.base
          (omega (arith, ltb→ge c.pkt (c.base + scalar_sz s) e)))

    payload_len_alone : payload_len (mem ++ more) c ≡ payload_len mem c
    unfolding payload_len
    payload_len_alone =
        guarded (ltb c.pkt (c.base + word_sz)) _
          λ e. get_len_alone mem more c.base (omega (arith, ltb→ge c.pkt (c.base + 8) e))

    payload_room : {n : ℕ} → payload_len mem c ≡ val n → c.base + 8 ≤ c.pkt
    unfolding payload_len
    payload_room e = ground arith

    array_alone : (elem : ℕ) → array (mem ++ more) elem c ≡ array mem elem c
    unfolding array
    array_alone elem = bind_both payload_len_alone λ n e. refl

    bitset_alone : bitset (mem ++ more) c ≡ bitset mem c
    unfolding bitset
    bitset_alone = bind_both payload_len_alone λ n e. refl

    str_alone : str (mem ++ more) c ≡ str mem c
    unfolding str
    str_alone = bind_both payload_len_alone λ n e.
        guarded (ltb (c.pkt - (c.base + word_sz)) (n + 1)) _ λ e1.
          let start = payload_room e in
          let room = ltb→ge (c.pkt - (c.base + 8)) (n + 1) e1 in
          ap₂
            (λ (z : ℕ) ok.
              if not (z == 0)
              then bad
              else if not ok
              then bad
              else val (record { from = c.base + 8; size = n }))
            (load_alone mem more 1 (c.base + 8 + n) (omega arith))
            (utf8_at_alone (record { from = c.base + 8; size = n }) (omega arith))

    module _ (payload blob total count : ℕ) (lane : payload + 4 * (count + 1) ≤ blob)
        (room : blob + total ≤ length mem) where
      str_off_alone : (i : ℕ) → i ≤ count → str_off (mem ++ more) payload i ≡ str_off mem payload i
      str_off_alone i h = load_alone mem more 4 (payload + u32 (4 * i)) (omega arith)

      strs_ok_alone :
          (n i : ℕ)
          → n + i ≡ count
          → strs_ok (mem ++ more) payload blob total n i ≡ strs_ok mem payload blob total n i
      unfolding strs_ok
      strs_ok_alone zero i h = refl
      strs_ok_alone (suc n) i h =
          let a = str_off mem payload i in
          let b = str_off mem payload (i + 1) in
          rw
            (
              str_off_alone i (omega arith),
              str_off_alone (i + 1) (omega arith),
              strs_ok_alone n (i + 1) (omega arith),
            )
            (guarded (ltb b a || ltb total b) _ λ e.
              ap (λ ok. if not ok then false else strs_ok mem payload blob total n (i + 1))
                (utf8_at_alone (record { from = blob + a; size = b - a }) (ground arith)))

    strs_alone : strs (mem ++ more) c ≡ strs mem c
    unfolding strs
    strs_alone = bind_both payload_len_alone λ n e.
        guarded (ltb c.pkt (c.base + word_sz + 4 * (n + 1))) _ λ e1.
          let payload = c.base + 8 in
          let blob = payload + 4 * (n + 1) in
          let total = str_off mem payload n in
          let lane = ltb→ge c.pkt blob e1 in
          rw (str_off_alone payload blob 0 n (omega arith) (omega arith) n (omega arith)) (
            guarded (ltb (c.pkt - blob) total) _ λ e2.
              let inside = ltb→ge (c.pkt - blob) total e2 in
              ap
                (λ ok.
                  if not ok
                  then bad
                  else val (
                    record { from = payload; size = 4 * (n + 1) },
                    record { from = blob; size = total },
                    n,
                  ))
                (strs_ok_alone payload blob total n (omega arith) (omega arith) n 0 (omega arith)))

    get_sequence_alone : (q : SequenceType) → get_sequence (mem ++ more) c q ≡ get_sequence mem c q
    unfolding get_sequence
    get_sequence_alone SequenceType.bitset =
        ap (λ r. r >>= λ p. val (Value.bitset p.0 p.1)) bitset_alone
    get_sequence_alone SequenceType.str = ap (λ r. r >>= λ s. val (Value.str s)) str_alone
    get_sequence_alone SequenceType.strs =
        ap (λ r. r >>= λ p. val (Value.strs p.0 p.1 p.2)) strs_alone
    get_sequence_alone q = ap (λ r. r >>= λ s. val (Value.array q s)) (array_alone (elem_sz q))

    leaf_alone :
        (s : Option ScalarType) (q : Option SequenceType)
        → get_leaf_as (mem ++ more) c s q ≡ get_leaf_as mem c s q
    unfolding get_leaf_as
    leaf_alone (some s) q = ap (λ r. r >>= λ x. val (scalar_value s x)) (scalar_alone s)
    leaf_alone none (some q) = get_sequence_alone q
    leaf_alone none none = refl

    pub get_alone : get (mem ++ more) c ≡ get mem c
    unfolding get
    get_alone = guarded (is_null c) _ λ e. guarded (is_branch c) _ λ e1.
        leaf_alone (labelled scalar_type c.ty scalar_types)
          (labelled sequence_type c.ty sequence_types)
