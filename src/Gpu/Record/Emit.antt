-- ===== src/Gpu/Record/Emit.antt =====
-- What a record's writer leaves: its op, its count and its parts' words, or nothing.
use native.Mathlib.Decide.{dec_lt}
use xpute.Common.{
  ℕ, ◌+◌, ◌-◌, ◌*◌, ◌^◌, ◌≤◌, ◌<◌, ◌≡◌, refl, sym, ap, ◌∙◌, arith, true, false, some, List, ◌∷◌,
  length, All, lt→ltb, ge→ltb, eq→==, ◌≢◌, ◌⊎◌, inl, inr,
}
use xpute.Status.{Errno, done, bug}
use xpute.Guest.Memory.{Memory, raw_set_word}
use xpute.Guest.Stream.{Stream, MarkState, fits, reserve, reserve_in}
use xpute.Guest.Stream.Inv.{
  IsValid, left-ok, next_at, longer, named, opened-ok, opened-bug, named-Grown, IsValid-Grown,
}
use xpute.Guest.Stream.Transaction.{reserve-in}
use xpute.Gpu.Record.{Part, count, fill_parts, emit, measured}
use xpute.Gpu.Record.Written.{
  Written, Written-cons, flat, count_from-flat, fill_parts-flat, fill_words-Fills, FillsWords,
}

-- How many words of the range are not in a record yet.
abbrev pub room : Stream → ℕ
room s = s.words - s.head - s.len

-- A record's words, its op and their count first.
abbrev pub record_of : ℕ → List Part → List ℕ
record_of op ps = op ∷ length (flat ps) ∷ flat ps

-- Words of 32 bits, and few enough that their count is one.
abbrev pub InRange : ℕ → List Part → Type 0
InRange op ps = All (λ v. v < 2 ^ 32) (record_of op ps)

-- What writing a record comes to.
pub data Emitted (op : ℕ) (ps : List Part) (m : Memory) (s : Stream) : Type 0 where
  recorded :
      (m' : Memory)
      → emit op ps (s, m) ≡ done (true, record s { len = s.len + 2 + length (flat ps) }, m')
      → s.mark ≢ MarkState.spilled
      → 2 + length (flat ps) ≤ room s
      → Written m m' (s.at + 4 * (s.head + s.len)) (record_of op ps)
      → IsValid m' (record s { len = s.len + 2 + length (flat ps) })
      → Emitted op ps m s
  dropped :
      emit op ps (s, m) ≡ done (false, record s { mark = MarkState.spilled }, m)
      → s.mark ≡ MarkState.is_open
      → room s < 2 + length (flat ps)
      → Emitted op ps m s
  already_spilled :
      emit op ps (s, m) ≡ done (false, s, m) → s.mark ≡ MarkState.spilled → Emitted op ps m s
  no_room :
      emit op ps (s, m) ≡ bug Errno.enospc
      → s.mark ≡ MarkState.off_mark
      → room s < 2 + length (flat ps)
      → Emitted op ps m s

spilled? : (k : MarkState) → (k ≡ MarkState.spilled) ⊎ (k ≢ MarkState.spilled)
spilled? MarkState.spilled = inl refl
spilled? MarkState.is_open = inr (λ e. cc)
spilled? MarkState.off_mark = inr (λ e. cc)

module _ (op : ℕ) (ps : List Part) {m : Memory} {s : Stream} (v : IsValid m s)
    (r : InRange op ps) where
  abbrev n : ℕ
  n = length (flat ps)

  counts : count ps ≡ n
  counts = count_from-flat ps 0 (omega (arith, r.1.0)) ∙ omega arith

  -- What is filled where there is room.
  Filled : Memory → Type 0
  Filled m' =
      (fill_parts (next_at m s v op n + 8) ps (0, named m s v op n) ≡ done (n, m'))
      × Written m m' (next_at m s v op n) (record_of op ps)

  fills : 2 + n ≤ room s → (m' : Memory) × Filled m'
  unfolding Filled
  fills h =
      let at = next_at m s v op n in
      let g = named-Grown m s v op n in
      found (
        fill_words-Fills (flat ps) (named m s v op n) (at + 8) 0 (omega (arith, v, g.size))
          (omega (arith, v, g.size)) r.1.1)
    where
      found :
          FillsWords (next_at m s v op n + 8) (flat ps) 0 (named m s v op n)
          → (m' : Memory) × Filled m'
      found (m', e, w) =
          let at = next_at m s v op n in
          (
            m',
            (
              fill_parts-flat (at + 8) ps (0, named m s v op n)
                  ∙ e
                  ∙ ap (λ k. done (k, m')) (omega arith),
              Written-cons m m' at (at + 4) op (n ∷ flat ps) r.0 refl (
                  Written-cons (raw_set_word m at op) m' (at + 4) (at + 8 + 4 * 0) n (flat ps) r.1.0
                    (omega arith) w),
            ),
          )

  writes :
      s.mark ≢ MarkState.spilled
      → 2 + n ≤ room s
      → reserve m s op n ≡ done (some (next_at m s v op n + 8), longer m s v op n, named m s v op n)
      → (m' : Memory) × Filled m'
      → Emitted op ps m s
  unfolding emit Filled
  writes k h e (m', (d, w)) =
      recorded m' (rw (counts, e, d, eq→== n (count ps) (sym counts)) refl) k h w (
        IsValid-Grown m m' s (longer m s v op n) (next_at m s v op n) v w.grown refl refl refl
          (omega (arith, v)))

  reserves :
      2 + n ≤ room s
      → (k : MarkState) → s.mark ≡ k
      → k ≢ MarkState.spilled
      → reserve m s op n ≡ done (some (next_at m s v op n + 8), longer m s v op n, named m s v op n)
  unfolding reserve_in
  reserves h MarkState.spilled e k = absurd (k refl)
  reserves h MarkState.is_open e k =
      rw
        (
          reserve-in m s op n MarkState.is_open e,
          left-ok m s v,
          ge→ltb ((s.words - s.head - s.len) * 4) ((2 + n) * 4) (omega (arith, v)),
          opened-ok m s v op n (omega (arith, v)),
        )
        refl
  reserves h MarkState.off_mark e k =
      rw (reserve-in m s op n MarkState.off_mark e, opened-ok m s v op n (omega (arith, v))) refl

  spilled_now : s.mark ≡ MarkState.spilled → Emitted op ps m s
  unfolding emit reserve_in
  spilled_now e = already_spilled (rw (counts, reserve-in m s op n MarkState.spilled e) refl) e

  -- Where it does not.
  past : room s < 2 + n → (k : MarkState) → s.mark ≡ k → Emitted op ps m s
  unfolding emit reserve_in
  past h MarkState.spilled e = spilled_now e
  past h MarkState.is_open e =
      dropped
        (rw
          (
            counts,
            reserve-in m s op n MarkState.is_open e,
            left-ok m s v,
            lt→ltb ((s.words - s.head - s.len) * 4) ((2 + n) * 4) (omega (arith, v)),
          )
          refl)
        e h
  past h MarkState.off_mark e =
      no_room
        (rw
          (
            counts,
            reserve-in m s op n MarkState.off_mark e,
            opened-bug m s v op n (omega (arith, v)),
          )
          refl)
        e h

-- A record of words of 32 bits on a valid stream is never a bug of its own making. Where it fits the range and the
-- open transaction has dropped none, it is recorded: true, the stream is longer by the record, still
-- valid, and the memory reads the op, the count and each part's words there and is as before below.
-- Where a transaction is open and it does not fit, or one was dropped, the answer is false and nothing is
-- written. Outside a transaction one that does not fit is the bug ENOSPC.
pub emit_correct :
    (op : ℕ) (ps : List Part) {m : Memory} {s : Stream}
    → IsValid m s
    → InRange op ps
    → Emitted op ps m s
emit_correct op ps {m} {s} v r = elim (dec_lt (room s) (2 + length (flat ps))) [
  | yes h ↦ past op ps v r h s.mark refl
  | no h ↦ elim (spilled? s.mark) [
    | inl e ↦ spilled_now op ps v r e
    | inr e ↦
        writes op ps v r e (omega arith) (reserves op ps v r (omega arith) s.mark refl e)
          (fills op ps v r (omega arith))
  ]
]

-- What `fits` measured with `measured` is written, in a transaction or not.
pub measured-fits :
    (op : ℕ) (ps : List Part) {m : Memory} {s : Stream}
    → IsValid m s
    → InRange op ps
    → s.mark ≢ MarkState.spilled
    → fits s (measured ps) 0 ≡ true
    → (m' : Memory) × (emit op ps (s, m)
        ≡ done (true, record s { len = s.len + 2 + length (flat ps) }, m'))
      × Written m m' (s.at + 4 * (s.head + s.len)) (record_of op ps)
measured-fits op ps {m} {s} v r k f =
    let c = counts op ps v r in
    let h : 2 + length (flat ps) ≤ room s = ground (arith, c, left-ok m s v, v, r.1.0, f) in
    kept h (emit_correct op ps v r)
  where
    kept :
        2 + length (flat ps) ≤ room s
        → Emitted op ps m s
        → (m' : Memory) × (emit op ps (s, m)
            ≡ done (true, record s { len = s.len + 2 + length (flat ps) }, m'))
          × Written m m' (s.at + 4 * (s.head + s.len)) (record_of op ps)
    kept h (recorded m' e j i w u) = (m', e, w)
    kept h (dropped e j i) = absurd (omega arith)
    kept h (already_spilled e j) = absurd (k j)
    kept h (no_room e j i) = absurd (omega arith)
