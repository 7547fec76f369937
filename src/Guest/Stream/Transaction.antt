-- ===== src/Guest/Stream/Transaction.antt =====
-- The records between `begin` and `commit` are one: all are recorded, or the stream is as it was.
use native.Mathlib.Decide.{dec_lt}
use xpute.Common.{
  ℕ, ◌+◌, ◌-◌, ◌*◌, ◌^◌, ◌≤◌, ◌<◌, ◌≡◌, refl, ap, arith, Bool, true, false, Option, none, some,
  List, [], ◌∷◌, length, All, lt→ltb, ge→ltb,
}
use xpute.Status.{Run, done, ◌>>=◌}
use xpute.Guest.Memory.{Memory, u32}
use xpute.Guest.Stream.{Stream, MarkState, reserve, reserve_in, put, begin, commit, byte_words_of}
use xpute.Guest.Stream.Inv.{
  IsValid, Grown, Grown-refl, Grown-trans, left-ok, bytes_size, fill-Grows, next_at, longer, named,
  opened-ok, named-Grown, IsValid-Grown,
}

-- A call's record, as a client hands it over.
pub record Call : Type 0 where
  pub op : ℕ
  pub args : List ℕ
  pub tail : List ℕ
  pub bytes : Option (List ℕ)

abbrev pub size_of : Call → ℕ
size_of c = length c.args + length c.tail + bytes_size c.bytes

abbrev pub total : List Call → ℕ
total [] = 0
total (c ∷ cs) = 2 + size_of c + total cs

unfoldable pub put_all : Memory → Stream → List Call → Run (Stream × Memory)
put_all m s [] = done (s, m)
put_all m s (c ∷ cs) = do (s', m') ← put m s c.op c.args c.tail c.bytes; put_all m' s' cs

unfoldable pub transaction : Memory → Stream → List Call → Run ((Bool × Stream) × Memory)
unfolding put_all
transaction m s cs = do (s', m') ← put_all m (begin s) cs; done (commit s', m')

-- A record's count of words is what it is, where that fits 32 bits.
counted :
    (a t : ℕ) (bytes : Option (List ℕ))
    → a + t + bytes_size bytes < 2 ^ 32
    → u32 (u32 (a + t) + byte_words_of bytes) ≡ a + t + bytes_size bytes
counted a t none h = omega arith
counted a t (some bs) h = omega arith

pub reserve-in :
    (m : Memory) (s : Stream) (op n : ℕ) (k : MarkState)
    → s.mark ≡ k
    → reserve m s op n ≡ reserve_in k m s op n
unfolding reserve
reserve-in m s op n k e = ap (λ x. reserve_in x m s op n) e

put_spilled :
    (m : Memory) (s : Stream) (c : Call)
    → s.mark ≡ MarkState.spilled
    → put m s c.op c.args c.tail c.bytes ≡ done (s, m)
unfolding put reserve_in
put_spilled m s c e = rw (reserve-in m s c.op _ MarkState.spilled e) refl

all_spilled :
    (cs : List Call) (m : Memory) (s : Stream)
    → s.mark ≡ MarkState.spilled
    → put_all m s cs ≡ done (s, m)
unfolding put_all
all_spilled [] m s e = refl
all_spilled (c ∷ cs) m s e = rw (put_spilled m s c e, all_spilled cs m s e) refl

module _ (m : Memory) (s : Stream) (v : IsValid m s) (open_now : s.mark ≡ MarkState.is_open)
    (c : Call) (small : size_of c < 2 ^ 32) where
  put_past :
      s.words < s.head + s.len + 2 + size_of c
      → put m s c.op c.args c.tail c.bytes ≡ done (record s { mark = MarkState.spilled }, m)
  unfolding put reserve_in
  put_past h =
      rw
        (
          counted (length c.args) (length c.tail) c.bytes small,
          reserve-in m s c.op (size_of c) MarkState.is_open open_now,
          left-ok m s v,
          lt→ltb ((s.words - s.head - s.len) * 4) ((2 + size_of c) * 4) (omega (arith, v)),
        )
        refl

  put_room :
      s.head + s.len + 2 + size_of c ≤ s.words
      → (m' : Memory) × (put m s c.op c.args c.tail c.bytes
          ≡ done (longer m s v c.op (size_of c), m'))
        × Grown m m' (next_at m s v c.op (size_of c))
  unfolding put reserve_in
  put_room h =
      let at = next_at m s v c.op (size_of c) in
      let g = named-Grown m s v c.op (size_of c) in
      let (m', e, k) =
        fill-Grows c.args c.tail c.bytes (named m s v c.op (size_of c)) (at + 8)
          (omega (arith, v, g.size)) (omega (arith, v, g.size)) in
      (
        m',
        rw
            (
              counted (length c.args) (length c.tail) c.bytes small,
              reserve-in m s c.op (size_of c) MarkState.is_open open_now,
              left-ok m s v,
              ge→ltb ((s.words - s.head - s.len) * 4) ((2 + size_of c) * 4) (omega (arith, v)),
              opened-ok m s v c.op (size_of c) h,
              e,
            )
            refl,
        Grown-trans m (named m s v c.op (size_of c)) m' at (at + 8) (omega arith) g k,
      )

-- What the records of an open transaction come to.
data Recorded (m : Memory) (s : Stream) (cs : List Call) : Type 0 where
  all_fit :
      (m' : Memory)
      → put_all m s cs ≡ done (record s { len = s.len + total cs }, m')
      → s.head + s.len + total cs ≤ s.words
      → Grown m m' (s.at + 4 * (s.head + s.len))
      → Recorded m s cs
  dropped :
      (m' : Memory) (reached : ℕ)
      → put_all m s cs ≡ done (record s { len = reached; mark = MarkState.spilled }, m')
      → s.words < s.head + s.len + total cs
      → Grown m m' (s.at + 4 * (s.head + s.len))
      → Recorded m s cs

recorded :
    (cs : List Call) (m : Memory) (s : Stream)
    → IsValid m s
    → s.mark ≡ MarkState.is_open
    → All (λ c. size_of c < 2 ^ 32) cs
    → Recorded m s cs
unfolding put_all
recorded [] m s v e a =
    all_fit m (ap (λ n. done (record s { len = n }, m)) (omega arith)) (omega (arith, v))
      (Grown-refl m _)
recorded (c ∷ cs) m s v e (small, a) = elim (dec_lt s.words (s.head + s.len + 2 + size_of c)) [
  | yes past_end ↦
      dropped m s.len
        (rw
          (
            put_past m s v e c small past_end,
            all_spilled cs m (record s { mark = MarkState.spilled }) refl,
          )
          refl)
        (omega arith) (Grown-refl m _)
  | no fits ↦
      let (m', f, g) = put_room m s v e c small (omega arith) in
      let next = longer m s v c.op (size_of c) in
      let w = IsValid-Grown m m' s next _ v g refl refl refl (omega arith) in
      after m' f g (recorded cs m' next w e a)
]
  where
    after :
        (m' : Memory)
        → put m s c.op c.args c.tail c.bytes ≡ done (longer m s v c.op (size_of c), m')
        → Grown m m' (next_at m s v c.op (size_of c))
        → Recorded m' (longer m s v c.op (size_of c)) cs
        → Recorded m s (c ∷ cs)
    after m' f g (all_fit n d h k) =
        all_fit n (rw (f, d) (ap (λ i. done (record s { len = i }, n)) (omega arith))) (omega arith)
          (Grown-trans m m' n _ _ (omega arith) g k)
    after m' f g (dropped n reached d h k) =
        dropped n reached (rw (f, d) refl) (omega arith) (Grown-trans m m' n _ _ (omega arith) g k)

-- What a transaction comes to: all its records are recorded, in so many words, or the stream is what it
-- was before. What was recorded before it is untouched in either.
pub data Committed (m : Memory) (s : Stream) (cs : List Call) : Type 0 where
  kept :
      (m' : Memory)
      → transaction m s cs
        ≡ done (
          (true, record s { len = s.len + total cs; mark = MarkState.off_mark; mark_at = 0 }),
          m',
        )
      → s.head + s.len + total cs ≤ s.words
      → Grown m m' (s.at + 4 * (s.head + s.len))
      → Committed m s cs
  undone :
      (m' : Memory)
      → transaction m s cs ≡ done ((false, record s { mark = MarkState.off_mark; mark_at = 0 }), m')
      → s.words < s.head + s.len + total cs
      → Grown m m' (s.at + 4 * (s.head + s.len))
      → Committed m s cs

-- On a valid stream a transaction of records, each of fewer than 2^32 words, is never a bug. Where all
-- of its records fit the range it commits and the stream is longer by their words; else it answers false
-- and the stream is as before, no mark set. Either way the memory below the stream's end is unchanged.
pub transaction_correct :
    (cs : List Call) {m : Memory} {s : Stream}
    → IsValid m s
    → All (λ c. size_of c < 2 ^ 32) cs
    → Committed m s cs
unfolding transaction
transaction_correct cs {m} {s} v a = ended (
    recorded cs m (begin s)
      (IsValid-Grown m m s (begin s) 0 v (Grown-refl m 0) refl refl refl (omega (arith, v))) refl a)
  where
    ended : Recorded m (begin s) cs → Committed m s cs
    ended (all_fit m' e h g) = kept m' (rw e refl) h g
    ended (dropped m' reached e h g) = undone m' (rw e refl) h g
