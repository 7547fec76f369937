-- ===== src/Guest/Stream/Inv.antt =====
-- A stream's invariant, and what opening and filling a record does where it fits.
use native.Mathlib.Decide.{dec_lt}
use xpute.Common.{
  ℕ, ◌+◌, ◌-◌, ◌*◌, ◌/◌, ◌^◌, ◌≤◌, ◌<◌, ◌≡◌, refl, subst, ◌∙◌, inl, arith, Option, none, some, List,
  [], ◌∷◌, length, lt→ltb, ge→ltb, le→leb, gt→leb,
}
use xpute.Status.{Errno, Run, done, bug, ◌>>=◌}
use xpute.Guest.Memory.{Memory, u32, raw_set_word, copy_bytes}
use xpute.Guest.Memory.Laws.{
  Same, Same-trans, Same-sub, set_word-at, raw_set_word-Same, copy_bytes-Same, size-raw_set_word,
  size-copy_bytes,
}
use xpute.Guest.Stream.{Stream, left, opened, set_words, fill_bytes, fill, byte_words_of}

pub record IsValid (m : Memory) (s : Stream) : Type 0 where
  pub placed : 0 < s.head
  pub head_in : s.head < s.words
  pub room : s.head + s.len ≤ s.words
  pub in_mem : s.at + 4 * s.words ≤ m.size
  pub small : m.size < 2 ^ 32

-- A memory of the same size, changed from an offset on alone.
pub record Grown (m n : Memory) (off : ℕ) : Type 0 where
  pub size : n.size ≡ m.size
  pub below : Same m n 0 off

pub Grown-refl : (m : Memory) (off : ℕ) → Grown m m off
Grown-refl m off = record { size = refl; below = λ a p q. refl }

pub Grown-trans : (m n o : Memory) (i j : ℕ) → i ≤ j → Grown m n i → Grown n o j → Grown m o i
Grown-trans m n o i j h a b = record {
  size = b.size ∙ a.size;
  below = Same-trans m n o 0 i a.below (Same-sub n o 0 j 0 i b.below (omega arith) h);
}

pub Grown-word : (m : Memory) (off i w : ℕ) → i ≤ off → Grown m (raw_set_word m off w) i
Grown-word m off i w h = record {
  size = size-raw_set_word m off w;
  below = raw_set_word-Same m off w 0 i (inl h);
}

pub Grown-copy : (m : Memory) (off i : ℕ) (bs : List ℕ) → i ≤ off → Grown m (copy_bytes m off bs) i
Grown-copy m off i bs h = record {
  size = size-copy_bytes m off bs;
  below = copy_bytes-Same m off bs 0 i (inl h);
}

pub left-ok : (m : Memory) (s : Stream) → IsValid m s → left s ≡ (s.words - s.head - s.len) * 4
left-ok m s v = omega arith

-- The words of a record's bytes, their count first, as they are before a cast to 32 bits.
abbrev pub bytes_size : Option (List ℕ) → ℕ
bytes_size none = 0
bytes_size (some bytes) = 1 + (length bytes + 3) / 4

-- A computation that returns a memory grown from an offset on.
abbrev pub Grows : Memory → ℕ → Run Memory → Type 0
Grows m off x = (m' : Memory) × (x ≡ done m') × Grown m m' off

set_words-Grows :
    (xs : List ℕ) (m : Memory) (w i : ℕ)
    → m.size < 2 ^ 32
    → w + 4 * (i + length xs) ≤ m.size
    → Grows m (w + 4 * i) (set_words m w i xs)
unfolding set_words
set_words-Grows [] m w i small h = (m, refl, Grown-refl m (w + 4 * i))
set_words-Grows (x ∷ xs) m w i small h =
    let first = raw_set_word m (w + 4 * i) x in
    let size = size-raw_set_word m (w + 4 * i) x in
    let (m', e, g) = set_words-Grows xs first w (i + 1) (omega arith) (omega arith) in
    (
      m',
      rw (set_word-at m (u32 (w + 4 * i)) (w + 4 * i) x (omega arith) (omega arith), e) refl,
      Grown-trans m first m' (w + 4 * i) (w + 4 * (i + 1)) (omega arith)
          (Grown-word m (w + 4 * i) (w + 4 * i) x (omega arith)) g,
    )

fill_bytes-Grows :
    (bytes : Option (List ℕ)) (m : Memory) (k : ℕ)
    → m.size < 2 ^ 32
    → k + 4 * bytes_size bytes ≤ m.size
    → Grows m k (fill_bytes m k bytes)
unfolding fill_bytes
fill_bytes-Grows none m k small h = (m, refl, Grown-refl m k)
fill_bytes-Grows (some bytes) m k small h =
    let n = byte_words_of (some bytes) in
    let same : n ≡ 1 + (length bytes + 3) / 4 = omega arith in
    let off : u32 (k + 4) ≡ k + 4 = omega arith in
    let counted = raw_set_word m k (u32 (length bytes)) in
    let size = size-raw_set_word m k (u32 (length bytes)) in
    let grown = Grown-word m k k (u32 (length bytes)) (omega arith) in
    elim (dec_lt 1 n) [
      | yes more ↦
          let last = k + 4 * (n - 1) in
          let cleared = raw_set_word counted last 0 in
          (
            copy_bytes cleared (k + 4) bytes,
            rw
                (
                  set_word-at m k k (u32 (length bytes)) refl (omega arith),
                  lt→ltb 1 n more,
                  set_word-at counted (u32 last) last 0 (omega arith) (omega arith),
                  off,
                )
                refl,
            Grown-trans m counted (copy_bytes cleared (k + 4) bytes) k k (omega arith) grown (
                Grown-trans counted cleared (copy_bytes cleared (k + 4) bytes) k k (omega arith)
                  (Grown-word counted last k 0 (omega arith))
                  (Grown-copy cleared (k + 4) k bytes (omega arith))),
          )
      | no one ↦ (
        copy_bytes counted (k + 4) bytes,
        rw
            (
              set_word-at m k k (u32 (length bytes)) refl (omega arith),
              ge→ltb 1 n (omega arith),
              off,
            )
            refl,
        Grown-trans m counted (copy_bytes counted (k + 4) bytes) k k (omega arith) grown
            (Grown-copy counted (k + 4) k bytes (omega arith)),
      )
    ]

Grows->>= :
    (m : Memory) (i j : ℕ) (x : Run Memory) (f : Memory → Run Memory)
    → i ≤ j
    → Grows m i x
    → ((m' : Memory) → m'.size ≡ m.size → Grows m' j (f m'))
    → Grows m i (x >>= f)
Grows->>= m i j x f h (m', e, g) k =
    let (n, d, l) = k m' g.size in (n, rw e d, Grown-trans m m' n i j h g l)

Grows-at : (m : Memory) (i j : ℕ) (x : Run Memory) → j ≤ i → Grows m i x → Grows m j x
Grows-at m i j x h (m', e, g) = (m', e, Grown-trans m m m' j i h (Grown-refl m j) g)

pub fill-Grows :
    (args tail : List ℕ) (bytes : Option (List ℕ)) (m : Memory) (w : ℕ)
    → m.size < 2 ^ 32
    → w + 4 * (length args + length tail + bytes_size bytes) ≤ m.size
    → Grows m w (fill m w args tail bytes)
unfolding fill
fill-Grows args tail bytes m w small h = Grows-at m (w + 4 * 0) w _ (omega arith) (
    Grows->>= m (w + 4 * 0) (w + 4 * length args) _ _ (omega arith)
      (set_words-Grows args m w 0 small (omega arith))
      (λ m₁ s₁.
        Grows->>= m₁ (w + 4 * length args) (w + 4 * (length args + length tail)) _ _ (omega arith)
          (set_words-Grows tail m₁ w (length args) (omega arith) (omega arith))
          (λ m₂ s₂.
            subst (λ k. Grows m₂ (w + 4 * (length args + length tail)) (fill_bytes m₂ k bytes))
              (omega arith)
              (fill_bytes-Grows bytes m₂ (w + 4 * (length args + length tail)) (omega arith)
                (omega arith)))))

module _ (m : Memory) (s : Stream) (v : IsValid m s) (op n : ℕ) where
  -- The memory offset where the next record goes.
  abbrev pub next_at : ℕ
  next_at = s.at + 4 * (s.head + s.len)

  abbrev pub longer : Stream
  longer = record s { len = s.len + 2 + n }

  abbrev pub named : Memory
  named = raw_set_word (raw_set_word m next_at op) (next_at + 4) n

  pub opened-ok :
      s.head + s.len + 2 + n ≤ s.words → opened m s op n ≡ done (next_at + 8, longer, named)
  unfolding opened
  opened-ok h =
      let off = u32 (s.at + u32 (4 * u32 (s.head + s.len))) in
      let here : off ≡ next_at = omega (arith, v) in
      let first = raw_set_word m next_at op in
      let size = size-raw_set_word m next_at op in
      let plain : u32 (s.head + s.len) ≡ s.head + s.len = omega (arith, v) in
      let count : u32 (s.len + 2 + n) ≡ s.len + 2 + n = omega (arith, v) in
      let begins : u32 (off + 8) ≡ next_at + 8 = omega (arith, v, here) in
      rw
        (
          le→leb (u32 (s.head + s.len) + 2 + n) s.words (omega (arith, plain)),
          set_word-at m off next_at op here (omega (arith, v)),
          set_word-at first (u32 (off + 4)) (next_at + 4) n (omega (arith, v, here))
              (omega (arith, v, size)),
          count,
          begins,
        )
        refl

  pub named-Grown : Grown m named next_at
  named-Grown =
      let first = raw_set_word m next_at op in
      Grown-trans m first named next_at next_at (omega arith)
        (Grown-word m next_at next_at op (omega arith))
        (Grown-word first (next_at + 4) next_at n (omega arith))

  -- Outside a transaction a record that does not fit is the bug ENOSPC.
  pub opened-bug : s.words < s.head + s.len + 2 + n → opened m s op n ≡ bug Errno.enospc
  unfolding opened
  opened-bug h =
      let plain : u32 (s.head + s.len) ≡ s.head + s.len = omega (arith, v) in
      rw (gt→leb (u32 (s.head + s.len) + 2 + n) s.words (omega (arith, plain))) refl

pub IsValid-Grown :
    (m n : Memory) (s t : Stream) (off : ℕ)
    → IsValid m s
    → Grown m n off
    → t.at ≡ s.at
    → t.words ≡ s.words
    → t.head ≡ s.head
    → s.head + t.len ≤ s.words
    → IsValid n t
IsValid-Grown m n s t off v g a w h r = record {
  placed = omega (arith, v);
  head_in = omega (arith, v);
  room = omega arith;
  in_mem = omega (arith, v, g.size);
  small = omega (arith, v, g.size);
}
