-- ===== src/Gpu/Record/Written.antt =====
-- Words in the memory one after another, and the writer that puts them there.
use xpute.Common.{
  ℕ, zero, suc, ◌+◌, ◌-◌, ◌*◌, ◌/◌, ◌^◌, ◌≤◌, ◌<◌, ◌≡◌, refl, sym, ap, ap₂, subst, ◌∙◌, arith, List,
  [], ◌∷◌, ◌++◌, length, length-append, All,
}
use xpute.Status.{done, ◌>>=◌, >>=-chain, >>=-alike}
use xpute.Guest.Memory.{Memory, u32, raw_word, raw_set_word}
use xpute.Guest.Memory.Laws.{set_word-at, raw_word-set, raw_word-Same, size-raw_set_word}
use xpute.Guest.Stream.Inv.{Grown, Grown-refl, Grown-trans, Grown-word}
use xpute.Gpu.Record.{
  Part, word, bytes, packed, count_from, fill_word, fill_words, fill_part, fill_parts,
}

abbrev pub words_at : Memory → ℕ → ℕ → List ℕ
words_at m off zero = []
words_at m off (suc n) = raw_word m off ∷ words_at m (off + 4) n

-- A memory that reads the words from an offset on, and is unchanged below it.
pub record Written (m m' : Memory) (off : ℕ) (vs : List ℕ) : Type 0 where
  pub grown : Grown m m' off
  pub reads : words_at m' off (length vs) ≡ vs

pub Written-cons :
    (m m' : Memory) (off next v : ℕ) (vs : List ℕ)
    → v < 2 ^ 32
    → next ≡ off + 4
    → Written (raw_set_word m off v) m' next vs
    → Written m m' off (v ∷ vs)
Written-cons m m' off next v vs h e w =
    let first = raw_set_word m off v in
    record {
      grown =
          Grown-trans m first m' off next (omega arith) (Grown-word m off off v (omega arith))
            w.grown;
      reads =
          ap₂ ◌∷◌
            (raw_word-Same first m' 0 next off w.grown.below (omega arith) (omega arith)
              ∙ raw_word-set m off v h)
            (subst (λ k. words_at m' k (length vs) ≡ vs) e w.reads);
    }

-- What a record's parts come to, word for word.
abbrev pub flat : List Part → List ℕ
flat [] = []
flat (word v ∷ ps) = v ∷ flat ps
flat (bytes b ∷ ps) = u32 (length b) ∷ (packed b ++ flat ps)

pub length-packed : (b : List ℕ) → length (packed b) ≡ (length b + 3) / 4
unfolding packed
length-packed [] = refl
length-packed (a ∷ []) = refl
length-packed (a ∷ b ∷ []) = refl
length-packed (a ∷ b ∷ c ∷ []) = refl
length-packed (a ∷ b ∷ c ∷ d ∷ rest) = omega (arith, length-packed rest)

-- Counted as it is written, where a count of 32 bits holds it.
pub count_from-flat :
    (ps : List Part) (n : ℕ)
    → n + length (flat ps) < 2 ^ 32
    → count_from n ps ≡ n + length (flat ps)
unfolding count_from
count_from-flat [] n h = omega arith
count_from-flat (word v ∷ ps) n h =
    let e : u32 (n + 1) ≡ n + 1 = omega arith in
    rw e (count_from-flat ps (n + 1) (omega arith) ∙ omega arith)
count_from-flat (bytes b ∷ ps) n h =
    let k = (length b + 4 - 1) / 4 in
    let all : length (packed b ++ flat ps) ≡ k + length (flat ps) =
      length-append (packed b) (flat ps) ∙ omega (arith, length-packed b) in
    let e : u32 (n + u32 (1 + u32 k)) ≡ n + 1 + k = omega (arith, all) in
    rw e (count_from-flat ps (n + 1 + k) (omega (arith, all)) ∙ omega (arith, all))

-- The parts are written as their words are.
fill_words-append :
    (at : ℕ) (vs ws : List ℕ) (s : ℕ × Memory)
    → fill_words at (vs ++ ws) s ≡ (fill_words at vs s >>= λ s'. fill_words at ws s')
unfolding fill_words
fill_words-append at [] ws s = refl
fill_words-append at (v ∷ vs) ws s =
    >>=-alike (fill_word at v s) (λ s'. fill_words-append at vs ws s')
    ∙ sym (>>=-chain (fill_word at v s) _ _)

pub fill_parts-flat :
    (at : ℕ) (ps : List Part) (s : ℕ × Memory) → fill_parts at ps s ≡ fill_words at (flat ps) s
unfolding fill_parts fill_part fill_words
fill_parts-flat at [] s = refl
fill_parts-flat at (word v ∷ ps) s = >>=-alike (fill_word at v s) (λ s'. fill_parts-flat at ps s')
fill_parts-flat at (bytes b ∷ ps) s =
    >>=-chain (fill_word at (u32 (length b)) s) _ _
    ∙ >>=-alike (fill_word at (u32 (length b)) s) (λ s'.
      >>=-alike (fill_words at (packed b) s') (λ s''. fill_parts-flat at ps s'')
      ∙ sym (fill_words-append at (packed b) (flat ps) s'))

fill_word-at :
    (m : Memory) (at n v : ℕ)
    → m.size < 2 ^ 32
    → at + 4 * (n + 1) ≤ m.size
    → fill_word at v (n, m) ≡ done (n + 1, raw_set_word m (at + 4 * n) v)
unfolding fill_word
fill_word-at m at n v small h =
    let next : u32 (n + 1) ≡ n + 1 = omega arith in
    rw (set_word-at m (u32 (at + u32 (4 * n))) (at + 4 * n) v (omega arith) (omega arith), next)
      refl

-- A run of words written, and the place after it.
abbrev pub FillsWords : ℕ → List ℕ → ℕ → Memory → Type 0
FillsWords at vs n m =
    (m' : Memory) × (fill_words at vs (n, m) ≡ done (n + length vs, m'))
    × Written m m' (at + 4 * n) vs

fill_words-cons :
    (m : Memory) (at n v : ℕ) (vs : List ℕ)
    → v < 2 ^ 32
    → fill_word at v (n, m) ≡ done (n + 1, raw_set_word m (at + 4 * n) v)
    → FillsWords at vs (n + 1) (raw_set_word m (at + 4 * n) v)
    → FillsWords at (v ∷ vs) n m
unfolding fill_words
fill_words-cons m at n v vs p d (m', e, w) = (
  m',
  rw (d, e) (ap (λ k. done (k, m')) (omega arith)),
  Written-cons m m' (at + 4 * n) (at + 4 * (n + 1)) v vs p (omega arith) w,
)

pub fill_words-Fills :
    (vs : List ℕ) (m : Memory) (at n : ℕ)
    → m.size < 2 ^ 32
    → at + 4 * (n + length vs) ≤ m.size
    → All (λ v. v < 2 ^ 32) vs
    → FillsWords at vs n m
unfolding fill_words
fill_words-Fills [] m at n small h a =
    (m, ap (λ k. done (k, m)) (omega arith), record { grown = Grown-refl m _; reads = refl })
fill_words-Fills (v ∷ vs) m at n small h (p, a) =
    let size = size-raw_set_word m (at + 4 * n) v in
    fill_words-cons m at n v vs p (fill_word-at m at n v small (omega arith))
      (fill_words-Fills vs (raw_set_word m (at + 4 * n) v) at (n + 1) (omega arith) (omega arith) a)
