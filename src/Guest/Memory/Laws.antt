-- ===== src/Guest/Memory/Laws.antt =====
-- What a write leaves of the bytes, words and spans around it.
use xpute.Common.{
  ℕ, zero, suc, ◌+◌, ◌-◌, ◌^◌, ◌≤◌, ◌<◌, ◌≡◌, ◌∙◌, refl, ap, ap₂, ◌⊎◌, List, [], ◌∷◌, ◌++◌, length,
  get_or, le→leb, lt→ltb, All, arith, replicate,
}
use xpute.Status.{done}
use xpute.Guest.Memory.{
  Memory, raw_word, word, raw_set_word, set_word, clear_bytes, copy_bytes, bytes_at,
}

-- Every byte of a memory is one.
abbrev pub IsBytes : Memory → Type 0
IsBytes m = (a : ℕ) → m.byte a < 2 ^ 8

-- The bytes from `lo` up to `hi` are the same.
abbrev pub Same : Memory → Memory → ℕ → ℕ → Type 0
Same m n lo hi = (a : ℕ) → lo ≤ a → a < hi → n.byte a ≡ m.byte a

pub word-ok : (m : Memory) (off : ℕ) → off + 4 ≤ m.size → word m off ≡ done (raw_word m off)
unfolding word
word-ok m off h = rw (le→leb (off + 4) m.size h)

pub set_word-ok :
    (m : Memory) (off w : ℕ) → off + 4 ≤ m.size → set_word m off w ≡ done (raw_set_word m off w)
unfolding set_word
set_word-ok m off w h = rw (le→leb (off + 4) m.size h)

pub raw_word-Same :
    (m n : Memory) (lo hi off : ℕ)
    → Same m n lo hi
    → lo ≤ off
    → off + 4 ≤ hi
    → raw_word n off ≡ raw_word m off
unfolding raw_word
raw_word-Same m n lo hi off s p q = omega (
  arith,
  s off (omega arith) (omega arith),
  s (off + 1) (omega arith) (omega arith),
  s (off + 2) (omega arith) (omega arith),
  s (off + 3) (omega arith) (omega arith),
)

pub bytes_at-Same :
    (m n : Memory) (lo hi off k : ℕ)
    → Same m n lo hi
    → lo ≤ off
    → off + k ≤ hi
    → bytes_at n off k ≡ bytes_at m off k
unfolding bytes_at
bytes_at-Same m n lo hi off zero s p q = refl
bytes_at-Same m n lo hi off (suc k) s p q =
    ap₂ ◌∷◌ (s off p (omega arith))
      (bytes_at-Same m n lo hi (off + 1) k s (omega arith) (omega arith))

pub raw_word-set : (m : Memory) (off w : ℕ) → w < 2 ^ 32 → raw_word (raw_set_word m off w) off ≡ w
unfolding raw_word raw_set_word
raw_word-set m off w h = ground arith

-- A word's write touches its four bytes alone.
pub raw_set_word-Same :
    (m : Memory) (off w lo hi : ℕ)
    → (hi ≤ off) ⊎ (off + 4 ≤ lo)
    → Same m (raw_set_word m off w) lo hi
unfolding raw_set_word
raw_set_word-Same m off w lo hi h a p q = ground arith

pub clear_bytes-Same :
    (m : Memory) (off n lo hi : ℕ)
    → (hi ≤ off) ⊎ (off + n ≤ lo)
    → Same m (clear_bytes m off n) lo hi
unfolding clear_bytes
clear_bytes-Same m off n lo hi h a p q = ground arith

pub copy_bytes-Same :
    (m : Memory) (off : ℕ) (bs : List ℕ) (lo hi : ℕ)
    → (hi ≤ off) ⊎ (off + length bs ≤ lo)
    → Same m (copy_bytes m off bs) lo hi
unfolding copy_bytes
copy_bytes-Same m off bs lo hi h a p q = ground arith

pub Same-trans : (m n o : Memory) (lo hi : ℕ) → Same m n lo hi → Same n o lo hi → Same m o lo hi
Same-trans m n o lo hi s t a p q = t a p q ∙ s a p q

pub raw_word-lt : (m : Memory) (off : ℕ) → IsBytes m → raw_word m off < 2 ^ 32
unfolding raw_word
raw_word-lt m off b = omega (arith, b off, b (off + 1), b (off + 2), b (off + 3))

pub raw_set_word-IsBytes : (m : Memory) (off w : ℕ) → IsBytes m → IsBytes (raw_set_word m off w)
unfolding raw_set_word
raw_set_word-IsBytes m off w b a = ground (arith, b a)

pub clear_bytes-IsBytes : (m : Memory) (off n : ℕ) → IsBytes m → IsBytes (clear_bytes m off n)
unfolding clear_bytes
clear_bytes-IsBytes m off n b a = ground (arith, b a)

-- A write whose address is computed, where it lands in the memory.
pub set_word-at :
    (m : Memory) (off at w : ℕ)
    → off ≡ at
    → at + 4 ≤ m.size
    → set_word m off w ≡ done (raw_set_word m at w)
set_word-at m off at w e h = rw e (set_word-ok m at w h)

pub word-at :
    (m : Memory) (off at : ℕ) → off ≡ at → at + 4 ≤ m.size → word m off ≡ done (raw_word m at)
word-at m off at e h = rw e (word-ok m at h)

pub size-raw_set_word : (m : Memory) (off w : ℕ) → (raw_set_word m off w).size ≡ m.size
unfolding raw_set_word
size-raw_set_word m off w = refl

pub size-copy_bytes : (m : Memory) (off : ℕ) (bs : List ℕ) → (copy_bytes m off bs).size ≡ m.size
unfolding copy_bytes
size-copy_bytes m off bs = refl

pub size-clear_bytes : (m : Memory) (off n : ℕ) → (clear_bytes m off n).size ≡ m.size
unfolding clear_bytes
size-clear_bytes m off n = refl

pub Same-sub :
    (m n : Memory) (lo hi lo' hi' : ℕ) → Same m n lo hi → lo ≤ lo' → hi' ≤ hi → Same m n lo' hi'
Same-sub m n lo hi lo' hi' s p q a b c = s a (omega arith) (omega arith)

pub bytes_at-append :
    (m : Memory) (off a b k : ℕ)
    → k ≡ a + b
    → bytes_at m off k ≡ bytes_at m off a ++ bytes_at m (off + a) b
unfolding bytes_at
bytes_at-append m off zero b k e = ap₂ (bytes_at m) (omega arith) (omega (arith, e))
bytes_at-append m off (suc a) b zero e = absurd (omega arith)
bytes_at-append m off (suc a) b (suc k) e = ap (◌∷◌ (m.byte off)) (
    bytes_at-append m (off + 1) a b k (omega arith)
    ∙ ap (λ o. bytes_at m (off + 1) a ++ bytes_at m o b) (omega arith))

pub bytes_at-eq :
    (n : Memory) (off : ℕ) (bs : List ℕ)
    → ((i : ℕ) → i < length bs → n.byte (off + i) ≡ get_or bs i 0)
    → bytes_at n off (length bs) ≡ bs
unfolding bytes_at
bytes_at-eq n off [] h = refl
bytes_at-eq n off (b ∷ bs) h =
    ap₂ ◌∷◌ (ap n.byte (omega arith) ∙ h 0 (omega arith))
      (bytes_at-eq n (off + 1) bs (λ i p. ap n.byte (omega arith) ∙ h (suc i) (omega arith)))

-- What was copied is read back.
pub bytes_at-copy :
    (m : Memory) (off : ℕ) (bs : List ℕ) → bytes_at (copy_bytes m off bs) off (length bs) ≡ bs
unfolding copy_bytes
bytes_at-copy m off bs = bytes_at-eq (copy_bytes m off bs) off bs λ i h.
    let shift : off + i - off ≡ i = omega arith in
    rw (le→leb off (off + i) (omega arith), lt→ltb (off + i) (off + length bs) (omega arith), shift)
      refl

get_or-lt : (bs : List ℕ) (i : ℕ) → All (λ b. b < 2 ^ 8) bs → get_or bs i 0 < 2 ^ 8
get_or-lt [] i h = omega arith
get_or-lt (b ∷ bs) zero h = h.0
get_or-lt (b ∷ bs) (suc i) h = get_or-lt bs i h.1

pub copy_bytes-IsBytes :
    (m : Memory) (off : ℕ) (bs : List ℕ)
    → All (λ b. b < 2 ^ 8) bs
    → IsBytes m
    → IsBytes (copy_bytes m off bs)
unfolding copy_bytes
copy_bytes-IsBytes m off bs h b a = ground (arith, b a, get_or-lt bs (a - off) h)

pub bytes_at-clear :
    (m : Memory) (off n k at : ℕ)
    → off ≤ at
    → at + k ≤ off + n
    → bytes_at (clear_bytes m off n) at k ≡ replicate k 0
unfolding bytes_at clear_bytes
bytes_at-clear m off n zero at p q = refl
bytes_at-clear m off n (suc k) at p q =
    ap₂ ◌∷◌ (ground arith) (bytes_at-clear m off n k (at + 1) (omega arith) (omega arith))
