-- ===== src/Collection/Deque/Refine.antt =====
-- The deque against a list, oldest first: the ring refines a bounded double-ended queue.
use native.Mathlib.Nat.{mod-add-mod, mod-eq_of_lt, add-zero}
use xpute.Common.{
  ℕ, zero, suc, ◌+◌, ◌-◌, ◌%◌, ◌^◌, ◌≤◌, ◌<◌, ◌≡◌, ◌≢◌, refl, sym, ap, List, [], ◌∷◌, ◌++◌, length,
  get_or, set, get_or-set_self, get_or-set_ne, arith, ◌∙◌, ap₂,
}
use xpute.Collection.Deque.{Deque}

-- The ring's representation invariant. A buffer of more than 2^31 slots could wrap `head + cap`.
pub record IsValid {ℓ} {A : Type ℓ} (d : Deque A) : Type 0 where
  pub small : length d.buf ≤ 2 ^ 31
  pub head_in : d.head < length d.buf
  pub len_in : d.len ≤ length d.buf

-- Fewer than `c` steps round the ring do not come back to the start.
step-ne : (c h k : ℕ) → h < c → suc k < c → (h + suc k) % c ≢ h
step-ne c h k p q = grind arith

module _ {ℓ} {A : Type ℓ} (blank : A) (c : ℕ) where
  -- The `n` values from index `h` on, going round at `c`.
  unfoldable pub window : List A → ℕ → ℕ → List A
  window b h zero = []
  window b h (suc n) = get_or b h blank ∷ window b ((h + 1) % c) n

  pub length-window : (b : List A) (h n : ℕ) → length (window b h n) ≡ n
  unfolding window
  length-window b h zero = refl
  length-window b h (suc n) = ap suc (length-window b ((h + 1) % c) n)

  shift : (h k : ℕ) → (h + suc k) % c ≡ ((h + 1) % c + k) % c
  shift h k = rw mod-add-mod (ap (λ m. m % c) (omega arith))

  -- The last value of a window apart from the others.
  pub window_snoc :
      (b : List A) (h n : ℕ)
      → h < c
      → window b h (suc n) ≡ window b h n ++ (get_or b ((h + n) % c) blank ∷ [])
  unfolding window
  window_snoc b h zero p = rw (add-zero, mod-eq_of_lt p)
  window_snoc b h (suc n) p =
      ap (◌∷◌ (get_or b h blank)) (rw (shift h n) (window_snoc b ((h + 1) % c) n (omega arith)))

  -- A write to a slot past a window leaves it as it was.
  pub window-set :
      (b : List A) (h n k i : ℕ) (v : A)
      → h < c
      → n ≤ k
      → k < c
      → i ≡ (h + k) % c
      → window (set b i v) h n ≡ window b h n
  unfolding window
  window-set b h zero k i v p q r e = refl
  window-set b h (suc n) zero i v p q r e = absurd (omega arith)
  window-set b h (suc n) (suc k) i v p q r e =
      ap₂ ◌∷◌ (get_or-set_ne b v blank (rw e (step-ne c h k p r))) (
        window-set b ((h + 1) % c) n k i v (omega arith) (omega arith) (omega arith)
          (e ∙ shift h k))

  -- A write to the slot just past a window makes it one longer.
  pub window_push :
      (b : List A) (h n i : ℕ) (v : A)
      → length b ≡ c
      → h < c
      → n < c
      → i ≡ (h + n) % c
      → window (set b i v) h (suc n) ≡ window b h n ++ (v ∷ [])
  window_push b h n i v s p q e =
      window_snoc (set b i v) h n p
      ∙ ap₂ (λ q x. q ++ (x ∷ [])) (window-set b h n n i v p (omega arith) q e)
          (ap (λ k. get_or (set b i v) k blank) (sym e) ∙ get_or-set_self b i v blank (omega arith))

  -- Taking a window's first value out of its slot leaves the window of the others.
  pub window_uncons :
      (b : List A) (h m : ℕ) (v : A)
      → h < c
      → m < c
      → window b h (suc m) ≡ get_or b h blank ∷ window (set b h v) ((h + 1) % c) m
  unfolding window
  window_uncons b h m v p q = ap (◌∷◌ (get_or b h blank)) (
      sym (
        window-set b ((h + 1) % c) m (c - 1) h v (omega arith) (omega arith) (omega arith)
          (round h p)))
    where
      round : (h : ℕ) → h < c → h ≡ ((h + 1) % c + (c - 1)) % c
      round h p = grind arith

  -- And so for its last value.
  pub window_unsnoc :
      (b : List A) (h m i : ℕ) (v : A)
      → h < c
      → m < c
      → i ≡ (h + m) % c
      → window b h (suc m) ≡ window (set b i v) h m ++ (get_or b i blank ∷ [])
  window_unsnoc b h m i v p q e =
      rw (window-set b h m m i v p (omega arith) q e, e) (window_snoc b h m p)

abbrev pub contents {ℓ} : {A : Type ℓ} → A → Deque A → List A
contents blank d = window blank (length d.buf) d.buf d.head d.len
