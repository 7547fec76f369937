-- ===== src/Collection/Inline/Mid.antt =====
-- The list that an inline list holds, and its slots in the middle of a pass over them.
use xpute.Common.{
  ℕ, zero, suc, ◌+◌, ◌-◌, ◌≤◌, ◌<◌, ◌≡◌, ◌≢◌, refl, ap, ◌∙◌, arith, Option, none, some, List, [],
  ◌∷◌, ◌++◌, length, length-append, get_elem?, ltb, ◌==◌, if◌then◌else◌, ge→ltb,
}
use xpute.Collection.Inline.{Inline}

module _ {A : Type 0} where
  -- The first slots hold the list and the others nothing.
  pub record Holds (l : Inline A) (xs : List A) : Type 0 where
    pub slots : (i : ℕ) → l.slots i ≡ get_elem? xs i
    pub len : l.len ≡ length xs
    pub fits : length xs ≤ l.cap

  pub get_elem?-append_one :
      (ys : List A) (z : A) (i : ℕ)
      → get_elem? (ys ++ (z ∷ [])) i
        ≡ (if ltb i (length ys) then get_elem? ys i else (if i == length ys then some z else none))
  get_elem?-append_one [] z zero = refl
  get_elem?-append_one [] z (suc i) = ground arith
  get_elem?-append_one (y ∷ ys) z zero = ground arith
  get_elem?-append_one (y ∷ ys) z (suc i) = ground (arith, get_elem?-append_one ys z i)

  get_elem?-tail :
      (z : A) (zs : List A) (i at : ℕ)
      → at < i
      → get_elem? (z ∷ zs) (i - at) ≡ get_elem? zs (i - (at + 1))
  get_elem?-tail z zs i at h =
      let next : i - at ≡ suc (i - (at + 1)) = omega arith in ap (get_elem? (z ∷ zs)) next

  -- In the middle of a pass: `ys` at the front, then empty slots, and `zs` from `at` on.
  abbrev pub Mid : (ℕ → Option A) → List A → List A → ℕ → Type 0
  Mid f ys zs at =
      (i : ℕ)
      → f i ≡ (
          if ltb i (length ys)
          then get_elem? ys i
          else (if ltb i at then none else get_elem? zs (i - at)))

  module _ (f : ℕ → Option A) (ys zs : List A) (z : A) (at : ℕ) (m : Mid f ys (z ∷ zs) at)
      (h : length ys ≤ at) where
    pub at_slot : f at ≡ some z
    at_slot =
        let here : at - at ≡ 0 = omega arith in
        m at ∙ rw (ge→ltb at (length ys) h, ge→ltb at at (omega arith), here) refl

    -- The slot at `at` refused.
    pub refused : Mid (λ j. if j == at then none else f j) ys zs (at + 1)
    refused i = ground (arith, m i, get_elem?-tail z zs i at)

    -- Kept where it is, and moved down.
    pub stays : length ys ≡ at → Mid f (ys ++ (z ∷ [])) zs (at + 1)
    stays e i = ground (
      arith,
      m i,
      at_slot,
      get_elem?-tail z zs i at,
      get_elem?-append_one ys z i,
      length-append ys (z ∷ []),
    )

    pub moved :
        length ys ≢ at
        → Mid
            (λ j. if j == at then none else (if j == length ys then some z else f j))
            (ys ++ (z ∷ []))
            zs
            (at + 1)
    moved e i = ground (
      arith,
      m i,
      get_elem?-tail z zs i at,
      get_elem?-append_one ys z i,
      length-append ys (z ∷ []),
    )

  pub get_elem?-past : (xs : List A) (i : ℕ) → length xs ≤ i → get_elem? xs i ≡ none
  get_elem?-past [] i h = refl
  get_elem?-past (x ∷ xs) zero h = absurd (omega arith)
  get_elem?-past (x ∷ xs) (suc i) h = get_elem?-past xs i (omega arith)

  -- At the end of a pass.
  pub Mid-Holds :
      (l : Inline A) (ys : List A) (at n : ℕ)
      → Mid l.slots ys [] at
      → n ≡ length ys
      → length ys ≤ l.cap
      → Holds (record l { len = n }) ys
  Mid-Holds l ys at n m e h = record {
    slots = λ i. ground (arith, m i, get_elem?-past ys i);
    len = e;
    fits = h;
  }

  pub get_elem?-append :
      (ys zs : List A) (i : ℕ)
      → get_elem? (ys ++ zs) i
        ≡ (if ltb i (length ys) then get_elem? ys i else get_elem? zs (i - length ys))
  get_elem?-append [] zs i =
      let same : i ≡ i - 0 = omega arith in ground (arith, ap (get_elem? zs) same)
  get_elem?-append (y ∷ ys) zs zero = ground arith
  get_elem?-append (y ∷ ys) zs (suc i) =
      let same : suc i - suc (length ys) ≡ i - length ys = omega arith in
      ground (arith, get_elem?-append ys zs i, ap (get_elem? zs) same)
