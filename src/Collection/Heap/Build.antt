-- ===== src/Collection/Heap/Build.antt =====
-- Building a heap, its root, and what holds of all elements of an array.
use xpute.Common.{
  ℕ, zero, suc, ◌/◌, ◌≤◌, ◌<◌, ◌≡◌, inl, inr, refl, sym, ap, subst, ◌∙◌, Bool, true, false, some,
  leb, ◌==◌, arith, Bool-cases, ==_iff, leb→le,
}
use xpute.Collection.Heap.{Element, Array, build_from, build_of, ◌>>=◌}
use xpute.Collection.Heap.Order.{
  Leads, leads_trans, leads_refl, parent, IsHeapFrom, total, Holds, Holds-self, Holds-trans,
}
use xpute.Collection.Heap.Sift.{heapify_restores}

abbrev missed : Bool → ℕ
missed true = 0
missed false = 1

module _ {A : Type 0} where
  module _ (min : Bool) (sz : ℕ) where
    build_from_restores :
        (i : ℕ) (a : Array A)
        → i ≤ sz
        → IsHeapFrom min i a sz
        → (b : Array A) × (build_from min i a sz ≡ some b) × IsHeapFrom min 0 b sz × Holds sz a b
    unfolding build_from
    build_from_restores zero a h heap = (a, refl, heap, Holds-self)
    build_from_restores (suc i) a h heap =
        let (b, is, heap1, holds1) = heapify_restores min i sz a (omega arith) heap in
        let (c, is2, heap2, holds2) = build_from_restores i b (omega arith) heap1 in
        (c, ap (λ r. r >>= λ b. build_from min i b sz) is ∙ is2, heap2, Holds-trans holds1 holds2)

    -- Any array is made a heap of its elements.
    pub build_of_restores :
        (a : Array A)
        → (b : Array A) × (build_of min a sz ≡ some b) × IsHeapFrom min 0 b sz × Holds sz a b
    unfolding build_of
    build_of_restores a =
        build_from_restores (sz / 2) a (omega arith) (λ c p q r. absurd (omega arith))

    root_first_below :
        (k : ℕ) (a : Array A) (i : ℕ)
        → IsHeapFrom min 0 a sz
        → i < k
        → i < sz
        → Leads min (a 0).key (a i).key
    root_first_below zero a i heap h q = absurd (omega arith)
    root_first_below (suc k) a i heap h q = elim (Bool-cases (i == 0)) [
      | inl root ↦ rw ((==_iff i 0).0 root) (leads_refl min (a 0).key)
      | inr below ↦
          let pos : 0 < i = ground arith in
          leads_trans min (a 0).key (a (parent i)).key (a i).key
            (root_first_below k a (parent i) heap (omega arith) (omega arith))
            (heap i pos q (omega arith))
    ]

    -- The root of a heap may stand before all of it.
    pub root_first :
        (a : Array A) (i : ℕ) → IsHeapFrom min 0 a sz → i < sz → Leads min (a 0).key (a i).key
    root_first a i heap q = root_first_below (suc i) a i heap (omega arith) q

  total-none :
      (t : Element A → Bool) (a : Array A) (n : ℕ)
      → ((i : ℕ) → i < n → t (a i) ≡ true)
      → total (λ e. missed (t e)) a n ≡ 0
  total-none t a zero h = refl
  total-none t a (suc n) h =
      let last = h n (omega arith) in
      omega (arith, total-none t a n (λ i q. h i (omega arith)), ap missed last)

  none-total :
      (t : Element A → Bool) (a : Array A) (n i : ℕ)
      → total (λ e. missed (t e)) a n ≡ 0
      → i < n
      → t (a i) ≡ true
  none-total t a zero i e h = absurd (omega arith)
  none-total t a (suc n) i e h = elim (Bool-cases (i == n)) [
    | inl last ↦
        subst (λ k. t (a k) ≡ true) (sym ((==_iff i n).0 last)) (of (t (a n)) (omega (arith, e)))
    | inr before ↦ none-total t a n i (omega (arith, e)) (ground arith)
  ]
    where
      of : (b : Bool) → missed b ≡ 0 → b ≡ true
      of true e = refl
      of false e = absurd (omega arith)

  -- What all elements are, they are in an array that holds the same.
  pub Holds-all :
      (t : Element A → Bool) (a b : Array A) (n : ℕ)
      → Holds n a b
      → ((i : ℕ) → i < n → t (a i) ≡ true)
      → (i : ℕ) → i < n
      → t (b i) ≡ true
  Holds-all t a b n h all i q =
      none-total t b n i (h.same (λ e. missed (t e)) ∙ total-none t a n all) q

  pub Holds-widen : (m n : ℕ) (a b : Array A) → m ≤ n → Holds m a b → Holds n a b
  Holds-widen m n a b h holds = record {
    same = λ g. wider g n h;
    beyond = λ j q. holds.beyond j (omega arith);
  }
    where
      wider : (g : Element A → ℕ) (n : ℕ) → m ≤ n → total g b n ≡ total g a n
      wider g zero h = refl
      wider g (suc n) h = elim (Bool-cases (leb m n)) [
        | inl more ↦
            let within = leb→le m n more in
            omega (arith, wider g n within, ap g (holds.beyond n within))
        | inr last ↦
            let whole : m ≡ suc n = ground arith in
            subst (λ k. total g b k ≡ total g a k) (whole) (holds.same g)
      ]
