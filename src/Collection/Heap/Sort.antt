-- ===== src/Collection/Heap/Sort.antt =====
-- Heapsort puts its elements in order.
use xpute.Common.{
  ℕ, zero, suc, ◌+◌, ◌-◌, ◌≤◌, ◌<◌, ◌≡◌, inl, inr, refl, sym, ap, subst, ◌∙◌, false, some, leb,
  ◌==◌, if◌then◌else◌, arith, Bool-cases, leb→le, le→leb, ltb→ge,
}
use xpute.Collection.Heap.{Element, Array, ahead, update, swap, sort_from, heapsort, ◌>>=◌}
use xpute.Collection.Heap.Order.{
  Leads, parent, IsHeapFrom, Holds, Holds-self, Holds-trans, Holds-update, update_same,
}
use xpute.Collection.Heap.Sift.{heapify_restores}
use xpute.Collection.Heap.Build.{build_of_restores, root_first, Holds-all, Holds-widen}

Leads-le : (x y : ℕ) → Leads false x y → y ≤ x
unfolding ahead
Leads-le x y h = ltb→ge x y h

module _ {A : Type 0} (n : ℕ) where
  abbrev pub IsSorted : Array A → Type 0
  IsSorted a = (i : ℕ) → i + 1 < n → (a i).key ≤ (a (i + 1)).key

  -- In the middle of the sort: a heap up to `k`, above it the greatest elements in order.
  record Sorting (k : ℕ) (a : Array A) : Type 0 where
    inside : k < n
    heap : IsHeapFrom false 0 a (suc k)
    above : (i j : ℕ) → i ≤ k → k < j → j < n → (a i).key ≤ (a j).key
    sorted : (j : ℕ) → k < j → j + 1 < n → (a j).key ≤ (a (j + 1)).key

  module _ (k : ℕ) (a : Array A) (s : Sorting (suc k) a) where
    at_swap :
        (j : ℕ)
        → swap a 0 (suc k) j ≡ (if suc k == j then a 0 else if 0 == j then a (suc k) else a j)
    unfolding swap update
    at_swap j = refl

    -- The root goes above, and the rest is the heap of the elements it was.
    swap-IsHeapFrom : IsHeapFrom false 1 (swap a 0 (suc k)) (suc k)
    swap-IsHeapFrom c p q r =
        ground (arith, at_swap c, at_swap (parent c), s.heap c p (omega arith) (omega arith))

    swap-le :
        (i j : ℕ) → i ≤ k → k < j → j < n → (swap a 0 (suc k) i).key ≤ (swap a 0 (suc k) j).key
    swap-le i j h p q = ground (
      arith,
      at_swap i,
      at_swap j,
      Leads-le (a 0).key (a i).key (root_first false (suc (suc k)) a i s.heap (omega arith)),
      Leads-le (a 0).key (a (suc k)).key
          (root_first false (suc (suc k)) a (suc k) s.heap (omega arith)),
      s.above i j,
      s.above (suc k) j,
    )

    Sorting-step :
        (b : Array A)
        → IsHeapFrom false 0 b (suc k)
        → Holds (suc k) (swap a 0 (suc k)) b
        → Sorting k b
    Sorting-step b heap holds =
        let same = λ (j : ℕ) (h : k < j). holds.beyond j h in
        let in_n = s.inside in
        record {
          inside = omega arith;
          heap = heap;
          above = λ i j h p q.
              let bound = (swap a 0 (suc k) j).key in
              let all =
                Holds-all (λ e. leb e.key bound) (swap a 0 (suc k)) b (suc k) holds
                  (λ i h. le→leb _ bound (swap-le i j (omega arith) p q)) in
              subst (λ (e : Element A). (b i).key ≤ e.key) (sym (same j p))
                (leb→le (b i).key bound (all i (omega arith)));
          sorted = λ j p q. ground (
            arith,
            same j p,
            same (j + 1) (omega arith),
            at_swap j,
            at_swap (j + 1),
            s.above 0 (j + 1),
            s.sorted j,
          );
        }

    swap-Holds : Holds n a (swap a 0 (suc k))
    unfolding swap
    swap-Holds =
        let in_n = s.inside in
        subst (λ b. Holds n b (swap a 0 (suc k))) (update_same a 0)
          (Holds-update n a 0 (suc k) (a 0) (omega arith) in_n (omega arith))

  sort_from_sorts :
      (k : ℕ) (a : Array A)
      → Sorting k a
      → (b : Array A) × (sort_from k a ≡ some b) × IsSorted b × Holds n a b
  unfolding sort_from
  sort_from_sorts zero a s = (a, refl, λ i h. ground (arith, s.above 0 1, s.sorted i), Holds-self)
  sort_from_sorts (suc k) a s =
      let (b, is, heap, holds) =
        heapify_restores false 0 (suc k) (swap a 0 (suc k)) (omega arith) (swap-IsHeapFrom k a s) in
      let (c, is2, sorted, holds2) = sort_from_sorts k b (Sorting-step k a s b heap holds) in
      let in_n = s.inside in
      let wide = Holds-widen (suc k) n (swap a 0 (suc k)) b (omega arith) holds in
      (
        c,
        ap (λ r. r >>= sort_from k) is ∙ is2,
        sorted,
        Holds-trans (swap-Holds k a s) (Holds-trans wide holds2),
      )

  -- Sorting ends, with the keys in order, smallest first, the same elements as often as before, and nothing else of
  -- the array changed.
  pub heapsort_correct :
      (a : Array A) → (b : Array A) × (heapsort a n ≡ some b) × IsSorted b × Holds n a b
  unfolding heapsort
  heapsort_correct a = elim (Bool-cases (leb n 1)) [
    | inl few ↦ (a, rw few refl, λ i h. absurd (ground arith), Holds-self)
    | inr many ↦
        let (b, is, heap, holds) = build_of_restores false n a in
        let size : suc (n - 1) ≡ n = ground arith in
        let start : Sorting (n - 1) b = record {
          inside = omega arith;
          heap = rw size heap;
          above = λ i j h p q. absurd (omega arith);
          sorted = λ j p q. absurd (omega arith);
        } in
        let (c, is2, sorted, holds2) = sort_from_sorts (n - 1) b start in
        (c, rw many (ap (λ r. r >>= sort_from (n - 1)) is ∙ is2), sorted, Holds-trans holds holds2)
  ]
