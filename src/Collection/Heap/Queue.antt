-- ===== src/Collection/Heap/Queue.antt =====
-- A heap as a queue: what push, pop and replace_root do to its order and its elements.
use xpute.Common.{
  ℕ, zero, suc, ◌+◌, ◌<◌, ◌≡◌, ◌≢◌, inl, inr, refl, sym, ap, subst, ◌∙◌, Bool, true, some, ltb,
  ◌==◌, if◌then◌else◌, arith, Bool-cases, ==_iff, ne→==,
}
use xpute.Collection.Heap.{
  Element, Array, ahead, update, rise, push, heapify, pop, replace_root, top, ◌>>=◌,
}
use xpute.Collection.Heap.Order.{
  Leads, leads_trans, leads_of_ahead, parent, IsHeapFrom, total, Holds, Holds-self, Holds-trans,
  Holds-update, total_out, total-update, update_self, update_other,
}
use xpute.Collection.Heap.Sift.{heapify_restores}
use xpute.Collection.Heap.Build.{root_first}

module _ {A : Type 0} (min : Bool) where
  module _ (sz : ℕ) where
    -- With the element in the hole, only the edge above it may be out of order.
    record Rising (a : Array A) (i : ℕ) (e : Element A) : Type 0 where
      inside : i < sz
      edges :
          (c : ℕ)
          → 0 < c
          → c < sz
          → c ≢ i
          → Leads min (update a i e (parent c)).key (update a i e c).key
      bridged :
          (c : ℕ) → 0 < c → c < sz → parent c ≡ i → 0 < i → Leads min (a (parent i)).key (a c).key

    Rising-step :
        (a : Array A) (i : ℕ) (e : Element A)
        → Rising a i e
        → 0 < i
        → ahead min e.key (a (parent i)).key ≡ true
        → Rising (update a i (a (parent i))) (parent i) e
    unfolding update
    Rising-step a i e s pos h =
        let p = parent i in
        let up = leads_of_ahead min e.key (a p).key h in
        record {
          inside = omega (arith, s.inside);
          edges = λ c q r t. ground (
            arith,
            s.edges c q r,
            s.bridged c q r,
            up,
            leads_trans min e.key (a p).key (a c).key up,
          );
          bridged = λ c q r t u. ground (
            arith,
            s.edges p u,
            s.edges c q r,
            leads_trans min (a (parent p)).key (a p).key (a c).key,
          );
        }

    rise_restores :
        (f : ℕ) (a : Array A) (i : ℕ) (e : Element A)
        → i < f
        → Rising a i e
        → (p : Array A × ℕ) × (rise min f a i e ≡ some p)
          × IsHeapFrom min 0 (update p.0 p.1 e) sz
          × Holds sz (update a i e) (update p.0 p.1 e)
    unfolding rise
    rise_restores zero a i e h s = absurd (omega arith)
    rise_restores (suc f) a i e h s = elim (Bool-cases (ltb 0 i)) [
      | inr root ↦ ((a, i), rw root refl, λ c p q r. s.edges c p q (ground arith), Holds-self)
      | inl below ↦
          let pos : 0 < i = ground arith in
          let p = parent i in
          elim (Bool-cases (ahead min e.key (a p).key)) [
            | inr stays ↦ (
              (a, i),
              rw (below, stays) refl,
              λ c q r t. elim (Bool-cases (c == i)) [
                | inl here ↦
                    subst (λ k. Leads min (update a i e (parent k)).key (update a i e k).key)
                      (sym ((==_iff c i).0 here))
                      (rw (update_self a i e, update_other a i p e (omega arith)) stays)
                | inr other ↦ s.edges c q r (ground arith)
              ],
              Holds-self,
            )
            | inl goes ↦
                let (q, is, heap, holds) =
                  rise_restores f (update a i (a p)) p e (omega arith)
                    (Rising-step a i e s pos goes) in
                (
                  q,
                  rw (below, goes) is,
                  heap,
                  Holds-trans
                      (Holds-update sz a i p e s.inside (omega (arith, s.inside)) (omega arith))
                      holds,
                )
          ]
    ]

  -- The element is added to a heap that holds it, and is one.
  push_restores :
      (size : ℕ) (a : Array A) (e : Element A)
      → IsHeapFrom min 0 a size
      → (b : Array A) × (push min e a size ≡ some (b, size + 1))
        × IsHeapFrom min 0 b (size + 1)
        × ((g : Element A → ℕ) → total g b (size + 1) ≡ total g a size + g e)
  unfolding push
  push_restores size a e heap =
      let a' = update a size e in
      let kept = λ (c : ℕ) (h : c < size).
        update_other a' size c e (omega arith) ∙ update_other a size c e (omega arith) in
      let start : Rising (size + 1) a' size e = record {
        inside = omega arith;
        edges = λ c p q t.
            rw (kept c (omega arith), kept (parent c) (omega arith))
              (heap c p (omega arith) (omega arith));
        bridged = λ c p q t u. absurd (omega arith);
      } in
      let (p, is, heap', holds) =
        rise_restores (size + 1) (size + 1) a' size e (omega arith) start in
      (
        update p.0 p.1 e,
        ap (λ r. r >>= λ p. some (update p.0 p.1 e, size + 1)) is,
        heap',
        λ g. holds.same g ∙ counted g,
      )
    where
      counted :
          (g : Element A → ℕ)
          → total g (update (update a size e) size e) (size + 1) ≡ total g a size + g e
      counted g =
          let a' = update a size e in
          let more : size + 1 ≡ suc size = omega arith in
          ap (total g (update a' size e)) more
          ∙ (omega (
            arith,
            total_out g a' size size e (omega arith),
            total_out g a size size e (omega arith),
            ap g (update_self a' size e),
          ))

  -- The root comes out, the first of them all, and the rest is a heap.
  pop_restores :
      (n : ℕ) (a : Array A)
      → IsHeapFrom min 0 a (suc n)
      → (b : Array A) × (pop min a (suc n) ≡ some (some (a 0), (b, n)))
        × IsHeapFrom min 0 b n
        × ((g : Element A → ℕ) → total g b n + g (a 0) ≡ total g a (suc n))
  unfolding pop
  pop_restores zero a heap = (update a 0 (a 0), refl, λ c p q r. absurd (omega arith), λ g. refl)
  pop_restores (suc n) a heap =
      let b = update a 0 (a (suc n)) in
      let kept = λ (c : ℕ) (h : 0 < c). update_other a 0 c (a (suc n)) (omega arith) in
      let below : IsHeapFrom min 1 b (suc n) = λ c p q r.
        rw (kept c p, kept (parent c) (omega arith)) (heap c p (omega arith) (omega arith)) in
      let (c, is, heap', holds) = heapify_restores min 0 (suc n) b (omega arith) below in
      (
        c,
        ap
              (λ t. (if t then some b else heapify min b 0 (suc n)) >>= λ c.
                some (some (a 0), (c, suc n)))
              (ne→== (suc n) 0 (omega arith))
            ∙ ap (λ r. r >>= λ c. some (some (a 0), (c, suc n))) is,
        heap',
        λ g. omega (arith, holds.same g, total-update g a 0 (suc n) (a (suc n)) (omega arith)),
      )

  replace_root_restores :
      (n : ℕ) (a : Array A) (e : Element A)
      → IsHeapFrom min 0 a (suc n)
      → (b : Array A) × (replace_root min e a (suc n) ≡ some b)
        × IsHeapFrom min 0 b (suc n)
        × ((g : Element A → ℕ) → total g b (suc n) + g (a 0) ≡ total g a (suc n) + g e)
  unfolding replace_root
  replace_root_restores n a e heap =
      let kept = λ (c : ℕ) (h : 0 < c). update_other a 0 c e (omega arith) in
      let below : IsHeapFrom min 1 (update a 0 e) (suc n) =
        λ c p q r. rw (kept c p, kept (parent c) (omega arith)) (heap c p q (omega arith)) in
      let (b, is, heap', holds) =
        heapify_restores min 0 (suc n) (update a 0 e) (omega arith) below in
      (b, is, heap', λ g. omega (arith, holds.same g, total-update g a 0 (suc n) e (omega arith)))

  -- On a heap that is not empty, whichever way it is ordered: push adds the element; pop takes out the top, which may
  -- stand before every element; replace_root trades the top for the element. Each ends and leaves a heap, and of the
  -- elements none is lost and none comes to be: their sum under any weight says so.
  pub queue_correct :
      (n : ℕ) (a : Array A) (e : Element A)
      → IsHeapFrom min 0 a (suc n)
      → ((b : Array A) × (push min e a (suc n) ≡ some (b, suc n + 1))
          × IsHeapFrom min 0 b (suc n + 1)
          × ((g : Element A → ℕ) → total g b (suc n + 1) ≡ total g a (suc n) + g e))
        × ((b : Array A) × (pop min a (suc n) ≡ some (some (a 0), (b, n)))
            × IsHeapFrom min 0 b n
            × ((g : Element A → ℕ) → total g b n + g (a 0) ≡ total g a (suc n)))
        × ((b : Array A) × (replace_root min e a (suc n) ≡ some b)
            × IsHeapFrom min 0 b (suc n)
            × ((g : Element A → ℕ) → total g b (suc n) + g (a 0) ≡ total g a (suc n) + g e))
        × (top a (suc n) ≡ some (a 0))
        × ((i : ℕ) → i < suc n → Leads min (a 0).key (a i).key)
  unfolding top
  queue_correct n a e heap = (
    push_restores (suc n) a e heap,
    pop_restores n a heap,
    replace_root_restores n a e heap,
    ground arith,
    λ i h. root_first min (suc n) a i heap h,
  )
