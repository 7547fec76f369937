-- ===== src/Collection/Heap/Sift.antt =====
-- What the loops that move a hole restore.
use xpute.Common.{
  ℕ, zero, suc, ◌+◌, ◌-◌, ◌*◌, ◌≤◌, ◌<◌, ◌≡◌, ◌≢◌, ◌⊎◌, inl, inr, refl, sym, ap, subst, Bool, true,
  false, ◌&&◌, some, ltb, ◌==◌, arith, Bool-cases, ==_iff, ltb→lt,
}
use native.Mathlib.Nat.{le_refl}
use xpute.Collection.Heap.{Element, Array, ahead, update, pick, sink, heapify, ◌>>=◌}
use xpute.Collection.Heap.Order.{
  Leads, leads_trans, leads_of_ahead, leads_refl, parent, IsHeapFrom, Holds, Holds-self,
  Holds-trans, Holds-update, update_self, update_other, update_same,
}

kid : (c i : ℕ) → 0 < c → parent c ≡ i → (c ≡ 2 * i + 1) ⊎ (c ≡ 2 * i + 2)
kid c i p r = elim (Bool-cases (c == 2 * i + 1)) [
  | inl left ↦ inl ((==_iff c (2 * i + 1)).0 left)
  | inr right ↦ inr (ground arith)
]

both : (p q : Bool) → (p && q) ≡ true → (p ≡ true) × (q ≡ true)
both true q h = (refl, h)
both false q h = absurd (cc)

module _ {A : Type 0} (min : Bool) where
  -- The child that is compared with: there, and none of the node's children is ahead of it.
  record IsFirst (a : Array A) (i m sz : ℕ) : Type 0 where
    inside : m < sz
    child : (m ≡ 2 * i + 1) ⊎ (m ≡ 2 * i + 2)
    first : (c : ℕ) → 0 < c → c < sz → parent c ≡ i → Leads min (a m).key (a c).key

  pick-IsFirst :
      (a : Array A) (i sz : ℕ) → 2 * i + 1 < sz → IsFirst a i (pick min a (2 * i + 1) sz) sz
  unfolding pick
  pick-IsFirst a i sz h =
      let l = 2 * i + 1 in
      elim (Bool-cases (ltb (l + 1) sz && ahead min (a (l + 1)).key (a l).key)) [
        | inl right ↦ rw right (
            let (inside, before) =
              both (ltb (l + 1) sz) (ahead min (a (l + 1)).key (a l).key) right in
            record {
              inside = ltb→lt (l + 1) sz inside;
              child = inr (omega arith);
              first = λ c p q r. elim (kid c i p r) [
                | inl e ↦ rw e (leads_of_ahead min (a (l + 1)).key (a l).key before)
                | inr e ↦
                    subst (λ k. Leads min (a (l + 1)).key (a k).key) (omega arith)
                      (leads_refl min (a (l + 1)).key)
              ];
            })
        | inr left ↦ rw left (record {
          inside = h;
          child = inl refl;
          first = λ c p q r. elim (kid c i p r) [
            | inl e ↦ rw e (leads_refl min (a l).key)
            | inr e ↦ ground arith
          ];
        })
      ]

  module _ (lo sz : ℕ) where
    -- With the element in the hole, only the edges below it may be out of order.
    record Sinking (a : Array A) (i : ℕ) (e : Element A) : Type 0 where
      inside : i < sz
      after : lo ≤ i
      edges :
          (c : ℕ)
          → 0 < c
          → c < sz
          → lo ≤ parent c
          → parent c ≢ i
          → Leads min (update a i e (parent c)).key (update a i e c).key
      bridged :
          (c : ℕ)
          → 0 < c
          → c < sz
          → parent c ≡ i
          → 0 < i
          → lo ≤ parent i
          → Leads min (a (parent i)).key (a c).key

    Sinking-step :
        (a : Array A) (i m : ℕ) (e : Element A)
        → Sinking a i e
        → IsFirst a i m sz
        → ahead min (a m).key e.key ≡ true
        → Sinking (update a i (a m)) m e
    unfolding update
    Sinking-step a i m e s f h = record {
      inside = f.inside;
      after = omega (arith, s.after, f.child);
      edges = λ c p q r t. ground (
        arith,
        s.edges c p q r,
        s.bridged m,
        f.first c p q,
        leads_of_ahead min (a m).key e.key h,
      );
      bridged = λ c p q r t u. ground (arith, s.edges c p q);
    }

    -- An element that its hole takes is where the heap wants it.
    settled :
        (a : Array A) (i : ℕ) (e : Element A)
        → Sinking a i e
        → ((c : ℕ) → 0 < c → c < sz → parent c ≡ i → Leads min e.key (a c).key)
        → IsHeapFrom min lo (update a i e) sz
    settled a i e s h c p q r = elim (Bool-cases (parent c == i)) [
      | inl under ↦
          let e1 : parent c ≡ i = (==_iff (parent c) i).0 under in
          subst (λ k. Leads min (update a i e k).key (update a i e c).key) (sym e1)
            (rw (update_self a i e, update_other a i c e (omega arith)) (h c p q e1))
      | inr apart ↦ s.edges c p q r (λ z. ground arith)
    ]

    -- The loop ends, and the element put where it leaves the hole makes a heap of the same elements.
    sink_restores :
        (f : ℕ) (a : Array A) (i : ℕ) (e : Element A)
        → sz - i < f
        → Sinking a i e
        → (p : Array A × ℕ) × (sink min f a i e sz ≡ some p)
          × IsHeapFrom min lo (update p.0 p.1 e) sz
          × Holds sz (update a i e) (update p.0 p.1 e)
    unfolding sink
    sink_restores zero a i e h s = absurd (omega arith)
    sink_restores (suc f) a i e h s = elim (Bool-cases (ltb (2 * i + 1) sz)) [
      | inr none ↦
          ((a, i), rw none refl, settled a i e s (λ c p q r. absurd (ground arith)), Holds-self)
      | inl more ↦
          let m = pick min a (2 * i + 1) sz in
          let first = pick-IsFirst a i sz (ltb→lt (2 * i + 1) sz more) in
          elim (Bool-cases (ahead min (a m).key e.key)) [
            | inr stays ↦ (
              (a, i),
              rw (more, stays) refl,
              settled a i e s (λ c p q r.
                  leads_trans min e.key (a m).key (a c).key stays (first.first c p q r)),
              Holds-self,
            )
            | inl goes ↦
                let (p, is, heap, holds) =
                  sink_restores f (update a i (a m)) m e (omega (arith, first.child, s.inside))
                    (Sinking-step a i m e s first goes) in
                (
                  p,
                  rw (more, goes) is,
                  heap,
                  Holds-trans
                      (Holds-update sz a i m e s.inside first.inside (omega (arith, first.child)))
                      holds,
                )
          ]
    ]

    -- Where both subtrees of the root hold the order, all below it does after.
    pub heapify_restores :
        (a : Array A)
        → lo < sz
        → IsHeapFrom min (suc lo) a sz
        → (b : Array A) × (heapify min a lo sz ≡ some b) × IsHeapFrom min lo b sz × Holds sz a b
    unfolding heapify
    heapify_restores a h heap =
        let same = update_same a lo in
        let start : Sinking a lo (a lo) = record {
          inside = h;
          after = le_refl lo;
          edges = λ c p q r t.
              subst (λ (b : Array A). Leads min (b (parent c)).key (b c).key) (sym same)
                (heap c p q (omega arith));
          bridged = λ c p q r t u. absurd (omega arith);
        } in
        let (p, is, heap', holds) = sink_restores (sz + 1) a lo (a lo) (omega arith) start in
        (
          update p.0 p.1 (a lo),
          ap (λ r. r >>= λ p. some (update p.0 p.1 (a lo))) is,
          heap',
          subst (λ b. Holds sz b (update p.0 p.1 (a lo))) (same) (holds),
        )
