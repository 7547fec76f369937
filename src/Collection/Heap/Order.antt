-- ===== src/Collection/Heap/Order.antt =====
-- The heap's order, and what an array holds up to the order of its elements: their sum under every weight.
use xpute.Common.{
  ℕ, zero, suc, ◌+◌, ◌-◌, ◌/◌, ◌≤◌, ◌<◌, ◌≡◌, ◌≢◌, inl, inr, refl, sym, ap, ◌∙◌, Bool-cases, ==_iff,
  Bool, true, false, ◌==◌, if◌then◌else◌, arith,
}
use mathlib.Core.Path.{fun_ext}
use xpute.Collection.Heap.{Element, Array, ahead, update}

-- The one may stand before the other.
abbrev pub Leads : Bool → ℕ → ℕ → Type 0
Leads min x y = ahead min y x ≡ false

pub leads_trans : (min : Bool) (x y z : ℕ) → Leads min x y → Leads min y z → Leads min x z
unfolding ahead
leads_trans true x y z h k = ground arith
leads_trans false x y z h k = ground arith

pub leads_of_ahead : (min : Bool) (x y : ℕ) → ahead min x y ≡ true → Leads min x y
unfolding ahead
leads_of_ahead true x y h = ground arith
leads_of_ahead false x y h = ground arith

pub leads_refl : (min : Bool) (x : ℕ) → Leads min x x
unfolding ahead
leads_refl true x = ground arith
leads_refl false x = ground arith

abbrev pub parent : ℕ → ℕ
parent c = (c - 1) / 2

module _ {A : Type 0} where
  -- Every edge from a parent at `lo` or later is in order.
  abbrev pub IsHeapFrom : Bool → ℕ → Array A → ℕ → Type 0
  IsHeapFrom min lo a sz =
      (c : ℕ) → 0 < c → c < sz → lo ≤ parent c → Leads min (a (parent c)).key (a c).key

  abbrev pub total : (Element A → ℕ) → Array A → ℕ → ℕ
  total g a zero = 0
  total g a (suc n) = total g a n + g (a n)

  -- The same elements before `sz`, as often, and the same array past it.
  pub record Holds (sz : ℕ) (a b : Array A) : Type 0 where
    pub same : (g : Element A → ℕ) → total g b sz ≡ total g a sz
    pub beyond : (j : ℕ) → sz ≤ j → b j ≡ a j

  pub Holds-self : {sz : ℕ} {a : Array A} → Holds sz a a
  Holds-self = record { same = λ g. refl; beyond = λ j h. refl }

  pub Holds-trans : {sz : ℕ} {a b c : Array A} → Holds sz a b → Holds sz b c → Holds sz a c
  Holds-trans {sz} {a} {b} {c} p q = record {
    same = λ g. q.same g ∙ p.same g;
    beyond = λ j h. q.beyond j h ∙ p.beyond j h;
  }

  pub update_self : (a : Array A) (i : ℕ) (e : Element A) → update a i e i ≡ e
  unfolding update
  update_self a i e = ground arith

  pub update_other : (a : Array A) (i j : ℕ) (e : Element A) → i ≢ j → update a i e j ≡ a j
  unfolding update
  update_other a i j e h = ground arith

  pub update_same : (a : Array A) (i : ℕ) → update a i (a i) ≡ a
  unfolding update
  update_same a i = fun_ext (λ j. here j)
    where
      here : (j : ℕ) → (if i == j then a i else a j) ≡ a j
      here j = elim (Bool-cases (i == j)) [
        | inl e ↦ rw e (ap a ((==_iff i j).0 e))
        | inr e ↦ rw e refl
      ]

  pub total_out :
      (g : Element A → ℕ) (a : Array A) (i n : ℕ) (e : Element A)
      → n ≤ i
      → total g (update a i e) n ≡ total g a n
  total_out g a i zero e h = refl
  total_out g a i (suc n) e h =
      omega (arith, total_out g a i n e (omega arith), ap g (update_other a i n e (omega arith)))

  -- A write trades the old element for the new one.
  pub total-update :
      (g : Element A → ℕ) (a : Array A) (i n : ℕ) (e : Element A)
      → i < n
      → total g (update a i e) n + g (a i) ≡ total g a n + g e
  total-update g a i zero e h = absurd (omega arith)
  total-update g a i (suc n) e h = elim (Bool-cases (i == n)) [
    | inl last ↦
        let here : i ≡ n = (==_iff i n).0 last in
        omega (
          arith,
          total_out g a i n e (omega arith),
          ap g (update_self a i e),
          ap (λ k. g (update a i e k)) here,
          ap (λ k. g (a k)) here,
        )
    | inr before ↦
        let lt : i < n = ground arith in
        omega (arith, total-update g a i n e lt, ap g (update_other a i n e (omega arith)))
  ]

  -- Two places of an array trade their elements.
  pub Holds-update :
      (sz : ℕ) (a : Array A) (i m : ℕ) (e : Element A)
      → i < sz
      → m < sz
      → i ≢ m
      → Holds sz (update a i e) (update (update a i (a m)) m e)
  Holds-update sz a i m e hi hm ne = record {
    same = λ g.
        let a' = update a i (a m) in
        omega (
          arith,
          total-update g a i sz e hi,
          total-update g a i sz (a m) hi,
          total-update g a' m sz e hm,
          ap g (update_other a i m (a m) ne),
        );
    beyond = λ j h.
        update_other (update a i (a m)) m j e (omega arith)
        ∙ update_other a i j (a m) (omega arith)
        ∙ sym (update_other a i j e (omega arith));
  }
