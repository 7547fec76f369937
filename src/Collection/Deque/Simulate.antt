-- ===== src/Collection/Deque/Simulate.antt =====
-- Each call on a valid ring does what the same call does on the list of its contents.
use native.Mathlib.Decide.{dec_lt}
use xpute.Common.{
  ap₂, ℕ, zero, suc, ◌+◌, ◌-◌, ◌%◌, ◌^◌, ◌<◌, ◌≡◌, refl, ap, Option, some, List, [], ◌∷◌, ◌++◌,
  length, get_or, set, length-set, get_or-set_self, arith, ◌∙◌, inl, inr, get_elem?-eq-get_or,
}
use xpute.Status.{done, map_run, Run-cases}
use xpute.Collection.Deque
use xpute.Collection.Deque.{Deque, u32, cap}
use xpute.Collection.Deque.Refine.{
  IsValid, window, length-window, window_snoc, window-set, window_uncons, window_unsnoc, contents,
}
use xpute.Collection.Deque.Spec.{
  Op, push_back, push_front, pop_front, pop_back, clear, unsnoc, uncons, list_step, ring_step,
  list_run, ring_run,
}

-- What the list would hold after a call that answered.
abbrev pub seen {ℓ} : {A : Type ℓ} → A → Option A × Deque A → Option A × List A
seen blank (r, d) = (r, contents blank d)

unsnoc_append {ℓ} : {A : Type ℓ} (q : List A) (x : A) → unsnoc (q ++ (x ∷ [])) ≡ (some x, q)
unfolding unsnoc
unsnoc_append [] x = refl
unsnoc_append (y ∷ []) x = refl
unsnoc_append (y ∷ z ∷ r) x = ground (arith, unsnoc_append (z ∷ r) x)

module _ {A : Type 0} (blank : A) (d : Deque A) (v : IsValid d) where
  length-contents : length (contents blank d) ≡ d.len
  length-contents = length-window blank (length d.buf) d.buf d.head d.len

  -- The `uint32_t` arithmetic of a valid ring does not wrap.
  no_wrap :
      (cap d ≡ length d.buf)
      × (u32 (d.head + d.len) ≡ d.head + d.len)
      × (u32 (d.len + 1) ≡ d.len + 1)
      × (u32 (d.head + 1) ≡ d.head + 1)
      × (u32 (u32 (d.head + cap d) + 2 ^ 32 - 1) ≡ d.head + length d.buf - 1)
  no_wrap = omega arith

  slot_in : d.len < length d.buf → (d.head + d.len) % length d.buf < length d.buf
  slot_in h = omega arith

  contents-push_back :
      (x : A) (i n : ℕ)
      → d.len < length d.buf
      → i ≡ (d.head + d.len) % length d.buf
      → n ≡ suc d.len
      → window blank (length (set d.buf i x)) (set d.buf i x) d.head n
        ≡ contents blank d ++ (x ∷ [])
  contents-push_back x i n h e f = rw (
    length-set d.buf i x,
    f,
    e,
    window_snoc blank (length d.buf) (set d.buf ((d.head + d.len) % length d.buf) x) d.head d.len
        v.head_in,
    window-set blank (length d.buf) d.buf d.head d.len d.len ((d.head + d.len) % length d.buf) x
        v.head_in (omega arith) h refl,
    get_or-set_self d.buf ((d.head + d.len) % length d.buf) x blank (slot_in h),
  )

  push_back_refines :
      (x : A)
      → map_run (seen blank) (ring_step blank (push_back x) d)
        ≡ list_step (length d.buf) (push_back x) (contents blank d)
  unfolding ring_step list_step Deque.push_back
  push_back_refines x = ground (
    arith,
    no_wrap,
    length-contents,
    contents-push_back x (u32 (d.head + d.len) % cap d) (u32 (d.len + 1)),
  )

  contents-push_front :
      (x : A) (i n : ℕ)
      → d.len < length d.buf
      → i ≡ (d.head + length d.buf - 1) % length d.buf
      → n ≡ suc d.len
      → window blank (length (set d.buf i x)) (set d.buf i x) i n ≡ x ∷ contents blank d
  unfolding window
  contents-push_front x i n h e f =
      let back_one : (i + 1) % length d.buf ≡ d.head = grind (arith, v) in
      rw (length-set d.buf i x, f, back_one)
        (ap₂ ◌∷◌ (get_or-set_self d.buf i x blank (omega arith)) (
          window-set blank (length d.buf) d.buf d.head d.len (length d.buf - 1) i x v.head_in
            (omega arith) (omega arith) (e ∙ ap (λ m. m % length d.buf) (omega arith))))

  push_front_refines :
      (x : A)
      → map_run (seen blank) (ring_step blank (push_front x) d)
        ≡ list_step (length d.buf) (push_front x) (contents blank d)
  unfolding ring_step list_step Deque.push_front
  push_front_refines x = ground (
    arith,
    no_wrap,
    length-contents,
    contents-push_front x (u32 (u32 (d.head + cap d) + 2 ^ 32 - 1) % cap d) (u32 (d.len + 1)),
  )

  pop_front_refines :
      map_run (seen blank) (ring_step blank pop_front d)
      ≡ list_step (length d.buf) pop_front (contents blank d)
  unfolding ring_step list_step Deque.pop_front uncons window
  pop_front_refines = elim (dec_lt 0 d.len) [
    | yes h ↦
        let more : d.len ≡ suc (d.len - 1) = omega arith in
        let taken =
          ap (window blank (length d.buf) d.buf d.head) more
          ∙ window_uncons blank (length d.buf) d.buf d.head (d.len - 1) blank v.head_in
              (omega arith) in
        ground (
          arith,
          no_wrap,
          taken,
          length-set d.buf d.head blank,
          get_elem?-eq-get_or d.buf d.head blank,
        )
    | no h ↦
        let none_left : d.len ≡ 0 = omega arith in
        ground (arith, ap (window blank (length d.buf) d.buf d.head) none_left)
  ]

  pop_back_refines :
      map_run (seen blank) (ring_step blank pop_back d)
      ≡ list_step (length d.buf) pop_back (contents blank d)
  unfolding ring_step list_step Deque.pop_back unsnoc window
  pop_back_refines = elim (dec_lt 0 d.len) [
    | yes h ↦
        let more : d.len ≡ suc (d.len - 1) = omega arith in
        let at = u32 (d.head + (d.len - 1)) % cap d in
        let here : at ≡ (d.head + (d.len - 1)) % length d.buf = ground (arith, no_wrap) in
        let taken =
          ap (window blank (length d.buf) d.buf d.head) more
          ∙ window_unsnoc blank (length d.buf) d.buf d.head (d.len - 1) at blank v.head_in
              (omega arith) here in
        ground (
          arith,
          no_wrap,
          ap unsnoc taken,
          unsnoc_append (window blank (length d.buf) (set d.buf at blank) d.head (d.len - 1))
              (get_or d.buf at blank),
          length-set d.buf at blank,
          get_elem?-eq-get_or d.buf at blank,
        )
    | no h ↦
        let none_left : d.len ≡ 0 = omega arith in
        ground (arith, ap (window blank (length d.buf) d.buf d.head) none_left)
  ]

  clear_refines :
      map_run (seen blank) (ring_step blank clear d)
      ≡ list_step (length d.buf) clear (contents blank d)
  unfolding ring_step list_step Deque.clear window
  clear_refines = refl

length-clear_from {ℓ} :
    {A : Type ℓ} (blank : A) (n i : ℕ) (b : List A) (h c : ℕ)
    → length (Deque.clear_from blank n i b h c) ≡ length b
unfolding Deque.clear
length-clear_from blank zero i b h c = refl
length-clear_from blank (suc n) i b h c =
    length-clear_from blank n (i + 1) (set b ((h + i) % c) blank) h c
    ∙ length-set b ((h + i) % c) blank

module _ {A : Type 0} (blank : A) where
  -- Each call on a valid ring does to the list of its contents, oldest first, exactly what the call
  -- promises, and answers the same, a full ring's ENOSPC bug and an empty one's none included.
  pub step_refines :
      (o : Op A) {d : Deque A}
      → IsValid d
      → map_run (seen blank) (ring_step blank o d) ≡ list_step (length d.buf) o (contents blank d)
  step_refines (push_back x) {d} v = push_back_refines blank d v x
  step_refines (push_front x) {d} v = push_front_refines blank d v x
  step_refines pop_front {d} v = pop_front_refines blank d v
  step_refines pop_back {d} v = pop_back_refines blank d v
  step_refines clear {d} v = clear_refines blank d v

  -- A call that returns leaves a valid ring over a buffer of the same size.
  pub step-IsValid :
      (o : Op A) {d : Deque A} (r : Option A × Deque A)
      → IsValid d
      → ring_step blank o d ≡ done r
      → IsValid r.1 × (length r.1.buf ≡ length d.buf)
  unfolding ring_step Deque.push_back Deque.push_front Deque.pop_front Deque.pop_back Deque.clear
  step-IsValid (push_back x) {d} r v e =
      ground (arith, no_wrap blank d v, length-set d.buf (u32 (d.head + d.len) % cap d) x)
  step-IsValid (push_front x) {d} r v e =
      let at = u32 (u32 (d.head + cap d) + 2 ^ 32 - 1) % cap d in
      ground (arith, no_wrap blank d v, length-set d.buf at x)
  step-IsValid pop_front {d} r v e =
      ground (arith, no_wrap blank d v, length-set d.buf d.head blank)
  step-IsValid pop_back {d} r v e =
      let at = u32 (d.head + (d.len - 1)) % cap d in
      ground (arith, no_wrap blank d v, length-set d.buf at blank)
  step-IsValid clear {d} r v e =
      ground (arith, length-clear_from blank d.len 0 d.buf d.head (cap d))

  -- No history of calls tells a valid ring from the bounded list of its contents: the answers are the
  -- same, in order, and a push past the end is the same fatal bug at the same call.
  pub run_refines :
      (os : List (Op A)) {d : Deque A}
      → IsValid d
      → ring_run blank os d ≡ list_run (length d.buf) os (contents blank d)
  unfolding ring_run list_run
  run_refines [] v = refl
  run_refines (o ∷ os) {d} v = elim (Run-cases (ring_step blank o d)) [
    | inl (r, e) ↦
        let next = step-IsValid o r v e in
        rw (← step_refines o v, e, run_refines os {d = r.1} next.0, next.1)
    | inr (n, e) ↦ rw (← step_refines o v, e)
  ]
