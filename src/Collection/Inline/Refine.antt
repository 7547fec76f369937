-- ===== src/Collection/Inline/Refine.antt =====
-- The list that an inline list holds, and what its operations do to it.
use xpute.Common.{
  ℕ, zero, suc, ◌+◌, ◌-◌, ◌≤◌, ◌<◌, ◌≡◌, refl, sym, ap, subst, arith, Bool, none, some, List, [],
  ◌∷◌, ◌++◌, length, length-append, get_elem?, append_assoc, append_nil, if◌then◌else◌, lt→ltb,
  ge→ltb, eq→==, ne→==, Bool-cases, inl, inr, ◌⊎◌,
}
use native.Mathlib.Decide.{ℕ_discrete, dec_lt}
use xpute.Status.{Errno, done, bug}
use xpute.Collection.Inline.{Inline, put_slot, push, shift, remove, retain_from, retain, clear}
use xpute.Collection.Inline.Mid.{
  Holds, Mid, get_elem?-append_one, at_slot, refused, stays, moved, get_elem?-past, Mid-Holds,
  get_elem?-append,
}

module _ {A : Type 0} where
  -- The entries that are kept, in order.
  abbrev pub chosen : (A → Bool) → List A → List A
  chosen keep [] = []
  chosen keep (x ∷ xs) = if keep x then x ∷ chosen keep xs else chosen keep xs

  -- The pass from `at` on.
  Passes : (A → Bool) → ℕ → Inline A → List A → List A → Type 0
  Passes keep at l ys zs =
      Mid l.slots ys zs at
      → length ys ≤ at
      → length ys + length zs ≤ l.cap
      → Holds (retain_from keep (length zs) at (length ys) l) (ys ++ chosen keep zs)

  passes-kept :
      (keep : A → Bool) (at : ℕ) (l l' : Inline A) (ys zs : List A) (z : A)
      → Holds
          (retain_from keep (length zs) (at + 1) (length (ys ++ (z ∷ []))) l')
          ((ys ++ (z ∷ [])) ++ chosen keep zs)
      → Holds
          (retain_from keep (length zs) (at + 1) (length ys + 1) l')
          (ys ++ (z ∷ chosen keep zs))
  passes-kept keep at l l' ys zs z h =
      subst (λ n. Holds (retain_from keep (length zs) (at + 1) n l') (ys ++ (z ∷ chosen keep zs)))
        (omega (arith, length-append ys (z ∷ [])))
        (subst (Holds (retain_from keep (length zs) (at + 1) (length (ys ++ (z ∷ []))) l'))
          (append_assoc ys (z ∷ []) (chosen keep zs)) h)

  passes :
      (zs : List A) (keep : A → Bool) (at : ℕ) (l : Inline A) (ys : List A) → Passes keep at l ys zs
  unfolding retain_from Passes
  passes [] keep at l ys m h c =
      subst (Holds (record l { len = length ys })) (sym (append_nil ys))
        (Mid-Holds l ys at (length ys) m refl (omega arith))
  passes (z ∷ zs) keep at l ys m h c = elim (Bool-cases (keep z)) [
    | inl k ↦ elim (ℕ_discrete (length ys) at) [
      | yes e ↦
          rw (at_slot l.slots ys zs z at m h, k, eq→== (length ys) at e)
            (passes-kept keep at l l ys zs z (
              passes zs keep (at + 1) l (ys ++ (z ∷ [])) (stays l.slots ys zs z at m h e)
                (omega (arith, length-append ys (z ∷ [])))
                (omega (arith, length-append ys (z ∷ [])))))
      | no e ↦
          rw (at_slot l.slots ys zs z at m h, k, ne→== (length ys) at e)
            (passes-kept keep at l (put_slot at none (put_slot (length ys) (some z) l)) ys zs z (
              passes zs keep (at + 1) (put_slot at none (put_slot (length ys) (some z) l))
                (ys ++ (z ∷ [])) (moved l.slots ys zs z at m h e)
                (omega (arith, length-append ys (z ∷ [])))
                (omega (arith, length-append ys (z ∷ [])))))
    ]
    | inr k ↦
        rw (at_slot l.slots ys zs z at m h, k)
          (passes zs keep (at + 1) (put_slot at none l) ys (refused l.slots ys zs z at m h)
            (omega arith) (omega arith))
  ]

  retain-Holds :
      (keep : A → Bool) (l : Inline A) (xs : List A)
      → Holds l xs
      → Holds (retain keep l) (chosen keep xs)
  unfolding retain Passes
  retain-Holds keep l xs h =
      subst (λ n. Holds (retain_from keep n 0 0 l) (chosen keep xs)) (sym h.len)
        (passes xs keep 0 l []
          (λ i.
            let same : i - 0 ≡ i = omega arith in ground (arith, h.slots i, ap (get_elem? xs) same))
          (omega arith) (omega (arith, h.fits)))

  -- A list's slots and room, its length aside.
  abbrev Lies : List A → ℕ → Inline A → Type 0
  Lies xs cap l = ((i : ℕ) → l.slots i ≡ get_elem? xs i) × (l.cap ≡ cap)

  -- The rounds that close a gap.
  shift-Lies :
      (zs : List A) (l : Inline A) (ys : List A)
      → Mid l.slots ys zs (length ys + 1)
      → Lies (ys ++ zs) l.cap (shift (length zs) (length ys) l)
  unfolding shift
  shift-Lies [] l ys m =
      subst (λ xs. Lies xs l.cap l) (sym (append_nil ys))
        ((λ i. ground (arith, m i, get_elem?-past ys i)), refl)
  shift-Lies (z ∷ zs) l ys m =
      let n = length ys in
      let l₁ = put_slot (n + 1) none (put_slot n (some z) l) in
      let long : n + 1 ≡ length (ys ++ (z ∷ [])) = omega (arith, length-append ys (z ∷ [])) in
      let step = shift-Lies zs l₁ (ys ++ (z ∷ [])) (
        subst (λ k. Mid l₁.slots (ys ++ (z ∷ [])) zs (k + 1)) long
          (moved l.slots ys zs z (n + 1) m (omega arith) (omega arith))) in
      subst
        (λ v.
          Lies (ys ++ (z ∷ zs)) l.cap
            (shift (length zs) (n + 1) (put_slot (n + 1) none (put_slot n v l))))
        (sym (at_slot l.slots ys zs z (n + 1) m (omega arith)))
        (subst (λ xs. Lies xs l.cap (shift (length zs) (n + 1) l₁)) (append_assoc ys (z ∷ []) zs)
          (subst (λ k. Lies ((ys ++ (z ∷ [])) ++ zs) l.cap (shift (length zs) k l₁)) (sym long)
            step))

  remove-Holds :
      (l : Inline A) (ys zs : List A) (x : A)
      → Holds l (ys ++ (x ∷ zs))
      → (l' : Inline A) × (remove (length ys) l ≡ done (some x, l')) × Holds l' (ys ++ zs)
  unfolding remove
  remove-Holds l ys zs x h =
      let n = length ys in
      let all = length-append ys (x ∷ zs) in
      let m : Mid l.slots ys (x ∷ zs) n =
        λ i. ground (arith, h.slots i, get_elem?-append ys (x ∷ zs) i) in
      let rounds : l.len - 1 - n ≡ length zs = omega (arith, all, h.len) in
      let l₁ = put_slot n none l in
      let (slots, cap) = shift-Lies zs l₁ ys (refused l.slots ys zs x n m (omega arith)) in
      (
        record (shift (length zs) n l₁) { len = l.len - 1 },
        rw
            (
              lt→ltb n l.len (omega (arith, all, h.len)),
              rounds,
              at_slot l.slots ys zs x n m (omega arith),
            )
            refl,
        record {
          slots = slots;
          len = omega (arith, all, h.len, length-append ys zs);
          fits = omega (arith, all, h.fits, cap, length-append ys zs);
        },
      )

  push-Holds :
      (l : Inline A) (xs : List A) (v : A)
      → Holds l xs
      → length xs < l.cap
      → (l' : Inline A) × (push v l ≡ done l') × Holds l' (xs ++ (v ∷ []))
  unfolding push
  push-Holds l xs v h c = (
    record (put_slot l.len (some v) l) { len = l.len + 1 },
    rw (lt→ltb l.len l.cap (omega (arith, h.len))) refl,
    record {
      slots =
          λ i. ground (arith, h.slots i, h.len, get_elem?-append_one xs v i, get_elem?-past xs i);
      len = omega (arith, h.len, length-append xs (v ∷ []));
      fits = omega (arith, length-append xs (v ∷ []));
    },
  )

  clear-Holds : (l : Inline A) (xs : List A) → Holds l xs → Holds (clear l) []
  unfolding clear
  clear-Holds l xs h = record {
    slots = λ i. ground (arith, h.slots i, h.len, get_elem?-past xs i);
    len = refl;
    fits = omega arith;
  }

  -- A place in a list, or past it.
  split :
      (xs : List A) (at : ℕ)
      → (length xs ≤ at)
        ⊎ ((ys : List A) × (x : A) × (zs : List A) × (xs ≡ ys ++ (x ∷ zs)) × (length ys ≡ at))
  split [] at = inl (omega arith)
  split (x ∷ xs) zero = inr ([], x, xs, refl, refl)
  split (x ∷ xs) (suc at) = elim (split xs at) [
    | inl h ↦ inl (omega arith)
    | inr (ys, y, zs, e, n) ↦ inr (x ∷ ys, y, zs, ap (◌∷◌ x) e, omega arith)
  ]

  -- What an inline list's operations come to, as its list sees them.
  pub record Refines (l : Inline A) (xs : List A) (v : A) (at : ℕ) (keep : A → Bool) : Type 0 where
    pub pushes :
        ((length xs ≡ l.cap) × (push v l ≡ bug Errno.enospc))
        ⊎ ((l' : Inline A) × (push v l ≡ done l') × Holds l' (xs ++ (v ∷ [])))
    pub removes :
        ((length xs ≤ at) × (remove at l ≡ bug Errno.einval))
        ⊎ ((ys : List A) × (x : A) × (zs : List A) × (l' : Inline A) × (xs ≡ ys ++ (x ∷ zs))
            × (length ys ≡ at)
            × (remove at l ≡ done (some x, l'))
            × Holds l' (ys ++ zs))
    pub retains : Holds (retain keep l) (chosen keep xs)
    pub clears : Holds (clear l) []

  -- On an inline list whose first slots hold a list and whose others are empty: `push` is the bug ENOSPC at
  -- the full capacity and else holds one value more at the end; `remove` is the bug EINVAL past the end and
  -- else takes out the value there, the order of the others kept; `retain` holds those that are kept, in
  -- order; `clear` holds none. After each the other slots are empty.
  pub inline_correct :
      (l : Inline A) (xs : List A) (v : A) (at : ℕ) (keep : A → Bool)
      → Holds l xs
      → Refines l xs v at keep
  unfolding push remove
  inline_correct l xs v at keep h = record {
    pushes = elim (dec_lt (length xs) l.cap) [
      | yes c ↦ inr (push-Holds l xs v h c)
      | no c ↦ inl (omega (arith, h.fits), rw (ge→ltb l.len l.cap (omega (arith, h.len))) refl)
    ];
    removes = elim (split xs at) [
      | inl c ↦ inl (c, rw (ge→ltb at l.len (omega (arith, h.len))) refl)
      | inr (ys, x, zs, e, n) ↦
          let (l', f, g) = remove-Holds l ys zs x (subst (Holds l) e h) in
          inr (ys, x, zs, l', e, n, subst (λ k. remove k l ≡ done (some x, l')) n f, g)
    ];
    retains = retain-Holds keep l xs h;
    clears = clear-Holds l xs h;
  }
