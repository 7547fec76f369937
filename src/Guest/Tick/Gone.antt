-- ===== src/Guest/Tick/Gone.antt =====
-- Ids that were asked off, and the entries that are left of a registry.
use xpute.Common.{
  ℕ, suc, ◌≤◌, ◌≡◌, ◌≢◌, inl, inr, refl, sym, ap, ap₂, subst, ◌∙◌, Bool, false, ◌||◌, Option, none,
  some, List, [], ◌∷◌, ◌++◌, length, get_elem?, ◌==◌, if◌then◌else◌, arith, Bool-cases, ==_iff, All,
  ne→==,
}
use xpute.Guest.Tick.{Registered, remove, remove_all, next_place, shifted}

abbrev pub is_gone : ℕ → List ℕ → Bool
is_gone id [] = false
is_gone id (g ∷ gs) = id == g || is_gone id gs

abbrev pub add_all : List ℕ → List ℕ → List ℕ
add_all [] gone = gone
add_all (id ∷ ids) gone = add_all ids (id ∷ gone)

shifted_next : (o : Option ℕ) (n : ℕ) → shifted (next_place o) (suc n) ≡ suc (shifted o n)
shifted_next none n = refl
shifted_next (some k) n = ground arith

shifted_zero : (o : Option ℕ) → shifted o 0 ≡ 0
shifted_zero none = refl
shifted_zero (some k) = ground arith

module _ {S : Type 0} where
  abbrev pub keep : List ℕ → List (Registered S) → List (Registered S)
  keep gone [] = []
  keep gone (r ∷ rs) = if is_gone r.id gone then keep gone rs else r ∷ keep gone rs

  abbrev pub AreDistinct : List (Registered S) → Type 0
  AreDistinct [] = Unit {0}
  AreDistinct (r ∷ rs) = All (λ (q : Registered S). q.id ≢ r.id) rs × AreDistinct rs

  -- No entry has the id.
  abbrev IsFree : ℕ → List (Registered S) → Type 0
  IsFree id rs = All (λ (q : Registered S). q.id ≢ id) rs

  IsFree-left : (id : ℕ) (xs ys : List (Registered S)) → IsFree id (xs ++ ys) → IsFree id xs
  IsFree-left id [] ys h = tt
  IsFree-left id (x ∷ xs) ys (p, h) = (p, IsFree-left id xs ys h)

  IsFree-right : (id : ℕ) (xs ys : List (Registered S)) → IsFree id (xs ++ ys) → IsFree id ys
  IsFree-right id [] ys h = h
  IsFree-right id (x ∷ xs) ys (p, h) = IsFree-right id xs ys h

  keep_none :
      (id : ℕ) (gone : List ℕ) (rs : List (Registered S))
      → All (λ (q : Registered S). q.id ≢ id) rs
      → keep (id ∷ gone) rs ≡ keep gone rs
  keep_none id gone [] h = refl
  keep_none id gone (r ∷ rs) (ne, h) = rw (ne→== r.id id ne, keep_none id gone rs h) refl

  -- One entry goes: the entries that were gone through are fewer by one where it was of them.
  abbrev Removed :
      List ℕ
      → List (Registered S)
      → List (Registered S)
      → ℕ
      → Option ℕ × List (Registered S)
      → Type 0
  Removed gone' before after n p =
      (p.1 ≡ keep gone' before ++ keep gone' after) × (shifted p.0 n ≡ length (keep gone' before))

  pub keep-remove :
      (id : ℕ) (gone : List ℕ) (rs : List (Registered S))
      → AreDistinct rs
      → (remove id (keep gone rs)).1 ≡ keep (id ∷ gone) rs
  unfolding remove
  keep-remove id gone [] h = refl
  keep-remove id gone (r ∷ rs) (apart, h) = elim (Bool-cases (is_gone r.id gone)) [
    | inl out ↦ elim (Bool-cases (r.id == id)) [
      | inl here ↦ rw (out, here) (keep-remove id gone rs h)
      | inr other ↦ rw (out, other) (keep-remove id gone rs h)
    ]
    | inr still ↦ elim (Bool-cases (r.id == id)) [
      | inl here ↦
          let same : r.id ≡ id = (==_iff r.id id).0 here in
          rw (still, here) (sym (keep_none id gone rs (subst (λ k. IsFree k rs) (same) (apart))))
      | inr other ↦ rw (still, other) (ap (◌∷◌ r) (keep-remove id gone rs h))
    ]
  ]

  remove-Removed :
      (id : ℕ) (gone : List ℕ) (before after : List (Registered S))
      → AreDistinct (before ++ after)
      → Removed
          (id ∷ gone)
          before
          after
          (length (keep gone before))
          (remove id (keep gone before ++ keep gone after))
  unfolding remove
  remove-Removed id gone [] after h =
      (keep-remove id gone after h, shifted_zero (remove id (keep gone after)).0)
  remove-Removed id gone (r ∷ before) after (apart, h) =
      let ih = remove-Removed id gone before after h in
      elim (Bool-cases (is_gone r.id gone)) [
        | inl out ↦ elim (Bool-cases (r.id == id)) [
          | inl here ↦ rw (out, here) ((ih.0, ih.1))
          | inr other ↦ rw (out, other) ((ih.0, ih.1))
        ]
        | inr still ↦ elim (Bool-cases (r.id == id)) [
          | inl here ↦
              let same : r.id ≡ id = (==_iff r.id id).0 here in
              let none_left = subst (λ k. IsFree k (before ++ after)) (same) (apart) in
              let b = keep_none id gone before (IsFree-left id before after none_left) in
              let a = keep_none id gone after (IsFree-right id before after none_left) in
              rw (still, here)
                ((
                  ap₂ (λ (x y : List (Registered S)). x ++ y) (sym b) (sym a),
                  ground (arith, ap length b),
                ))
          | inr other ↦
              rw (still, other)
                ((
                  ap (◌∷◌ r) ih.0,
                  shifted_next (remove id (keep gone before ++ keep gone after)).0
                        (length (keep gone before))
                      ∙ ap suc ih.1,
                ))
        ]
      ]

  pub remove_all-Removed :
      (ids gone : List ℕ) (before after : List (Registered S))
      → AreDistinct (before ++ after)
      → remove_all ids (keep gone before ++ keep gone after) (length (keep gone before)) ≡ (
        keep (add_all ids gone) before ++ keep (add_all ids gone) after,
        length (keep (add_all ids gone) before),
      )
  unfolding remove_all
  remove_all-Removed [] gone before after h = refl
  remove_all-Removed (id ∷ ids) gone before after h =
      let one = remove-Removed id gone before after h in
      ap₂ (remove_all ids) one.0 one.1 ∙ remove_all-Removed ids (id ∷ gone) before after h

  -- The entry that the loop comes to, past those it has been through.
  pub get-past :
      (xs : List (Registered S)) (r : Registered S) (ys : List (Registered S))
      → get_elem? (xs ++ (r ∷ ys)) (length xs) ≡ some r
  get-past [] r ys = refl
  get-past (x ∷ xs) r ys = get-past xs r ys

  pub get-end : (xs : List (Registered S)) → get_elem? xs (length xs) ≡ none
  get-end [] = refl
  get-end (x ∷ xs) = get-end xs

  pub keep-append :
      (gone : List ℕ) (xs ys : List (Registered S))
      → keep gone (xs ++ ys) ≡ keep gone xs ++ keep gone ys
  keep-append gone [] ys = refl
  keep-append gone (x ∷ xs) ys = elim (Bool-cases (is_gone x.id gone)) [
    | inl out ↦ rw out (keep-append gone xs ys)
    | inr still ↦ rw still (ap (◌∷◌ x) (keep-append gone xs ys))
  ]

  pub kept :
      (gone : List ℕ) (r : Registered S) (rs : List (Registered S))
      → is_gone r.id gone ≡ false
      → keep gone (r ∷ rs) ≡ r ∷ keep gone rs
  kept gone r rs still = rw still refl

  pub keep_all : (rs : List (Registered S)) → keep [] rs ≡ rs
  keep_all [] = refl
  keep_all (r ∷ rs) = ap (◌∷◌ r) (keep_all rs)

  keep-le :
      (id : ℕ) (gone : List ℕ) (rs : List (Registered S))
      → length (keep (id ∷ gone) rs) ≤ length (keep gone rs)
  keep-le id gone [] = omega arith
  keep-le id gone (r ∷ rs) = ground (arith, keep-le id gone rs)

  pub keep-add_all-le :
      (ids gone : List ℕ) (rs : List (Registered S))
      → length (keep (add_all ids gone) rs) ≤ length (keep gone rs)
  keep-add_all-le [] gone rs = omega arith
  keep-add_all-le (id ∷ ids) gone rs =
      omega (arith, keep-add_all-le ids (id ∷ gone) rs, keep-le id gone rs)
