-- ===== src/Guest/Tick/Phases.antt =====
-- A phase against its description: the steps that were registered as it started, each run once in order unless it was
-- asked off before.
use xpute.Common.{
  ℕ, zero, suc, ◌+◌, ◌≤◌, ◌<◌, ◌≡◌, inl, inr, refl, sym, ap, ap₂, subst, ◌∙◌, Bool, true, false,
  not, ◌&&◌, none, some, List, [], ◌∷◌, ◌++◌, length, get_elem?, ◌==◌, arith, Bool-cases,
  append_nil, length-append, append_assoc,
}
use xpute.Status.{Run, done, bug, ◌>>=◌}
use xpute.Guest.Tick.{
  TickContext, Registered, Tick, remove_all, run_entry, run_at, run_from, run_phase,
}
use xpute.Guest.Tick.Gone.{
  is_gone, add_all, keep, AreDistinct, remove_all-Removed, get-past, get-end, keep-append, kept,
  keep_all, keep-add_all-le,
}

chain_alike :
    {A B C : Type 0} (m : Run A) (f : A → Run C) (g : A → Run B) (k : B → Run C)
    → ((a : A) → f a ≡ (g a >>= k))
    → (m >>= f) ≡ ((m >>= g) >>= k)
chain_alike (done a) f g k h = h a
chain_alike (bug e) f g k h = refl

-- What is left to visit, after the ids that are gone.
abbrev pub Visit : Type 0 → Type 0
Visit S = List ℕ → TickContext S → Run (List ℕ × TickContext S)

positive : (n : ℕ) → 0 < n → (m : ℕ) × (n ≡ suc m)
positive zero h = absurd (omega arith)
positive (suc m) h = (m, refl)

module _ {S : Type 0} where
  -- An entry, as it is to be run or not.
  unfoldable pub visit_entry : Visit S → Registered S → Bool → Visit S
  visit_entry go r false gone c = go gone c
  visit_entry go r true gone c =
      r.step c >>= λ c'. go (add_all c'.offs gone) (record c' { offs = [] })

  -- The steps of a list, run in its order, but those asked off before their turn.
  unfoldable pub visit : ℕ → List (Registered S) → Visit S
  unfolding visit_entry
  visit phase [] gone c = done (gone, c)
  visit phase (r ∷ rs) gone c =
      visit_entry (visit phase rs) r (not (is_gone r.id gone) && r.phase == phase) gone c

  module _ (phase : ℕ) (all : List (Registered S)) (d : AreDistinct all) where
    entry_correct :
        (m : ℕ) (gone : List ℕ) (r : Registered S) (here after : List (Registered S))
        (c : TickContext S)
        → all ≡ here ++ after
        → (own : Bool) (i : ℕ) → i + 1 ≡ length (keep gone here)
        → length (keep gone after) ≤ m
        → ((gone' : List ℕ) (c' : TickContext S)
            → length (keep gone' after) ≤ m
            → run_from phase m (length (keep gone' here)) (keep gone' all) c'
              ≡ (visit phase after gone' c' >>= λ p. done (keep p.0 all, p.1)))
        → run_entry (run_from phase m) r own i (keep gone all) c
          ≡ (visit_entry (visit phase after) r own gone c >>= λ p. done (keep p.0 all, p.1))
    unfolding run_entry visit_entry
    entry_correct m gone r here after c e false i place fewer go =
        ap (λ k. run_from phase m k (keep gone all) c) place ∙ go gone c fewer
    entry_correct m gone r here after c e true i place fewer go =
        chain_alike (r.step c) _
          (λ c'. visit phase after (add_all c'.offs gone) (record c' { offs = [] })) _
          λ c'.
            let gone' = add_all c'.offs gone in
            let split = λ (g : List ℕ). ap (keep g) e ∙ keep-append g here after in
            let taken =
              ap₂ (remove_all c'.offs) (split gone) place
              ∙ remove_all-Removed c'.offs gone here after (subst AreDistinct (e) (d))
              ∙ ap (λ (l : List (Registered S)). (l, length (keep gone' here)))
                  (sym (split gone')) in
            ap (λ (p : List (Registered S) × ℕ). run_from phase m p.1 p.0 (record c' { offs = [] }))
              taken
            ∙ go gone' (record c' { offs = [] }) (omega (arith, keep-add_all-le c'.offs gone after))

    run_from_correct :
        (n : ℕ) (gone : List ℕ) (before after : List (Registered S)) (c : TickContext S)
        → all ≡ before ++ after
        → length (keep gone after) ≤ n
        → run_from phase n (length (keep gone before)) (keep gone all) c
          ≡ (visit phase after gone c >>= λ p. done (keep p.0 all, p.1))
    unfolding run_from visit
    run_from_correct zero gone before [] c e h = refl
    run_from_correct (suc n) gone before [] c e h =
        let last : get_elem? (keep gone all) (length (keep gone before)) ≡ none =
          ap (λ (l : List (Registered S)). get_elem? (keep gone l) (length (keep gone before)))
            (e ∙ append_nil before)
          ∙ get-end (keep gone before) in
        ap (λ o. run_at phase (run_from phase n) o (length (keep gone before)) (keep gone all) c)
          last
    run_from_correct n gone before (r ∷ after) c e h = elim (Bool-cases (is_gone r.id gone)) [
      | inl out ↦
          let e' : all ≡ (before ++ (r ∷ [])) ++ after =
            e ∙ sym (append_assoc before (r ∷ []) after) in
          let none_more : keep gone (r ∷ []) ≡ [] = rw out refl in
          let place : length (keep gone before) ≡ length (keep gone (before ++ (r ∷ []))) = omega (
            arith,
            ap length (keep-append gone before (r ∷ [])),
            length-append (keep gone before) (keep gone (r ∷ [])),
            ap length none_more,
          ) in
          let fewer : length (keep gone after) ≤ n = ground (arith) in
          ap (λ i. run_from phase n i (keep gone all) c) place
          ∙ run_from_correct n gone (before ++ (r ∷ [])) after c e' fewer
          ∙ sym (
              ap
                (λ t. visit_entry (visit phase after) r (not t && r.phase == phase) gone c >>= λ p.
                  done (keep p.0 all, p.1))
                out)
      | inr still ↦
          let mine : keep gone (r ∷ []) ≡ r ∷ [] = rw still refl in
          let parts = keep-append gone before (r ∷ []) in
          let here = before ++ (r ∷ []) in
          let e' : all ≡ here ++ after = e ∙ sym (append_assoc before (r ∷ []) after) in
          let place : length (keep gone before) + 1 ≡ length (keep gone here) = omega (
            arith,
            ap length parts,
            length-append (keep gone before) (keep gone (r ∷ [])),
            ap length mine,
          ) in
          let (m, n_is) = positive n (ground arith) in
          let fewer : length (keep gone after) ≤ m = ground arith in
          let i = length (keep gone before) in
          let found : get_elem? (keep gone all) i ≡ some r =
            ap (λ (l : List (Registered S)). get_elem? l i)
              (ap (keep gone) e
                ∙ keep-append gone before (r ∷ after)
                ∙ ap (λ (l : List (Registered S)). keep gone before ++ l) (kept gone r after still))
            ∙ get-past (keep gone before) r (keep gone after) in
          let to_run = λ (t : Bool).
            visit_entry (visit phase after) r (not t && r.phase == phase) gone c >>= λ p.
            done (keep p.0 all, p.1) in
          ap (λ k. run_from phase k i (keep gone all) c) n_is
          ∙ ap (λ o. run_at phase (run_from phase m) o i (keep gone all) c) found
          ∙ entry_correct m gone r here after c e' (r.phase == phase) i place fewer
              (λ gone' c' k. run_from_correct m gone' here after c' e' k)
          ∙ sym (ap to_run still)
    ]

-- Where no two entries have an id in common: running a phase is visiting the steps that
-- were registered as it started, in their order, each of the phase run once unless it was asked off before its turn; it
-- leaves the entries that were not asked off, in their order. It ends, or is the bug that a step is.
pub run_phase_correct :
    {S : Type 0} (phase : ℕ) (t : Tick S) (c : TickContext S)
    → AreDistinct t.registry
    → run_phase phase t c ≡ (
        visit phase t.registry [] c >>= λ p.
        done (record t { registry = keep p.0 t.registry }, p.1))
unfolding run_phase
run_phase_correct phase t c d =
    let whole = keep_all t.registry in
    let go =
      ap (λ l. run_from phase (length t.registry) 0 l c) (sym whole)
      ∙ run_from_correct phase t.registry d (length t.registry) [] [] t.registry c refl
          (omega (arith, ap length whole)) in
    ap (λ r. r >>= λ p. done (record t { registry = p.0 }, p.1)) go
    ∙ sym (
        chain_alike (visit phase t.registry [] c) _ (λ p. done (keep p.0 t.registry, p.1)) _
          (λ p. refl))
