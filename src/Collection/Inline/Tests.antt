-- ===== src/Collection/Inline/Tests.antt =====
-- Runs of a list of at most four, and the witness.
use xpute.Common.{ℕ, ◌≡◌, refl, arith, none, some, Option, List, [], ◌∷◌, ltb, if◌then◌else◌, ◌==◌}
use xpute.Status.{done, map_run}
use xpute.Collection.Inline.{Inline, remove, shift, retain, retain_from}
use xpute.Collection.Inline.Mid.{Holds}
use xpute.Collection.Inline.Refine.{Refines, inline_correct}

abbrev three : Inline ℕ
three = record {
  cap = 4;
  slots = λ i.
      if i == 0 then some 5 else (if i == 1 then some 9 else (if i == 2 then some 7 else none));
  len = 3;
}

abbrev first_four : Inline ℕ → List (Option ℕ)
first_four l = l.slots 0 ∷ l.slots 1 ∷ l.slots 2 ∷ l.slots 3 ∷ []

removed :
    map_run {B = Option ℕ × List (Option ℕ)} (λ r. (r.0, first_four r.1)) (remove 0 three)
    ≡ done (some 5, some 9 ∷ some 7 ∷ none ∷ none ∷ [])
unfolding remove shift
removed = refl

retained : first_four (retain (λ v. ltb v 8) three) ≡ some 5 ∷ some 7 ∷ none ∷ none ∷ []
unfolding retain retain_from
retained = refl

three-Holds : Holds three (5 ∷ 9 ∷ 7 ∷ [])
three-Holds = record { slots = λ i. ground arith; len = refl; fits = omega arith }

inline_correct_example : Refines three (5 ∷ 9 ∷ 7 ∷ []) 1 1 (λ v. ltb v 8)
inline_correct_example = inline_correct three (5 ∷ 9 ∷ 7 ∷ []) 1 1 (λ v. ltb v 8) three-Holds
