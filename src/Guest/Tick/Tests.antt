-- ===== src/Guest/Tick/Tests.antt =====
-- A tick of three steps, of which the first takes itself and the last off, and the theorems at it.
use xpute.Common.{ℕ, ◌≤◌, ◌<◌, ◌≡◌, ◌≢◌, refl, false, List, [], ◌∷◌, ◌++◌, All, arith}
use xpute.Status.{Errno, Run, done, bug, ◌>>=◌}
use xpute.Guest.Tick.{
  TickContext, Registered, Tick, ask_off, invalidate, on_tick, off_tick, run_phase,
}
use xpute.Guest.Tick.Gone.{AreDistinct, keep}
use xpute.Guest.Tick.Phases.{visit, run_phase_correct}
use xpute.Guest.Tick.Registry.{IsValid, registry_correct}

-- The program's state is the names of the steps that ran.
abbrev logged : ℕ → TickContext (List ℕ) → TickContext (List ℕ)
logged n c = record c { state = c.state ++ (n ∷ []) }

abbrev leaves : TickContext (List ℕ) → Run (TickContext (List ℕ))
leaves c = ask_off 1 (logged 10 c) >>= ask_off 3

abbrev plain : ℕ → TickContext (List ℕ) → Run (TickContext (List ℕ))
plain n c = done (invalidate (logged n c))

abbrev three : Tick (List ℕ)
three = record {
  cap = 4;
  phases = 2;
  registry =
      record { id = 1; phase = 0; step = leaves; name = 10 }
      ∷ record { id = 2; phase = 0; step = plain 20; name = 20 }
      ∷ record { id = 3; phase = 0; step = plain 30; name = 30 }
      ∷ [];
  next_id = 4;
}

abbrev fresh : TickContext (List ℕ)
fresh = record { state = []; invalidated = false; offs = [] }

-- The names that ran, and the ids that are left.
abbrev ids : List (Registered (List ℕ)) → List ℕ
ids [] = []
ids (r ∷ rs) = r.id ∷ ids rs

abbrev seen : Run (Tick (List ℕ) × TickContext (List ℕ)) → List ℕ × List ℕ
seen (done (t, c)) = (c.state, ids t.registry)
seen (bug e) = ([], [])

three-seen : seen (run_phase 0 three fresh) ≡ (10 ∷ 20 ∷ [], 2 ∷ [])
unfolding run_phase ask_off invalidate
three-seen = refl

three-AreDistinct : AreDistinct three.registry
three-AreDistinct = ((omega arith, (omega arith, tt)), ((omega arith, tt), (tt, tt)))

three-IsValid : IsValid three
three-IsValid = record {
  distinct = three-AreDistinct;
  below = (omega arith, (omega arith, (omega arith, tt)));
  fits = omega arith;
}

run_phase_correct_example : run_phase 0 three fresh ≡ (
    visit 0 three.registry [] fresh >>= λ p.
    done (record three { registry = keep p.0 three.registry }, p.1))
run_phase_correct_example = run_phase_correct 0 three fresh three-AreDistinct

registry_correct_example :
    ((4 ≤ 3 → on_tick 1 (plain 40) 40 three ≡ bug Errno.enospc)
      × (3 < 4 → 2 ≤ 1 → on_tick 1 (plain 40) 40 three ≡ bug Errno.einval)
      × (3 < 4
          → 1 < 2
          → (t : Tick (List ℕ)) × (on_tick 1 (plain 40) 40 three ≡ done (4, t))
            × IsValid t
            × All (λ (r : Registered (List ℕ)). r.id ≢ 4) three.registry
            × (t.registry
                ≡ three.registry
                  ++ (record { id = 4; phase = 1; step = plain 40; name = 40 } ∷ []))))
    × (IsValid (off_tick 2 three) × ((off_tick 2 three).registry ≡ keep (2 ∷ []) three.registry))
registry_correct_example = registry_correct three 1 40 2 (plain 40) three-IsValid (omega arith)
