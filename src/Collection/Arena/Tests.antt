-- ===== src/Collection/Arena/Tests.antt =====
-- Runs of an arena of at most five slots, and the witnesses.
use native.Mathlib.Omega.{arith}
use xpute.Common.{ℕ, ◌+◌, ◌≤◌, ◌<◌, ◌≡◌, refl, ◌⊎◌, [], ◌∷◌, max}
use xpute.Status.{Errno, val, err, marshal_error}
use xpute.Collection.Arena.{Arena, alloc, reserve, grow}
use xpute.Collection.Arena.Grow.{IsValid, Extends}
use xpute.Collection.Arena.Bounds.{alloc_correct, reserve_correct}

abbrev three : Arena ℕ
three = record { mem = 7 ∷ 8 ∷ 9 ∷ []; max_cap = 5; cap = 3; len = 3 }

three-IsValid : IsValid three
three-IsValid = record {
  made = refl;
  len_in = omega arith;
  cap_in = omega arith;
  max_in = omega arith;
}

-- Twice three is past five, so the fourth brings the fifth along.
fourth :
    alloc 0 three ≡ (val 3, record { mem = 7 ∷ 8 ∷ 9 ∷ 0 ∷ 0 ∷ []; max_cap = 5; cap = 5; len = 4 })
unfolding alloc grow
fourth = refl

alloc_correct_example :
    ((b : Arena ℕ) × (alloc 0 three ≡ (val 3, record b { len = 3 + 1 }))
      × Extends 0 three b
      × (3 < b.cap)
      × (3 < max 3 5))
    ⊎ ((alloc 0 three ≡ (err (marshal_error Errno.eoverflow), three))
        × (three.len ≡ three.cap)
        × (5 ≤ 3))
alloc_correct_example = alloc_correct 0 three three-IsValid

reserve_correct_example :
    ((b : Arena ℕ) × (reserve 0 three 2 ≡ (val tt, b))
      × Extends 0 three b
      × (3 + 2 ≤ b.cap)
      × (3 + 2 ≤ max 3 5))
    ⊎ ((reserve 0 three 2 ≡ (err (marshal_error Errno.eoverflow), three))
        × (3 < 3 + 2)
        × (5 < 3 + 2))
reserve_correct_example = reserve_correct 0 three 2 three-IsValid (omega arith)
