-- ===== src/Guest/Section/Tests.antt =====
-- Runs of a section, and the witnesses.
use native.Mathlib.Omega.{arith}
use xpute.Common.{◌+◌, ◌≤◌, ◌<◌, ◌≡◌, refl, ◌⊎◌, none, some, [], ◌∷◌}
use xpute.Status.{Errno, done, bug}
use xpute.Guest.Section.{Section, at, nth}
use xpute.Guest.Section.Layout.{at_correct, nth-apart}

abbrev pages : Section
pages = record { off = 64; bytes = 32 }

third : nth pages (5 ∷ 8 ∷ 3 ∷ []) 8 2 ≡ done (record { off = 80; bytes = 3 })
unfolding nth
third = refl

too_many : nth pages (5 ∷ 8 ∷ 17 ∷ []) 8 2 ≡ bug Errno.einval
unfolding nth
too_many = refl

at_correct_example :
    ((at pages 30 4 ≡ none) × (32 < 30 + 4))
    ⊎ ((at pages 30 4 ≡ some (64 + 30)) × (64 + 30 + 4 ≤ 64 + 32))
at_correct_example = at_correct pages 30 4 (omega arith)

nth-apart_example :
    (a : Section) × (b : Section) × (nth pages (5 ∷ 8 ∷ 3 ∷ []) 8 0 ≡ done a)
    × (nth pages (5 ∷ 8 ∷ 3 ∷ []) 8 2 ≡ done b)
    × (a.bytes ≡ 5)
    × (b.bytes ≡ 3)
    × (64 ≤ a.off)
    × (a.off + a.bytes ≤ b.off)
    × (b.off + b.bytes ≤ 64 + 32)
nth-apart_example =
    nth-apart pages (5 ∷ 8 ∷ 3 ∷ []) 8 (omega arith) (omega arith, (omega arith, (omega arith, tt)))
      (omega arith) (omega arith) 0 2 (omega arith) (omega arith)
