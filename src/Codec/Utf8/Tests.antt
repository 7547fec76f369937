-- ===== src/Codec/Utf8/Tests.antt =====
-- Runs over UTF-8, and the witnesses.
use native.Mathlib.Omega.{arith}
use xpute.Common.{ℕ, ◌≡◌, refl, Bool, true, false, some, List, [], ◌∷◌}
use xpute.Codec.Utf8.{utf8_step, good_from, is_utf8, is_utf8_from, utf8_lossy, lossy_from, fffd}
use xpute.Codec.Utf8.Steps.{Steps, utf8_step-Steps, utf8_ends, utf8_lossy-valid}

-- An 'a', the euro sign's three bytes, and a 'b'.
abbrev euro : List ℕ
euro = 0x61 ∷ 0xe2 ∷ 0x82 ∷ 0xac ∷ 0x62 ∷ []

-- The same without the sign's last byte.
abbrev cut_short : List ℕ
cut_short = 0x61 ∷ 0xe2 ∷ 0x82 ∷ 0x62 ∷ []

euro_valid : is_utf8 euro ≡ some true
unfolding is_utf8 is_utf8_from utf8_step good_from
euro_valid = refl

-- An overlong '/' is no character.
overlong : is_utf8 (0xe0 ∷ 0x80 ∷ 0xaf ∷ []) ≡ some false
unfolding is_utf8 is_utf8_from utf8_step good_from
overlong = refl

one_prefix : utf8_lossy cut_short ≡ some ((0x61 ∷ []) ∷ fffd ∷ (0x62 ∷ []) ∷ [])
unfolding utf8_lossy lossy_from utf8_step good_from
one_prefix = refl

utf8_step-Steps_example : Steps cut_short 1 (utf8_step cut_short 1)
utf8_step-Steps_example = utf8_step-Steps cut_short 1 (omega arith)

utf8_ends_example :
    ((r : Bool) × (is_utf8 cut_short ≡ some r))
    × ((r : List (List ℕ)) × (utf8_lossy cut_short ≡ some r))
utf8_ends_example = utf8_ends cut_short

utf8_lossy-valid_example : utf8_lossy euro ≡ some (euro ∷ [])
utf8_lossy-valid_example = utf8_lossy-valid euro euro_valid
