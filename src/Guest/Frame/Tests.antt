-- ===== src/Guest/Frame/Tests.antt =====
-- Runs and witnesses of a frame's words.
use xpute.Common.{◌*◌, ◌+◌, ◌^◌, ◌≡◌, refl}
use xpute.Guest.Frame.{cmd_word}

cmd_word_masks : cmd_word (3 * 2 ^ 16 + 9) 2 ≡ 2 * 2 ^ 16 + 9
unfolding cmd_word
cmd_word_masks = refl
