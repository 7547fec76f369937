-- ===== src/Guest/Ring/Tests.antt =====
-- Runs of a ring of two frames with slots of 32 bytes, and the witnesses.
use native.Mathlib.Omega.{arith}
use xpute.Common.{ℕ, ◌+◌, ◌*◌, ◌^◌, ◌≡◌, refl, Option, some, [], ◌∷◌, inr}
use xpute.Status.{Run, done, Result, map_run, ◌>>=◌}
use xpute.Guest.Memory.{Memory, raw_word, raw_set_word, word, set_word, clear_bytes, copy_bytes}
use xpute.Guest.Memory.Laws.{IsBytes, raw_set_word-IsBytes}
use xpute.Guest.Frame.{Frame, cmd_of, flags_of, cmd_word}
use xpute.Guest.Ring.{Ring, push, peek, advance, pkt, init, make, power_of_two}
use xpute.Guest.Ring.Inv.{IsValid, Layout}
use xpute.Guest.Ring.Queue.{queue}
use xpute.Guest.Ring.Refine.{Pushed, push_correct}
use xpute.Guest.Ring.Take.{Advanced, advance_correct, first_frame, peek_refines}
use xpute.Guest.Ring.Init.{init_correct}
use xpute.Guest.Ring.Packet.{InSlot, pkt_safe}

abbrev zeros : Memory
zeros = record { size = 128; byte = λ a. 0 }

-- The header as `init` leaves it.
abbrev made : Memory
made = raw_set_word (raw_set_word (raw_set_word zeros 0 2) 12 32) 16 64

abbrev two : Ring
two = record { at = 0; cap = 2; slot_bytes = 32; slot_base = 64 }

-- The first frame laid and the tail moved past it.
abbrev one : Memory
one = raw_set_word (raw_set_word (raw_set_word made 32 5) 36 (7 + 1 * 2 ^ 16)) 8 1

two-Layout : Layout 128 two
two-Layout = record {
  width = 1;
  power = refl;
  small = omega arith;
  frames_in = omega arith;
  slots_in = omega arith;
  based = omega arith;
  sized = omega arith;
  whole = refl;
  apart = inr (omega arith);
}

made-IsBytes : IsBytes made
made-IsBytes = raw_set_word-IsBytes (raw_set_word (raw_set_word zeros 0 2) 12 32) 16 64 (
    raw_set_word-IsBytes (raw_set_word zeros 0 2) 12 32
      (raw_set_word-IsBytes zeros 0 2 (λ a. omega arith)))

one-IsBytes : IsBytes one
one-IsBytes = raw_set_word-IsBytes (raw_set_word (raw_set_word made 32 5) 36 (7 + 1 * 2 ^ 16)) 8 1 (
    raw_set_word-IsBytes (raw_set_word made 32 5) 36 (7 + 1 * 2 ^ 16)
      (raw_set_word-IsBytes made 32 5 made-IsBytes))

made-IsValid : IsValid made two
unfolding raw_set_word raw_word
made-IsValid = record { layout = two-Layout; bytes = made-IsBytes; window = omega arith }

one-IsValid : IsValid one two
unfolding raw_set_word raw_word
one-IsValid = record { layout = two-Layout; bytes = one-IsBytes; window = omega arith }

push_correct_example : Pushed made two made-IsValid 5 7 1 0 (some (1 ∷ 2 ∷ []))
push_correct_example =
    push_correct made two made-IsValid 5 7 1 0 (omega arith) (omega arith) (omega arith)
      (some (1 ∷ 2 ∷ [])) (omega arith, (omega arith, tt))

init_correct_example :
    (m' : Memory) × (init zeros 0 2 64 32 ≡ done (two, m')) × IsValid m' two × (queue m' two ≡ [])
init_correct_example = init_correct zeros two two-Layout (λ a. omega arith) 5 refl

advance_correct_example : Advanced one two one-IsValid
advance_correct_example = advance_correct one two one-IsValid

peek_refines_example : peek one two ≡ done (first_frame (queue one two))
peek_refines_example = peek_refines one two one-IsValid

-- A frame that says a packet at the second slot.
abbrev at_second : Frame
at_second = record { tag = 5; cmd = 7; flags = 1; result = 0; pkt_at = 96 }

pkt_safe_example : (x : Result (ℕ × ℕ)) × (pkt one two at_second ≡ done x) × InSlot two 96 x
pkt_safe_example = pkt_safe one two one-IsValid at_second (omega arith)

-- A push into the ring that `init` makes, then what a peek answers.
init_run : Run Ring
unfolding init make power_of_two set_word word raw_set_word raw_word clear_bytes
init_run = map_run (λ p. p.0) (init zeros 0 2 64 32)

init_two : init_run ≡ done two
unfolding init_run
init_two = refl

pushed_then_peeked : Run (Option Frame)
unfolding push peek word set_word raw_set_word raw_word clear_bytes copy_bytes
pushed_then_peeked = do
  (e, m) ← push one two 9 8 2 0 (some (1 ∷ 2 ∷ []))
  m' ← advance m two
  peek m' two

peek_second :
    pushed_then_peeked
    ≡ done (some (record { tag = 9; cmd = 8; flags = 2; result = 0; pkt_at = 96 }))
unfolding pushed_then_peeked advance cmd_of flags_of cmd_word
peek_second = refl
