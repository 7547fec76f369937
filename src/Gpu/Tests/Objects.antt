-- ===== src/Gpu/Tests/Objects.antt =====
-- Runs of objects made in a table of four slots, and the witnesses.
use xpute.Common.{ℕ, ◌+◌, ◌^◌, ◌≡◌, refl, arith, Bool, false, Option, some, List, [], ◌∷◌}
use xpute.Status.{done, map_run}
use xpute.Guest.Memory.{raw_set_word, set_word}
use xpute.Guest.Stream.{reserve, reserve_in, opened}
use xpute.Guest.Handle.{
  Slot, Table, insert, remove, live, rollback, rollback_from, rollback_step, handle_of, handle_slot,
}
use xpute.Guest.Handle
use xpute.Guest.Handle.Inv
use xpute.Gpu.Op.{op_buffer}
use xpute.Gpu.Record.{
  Part, bytes, words, emit, count_from, fill_parts, fill_part, fill_word, fill_words, packed,
}
use xpute.Gpu.Objects.{Gpu, make, forget, begin, commit, forget_all}
use xpute.Gpu.Objects.Make.{MakeEnd, make_correct}
use xpute.Gpu.Objects.Transaction.{AttemptEnd, attempt, make_all, attempt_correct}
use xpute.Gpu.Tests.{zeros, forty, five, forty-IsValid}

abbrev empty_slot : Slot ℕ
empty_slot = record { generation = 0; made = 0; next = 0; value = 0 }

-- Slot 1 holds a buffer.
abbrev objects : Gpu
objects = record {
  handles = record {
    slots =
        empty_slot
        ∷ record { generation = 1; made = 1; next = 0; value = 1 }
        ∷ empty_slot
        ∷ empty_slot
        ∷ [];
    epoch = 0;
    free = 0;
    top = 1;
    count = 1;
  };
  objects = 0 ∷ 1 ∷ 0 ∷ 0 ∷ 0 ∷ 0 ∷ 0 ∷ 0 ∷ 0 ∷ 0 ∷ 0 ∷ 0 ∷ [];
}

objects-IsValid : Inv.IsValid 0 objects.handles []
objects-IsValid = record {
  chain = refl;
  counted = refl;
  lives = refl;
  top_in = omega arith;
  size = omega arith;
  untaken = λ i h. ground arith;
  generations = λ i. ground arith;
  epochs = omega arith;
}

make_correct_example : MakeEnd op_buffer (words (64 ∷ 8 ∷ 0 ∷ [])) objects forty zeros
unfolding words
make_correct_example =
    make_correct op_buffer (words (64 ∷ 8 ∷ 0 ∷ [])) [] objects-IsValid forty-IsValid
      (omega arith, (omega arith, (omega arith, (omega arith, (omega arith, (omega arith, tt))))))

abbrev two_buffers : List (ℕ × List Part)
two_buffers = (op_buffer, words (64 ∷ 8 ∷ 0 ∷ [])) ∷ (op_buffer, bytes five ∷ []) ∷ []

attempt_correct_example : AttemptEnd two_buffers objects forty zeros
unfolding words packed
attempt_correct_example =
    attempt_correct two_buffers [] objects-IsValid (λ j. ground arith) (omega arith) forty-IsValid
      (
        (
          omega arith,
          (omega arith, (omega arith, (omega arith, (omega arith, (omega arith, tt))))),
        ),
        (
          (
            omega arith,
            (omega arith, (omega arith, (omega arith, (omega arith, (omega arith, tt))))),
          ),
          tt,
        ),
      )

-- The table gives slot 2 out, and one more buffer is counted.
made_runs :
    map_run {B = Option ℕ × List ℕ}
      (λ r. (r.0, r.1.0.objects))
      (make op_buffer (words (64 ∷ 8 ∷ 0 ∷ [])) (objects, forty, zeros))
    ≡ done (some (2 + 2 ^ 16), 0 ∷ 2 ∷ 0 ∷ 0 ∷ 0 ∷ 0 ∷ 0 ∷ 0 ∷ 0 ∷ 0 ∷ 0 ∷ 0 ∷ [])
unfolding make emit words count_from reserve reserve_in opened fill_parts fill_part fill_word
    set_word raw_set_word insert handle_of
made_runs = refl

-- A range of ten words, too short for the second record: the one buffer there was is left.
undone_runs :
    map_run {B = Bool × List ℕ × ℕ}
      (λ r. (r.0, r.1.0.objects, r.1.1.len))
      (attempt two_buffers (objects, record forty { words = 10 }, zeros))
    ≡ done (false, 0 ∷ 1 ∷ 0 ∷ 0 ∷ 0 ∷ 0 ∷ 0 ∷ 0 ∷ 0 ∷ 0 ∷ 0 ∷ 0 ∷ [], 2)
unfolding attempt make_all begin commit make emit words count_from reserve reserve_in opened
    fill_parts fill_part fill_word fill_words packed set_word raw_set_word insert remove live
    rollback rollback_from rollback_step handle_of handle_slot forget forget_all Handle.begin
undone_runs = refl
