-- ===== src/Guest/Stream/Tests.antt =====
-- Runs of a stream of ten words, and the witness.
use native.Mathlib.Omega.{arith}
use xpute.Common.{ℕ, ◌≡◌, refl, Bool, true, false, none, some, [], ◌∷◌}
use xpute.Status.{done, map_run}
use xpute.Guest.Memory.{Memory, raw_set_word, set_word}
use xpute.Guest.Stream.{
  Stream, MarkState, put, reserve, reserve_in, opened, fill, set_words, fill_bytes,
}
use xpute.Guest.Stream.Inv.{IsValid}
use xpute.Guest.Stream.Transaction.{Call, Committed, transaction, put_all, transaction_correct}

abbrev zeros : Memory
zeros = record { size = 64; byte = λ a. 0 }

-- Two words were recorded.
abbrev ten : Stream
ten = record { at = 8; words = 10; head = 1; len = 2; mark = MarkState.off_mark; mark_at = 0 }

ten-IsValid : IsValid zeros ten
ten-IsValid = record {
  placed = omega arith;
  head_in = omega arith;
  room = omega arith;
  in_mem = omega arith;
  small = omega arith;
}

abbrev short : Call
short = record { op = 3; args = 7 ∷ []; tail = []; bytes = none }

abbrev with_bytes : Call
with_bytes = record { op = 4; args = []; tail = 9 ∷ []; bytes = some (1 ∷ 2 ∷ 3 ∷ 4 ∷ 5 ∷ []) }

two_fit :
    map_run {B = Bool × ℕ} (λ r. (r.0.0, r.0.1.len)) (transaction zeros ten (short ∷ short ∷ []))
    ≡ done (true, 8)
unfolding transaction put_all put reserve reserve_in opened fill set_words fill_bytes set_word
    raw_set_word
two_fit = refl

too_much :
    map_run {B = Bool × ℕ}
      (λ r. (r.0.0, r.0.1.len))
      (transaction zeros ten (short ∷ with_bytes ∷ []))
    ≡ done (false, 2)
unfolding transaction put_all put reserve reserve_in opened fill set_words fill_bytes set_word
    raw_set_word
too_much = refl

transaction_correct_example : Committed zeros ten (short ∷ with_bytes ∷ [])
transaction_correct_example =
    transaction_correct (short ∷ with_bytes ∷ []) {m = zeros} {s = ten} ten-IsValid
      (omega arith, (omega arith, tt))
