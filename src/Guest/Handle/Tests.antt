-- ===== src/Guest/Handle/Tests.antt =====
-- Runs of a table of four slots, and the witnesses.
use native.Mathlib.Omega.{arith}
use xpute.Common.{
  ℕ, ◌+◌, ◌*◌, ◌^◌, ◌<◌, ◌≡◌, ◌≢◌, ◌⊎◌, refl, false, none, some, List, [], ◌∷◌, length, ◌==◌,
  if◌then◌else◌,
}
use xpute.Guest.Handle.{
  Slot, Table, handle_slot, handle_of, slot_at, insert, live, get, remove, rollback,
}
use xpute.Guest.Handle.Inv.{IsValid}
use xpute.Guest.Handle.Laws.{Inserted, insert_correct}
use xpute.Guest.Handle.Remove.{Removed, remove_correct}
use xpute.Guest.Handle.Rollback.{rollback_correct}
use xpute.Guest.Handle.Stale.{insert-remove}

abbrev empty_slot : Slot ℕ
empty_slot = record { generation = 0; made = 0; next = 0; value = 0 }

-- Slot 1 was given back, slot 2 holds 9, and slot 3 was never given out.
abbrev part : Table ℕ
part = record {
  slots =
      empty_slot
      ∷ record { generation = 1; made = 0; next = 0; value = 0 }
      ∷ record { generation = 1; made = 1; next = 0; value = 9 }
      ∷ empty_slot
      ∷ [];
  epoch = 0;
  free = 1;
  top = 2;
  count = 1;
}

part-IsValid : IsValid 0 part (1 ∷ [])
part-IsValid = record {
  chain = (refl, omega arith, omega arith, refl, tt, refl);
  counted = refl;
  lives = refl;
  top_in = omega arith;
  size = omega arith;
  untaken = λ i h. ground arith;
  generations = λ i. ground arith;
  epochs = omega arith;
}

-- The handle of slot 2.
abbrev nine : ℕ
nine = 2 + 2 ^ 16

insert_reuses : (insert 0 7 part).0 ≡ some (1 + 2 * 2 ^ 16)
unfolding insert handle_of
insert_reuses = refl

nine_comes_out : (remove 0 nine part).0 ≡ some 9
unfolding remove live handle_slot
nine_comes_out = refl

insert_correct_example :
    ((insert 0 7 part ≡ (none, part)) × (part.count + 1 ≡ length part.slots))
    ⊎ ((h : ℕ) × (t' : Table ℕ) × (insert 0 7 part ≡ (some h, t'))
        × Inserted 0 part 7 h t'
        × (part.count + 1 < length part.slots))
insert_correct_example = insert_correct 0 7 {t = part} (1 ∷ []) part-IsValid

remove_correct_example :
    ((live 0 part nine ≡ false) × (remove 0 nine part ≡ (none, part)))
    ⊎ ((x : ℕ) × (t' : Table ℕ) × (get 0 part nine ≡ some x)
        × (remove 0 nine part ≡ (some x, t'))
        × Removed 0 part nine t')
remove_correct_example = remove_correct 0 nine {t = part} (1 ∷ []) part-IsValid

rollback_correct_example :
    let t' = (rollback 0 part).0 in
    ((frees' : List ℕ) × IsValid 0 t' frees')
    × ((h : ℕ)
        → get 0 t' h ≡ (if (slot_at 0 part (handle_slot h)).made == 1 then none else get 0 part h))
rollback_correct_example = rollback_correct 0 {t = part} (1 ∷ []) part-IsValid

-- The table once 9 was removed, and the handle of the value that takes its slot.
abbrev without_nine : Table ℕ
without_nine = record part {
  slots =
      empty_slot
      ∷ record { generation = 1; made = 0; next = 0; value = 0 }
      ∷ record { generation = 1; made = 0; next = 1; value = 0 }
      ∷ empty_slot
      ∷ [];
  free = 2;
  count = 0;
}

abbrev with_seven : Table ℕ
with_seven = record without_nine {
  slots =
      empty_slot
      ∷ record { generation = 1; made = 0; next = 0; value = 0 }
      ∷ record { generation = 2; made = 1; next = 1; value = 7 }
      ∷ empty_slot
      ∷ [];
  free = 1;
  count = 1;
}

insert-remove_example :
    (get 0 with_seven nine ≡ none)
    × (get 0 with_seven (2 + 2 * 2 ^ 16) ≡ some 7)
    × ((2 + 2 * 2 ^ 16) ≢ nine)
unfolding insert remove live handle_slot handle_of
insert-remove_example =
    insert-remove 0 nine (2 + 2 * 2 ^ 16) 7 9 {t = part} {u = without_nine} {w = with_seven}
      (1 ∷ []) part-IsValid refl refl
