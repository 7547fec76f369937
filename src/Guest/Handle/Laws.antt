-- ===== src/Guest/Handle/Laws.antt =====
-- Taking and giving back handles keeps the table valid, a handle names what it was made for, and one
-- given back names nothing.
use xpute.Common.{
  ◌⊎◌, inl, inr, ℕ, ◌+◌, ◌/◌, ◌^◌, ◌<◌, ◌≡◌, refl, false, none, some, List, length, arith, ◌==◌,
  if◌then◌else◌,
}
use xpute.Guest.Handle.{Table, handle_slot, slot_at, insert, live, get}
use xpute.Guest.Handle.Inv.{IsValid}
use xpute.Guest.Handle.Take.{
  refuses, takes, choose, after, made_handle, fill-IsValid, fill_fresh, fill_names, fill_own,
  fill_slots, fill_stale,
}

module _ {A : Type 0} (blank : A) where
  -- What comes with a handle that `insert` answers.
  pub record Inserted (t : Table A) (x : A) (h : ℕ) (t' : Table A) : Type 0 where
    pub fresh : live blank t h ≡ false
    pub names : (k : ℕ) → get blank t' k ≡ (if k == h then some x else get blank t k)
    pub valid : (rest : List ℕ) × IsValid blank t' rest
    pub counts : t'.count ≡ t.count + 1
    pub own : (slot_at blank t' (handle_slot h)).made ≡ t.epoch + 1
    pub slots :
        (j : ℕ)
        → (slot_at blank t' j ≡ slot_at blank t j)
          ⊎ (((slot_at blank t j).made ≡ 0) × ((slot_at blank t' j).made ≡ t.epoch + 1))
    pub same_epoch : t'.epoch ≡ t.epoch

  -- On a valid table `insert` refuses, and changes nothing, exactly when all slots but slot 0 are
  -- taken. Else it answers a handle that was not live, which alone changes what it names: it names the
  -- value. The table stays valid and counts one handle more.
  pub insert_correct :
      (x : A) {t : Table A} (frees : List ℕ)
      → IsValid blank t frees
      → ((insert blank x t ≡ (none, t)) × (t.count + 1 ≡ length t.slots))
        ⊎ ((h : ℕ) × (t' : Table A) × (insert blank x t ≡ (some h, t'))
            × Inserted t x h t'
            × (t.count + 1 < length t.slots))
  unfolding insert
  insert_correct x {t} frees v = elim (choose blank frees v) [
    | refuses e c ↦ inl (rw e, c)
    | takes i f top rest e k c ↦ inr (
      made_handle blank t frees v x i f top rest k,
      after blank t frees v x i f top rest k,
      rw e,
      record {
        fresh = fill_fresh blank t frees v x i f top rest k;
        names = fill_names blank t frees v x i f top rest k;
        valid = (rest, fill-IsValid blank t frees v x i f top rest k);
        counts = omega (arith, k.counted, k.room, v.size);
        own = fill_own blank t frees v x i f top rest k;
        slots = fill_slots blank t frees v x i f top rest k;
        same_epoch = refl;
      },
      c,
    )
  ]

  -- A dead handle of its slot's latest generation stays dead through an `insert`.
  pub insert_stale :
      (x : A) {t : Table A} (frees : List ℕ) (h : ℕ)
      → IsValid blank t frees
      → h / 2 ^ 16 ≡ (slot_at blank t (handle_slot h)).generation
      → live blank t h ≡ false
      → live blank (insert blank x t).1 h ≡ false
  unfolding insert
  insert_stale x {t} frees h v g l = elim (choose blank frees v) [
    | refuses e c ↦ rw e l
    | takes i f top rest e k c ↦ rw e (fill_stale blank t frees v x i f top rest k h g l)
  ]
