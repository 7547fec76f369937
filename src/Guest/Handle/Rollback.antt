-- ===== src/Guest/Handle/Rollback.antt =====
-- A transaction that did not commit: `rollback` takes back what was made since `begin`, and nothing
-- else.
use xpute.Common.{
  ◌⊎◌, inl, inr, ℕ, zero, suc, ◌+◌, ◌/◌, ◌%◌, ◌^◌, ◌≤◌, ◌<◌, ◌≡◌, ◌≢◌, refl, ap, true, none, some,
  List, [], ◌∷◌, length, length-set, arith, ◌==◌, if◌then◌else◌, Bool-cases,
}
use xpute.Guest.Handle.{
  Table, handle_slot, handle_of, slot_at, live, get, freed, remove, rollback_step, rollback_from,
  rollback,
}
use xpute.Guest.Handle.Pack.{handle_fields}
use xpute.Guest.Handle.Inv.{IsValid}
use xpute.Guest.Handle.Remove.{live-Live, freed-IsValid, slot_at-freed}

module _ {A : Type 0} (blank : A) where
  abbrev recent : Table A → ℕ
  recent t = t.epoch + 1

  -- What a rollback may do to a slot: leave it, or free it where it was taken since `begin`.
  pub record Rolled (t t' : Table A) : Type 0 where
    pub slot_of :
        (j : ℕ)
        → (slot_at blank t' j ≡ slot_at blank t j)
          ⊎ (((slot_at blank t j).made ≡ recent t) × ((slot_at blank t' j).made ≡ 0))
    pub same_size : length t'.slots ≡ length t.slots
    pub same_epoch : t'.epoch ≡ t.epoch
    pub same_top : t'.top ≡ t.top
    pub valid : (frees : List ℕ) × IsValid blank t' frees

  Rolled-refl : {t : Table A} {frees : List ℕ} → IsValid blank t frees → Rolled t t
  Rolled-refl {frees = frees} v = record {
    slot_of = λ j. inl refl;
    same_size = refl;
    same_epoch = refl;
    same_top = refl;
    valid = (frees, v);
  }

  Rolled-trans : {t u w : Table A} → Rolled t u → Rolled u w → Rolled t w
  Rolled-trans a b = record {
    slot_of = λ j. ground (arith, a.slot_of j, b.slot_of j, a.same_epoch);
    same_size = omega (arith, a.same_size, b.same_size);
    same_epoch = omega (arith, a.same_epoch, b.same_epoch);
    same_top = omega (arith, a.same_top, b.same_top);
    valid = b.valid;
  }

  module _ (t : Table A) (frees : List ℕ) (v : IsValid blank t frees) (slot : ℕ) (pos : 0 < slot)
      (in_top : slot ≤ t.top) (made : (slot_at blank t slot).made ≡ recent t) where
    abbrev own : ℕ
    own = handle_of slot (slot_at blank t slot).generation

    own_fields : (handle_slot own ≡ slot) × (own / 2 ^ 16 ≡ (slot_at blank t slot).generation)
    own_fields = handle_fields slot _ (omega (arith, v.top_in, v.size)) (v.generations slot)

    own-live : live blank t own ≡ true
    unfolding live
    own-live = ground (arith, own_fields, v.top_in, ap (slot_at blank t) own_fields.0)

    own-Rolled : Rolled t (freed blank own t)
    own-Rolled =
        let l = live-Live blank t own own-live in
        record {
          slot_of = λ j. ground (arith, own_fields, slot_at-freed blank t frees v own l j);
          same_size = length-set t.slots (handle_slot own) _;
          same_epoch = refl;
          same_top = refl;
          valid = (handle_slot own ∷ frees, freed-IsValid blank t frees v own l);
        }

    own-removed : (x : A) × (remove blank own t ≡ (some x, freed blank own t))
    unfolding remove
    own-removed = ((slot_at blank t (handle_slot own)).value, rw own-live)

    own-cleared : (slot_at blank (freed blank own t) slot).made ≡ 0
    own-cleared =
        ground (
          arith,
          own_fields,
          slot_at-freed blank t frees v own (live-Live blank t own own-live) slot,
        )

  -- One round frees its slot where that was taken since `begin`, and does nothing else.
  rollback_step-Rolled :
      (slot : ℕ) (t : Table A) (frees : List ℕ) (out : List (ℕ × A))
      → IsValid blank t frees
      → 0 < slot
      → slot ≤ t.top
      → let t' = (rollback_step blank slot t out).0 in
        Rolled t t' × ((slot_at blank t' slot).made ≢ recent t)
  unfolding rollback_step
  rollback_step-Rolled slot t frees out v p q =
      elim (Bool-cases ((slot_at blank t slot).made == (t.epoch + 1) % 2 ^ 64)) [
        | inl hit ↦
            let made : (slot_at blank t slot).made ≡ recent t = ground (arith, v.epochs) in
            let taken = own-removed t frees v slot p q made in
            rw (hit, taken.1)
              (
                own-Rolled t frees v slot p q made,
                ground (arith, own-cleared t frees v slot p q made),
              )
        | inr miss ↦ rw miss (Rolled-refl v, ground (arith, v.epochs))
      ]

  -- The loop over the slots from `slot` to the highest.
  pub rollback_from-Rolled :
      (n slot : ℕ) (t : Table A) (frees : List ℕ) (out : List (ℕ × A))
      → IsValid blank t frees
      → 0 < slot
      → slot + n ≡ t.top + 1
      → let t' = (rollback_from blank n slot t out).0 in
        Rolled t t' × ((j : ℕ) → slot ≤ j → j ≤ t.top → (slot_at blank t' j).made ≢ recent t)
  unfolding rollback_from
  rollback_from-Rolled zero slot t frees out v p e = (Rolled-refl v, λ j a b. absurd (omega arith))
  rollback_from-Rolled (suc n) slot t frees out v p e =
      let next = rollback_step blank slot t out in
      let (r, clear) = rollback_step-Rolled slot t frees out v p (omega arith) in
      let (frees', v') = r.valid in
      let (rest, cleared) =
        rollback_from-Rolled n (slot + 1) next.0 frees' next.1 v' (omega arith)
          (omega (arith, r.same_top)) in
      (
        Rolled-trans r rest,
        λ j a b.
            ground (arith, cleared j, rest.slot_of j, r.same_top, r.same_epoch, clear, v.epochs),
      )

  -- A rollback on a valid table leaves it valid. Every live handle that was made since `begin` then
  -- names nothing, and every other handle names what it named.
  pub rollback_correct :
      {t : Table A} (frees : List ℕ)
      → IsValid blank t frees
      → let t' = (rollback blank t).0 in
        ((frees' : List ℕ) × IsValid blank t' frees')
        × ((h : ℕ)
            → get blank t' h ≡ (
                if (slot_at blank t (handle_slot h)).made == t.epoch + 1
                then none
                else get blank t h))
  unfolding rollback get
  rollback_correct {t} frees v =
      let (r, cleared) = rollback_from-Rolled t.top 1 t frees [] v (omega arith) (omega arith) in
      (
        r.valid,
        λ h.
            let j = handle_slot h in
            ground (arith, r.slot_of j, r.same_size, cleared j, v.untaken j, v.epochs),
      )
