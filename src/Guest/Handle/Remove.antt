-- ===== src/Guest/Handle/Remove.antt =====
-- Giving a handle back: it names nothing from then on, and no other handle is touched.
use xpute.Common.{
  ◌∙◌, ◌⊎◌, inl, inr, subst, ℕ, ◌+◌, ◌/◌, ◌^◌, ◌≤◌, ◌<◌, ◌≡◌, ◌≢◌, refl, sym, ap, true, false, none,
  some, List, ◌∷◌, length, set, length-set, get_or-set, get_or-set_self, arith, All, ◌==◌,
  if◌then◌else◌, Bool-cases, eq→==, ne→==,
}
use native.Mathlib.Decide.{dec_lt, ℕ_discrete}
use xpute.Guest.Handle.{Slot, Table, handle_slot, vacant, slot_at, live, get, freed, remove}
use xpute.Guest.Handle.Pack.{handle_unique}
use xpute.Guest.Handle.Inv.{Chain, IsValid, Chain-set, Chain-live, taken_slots-set}

module _ {A : Type 0} (blank : A) where
  -- What it takes for a handle to be live.
  pub record Live (t : Table A) (h : ℕ) : Type 0 where
    pub pos : 0 < handle_slot h
    pub slot_in : handle_slot h < length t.slots
    pub taken : (slot_at blank t (handle_slot h)).made ≢ 0
    pub current : (slot_at blank t (handle_slot h)).generation ≡ h / 2 ^ 16

  pub live-Live : (t : Table A) (h : ℕ) → live blank t h ≡ true → Live t h
  unfolding live
  live-Live t h e = ground arith

  module _ (t : Table A) (frees : List ℕ) (v : IsValid blank t frees) (h : ℕ) (l : Live t h) where
    abbrev pub empty : Slot A
    empty = record (slot_at blank t (handle_slot h)) { made = 0; next = t.free; value = blank }

    pub slot_at-freed :
        (j : ℕ)
        → slot_at blank (freed blank h t) j
          ≡ (if handle_slot h == j then empty else slot_at blank t j)
    slot_at-freed j = get_or-set t.slots (handle_slot h) j empty (vacant blank) l.slot_in

    below_top : handle_slot h ≤ t.top
    below_top = elim (dec_lt t.top (handle_slot h)) [
      | yes p ↦ absurd (l.taken (v.untaken (handle_slot h) p))
      | no p ↦ omega arith
    ]

    off : All (λ y. handle_slot h ≢ y) frees
    off = Chain-live blank frees t.slots t.top t.free (handle_slot h) v.chain l.taken

    here : slot_at blank (freed blank h t) (handle_slot h) ≡ empty
    here = get_or-set_self t.slots (handle_slot h) empty (vacant blank) l.slot_in

    counts : (freed blank h t).count + 1 ≡ t.count
    counts = ground (
      arith,
      v.lives,
      v.counted,
      v.size,
      v.top_in,
      l.taken,
      taken_slots-set blank t.slots (handle_slot h) empty,
    )

    pub freed-IsValid : IsValid blank (freed blank h t) (handle_slot h ∷ frees)
    freed-IsValid = record {
      chain = (
        refl,
        l.pos,
        below_top,
        ap (λ (s : Slot A). s.made) here,
        off,
        subst (λ (s : Slot A). Chain blank (set t.slots (handle_slot h) empty) t.top s.next frees)
            (sym here)
            (Chain-set blank frees t.slots t.top t.free (handle_slot h) empty off v.chain),
      );
      counted = omega (arith, counts, v.counted);
      lives =
          ground
            (arith, v.lives, counts, l.taken, taken_slots-set blank t.slots (handle_slot h) empty);
      top_in = omega (arith, v.top_in, length-set t.slots (handle_slot h) empty);
      size = omega (arith, v.size, length-set t.slots (handle_slot h) empty);
      untaken = λ j p. ground (arith, slot_at-freed j, v.untaken j);
      generations =
          λ j. ground (arith, slot_at-freed j, v.generations j, v.generations (handle_slot h));
      epochs = v.epochs;
    }

    freed-dead : live blank (freed blank h t) h ≡ false
    unfolding live
    freed-dead = ground (arith, here)

    -- The table as a map from handles: only the handle given back changes, and names nothing.
    freed_names : (k : ℕ) → get blank (freed blank h t) k ≡ (if k == h then none else get blank t k)
    unfolding get
    freed_names k = elim (ℕ_discrete k h) [
      | yes e ↦ rw (eq→== k h e, e, freed-dead) refl
      | no ne ↦ rw (ne→== k h ne) (elim (ℕ_discrete (handle_slot h) (handle_slot k)) [
        | yes at ↦
            let other : (slot_at blank t (handle_slot k)).generation ≢ k / 2 ^ 16 = λ own. ne (
              handle_unique k h (sym at)
                (sym own ∙ ap (λ i. (slot_at blank t i).generation) (sym at) ∙ l.current)) in
            ground (arith, other, at, slot_at-freed (handle_slot k), ap (slot_at blank t) at)
        | no off ↦
            ground
              (arith, off, slot_at-freed (handle_slot k), length-set t.slots (handle_slot h) empty)
      ])
    ]

    freed_slots :
        (j : ℕ)
        → (slot_at blank (freed blank h t) j ≡ slot_at blank t j)
          ⊎ ((slot_at blank (freed blank h t) j).made ≡ 0)
    freed_slots j = elim (ℕ_discrete (handle_slot h) j) [
      | yes at ↦ inr (ground (arith, at, slot_at-freed j))
      | no off ↦ inl (slot_at-freed j ∙ rw (ne→== (handle_slot h) j off) refl)
    ]

  -- What a handle that was given back leaves.
  pub record Removed (t : Table A) (h : ℕ) (t' : Table A) : Type 0 where
    pub names : (k : ℕ) → get blank t' k ≡ (if k == h then none else get blank t k)
    pub valid : (frees : List ℕ) × IsValid blank t' frees
    pub counts : t'.count + 1 ≡ t.count
    pub spent : h / 2 ^ 16 ≡ (slot_at blank t' (handle_slot h)).generation
    pub dead : live blank t' h ≡ false
    pub slots : (j : ℕ) → (slot_at blank t' j ≡ slot_at blank t j) ⊎ ((slot_at blank t' j).made ≡ 0)
    pub same_epoch : t'.epoch ≡ t.epoch

  -- On a valid table `remove` answers what a live handle names, and then that handle alone changes
  -- what it names: it names nothing. The table stays valid and counts one handle less. A dead handle
  -- removes nothing.
  pub remove_correct :
      (h : ℕ) {t : Table A} (frees : List ℕ)
      → IsValid blank t frees
      → ((live blank t h ≡ false) × (remove blank h t ≡ (none, t)))
        ⊎ ((x : A) × (t' : Table A) × (get blank t h ≡ some x)
            × (remove blank h t ≡ (some x, t'))
            × Removed t h t')
  unfolding remove get
  remove_correct h {t} frees v = elim (Bool-cases (live blank t h)) [
    | inl e ↦
        let l = live-Live t h e in
        inr (
          (slot_at blank t (handle_slot h)).value,
          freed blank h t,
          rw e,
          rw e,
          record {
            names = freed_names t frees v h l;
            valid = (handle_slot h ∷ frees, freed-IsValid t frees v h l);
            counts = counts t frees v h l;
            spent = ground (arith, here t frees v h l, l.current);
            dead = freed-dead t frees v h l;
            slots = freed_slots t frees v h l;
            same_epoch = refl;
          },
        )
    | inr e ↦ inl (e, rw e)
  ]
