-- ===== src/Guest/Handle/Since.antt =====
-- A table in the middle of a transaction: what a rollback would leave is what was there at `begin`.
use xpute.Common.{
  ℕ, ◌+◌, ◌^◌, ◌≤◌, ◌<◌, ◌≡◌, refl, sym, ap, ◌∙◌, ◌⊎◌, inl, inr, arith, none, some, List, [], ne→==,
  eq→==,
}
use native.Mathlib.Decide.{ℕ_discrete}
use xpute.Guest.Handle.{Table, handle_slot, slot_at, live, get, rollback, begin}
use xpute.Guest.Handle.Inv.{IsValid}
use xpute.Guest.Handle.Laws.{Inserted}
use xpute.Guest.Handle.Remove.{Removed}
use xpute.Guest.Handle.Rollback.{rollback_from-Rolled, rollback_correct}

module _ {A : Type 0} (blank : A) where
  -- A slot of a handle was taken in this transaction.
  abbrev pub Recent : Table A → ℕ → Type 0
  Recent t h = (slot_at blank t (handle_slot h)).made ≡ t.epoch + 1

  -- What the table's handles name once what was made since `begin` is taken out.
  abbrev pub Since : Table A → Table A → Type 0
  Since u t =
      (h : ℕ) → (Recent t h → get blank u h ≡ none) × (¬ Recent t h → get blank u h ≡ get blank t h)

  -- A step that takes slots that were idle and gives back any.
  pub record Stepped (t t' : Table A) : Type 0 where
    pub slots :
        (j : ℕ)
        → (slot_at blank t' j ≡ slot_at blank t j)
          ⊎ (((slot_at blank t j).made ≡ 0) × ((slot_at blank t' j).made ≡ t.epoch + 1))
          ⊎ ((slot_at blank t' j).made ≡ 0)
    pub names : (h : ℕ) → ¬ Recent t' h → get blank t' h ≡ get blank t h
    pub same_epoch : t'.epoch ≡ t.epoch

  get-idle :
      (t : Table A) (h : ℕ) → (slot_at blank t (handle_slot h)).made ≡ 0 → get blank t h ≡ none
  unfolding get live
  get-idle t h e = ground (arith, e)

  pub Inserted-Stepped : {t t' : Table A} {x : A} {h : ℕ} → Inserted blank t x h t' → Stepped t t'
  Inserted-Stepped {t} {t'} {x} {h} i = record {
    slots = λ j. elim (i.slots j) [ inl e ↦ inl e | inr e ↦ inr (inl e) ];
    names = λ k r. elim (ℕ_discrete k h) [
      | yes e ↦ absurd (
          r (
            ap (λ n. (slot_at blank t' (handle_slot n)).made) e
            ∙ i.own
            ∙ omega (arith, i.same_epoch)))
      | no ne ↦ i.names k ∙ rw (ne→== k h ne) refl
    ];
    same_epoch = i.same_epoch;
  }

  -- A handle made and taken back at once.
  pub Removed-Stepped :
      {t t' t'' : Table A} {x : A} {h : ℕ}
      → Inserted blank t x h t'
      → Removed blank t' h t''
      → ((k : ℕ) → get blank t'' k ≡ get blank t k)
      → Stepped t t''
  Removed-Stepped {t} {t'} {t''} {x} {h} i r same = record {
    slots = λ j. elim (r.slots j) [
      | inr e ↦ inr (inr e)
      | inl e ↦ elim (i.slots j) [
        | inl f ↦ inl (e ∙ f)
        | inr (f, g) ↦ inr (inl (f, ap (λ s. s.made) e ∙ g))
      ]
    ];
    names = λ k n. same k;
    same_epoch = r.same_epoch ∙ i.same_epoch;
  }

  pub Since-Stepped : (u : Table A) {t t' : Table A} → Since u t → Stepped t t' → Since u t'
  Since-Stepped u {t} {t'} s p h = elim (p.slots (handle_slot h)) [
    | inl e ↦
        let made : (slot_at blank t' (handle_slot h)).made
            ≡ (slot_at blank t (handle_slot h)).made =
          ap (λ r. r.made) e in
        (
          λ r. (s h).0 (omega (arith, r, made, p.same_epoch)),
          λ r. (s h).1 (λ q. r (omega (arith, q, made, p.same_epoch))) ∙ sym (p.names h r),
        )
    | inr (inl (idle, taken)) ↦ (
      λ r. (s h).1 (λ q. omega (arith, q, idle)) ∙ get-idle t h idle,
      λ r. absurd (r (omega (arith, taken, p.same_epoch))),
    )
    | inr (inr free) ↦ (
      λ r. absurd (omega (arith, r, free)),
      λ r. elim (ℕ_discrete (slot_at blank t (handle_slot h)).made (t.epoch + 1)) [
        | yes q ↦ (s h).0 q ∙ sym (get-idle t' h free)
        | no q ↦ (s h).1 q ∙ sym (p.names h r)
      ],
    )
  ]

  -- Nothing was taken in an epoch to come.
  abbrev pub Dated : Table A → Type 0
  Dated t = (j : ℕ) → (slot_at blank t j).made ≤ t.epoch + 1

  pub Dated-Stepped : {t t' : Table A} → Dated t → Stepped t t' → Dated t'
  Dated-Stepped {t} {t'} d p j = elim (p.slots j) [
    | inl e ↦ omega (arith, d j, p.same_epoch, ap (λ r. r.made) e)
    | inr (inl e) ↦ omega (arith, e.1, p.same_epoch)
    | inr (inr e) ↦ omega (arith, e)
  ]

  pub begin-Dated : (t : Table A) → Dated t → t.epoch + 1 < 2 ^ 64 → Dated (begin t)
  unfolding begin
  begin-Dated t d h j = omega (arith, d j)

  pub rollback-Dated :
      {t : Table A} (frees : List ℕ) → IsValid blank t frees → Dated t → Dated (rollback blank t).0
  unfolding rollback
  rollback-Dated {t} frees v d j =
      let (r, cleared) =
        rollback_from-Rolled blank t.top 1 t frees [] v (omega arith) (omega arith) in
      elim (r.slot_of j) [
        | inl e ↦ omega (arith, d j, r.same_epoch, ap (λ s. s.made) e)
        | inr e ↦ omega (arith, e.1)
      ]

  pub Since-begin : (t : Table A) → Dated t → t.epoch + 1 < 2 ^ 64 → Since t (begin t)
  unfolding begin get live
  Since-begin t d h k = (λ r. absurd (omega (arith, r, d (handle_slot k))), λ r. refl)

  pub begin-IsValid :
      {t : Table A} {frees : List ℕ}
      → IsValid blank t frees
      → t.epoch + 2 < 2 ^ 64
      → IsValid blank (begin t) frees
  unfolding begin
  begin-IsValid v h = record {
    chain = v.chain;
    counted = v.counted;
    lives = v.lives;
    top_in = v.top_in;
    size = v.size;
    untaken = v.untaken;
    generations = v.generations;
    epochs = omega arith;
  }

  -- A rollback leaves what was there at `begin`.
  pub rollback-Since :
      (u : Table A) {t : Table A} (frees : List ℕ)
      → IsValid blank t frees
      → Since u t
      → (h : ℕ) → get blank (rollback blank t).0 h ≡ get blank u h
  rollback-Since u {t} frees v s h =
      let made = (slot_at blank t (handle_slot h)).made in
      (rollback_correct blank frees v).1 h ∙ elim (ℕ_discrete made (t.epoch + 1)) [
        | yes q ↦ rw (eq→== made (t.epoch + 1) q) (sym ((s h).0 q))
        | no q ↦ rw (ne→== made (t.epoch + 1) q) (sym ((s h).1 q))
      ]

  -- What was named at `begin` is named still.
  pub Since-kept :
      (u t : Table A)
      → Since u t
      → (h : ℕ) (x : A) → get blank u h ≡ some x
      → get blank t h ≡ some x
  Since-kept u t s h x e = elim (ℕ_discrete (slot_at blank t (handle_slot h)).made (t.epoch + 1)) [
    | yes q ↦ absurd (let gone = (s h).0 q in cc)
    | no q ↦ sym ((s h).1 q) ∙ e
  ]

  pub get-begin : (t : Table A) (h : ℕ) → get blank (begin t) h ≡ get blank t h
  unfolding begin get live
  get-begin t h = refl
