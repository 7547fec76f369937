-- ===== src/Guest/Handle/Take.antt =====
-- The slot that `insert` takes, and the table with a value in it.
use xpute.Common.{
  ◌∙◌, ◌⊎◌, inl, inr, ℕ, ◌+◌, ◌/◌, ◌%◌, ◌^◌, ◌≤◌, ◌<◌, ◌≡◌, ◌≢◌, refl, sym, ap, false, none, some,
  List, [], ◌∷◌, length, length-set, get_or-set, arith, All, ◌==◌, if◌then◌else◌, eq→==, ne→==,
}
use native.Mathlib.Decide.{dec_lt, ℕ_discrete}
use xpute.Guest.Handle.{
  Table, handle_slot, handle_of, bumped, vacant, slot_at, taken, fill, live, get,
}
use xpute.Guest.Handle.Pack.{handle_fields, handle_unique}
use xpute.Guest.Handle.Inv.{Chain, IsValid, Chain-set, taken_slots-set}

module _ {A : Type 0} (blank : A) where
  -- What `insert` may take: a slot that is free or was never given out, and what is free after it.
  pub record Takes (t : Table A) (frees : List ℕ) (i f top : ℕ) (rest : List ℕ) : Type 0 where
    pub chain : Chain blank t.slots top f rest
    pub off : All (λ y. i ≢ y) rest
    pub pos : 0 < i
    pub in_top : i ≤ top
    pub room : top < length t.slots
    pub grows : t.top ≤ top
    pub counted : t.count + 1 + length rest ≡ top
    pub idle : (slot_at blank t i).made ≡ 0

  pub data Choice (t : Table A) (frees : List ℕ) : Type 0 where
    refuses : taken blank t ≡ none → t.count + 1 ≡ length t.slots → Choice t frees
    takes :
        (i f top : ℕ) (rest : List ℕ)
        → taken blank t ≡ some (i, f, top)
        → Takes t frees i f top rest
        → t.count + 1 < length t.slots
        → Choice t frees

  pub choose : {t : Table A} (frees : List ℕ) → IsValid blank t frees → Choice t frees
  choose {t} [] v = elim (dec_lt (t.top + 1) (length t.slots)) [
    | yes h ↦
        takes (t.top + 1) t.free (t.top + 1) [] (ground (arith, v.chain))
          (record {
            chain = v.chain;
            off = tt;
            pos = omega arith;
            in_top = omega arith;
            room = h;
            grows = omega arith;
            counted = omega arith;
            idle = v.untaken (t.top + 1) (omega arith);
          })
          (omega arith)
    | no h ↦ refuses (ground (arith, v.chain)) (omega arith)
  ]
  choose {t} (x ∷ xs) v =
      let (e, p, q, m, d, c) = v.chain in
      takes x (slot_at blank t x).next t.top xs (ground arith)
        (record {
          chain = c;
          off = d;
          pos = p;
          in_top = q;
          room = v.top_in;
          grows = omega arith;
          counted = omega arith;
          idle = m;
        })
        (omega arith)

  bumped_bounds : (g : ℕ) → (0 < bumped g) × (bumped g < 2 ^ 16) × (g < 2 ^ 16 → bumped g ≢ g)
  bumped_bounds g = ground arith

  module _ (t : Table A) (frees : List ℕ) (v : IsValid blank t frees) (x : A) (i f top : ℕ)
      (rest : List ℕ) (k : Takes t frees i f top rest) where
    abbrev generation : ℕ
    generation = bumped (slot_at blank t i).generation

    abbrev pub after : Table A
    after = (fill blank t x (some (i, f, top))).1

    slot_at-fill :
        (j : ℕ)
        → slot_at blank after j ≡ (
            if i == j
            then record (slot_at blank t i) {
              generation = generation;
              made = (t.epoch + 1) % 2 ^ 64;
              value = x;
            }
            else slot_at blank t j)
    slot_at-fill j = get_or-set t.slots i j _ (vacant blank) (omega (arith, k.in_top, k.room))

    pub fill-IsValid : IsValid blank after rest
    fill-IsValid = record {
      chain = Chain-set blank rest t.slots top f i _ k.off k.chain;
      counted = omega (arith, k.counted, k.room, v.size);
      lives = ground (
        arith,
        v.lives,
        k.idle,
        taken_slots-set blank t.slots i (record (slot_at blank t i) {
          generation = generation;
          made = (t.epoch + 1) % 2 ^ 64;
          value = x;
        }),
        k.in_top,
        k.room,
        v.epochs,
        v.size,
        k.counted,
      );
      top_in = omega (arith, k.room, length-set t.slots i _);
      size = omega (arith, v.size, length-set t.slots i _);
      untaken = λ j h. ground (arith, slot_at-fill j, v.untaken j, k.in_top, k.grows);
      generations = λ j.
          ground
            (arith, slot_at-fill j, v.generations j, bumped_bounds (slot_at blank t i).generation);
      epochs = v.epochs;
    }

    abbrev pub made_handle : ℕ
    made_handle = handle_of i generation

    i_in : (i < length t.slots) × (i < 2 ^ 16)
    i_in = omega (arith, k.in_top, k.room, v.size)

    fields : (handle_slot made_handle ≡ i) × (made_handle / 2 ^ 16 ≡ generation)
    fields = handle_fields i generation i_in.1 (bumped_bounds (slot_at blank t i).generation).1

    made_pos : (t.epoch + 1) % 2 ^ 64 ≡ t.epoch + 1
    made_pos = omega (arith, v.epochs)

    pub fill_get : get blank after made_handle ≡ some x
    unfolding get
    fill_get = ground (
      arith,
      fields,
      i_in,
      k.pos,
      made_pos,
      ap (slot_at blank after) fields.0,
      slot_at-fill i,
      length-set t.slots i (record (slot_at blank t i) {
        generation = generation;
        made = (t.epoch + 1) % 2 ^ 64;
        value = x;
      }),
    )

    pub fill_fresh : live blank t made_handle ≡ false
    unfolding live
    fill_fresh = ground (arith, fields, k.idle, ap (slot_at blank t) fields.0)

    pub fill-same_size : length after.slots ≡ length t.slots
    fill-same_size = length-set t.slots i _

    -- The table as a map from handles: only the new handle changes what it names.
    pub fill_names :
        (h : ℕ) → get blank after h ≡ (if h == made_handle then some x else get blank t h)
    unfolding get
    fill_names h = elim (ℕ_discrete h made_handle) [
      | yes e ↦ rw (eq→== h made_handle e, e) fill_get
      | no ne ↦ rw (ne→== h made_handle ne) (elim (ℕ_discrete i (handle_slot h)) [
        | yes at ↦
            let other : generation ≢ h / 2 ^ 16 = λ same.
              ne (handle_unique h made_handle (sym at ∙ sym fields.0) (sym same ∙ sym fields.1)) in
            ground (arith, other, slot_at-fill (handle_slot h), k.idle, ap (slot_at blank t) at)
        | no off ↦ ground (arith, off, slot_at-fill (handle_slot h), fill-same_size)
      ])
    ]

    pub fill_own : (slot_at blank after (handle_slot made_handle)).made ≡ t.epoch + 1
    fill_own = ground (arith, fields, made_pos, slot_at-fill (handle_slot made_handle))

    pub fill_slots :
        (j : ℕ)
        → (slot_at blank after j ≡ slot_at blank t j)
          ⊎ (((slot_at blank t j).made ≡ 0) × ((slot_at blank after j).made ≡ t.epoch + 1))
    fill_slots j = elim (ℕ_discrete i j) [
      | yes at ↦ inr (
        ap (λ l. (slot_at blank t l).made) (sym at) ∙ k.idle,
        ground (arith, at, made_pos, slot_at-fill j),
      )
      | no off ↦ inl (slot_at-fill j ∙ rw (ne→== i j off) refl)
    ]

    pub fill_stale :
        (h : ℕ)
        → h / 2 ^ 16 ≡ (slot_at blank t (handle_slot h)).generation
        → live blank t h ≡ false
        → live blank after h ≡ false
    unfolding live
    fill_stale h g l = ground (
      arith,
      slot_at-fill (handle_slot h),
      fill-same_size,
      (bumped_bounds (slot_at blank t i).generation).2 (v.generations i),
      ap (slot_at blank t) {x = i} {y = handle_slot h},
    )
