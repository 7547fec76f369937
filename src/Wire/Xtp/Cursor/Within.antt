-- ===== src/Wire/Xtp/Cursor/Within.antt =====
-- A cursor that is made lies in its span, and a child in its branch's.
use xpute.Common.{
  ℕ, zero, suc, ◌+◌, ◌-◌, ◌*◌, ◌/◌, ◌%◌, ◌^◌, ◌≤◌, ◌<◌, ◌≡◌, ◌≢◌, ◌⊎◌, inl, inr, refl, sym, ap,
  subst, ◌∙◌, ◌||◌, Bool, true, false, not, List, ltb, ◌==◌, if◌then◌else◌, arith,
}
use xpute.Status.{Error, Result, val, err}
use xpute.Wire.Xtp.{Desc, align_sz, get_len, get_desc, get_word}
use xpute.Wire.Xtp.Cursor.{
  Cursor, u32, bad, ◌>>=◌, branch_type, is_branch, cursor_at, next_from, end_of, present_child,
  child_at,
}

pub record IsNode (size : ℕ) (c : Cursor) : Type 0 where
  pub small : size < 2 ^ 32
  pub fits : c.pkt ≤ size
  pub inside : c.base ≢ 0 → c.base < c.pkt
  pub aligned : c.base ≢ 0 → (unit : ℕ) × (align_sz c.ty ≡ val unit) × (c.base % unit ≡ 0)
  pub room : c.base ≢ 0 → c.ty ≡ branch_type → c.base + 8 + c.len * 8 ≤ c.pkt

pub bind_val {ℓ κ} :
    {A : Type ℓ} {B : Type κ} (r : Result A) (f : A → Result B) {b : B}
    → (r >>= f) ≡ val b
    → (a : A) × (r ≡ val a) × (f a ≡ val b)
bind_val (val a) f e = (a, refl, e)
bind_val (err x) f e = absurd (cc)

pub val_inj {ℓ} : {A : Type ℓ} {a b : A} → val a ≡ val b → a ≡ b
val_inj e = cc

pub unless_err {ℓ} :
    {A : Type ℓ} (why : Error) (t : Bool) {x : Result A} {a : A}
    → (if t then err why else x) ≡ val a
    → (t ≡ false) × (x ≡ val a)
unless_err why true e = absurd (cc)
unless_err why false e = (refl, e)

pub unless {ℓ} :
    {A : Type ℓ} (t : Bool) {x : Result A} {a : A}
    → (if t then bad else x) ≡ val a
    → (t ≡ false) × (x ≡ val a)
unless = unless_err _

pub either {ℓ} :
    {A : Type ℓ} (t : Bool) {x : A} {r : Result A} {a : A}
    → (if t then val x else r) ≡ val a
    → ((t ≡ true) × (x ≡ a)) ⊎ ((t ≡ false) × (r ≡ val a))
either true e = inl (refl, val_inj e)
either false e = inr (refl, e)

-- What `cursor_at` makes.
pub record At (pkt base ty : ℕ) (c : Cursor) : Type 0 where
  pub same_pkt : c.pkt ≡ pkt
  pub same_base : c.base ≡ base
  pub same_ty : c.ty ≡ ty
  pub aligned : (unit : ℕ) × (align_sz ty ≡ val unit) × (base % unit ≡ 0)
  pub room : ty ≡ branch_type → base + 8 + c.len * 8 ≤ pkt

pub At_self : {pkt base ty : ℕ} {c : Cursor} → At pkt base ty c → At c.pkt c.base c.ty c
At_self {pkt} {base} {ty} {c} a = record {
  same_pkt = refl;
  same_base = refl;
  same_ty = refl;
  aligned = rw (a.same_base, a.same_ty) a.aligned;
  room = λ t. omega (arith, a.room (sym a.same_ty ∙ t), a.same_base, a.same_pkt);
}

get_desc-off :
    (mem : List ℕ) (at_ : ℕ) {d : Desc} → get_desc mem at_ ≡ val d → d.off ≡ (get_word mem at_).0
unfolding get_desc
get_desc-off mem at_ e = let (known, e1) = unless _ e in ap (λ (d : Desc). d.off) (sym (val_inj e1))

module _ (mem : List ℕ) where
  pub cursor_at-At :
      (pkt base ty : ℕ) {c : Cursor} → cursor_at mem pkt base ty ≡ val c → At pkt base ty c
  unfolding cursor_at
  cursor_at-At pkt base ty e =
      let (unit, u, e1) = bind_val (align_sz ty) _ e in
      let (on, e2) = unless (not (base % unit == 0)) e1 in
      let aligned : base % unit ≡ 0 = ground arith in
      elim (either (not (ty == branch_type)) e2) [
        | inl (leaf, same) ↦ subst (At pkt base ty) (same) (record {
          same_pkt = refl;
          same_base = refl;
          same_ty = refl;
          aligned = (unit, u, aligned);
          room = λ t. absurd (ground arith);
        })
        | inr (is_branch, e3) ↦
            let (word, e4) = unless (ltb pkt (base + 8)) e3 in
            let (n, len, e5) = bind_val (get_len mem base) _ e4 in
            let (room, e6) = unless (ltb ((pkt - base - 8) / 8) n) e5 in
            subst (At pkt base ty) (val_inj e6) (record {
              same_pkt = refl;
              same_base = refl;
              same_ty = refl;
              aligned = (unit, u, aligned);
              room = λ t. ground arith;
            })
      ]

  pub next_from-le : (b : Cursor) (n j : ℕ) → b.pkt < 2 ^ 32 → next_from mem b n j ≤ b.pkt
  unfolding next_from
  next_from-le b zero j h = omega arith
  next_from-le b (suc n) j h = ground (arith, next_from-le b n (j + 1))

  -- A child that is there: it starts past its branch's words, where its place says, and ends where the next
  -- child that is there starts.
  pub record Present (b : Cursor) (n i : ℕ) (c : Cursor) : Type 0 where
    pub at : At c.pkt c.base c.ty c
    pub after : b.base + 8 + b.len * 8 ≤ c.base
    pub inside : c.base < c.pkt
    pub starts : next_from mem b (suc n) i ≡ c.base
    pub ends : c.pkt ≡ next_from mem b n (i + 1)

  -- One that is not there, which has a type and no place.
  pub record Absent (b : Cursor) (n i : ℕ) (c : Cursor) : Type 0 where
    pub nowhere : c.base ≡ 0
    pub same_pkt : c.pkt ≡ b.pkt
    pub skipped : next_from mem b (suc n) i ≡ next_from mem b n (i + 1)

  module _ (b : Cursor) (n i : ℕ) (small : b.pkt < 2 ^ 32) (room : b.base + 8 + b.len * 8 ≤ b.pkt)
      (place : b.len ≡ suc n + i) where
    next_from_present :
        (off : ℕ)
        → off ≡ (get_word mem (u32 (b.base + 8 + i * 8))).0
        → off ≢ 0
        → b.base + off < b.pkt
        → next_from mem b (suc n) i ≡ b.base + off
    unfolding next_from
    next_from_present off word there h = rw (← word) (ground arith)

    next_from_absent :
        (off : ℕ)
        → off ≡ (get_word mem (u32 (b.base + 8 + i * 8))).0
        → off ≡ 0
        → next_from mem b (suc n) i ≡ next_from mem b n (i + 1)
    unfolding next_from
    next_from_absent off word none = rw (← word, none) refl

    present_child-Present :
        (d : Desc) {c : Cursor}
        → d.off ≢ 0
        → d.off ≡ (get_word mem (u32 (b.base + 8 + i * 8))).0
        → present_child mem b i d ≡ val c
        → Present b n i c
    unfolding present_child end_of
    present_child-Present d there word e =
        let (near, e1) = unless (not (ltb d.off (b.pkt - b.base))) e in
        let end = next_from mem b (b.len - (i + 1)) (i + 1) in
        let child = u32 (b.base + d.off) in
        let (between, e2) =
          unless (ltb child (u32 (b.base + 8 + b.len * 8)) || not (ltb child end)) e1 in
        let a = cursor_at-At end (u32 (b.base + d.off)) d.ty e2 in
        let count : b.len - (i + 1) ≡ n = omega arith in
        let near_by : b.base + d.off < b.pkt = ground arith in
        let within : (b.base + 8 + b.len * 8 ≤ u32 (b.base + d.off))
            × (u32 (b.base + d.off) < end) =
          ground arith in
        let place : _ ≡ b.base + d.off = a.same_base ∙ (omega arith) in
        record {
          at = At_self a;
          after = omega (arith, a.same_base);
          inside = omega (arith, a.same_base, a.same_pkt);
          starts = next_from_present d.off word there near_by ∙ sym place;
          ends = a.same_pkt ∙ ap (λ k. next_from mem b k (i + 1)) count;
        }

    pub child_at-cases : {c : Cursor} → child_at mem b i ≡ val c → Absent b n i c ⊎ Present b n i c
    unfolding child_at
    child_at-cases e =
        let (in_range, e1) = unless_err _ (not (ltb i b.len)) e in
        let (d, desc, e2) = bind_val (get_desc mem (u32 (b.base + 8 + i * 8))) _ e1 in
        let word = get_desc-off mem (u32 (b.base + 8 + i * 8)) desc in
        elim (either (d.off == 0) e2) [
          | inl (absent, same) ↦
              subst (λ c. Absent b n i c ⊎ Present b n i c) (same)
                (inl (record {
                  nowhere = refl;
                  same_pkt = refl;
                  skipped = next_from_absent d.off word (ground arith);
                }))
          | inr (present, e3) ↦ inr (present_child-Present d (λ z. ground arith) word e3)
        ]
