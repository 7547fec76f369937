-- ===== src/Wire/Xtp/Cursor/Order.antt =====
-- A deep read goes through a packet once: extents of children do not overlap, so a tree has no more nodes than
-- its bytes have words, and is no deeper.
use xpute.Common.{
  ℕ, zero, suc, ◌+◌, ◌-◌, ◌*◌, ◌^◌, ◌≤◌, ◌<◌, ◌≡◌, ◌≢◌, inl, inr, refl, sym, ap, ◌∙◌, true, false,
  not, none, some, List, ◌==◌, if◌then◌else◌, arith, Bool-cases, some_inj, ne→==,
}
use xpute.Status.{val, err}
use xpute.Wire.Xtp.Cursor.{Cursor, branch_type, is_null, is_branch, as_branch, next_from, child_at}
use xpute.Wire.Xtp.Cursor.Read.{get}
use xpute.Wire.Xtp.Cursor.Deep.{
  DeepValue, DeepValues, leaf, list, nil, cons, Deep, ◌>>=◌, deep_from, read_node, get_deep, nodes,
  nodes_of,
}
use xpute.Wire.Xtp.Cursor.Within.{val_inj, IsNode, Absent, Present, child_at-cases, next_from-le}

-- The bytes that a cursor's node may take.
abbrev pub extent : Cursor → ℕ
extent c = if c.base == 0 then 0 else c.pkt - c.base

val_some_inj {ℓ} : {A : Type ℓ} {a b : A} → some (val a) ≡ some (val b) → a ≡ b
val_some_inj e = val_inj (some_inj e)

bind_val {ℓ κ} :
    {A : Type ℓ} {B : Type κ} (m : Deep A) (f : A → Deep B) {b : B}
    → (m >>= f) ≡ some (val b)
    → (a : A) × (m ≡ some (val a)) × (f a ≡ some (val b))
bind_val none f e = absurd (cc)
bind_val (some (err x)) f e = absurd (cc)
bind_val (some (val a)) f e = (a, refl, e)

pub is_branch-facts : (c : Cursor) → is_branch c ≡ true → (c.base ≢ 0) × (c.ty ≡ branch_type)
unfolding is_branch is_null
is_branch-facts c e = (λ z. ground arith, ground arith)

pub as_branch_self : (c : Cursor) → is_branch c ≡ true → as_branch c ≡ val c
unfolding as_branch is_null is_branch
as_branch_self c e = ground arith

module _ (mem : List ℕ) (size : ℕ) where
  pub Absent-IsNode :
      (b : Cursor) (n i : ℕ) (c : Cursor) → IsNode size b → Absent mem b n i c → IsNode size c
  Absent-IsNode b n i c v a = record {
    small = v.small;
    fits = omega (arith, v.fits, a.same_pkt);
    inside = λ h. absurd (h a.nowhere);
    aligned = λ h. absurd (h a.nowhere);
    room = λ h. absurd (h a.nowhere);
  }

  pub Present-IsNode :
      (b : Cursor) (n i : ℕ) (c : Cursor) → IsNode size b → Present mem b n i c → IsNode size c
  Present-IsNode b n i c v p = record {
    small = v.small;
    fits = omega (arith, v.fits, v.small, p.ends, next_from-le mem b n (i + 1));
    inside = λ h. p.inside;
    aligned = λ h. p.at.aligned;
    room = λ h t. p.at.room t;
  }

  module _ (g : Cursor → Deep DeepValue)
      (below : (c : Cursor) (d : DeepValue)
        → IsNode size c
        → g c ≡ some (val d)
        → 8 * nodes d ≤ 8 + extent c)
      (b : Cursor) (v : IsNode size b) (room : b.base + 8 + b.len * 8 ≤ b.pkt) where
    deep_from_bound :
        (n i : ℕ) (ds : DeepValues)
        → n + i ≡ b.len
        → deep_from mem g b n i ≡ some (val ds)
        → (8 * nodes_of ds + next_from mem b n i ≤ 8 * n + b.pkt)
          × (b.base + 8 + b.len * 8 ≤ next_from mem b n i)
    unfolding deep_from next_from
    deep_from_bound zero i ds h e =
        let none_left : ds ≡ nil = val_some_inj (sym e) in
        let small = v.small in
        let fits = v.fits in omega (arith, room, ap (λ l. nodes_of l) none_left)
    deep_from_bound (suc n) i ds h e =
        let (c, e1, r1) = bind_val (some (child_at mem b i)) _ e in
        let (d, e2, r2) = bind_val (g c) _ r1 in
        let (more, e3, r3) = bind_val (deep_from mem g b n (i + 1)) _ r2 in
        let both : ds ≡ cons d more = val_some_inj (sym r3) in
        let count = ap (λ l. nodes_of l) both in
        let rest = deep_from_bound n (i + 1) more (omega arith) e3 in
        let small : b.pkt < 2 ^ 32 = omega (arith, v.small, v.fits) in
        let end = next_from-le mem b n (i + 1) small in
        elim (child_at-cases mem b n i small room (omega arith) (some_inj e1)) [
          | inl a ↦
              let one = below c d (Absent-IsNode b n i c v a) e2 in
              let none : extent c ≡ 0 = rw a.nowhere refl in
              omega (arith, rest, count, one, none, a.skipped)
          | inr p ↦
              let one = below c d (Present-IsNode b n i c v p) e2 in
              let some : extent c ≡ c.pkt - c.base =
                rw (ne→== c.base 0 (omega (arith, p.after))) refl in
              omega (arith, rest, count, one, some, p.starts, p.ends, p.inside, p.after, end)
        ]

  pub get_deep-branch :
      (f : ℕ) (c : Cursor)
      → is_branch c ≡ true
      → get_deep mem (suc f) c
        ≡ (deep_from mem (get_deep mem f) c c.len 0 >>= λ ds. some (val (list ds)))
  unfolding get_deep read_node
  get_deep-branch f c is =
      ap (read_node mem (get_deep mem f) c) is
      ∙ ap
          (λ r.
            some r >>= λ b. deep_from mem (get_deep mem f) b b.len 0 >>= λ ds. some (val (list ds)))
          (as_branch_self c is)

  pub get_deep-leaf :
      (f : ℕ) (c : Cursor)
      → is_branch c ≡ false
      → get_deep mem (suc f) c ≡ (some (get mem c) >>= λ v. some (val (leaf v)))
  unfolding get_deep read_node
  get_deep-leaf f c is = ap (read_node mem (get_deep mem f) c) is

  pub get_deep_bounded :
      (f : ℕ) (c : Cursor) (d : DeepValue)
      → IsNode size c
      → get_deep mem f c ≡ some (val d)
      → 8 * nodes d ≤ 8 + extent c
  unfolding get_deep
  get_deep_bounded zero c d v e = absurd (cc)
  get_deep_bounded (suc f) c d v e = elim (Bool-cases (is_branch c)) [
    | inl is ↦
        let (there, ty) = is_branch-facts c is in
        let room = v.room there ty in
        let children = deep_from mem (get_deep mem f) c c.len 0 in
        let (ds, e1, r1) = bind_val children _ (sym (get_deep-branch f c is) ∙ e) in
        let count = ap (λ t. nodes t) (val_some_inj r1) in
        let all =
          deep_from_bound (get_deep mem f) (get_deep_bounded f) c v room c.len 0 ds (omega arith)
            e1 in
        let whole : extent c ≡ c.pkt - c.base = rw (ne→== c.base 0 there) refl in
        omega (arith, all, count, whole, room)
    | inr not ↦
        let (x, e1, r1) = bind_val (some (get mem c)) _ (sym (get_deep-leaf f c not) ∙ e) in
        omega (arith, ap (λ t. nodes t) (val_some_inj r1))
  ]
