-- ===== src/Wire/Xtp/Cursor/Total.antt =====
-- A deep read of whatever bytes ends, and with no more nodes than the bytes have words.
use xpute.Common.{
  ℕ, zero, suc, ◌+◌, ◌-◌, ◌*◌, ◌^◌, ◌≤◌, ◌<◌, ◌≡◌, ◌≢◌, inl, inr, refl, sym, ap, subst, ◌∙◌, not,
  none, some, List, length, ◌==◌, ltb, arith, Bool-cases, some_inj, ne→==, ltb→ge, Option-cases,
}
use native.Mathlib.Nat.{le_refl}
use xpute.Status.{Result, val, err}
use xpute.Wire.Xtp.{Desc, get_len, get_desc, word_sz}
use xpute.Wire.Xtp.Cursor.{
  Cursor, is_branch, child_at, u32, hdr_sz, cursor_at, root_at, read_tree, magic_ok,
}
use xpute.Wire.Xtp.Cursor.Read.{get}
use xpute.Wire.Xtp.Cursor.Deep.{DeepValue, cons, Deep, ◌>>=◌, deep_from, get_deep, nodes}
use xpute.Wire.Xtp.Cursor.Within.{
  IsNode, bind_val, child_at-cases, next_from-le, cursor_at-At, unless, either,
}
use xpute.Wire.Xtp.Cursor.Order.{
  extent, Absent-IsNode, Present-IsNode, is_branch-facts, get_deep-branch, get_deep-leaf,
  get_deep_bounded,
}

bind-ne-none {ℓ κ} :
    {A : Type ℓ} {B : Type κ} (m : Deep A) (f : A → Deep B)
    → m ≢ none
    → ((a : A) → m ≡ some (val a) → f a ≢ none)
    → (m >>= f) ≢ none
bind-ne-none none f h k = absurd (h refl)
bind-ne-none (some (err x)) f h k = λ e. cc
bind-ne-none (some (val a)) f h k = k a refl

module _ (mem : List ℕ) (size : ℕ) where
  module _ (g : Cursor → Deep DeepValue) (b : Cursor)
      (below : (c : Cursor) → IsNode size c → extent c + 8 ≤ b.pkt - b.base → g c ≢ none)
      (v : IsNode size b) (room : b.base + 8 + b.len * 8 ≤ b.pkt) where
    deep_from-ne-none : (n i : ℕ) → n + i ≡ b.len → deep_from mem g b n i ≢ none
    unfolding deep_from
    deep_from-ne-none zero i h = λ e. cc
    deep_from-ne-none (suc n) i h =
        bind-ne-none (some (child_at mem b i)) _ (λ e. cc)
          λ c e1.
            let small : b.pkt < 2 ^ 32 = omega (arith, v.small, v.fits) in
            let end = next_from-le mem b n (i + 1) small in
            let ends = deep_from-ne-none n (i + 1) (omega arith) in
            let go_on : g c ≢ none
                → (g c >>= λ d. deep_from mem g b n (i + 1) >>= λ ds. some (val (cons d ds)))
                  ≢ none =
              λ ok.
                bind-ne-none (g c) _ ok
                  λ d e2. bind-ne-none (deep_from mem g b n (i + 1)) _ ends λ ds e3 e. cc in
            elim (child_at-cases mem b n i small room (omega arith) (some_inj e1)) [
              | inl a ↦
                  let none : extent c ≡ 0 = rw a.nowhere refl in
                  go_on (below c (Absent-IsNode mem size b n i c v a) (omega arith))
              | inr p ↦
                  let some : extent c ≡ c.pkt - c.base =
                    rw (ne→== c.base 0 (omega (arith, p.after))) refl in
                  go_on (
                    below c (Present-IsNode mem size b n i c v p)
                      (omega (arith, some, p.ends, p.inside, p.after, end)))
            ]

  pub get_deep-ne-none :
      (f : ℕ) (c : Cursor) → IsNode size c → extent c < f → get_deep mem f c ≢ none
  get_deep-ne-none zero c v h = absurd (omega arith)
  get_deep-ne-none (suc f) c v h = elim (Bool-cases (is_branch c)) [
    | inl is ↦
        let (there, ty) = is_branch-facts c is in
        let room = v.room there ty in
        let whole : extent c ≡ c.pkt - c.base = rw (ne→== c.base 0 there) refl in
        let children =
          deep_from-ne-none (get_deep mem f) c (λ k w l. get_deep-ne-none f k w (omega arith)) v
            room c.len 0 (omega arith) in
        rw (get_deep-branch mem size f c is)
          (bind-ne-none (deep_from mem (get_deep mem f) c c.len 0) _ children λ ds e1 e. cc)
    | inr not ↦
        rw (get_deep-leaf mem size f c not)
          (bind-ne-none (some (get mem c)) _ (λ e. cc) λ x e1 e. cc)
  ]

  cursor_at-IsNode :
      (pkt base ty : ℕ) {c : Cursor}
      → size < 2 ^ 32
      → pkt ≤ size
      → base < pkt
      → cursor_at mem pkt base ty ≡ val c
      → IsNode size c
  cursor_at-IsNode pkt base ty small fits inside e =
      let a = cursor_at-At mem pkt base ty e in
      record {
        small = small;
        fits = omega (arith, a.same_pkt);
        inside = λ h. omega (arith, a.same_pkt, a.same_base);
        aligned = λ h. rw (a.same_base, a.same_ty) a.aligned;
        room = λ h t. omega (arith, a.room (sym a.same_ty ∙ t), a.same_pkt, a.same_base);
      }

  root_at-root :
      (d : Desc) {c : Cursor}
      → size < 2 ^ 32
      → hdr_sz ≤ size
      → root_at mem size d ≡ val c
      → IsNode size c × (extent c + hdr_sz ≤ size)
  unfolding root_at
  root_at-root d {c} small long e =
      let (fits, e1) = unless (ltb (size - hdr_sz) d.off) e in
      elim (either (d.off == 0) e1) [
        | inl (absent, same) ↦
            subst (λ c. IsNode size c × (extent c + hdr_sz ≤ size)) (same)
              (
                record {
                  small = small;
                  fits = le_refl size;
                  inside = λ h. absurd (h refl);
                  aligned = λ h. absurd (h refl);
                  room = λ h. absurd (h refl);
                },
                long,
              )
        | inr (there, e2) ↦
            let end : u32 (hdr_sz + d.off) ≡ hdr_sz + d.off = ground arith in
            let pkt = u32 (hdr_sz + d.off) in
            let v = cursor_at-IsNode pkt hdr_sz d.ty small (ground arith) (ground arith) e2 in
            let a = cursor_at-At mem pkt hdr_sz d.ty e2 in
            let whole : extent c ≡ c.pkt - c.base = rw a.same_base refl in
            (v, omega (arith, whole, v.fits, a.same_base))
      ]

  -- The root lies past the header.
  pub read_tree-root :
      {c : Cursor}
      → size < 2 ^ 32
      → read_tree mem size ≡ val c
      → IsNode size c × (extent c + hdr_sz ≤ size)
  unfolding read_tree
  read_tree-root small e =
      let (long, e1) = unless (ltb size hdr_sz) e in
      let (known, e2) = unless (not (magic_ok (get_len mem 0))) e1 in
      let (d, desc, e3) = bind_val (get_desc mem word_sz) (root_at mem size) e2 in
      root_at-root d small (ltb→ge size hdr_sz long) e3

-- Whatever the bytes of a packet shorter than 2^32 bytes that opens: with as many levels as it has bytes a deep read of its root comes to
-- a tree or to an error, and a tree has no more nodes than the packet has words past its first.
pub read_tree-get_deep :
    (mem : List ℕ) (c : Cursor)
    → length mem < 2 ^ 32
    → read_tree mem (length mem) ≡ val c
    → (r : Result DeepValue) × (get_deep mem (length mem) c ≡ some r)
      × ((d : DeepValue) → r ≡ val d → 8 * nodes d + 8 ≤ length mem)
read_tree-get_deep mem c small e =
    let (v, inside) = read_tree-root mem (length mem) small e in
    let ends = get_deep-ne-none mem (length mem) (length mem) c v (omega (arith, inside)) in
    elim (Option-cases (get_deep mem (length mem) c)) [
      | inl out ↦ absurd (ends out)
      | inr (r, is) ↦ (
        r,
        is,
        λ d s.
            omega (
              arith,
              inside,
              get_deep_bounded mem (length mem) (length mem) c d v (is ∙ ap some s),
            ),
      )
    ]
