-- ===== src/Wire/Xtp/Alone/Trees.antt =====
-- A whole tree is read of the packet alone.
use xpute.Common.{
  ℕ, zero, suc, ◌+◌, ◌*◌, ◌^◌, ◌≤◌, ◌<◌, ◌≡◌, inl, inr, refl, ap, sym, ◌∙◌, none, some, List, ◌++◌,
  length, arith, Bool-cases,
}
use xpute.Status.{Result, val, err}
use xpute.Wire.Xtp.Cursor.{Cursor, is_branch, read_tree}
use xpute.Wire.Xtp.Cursor.Deep.{DeepValue, leaf, list, cons, Deep, ◌>>=◌, deep_from, get_deep}
use xpute.Wire.Xtp.Cursor.Within.{IsNode, child_at-cases}
use xpute.Wire.Xtp.Cursor.Order.{
  Absent-IsNode, Present-IsNode, is_branch-facts, get_deep-branch, get_deep-leaf,
}
use xpute.Wire.Xtp.Cursor.Total.{read_tree-root}
use xpute.Wire.Xtp.Alone.Nodes.{child_at_alone, read_tree_alone}
use xpute.Wire.Xtp.Alone.Values.{get_alone}

-- Two chains are one where their first steps are and what follows is, wherever these come to.
chain_alike {ℓ κ} :
    {A : Type ℓ} {B : Type κ} {m k : Deep A} {f g : A → Deep B}
    → m ≡ k
    → ((a : A) → k ≡ some (val a) → f a ≡ g a)
    → (m >>= f) ≡ (k >>= g)
chain_alike {k = k} {f} {g} e h = ap (λ m. m >>= f) e ∙ alike k h
  where
    alike : (k : Deep _) → ((a : _) → k ≡ some (val a) → f a ≡ g a) → (k >>= f) ≡ (k >>= g)
    alike none h = refl
    alike (some (err e)) h = refl
    alike (some (val a)) h = h a refl

module _ (mem more : List ℕ) where
  module _ (f g : Cursor → Deep DeepValue)
      (alike : (c : Cursor) → IsNode (length mem) c → f c ≡ g c) (b : Cursor)
      (v : IsNode (length mem) b) (room : b.base + 8 + b.len * 8 ≤ b.pkt) where
    deep_from_alone :
        (n i : ℕ) → n + i ≡ b.len → deep_from (mem ++ more) f b n i ≡ deep_from mem g b n i
    unfolding deep_from
    deep_from_alone zero i h = refl
    deep_from_alone (suc n) i h =
        let small : b.pkt < 2 ^ 32 = omega (arith, v.small, v.fits) in
        chain_alike (ap some (child_at_alone mem more b small v.fits room i)) λ c e.
          let node : IsNode (length mem) c =
            elim (child_at-cases mem b n i small room (omega arith) (val_of e)) [
              | inl a ↦ Absent-IsNode mem (length mem) b n i c v a
              | inr p ↦ Present-IsNode mem (length mem) b n i c v p
            ] in
          chain_alike (alike c node) λ d e1.
            ap (λ (r : Deep _). r >>= λ ds. some (val (cons d ds)))
              (deep_from_alone n (i + 1) (omega arith))
      where
        val_of : {r : Result Cursor} {c : Cursor} → some r ≡ some (val c) → r ≡ val c
        val_of e = cc

  get_deep_alone :
      (f : ℕ) (c : Cursor) → IsNode (length mem) c → get_deep (mem ++ more) f c ≡ get_deep mem f c
  unfolding get_deep
  get_deep_alone zero c v = refl
  get_deep_alone (suc f) c v = elim (Bool-cases (is_branch c)) [
    | inl is ↦
        let (there, ty) = is_branch-facts c is in
        get_deep-branch (mem ++ more) (length mem) f c is
        ∙ ap (λ (r : Deep _). r >>= λ ds. some (val (list ds)))
            (deep_from_alone (get_deep (mem ++ more) f) (get_deep mem f) (get_deep_alone f) c v
              (v.room there ty) c.len 0 (omega arith))
        ∙ sym (get_deep-branch mem (length mem) f c is)
    | inr not ↦
        get_deep-leaf (mem ++ more) (length mem) f c not
        ∙ ap (λ r. some r >>= λ x. some (val (leaf x))) (get_alone mem more c v.fits)
        ∙ sym (get_deep-leaf mem (length mem) f c not)
  ]

-- Opening a packet and reading its tree, as many levels down as may be, come to the same whatever stands in memory
-- behind the packet's bytes.
pub packet_alone :
    (mem more : List ℕ)
    → length mem < 2 ^ 32
    → (read_tree (mem ++ more) (length mem) ≡ read_tree mem (length mem))
      × ((c : Cursor) (f : ℕ)
          → read_tree mem (length mem) ≡ val c
          → get_deep (mem ++ more) f c ≡ get_deep mem f c)
packet_alone mem more small = (
  read_tree_alone mem more small,
  λ c f e. get_deep_alone mem more f c (read_tree-root mem (length mem) small e).0,
)
