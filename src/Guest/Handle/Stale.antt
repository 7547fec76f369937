-- ===== src/Guest/Handle/Stale.antt =====
-- A handle kept past its release names nothing, also once its slot has been taken again.
use xpute.Common.{ℕ, ◌≡◌, ◌≢◌, none, some, List, arith, inl, inr}
use xpute.Guest.Handle.{Table, get, insert, remove}
use xpute.Guest.Handle.Inv.{IsValid}
use xpute.Guest.Handle.Laws.{insert_correct, insert_stale}
use xpute.Guest.Handle.Remove.{remove_correct}

module _ {A : Type 0} (blank : A) where
  -- From a valid table, where `remove` took `h` out and then `insert` answered `k` for `x`: `h` still
  -- names nothing, `k` names `x`, and `k` is another handle.
  pub insert-remove :
      (h k : ℕ) (x y : A) {t u w : Table A} (frees : List ℕ)
      → IsValid blank t frees
      → remove blank h t ≡ (some y, u)
      → insert blank x u ≡ (some k, w)
      → (get blank w h ≡ none) × (get blank w k ≡ some x) × (k ≢ h)
  unfolding get
  insert-remove h k x y {t} {u} {w} frees v p q = elim (remove_correct blank h frees v) [
    | inl (dead, same) ↦ absurd (ground arith)
    | inr (y', u', named, out, r) ↦
        let same : u' ≡ u = ground arith in
        let (rest, valid) = r.valid in
        elim (insert_correct blank x rest valid) [
          | inl (refused, full) ↦ absurd (ground arith)
          | inr (k', w', answered, i, room) ↦
              let stale = insert_stale blank x rest h valid r.spent r.dead in
              ground (arith, i.names k', i.fresh, r.dead, stale)
        ]
  ]
