-- ===== src/Collection/Inline.antt =====
-- kit/collection/list.hpp: a list of at most `N` held inline, `List` there. A slot is what was built in
-- it, none where it is uninitialized or ended; `cap` is `N`.
pub mod Mid
pub mod Refine
mod Tests
use xpute.Common.{
  ℕ, zero, suc, ◌+◌, ◌-◌, Bool, true, false, not, Option, none, some, ltb, ◌==◌, if◌then◌else◌,
}
use xpute.Status.{Errno, Run, done, ◌>>=◌, ◌>>◌, ensure}

pub record Inline (A : Type 0) : Type 0 where
  pub cap : ℕ
  pub slots : ℕ → Option A
  pub len : ℕ

module _ {A : Type 0} where
  abbrev pub is_empty : Inline A → Bool
  is_empty l = l.len == 0

  -- `std::construct_at` of a value, and `std::destroy_at` for none.
  abbrev pub put_slot : ℕ → Option A → Inline A → Inline A
  put_slot i v l = record l { slots = λ j. if j == i then v else l.slots j }

  pub push : A → Inline A → Run (Inline A)
  push v l = do
    ensure (ltb l.len l.cap) Errno.enospc
    done (record (put_slot l.len (some v) l) { len = l.len + 1 })

  abbrev pub move_down : ℕ → ℕ → Inline A → Inline A
  move_down from to l = put_slot from none (put_slot to (l.slots from) l)

  -- The loop of `remove`, `n` rounds from `i` on.
  unfoldable pub shift : ℕ → ℕ → Inline A → Inline A
  shift zero i l = l
  shift (suc n) i l = shift n (i + 1) (move_down (i + 1) i l)

  -- The value taken out is none where its slot had none.
  unfoldable pub remove : ℕ → Inline A → Run (Option A × Inline A)
  unfolding shift
  remove at l = do
    ensure (ltb at l.len) Errno.einval
    let l' = shift (l.len - 1 - at) at (put_slot at none l)
    done (l.slots at, record l' { len = l.len - 1 })

  abbrev pub keeps : (A → Bool) → Option A → Bool
  keeps keep none = false
  keeps keep (some v) = keep v

  -- One pass, `n` slots from `at` on, of which `kept` were kept before.
  unfoldable pub retain_from : (A → Bool) → ℕ → ℕ → ℕ → Inline A → Inline A
  retain_from keep zero at kept l = record l { len = kept }
  retain_from keep (suc n) at kept l =
      let refused = retain_from keep n (at + 1) kept (put_slot at none l) in
      let moved =
        retain_from keep n (at + 1) (kept + 1) (if kept == at then l else move_down at kept l) in
      if keeps keep (l.slots at) then moved else refused

  unfoldable pub retain : (A → Bool) → Inline A → Inline A
  unfolding retain_from
  retain keep l = retain_from keep l.len 0 0 l

  pub clear : Inline A → Inline A
  clear l = record l { slots = λ j. if ltb j l.len then none else l.slots j; len = 0 }

  -- What `take` leaves of the list moved over, and of the other.
  pub take : Inline A → Inline A → Inline A × Inline A
  unfolding clear
  take l o =
      (record l { slots = λ j. if ltb j o.len then o.slots j else l.slots j; len = o.len }, clear o)
