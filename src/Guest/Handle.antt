-- ===== src/Guest/Handle.antt =====
-- guest/abi/handle.hpp: handles of a slot and a generation, and the table that gives them out. The
-- table's `N` is the length of its slots; `T{}` is the parameter `blank`.
pub mod Pack
pub mod Inv
pub mod Take
pub mod Laws
pub mod Remove
pub mod Rollback
pub mod Stale
pub mod Since
pub mod Empty
mod Tests
use Prim.Native.Nat.{bit_and, bit_or}
use xpute.Common.{
  ℕ, zero, suc, ◌+◌, ◌-◌, ◌*◌, ◌/◌, ◌%◌, ◌^◌, Bool, true, false, not, ◌&&◌, Option, none, some,
  List, [], ◌∷◌, ◌++◌, length, get_or, replicate, set, ltb, ◌==◌, if◌then◌else◌,
}

-- `handle & ((1u << SLOT_BITS) - 1)`, with SLOT_BITS = 16.
unfoldable pub handle_slot : ℕ → ℕ
handle_slot h = bit_and h (2 ^ 16 - 1)

-- `slot | std::uint32_t{generation} << SLOT_BITS`.
unfoldable pub handle_of : ℕ → ℕ → ℕ
handle_of slot generation = bit_or slot (generation * 2 ^ 16 % 2 ^ 32)

pub record Slot (A : Type 0) : Type 0 where
  pub generation : ℕ
  pub made : ℕ
  pub next : ℕ
  pub value : A

pub record Table (A : Type 0) : Type 0 where
  pub slots : List (Slot A)
  pub epoch : ℕ
  pub free : ℕ
  pub top : ℕ
  pub count : ℕ

-- A generation is 16 bits and never 0.
abbrev pub bumped : ℕ → ℕ
bumped g = let n = (g + 1) % 2 ^ 16 in if n == 0 then 1 else n

module _ {A : Type 0} (blank : A) where
  abbrev pub vacant : Slot A
  vacant = record { generation = 0; made = 0; next = 0; value = blank }

  abbrev pub slot_at : Table A → ℕ → Slot A
  slot_at t i = get_or t.slots i vacant

  -- A table of so many slots that nothing was taken of.
  abbrev pub empty_table : ℕ → Table A
  empty_table n = record { slots = replicate n vacant; epoch = 0; free = 0; top = 0; count = 0 }

  -- The slot that `insert` takes, and the free list's head and the highest slot after it.
  abbrev pub taken : Table A → Option (ℕ × ℕ × ℕ)
  taken t =
      if not (t.free == 0)
      then some (t.free, (slot_at t t.free).next, t.top)
      else if ltb (t.top + 1) (length t.slots)
      then some (t.top + 1, t.free, t.top + 1)
      else none

  abbrev pub fill : Table A → A → Option (ℕ × ℕ × ℕ) → Option ℕ × Table A
  fill t v none = (none, t)
  fill t v (some (slot, free, top)) =
      let g = bumped (slot_at t slot).generation in
      let s = record (slot_at t slot) {
        generation = g;
        made = (t.epoch + 1) % 2 ^ 64;
        value = v;
      } in
      (
        some (handle_of slot g),
        record t {
          slots = set t.slots slot s;
          free = free;
          top = top;
          count = (t.count + 1) % 2 ^ 32;
        },
      )

  unfoldable pub insert : A → Table A → Option ℕ × Table A
  insert v t = fill t v (taken t)

  unfoldable pub live : Table A → ℕ → Bool
  live t h =
      not (handle_slot h == 0)
      && ltb (handle_slot h) (length t.slots)
      && not ((slot_at t (handle_slot h)).made == 0)
      && (slot_at t (handle_slot h)).generation == h / 2 ^ 16

  unfoldable pub get : Table A → ℕ → Option A
  unfolding live
  get t h = if live t h then some (slot_at t (handle_slot h)).value else none

  -- The table with the handle's slot given back.
  abbrev pub freed : ℕ → Table A → Table A
  freed h t =
      let i = handle_slot h in
      record t {
        slots = set t.slots i (record (slot_at t i) { made = 0; next = t.free; value = blank });
        free = i;
        count = (t.count + 2 ^ 32 - 1) % 2 ^ 32;
      }

  unfoldable pub remove : ℕ → Table A → Option A × Table A
  unfolding live
  remove h t = if live t h then (some (slot_at t (handle_slot h)).value, freed h t) else (none, t)

  -- `gone(handle, *val)` where a value came back.
  abbrev pub collect : ℕ → List (ℕ × A) → Option A × Table A → Table A × List (ℕ × A)
  collect h gone (none, t) = (t, gone)
  collect h gone (some v, t) = (t, gone ++ ((h, v) ∷ []))

  -- One round of the loop: only what was made since `begin` is removed.
  unfoldable pub rollback_step : ℕ → Table A → List (ℕ × A) → Table A × List (ℕ × A)
  unfolding remove
  rollback_step slot t gone =
      let h = handle_of slot (slot_at t slot).generation in
      if (slot_at t slot).made == (t.epoch + 1) % 2 ^ 64
      then collect h gone (remove h t)
      else (t, gone)

  -- The slots from `slot` on, `n` of them; what is removed is handed to `gone`, in order.
  unfoldable pub rollback_from : ℕ → ℕ → Table A → List (ℕ × A) → Table A × List (ℕ × A)
  unfolding rollback_step
  rollback_from zero slot t gone = (t, gone)
  rollback_from (suc n) slot t gone =
      let (t', gone') = rollback_step slot t gone in rollback_from n (slot + 1) t' gone'

  unfoldable pub rollback : Table A → Table A × List (ℕ × A)
  unfolding rollback_from
  rollback t = rollback_from t.top 1 t []

  -- What `each` calls its argument with, in order.
  pub each_from : ℕ → ℕ → Table A → List (ℕ × A)
  unfolding live
  each_from zero slot t = []
  each_from (suc n) slot t =
      let h = handle_of slot (slot_at t slot).generation in
      let rest = each_from n (slot + 1) t in
      if live t h then (h, (slot_at t slot).value) ∷ rest else rest

  pub each : Table A → List (ℕ × A)
  unfolding each_from
  each t = each_from t.top 1 t

unfoldable pub begin : {A : Type 0} → Table A → Table A
begin t = record t { epoch = (t.epoch + 1) % 2 ^ 64 }
