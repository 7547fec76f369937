-- ===== src/Guest/Tick.antt =====
-- guest/sched/tick.hpp: the registry of a tick's steps, and a phase over it. What a step does to the program is a
-- function of the context, which holds the program's state. Times are not followed.
pub mod Gone
pub mod Phases
pub mod Registry
mod Tests
use xpute.Common.{
  ℕ, zero, suc, ◌+◌, ◌-◌, ◌*◌, ◌%◌, ◌^◌, Bool, true, false, not, ◌&&◌, ◌||◌, Option, none, some,
  List, [], ◌∷◌, ◌++◌, length, get_elem?, ltb, leb, ◌==◌, if◌then◌else◌,
}
use xpute.Status.{Errno, Run, done, bug, ensure, ◌>>=◌, ◌>>◌}

abbrev pub phases_max : ℕ
phases_max = 8

abbrev pub offs_max : ℕ
offs_max = 8

pub record TickContext (S : Type 0) : Type 0 where
  pub state : S
  pub invalidated : Bool
  pub offs : List ℕ

pub record Registered (S : Type 0) : Type 0 where
  pub id : ℕ
  pub phase : ℕ
  pub step : TickContext S → Run (TickContext S)
  pub name : ℕ

-- `cap` is the template's `N`, `phases` how many the policy names.
pub record Tick (S : Type 0) : Type 0 where
  pub cap : ℕ
  pub phases : ℕ
  pub registry : List (Registered S)
  pub next_id : ℕ

abbrev pub next_place : Option ℕ → Option ℕ
next_place none = none
next_place (some k) = some (suc k)

-- The index after a removal: one down where an entry before it went.
abbrev pub shifted : Option ℕ → ℕ → ℕ
shifted none i = i
shifted (some at_) i = if ltb at_ i then i - 1 else i

-- The rounds of a phase, from an index on.
abbrev pub Rounds : Type 0 → Type 0
Rounds S = ℕ → List (Registered S) → TickContext S → Run (List (Registered S) × TickContext S)

module _ {S : Type 0} where
  unfoldable pub invalidate : TickContext S → TickContext S
  invalidate c = record c { invalidated = true }

  -- `TickContext::off_tick`
  unfoldable pub ask_off : ℕ → TickContext S → Run (TickContext S)
  ask_off id c =
      ensure (ltb (length c.offs) offs_max) Errno.enospc
      >> done (record c { offs = c.offs ++ (id ∷ []) })

  -- A tick of room for `cap` steps, under a policy of so many phases.
  unfoldable pub make_tick : ℕ → ℕ → Run (Tick S)
  make_tick cap phases =
      ensure (leb phases phases_max) Errno.einval
      >> done (record { cap = cap; phases = phases; registry = []; next_id = 1 })

  unfoldable pub on_tick : ℕ → (TickContext S → Run (TickContext S)) → ℕ → Tick S → Run (ℕ × Tick S)
  on_tick phase step name t =
      ensure (ltb (length t.registry) t.cap) Errno.enospc
      >> ensure (ltb phase t.phases) Errno.einval
      >> done (
        t.next_id,
        record t {
          registry =
              t.registry
              ++ (record { id = t.next_id; phase = phase; step = step; name = name } ∷ []);
          next_id = (t.next_id + 1) % 2 ^ 32;
        },
      )

  -- Where the step was, and the rest in order.
  unfoldable pub remove : ℕ → List (Registered S) → Option ℕ × List (Registered S)
  remove id [] = (none, [])
  remove id (r ∷ rs) =
      let rest = remove id rs in
      if r.id == id then (some 0, rs) else (next_place rest.0, r ∷ rest.1)

  unfoldable pub off_tick : ℕ → Tick S → Tick S
  unfolding remove
  off_tick id t = record t { registry = (remove id t.registry).1 }

  -- The steps asked off, taken out one by one.
  unfoldable pub remove_all : List ℕ → List (Registered S) → ℕ → List (Registered S) × ℕ
  unfolding remove
  remove_all [] rs i = (rs, i)
  remove_all (id ∷ ids) rs i = let (at_, rest) = remove id rs in remove_all ids rest (shifted at_ i)

  -- An entry, as it is of the phase or not; `go` has the rounds after it.
  unfoldable pub run_entry : Rounds S → Registered S → Bool → Rounds S
  unfolding remove_all
  run_entry go r false i rs c = go (i + 1) rs c
  run_entry go r true i rs c = r.step c >>= λ c'.
      let p = remove_all c'.offs rs (i + 1) in go p.1 p.0 (record c' { offs = [] })

  unfoldable pub run_at : ℕ → Rounds S → Option (Registered S) → Rounds S
  unfolding run_entry
  run_at phase go none i rs c = done (rs, c)
  run_at phase go (some r) i rs c = run_entry go r (r.phase == phase) i rs c

  -- The loop of `run_phase`, with a round for each entry that is left.
  unfoldable pub run_from : ℕ → ℕ → Rounds S
  unfolding run_at
  run_from phase zero i rs c = done (rs, c)
  run_from phase (suc n) i rs c = run_at phase (run_from phase n) (get_elem? rs i) i rs c

  unfoldable pub run_phase : ℕ → Tick S → TickContext S → Run (Tick S × TickContext S)
  unfolding run_from
  run_phase phase t c = run_from phase (length t.registry) 0 t.registry c >>= λ p.
      done (record t { registry = p.0 }, p.1)
