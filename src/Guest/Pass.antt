-- ===== src/Guest/Pass.antt =====
-- guest/sched/pass.hpp: a turn's budget spent on a list of items. Times are whole numbers, of milliseconds or a finer unit, the clock a
-- reading of the program's state, which may move it; a step answers whether it did work.
pub mod Items
pub mod Visited
mod Tests
use xpute.Common.{
  ℕ, zero, suc, ◌+◌, ◌-◌, ◌^◌, ◌%◌, Bool, true, false, ◌&&◌, ◌||◌, Option, none, some, List, [],
  ◌∷◌, ltb, leb, if◌then◌else◌,
}
use xpute.Common.Int.{ℤ, pos, negsuc}

pub record PassStat : Type 0 where
  pub ran : ℕ
  pub visited : ℕ
  pub elapsed_ms : ℤ
  pub stopped_early : Bool

pub record Pass : Type 0 where
  pub t0 : ℕ
  pub total_ms : ℕ
  pub reserve_ms : ℕ
  pub hard_slack_ms : ℕ

-- The time from one reading to another, which may be before it.
abbrev pub since : ℕ → ℕ → ℤ
since start end = if leb start end then pos (end - start) else negsuc (start - end - 1)

abbrev pub cap_of : Option ℕ → ℕ
cap_of none = 2 ^ 32 - 1
cap_of (some n) = n

-- What a run goes by: the cap on work, the deadline and the hard one.
pub record Limits : Type 0 where
  pub cap : ℕ
  pub deadline : ℕ
  pub hard_deadline : ℕ

-- Counted from the start and what remains then.
abbrev pub limits_of : Pass → Option ℕ → ℕ → ℕ → Limits
limits_of p most start left = record {
  cap = cap_of most;
  deadline = start + left;
  hard_deadline = start + left + p.hard_slack_ms;
}

unfoldable pub is_over : Limits → PassStat → ℕ → Bool
is_over l stat at_ =
    (ltb 0 stat.visited && leb l.hard_deadline at_)
    || (ltb 0 stat.ran && (leb l.cap stat.ran || leb l.deadline at_))

module _ {S I : Type 0} (now : S → ℕ × S) (step : I → S → Bool × S) where
  unfoldable pub remaining : Pass → S → ℕ × S
  remaining p s = let (t, s') = now s in (p.t0 + p.total_ms - p.reserve_ms - t, s')

  -- The loop: an item is tried, and counted to the work where it did some. The counts are 32 bits wide.
  unfoldable pub run_items : Limits → List I → PassStat → S → PassStat × S
  unfolding is_over
  run_items l [] stat s = (stat, s)
  run_items l (i ∷ is) stat s =
      let at_ = (now s).0 in
      let tried = step i (now s).1 in
      let stat' : PassStat = record stat {
        visited = (stat.visited + 1) % 2 ^ 32;
        ran = if tried.0 then (stat.ran + 1) % 2 ^ 32 else stat.ran;
      } in
      let rest = run_items l is stat' tried.1 in
      if is_over l stat at_ then (record stat { stopped_early = true }, (now s).1) else rest

  unfoldable pub run : Pass → List I → Option ℕ → S → PassStat × S
  unfolding remaining run_items
  run p items max_steps s =
      let (start, s1) = now s in
      let (left, s2) = remaining p s1 in
      let (stat, s3) =
        run_items (limits_of p max_steps start left) items
          (record { ran = 0; visited = 0; elapsed_ms = pos 0; stopped_early = false }) s2 in
      let (end, s4) = now s3 in (record stat { elapsed_ms = since start end }, s4)
