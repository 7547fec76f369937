-- ===== src/Guest/Edge.antt =====
-- guest/sched/edge.hpp: a guest's side of the turn. A waker is handed to the executor, which the program's state holds
-- with the clock; times are whole numbers, and an asked time that is infinite is none.
pub mod Least
pub mod Asked
pub mod Turn
mod Tests
use xpute.Common.{
  ℕ, zero, suc, ◌+◌, ◌-◌, Bool, true, false, ◌||◌, Option, none, some, List, [], ◌∷◌, ltb, leb,
  ◌==◌, if◌then◌else◌, min, max,
}
use xpute.Status.{Errno, Run, done, ◌>>=◌, ◌>>◌, ensure}

pub record Edge (W : Type 0) : Type 0 where
  pub cap : ℕ
  pub edge_at : ℕ
  pub quota_ms : ℕ
  pub until : ℕ
  pub parked : ℕ → W
  pub parked_len : ℕ
  pub asked : Bool
  pub next_wake : Option ℕ

-- The least of the times, an infinite one the greatest.
abbrev pub sooner : Option ℕ → ℕ → ℕ
sooner none t = t
sooner (some m) t = min m t

module _ {W : Type 0} where
  abbrev pub extend_to : ℕ → Edge W → Edge W
  extend_to t e = record e { until = max e.until t }

  abbrev pub ask_next : Edge W → Edge W
  ask_next e = record e { asked = true }

  abbrev pub wake_at : ℕ → Edge W → Edge W
  wake_at t e = record e { next_wake = some (sooner e.next_wake t) }

  unfoldable pub park : W → Edge W → Run (Edge W)
  park w e = do
    ensure (ltb e.parked_len e.cap) Errno.enospc
    done (record e {
      parked = λ j. if j == e.parked_len then w else e.parked j;
      parked_len = e.parked_len + 1;
    })

module _ {W S : Type 0} (wake : W → S → S) where
  -- The wakers of the first slots from one on.
  unfoldable pub wake_from : (ℕ → W) → ℕ → ℕ → S → S
  wake_from parked zero i s = s
  wake_from parked (suc n) i s = wake_from parked n (i + 1) (wake (parked i) s)

module _ {W S : Type 0} (now : S → ℕ × S) (wake : W → S → S) where
  unfoldable pub rise : ℕ → Edge W → S → Edge W × S
  unfolding wake_from
  rise quota e s =
      let (t, s') = now s in
      (
        record e { edge_at = t; quota_ms = quota; until = t + quota; parked_len = 0 },
        wake_from wake e.parked e.parked_len 0 s',
      )

module _ {S : Type 0} (now : S → ℕ × S) where
  -- How long until the next turn, none for `NO_WAKE`.
  abbrev pub delay : Bool → Option ℕ → S → Option ℕ × S
  delay true t s = (some 0, s)
  delay false none s = (none, s)
  delay false (some t) s = (some (t - (now s).0), (now s).1)

module _ {W S : Type 0} (now : S → ℕ × S) where
  unfoldable pub fall : Edge W → S → (Option ℕ × S) × Edge W
  fall e s = (
    delay now (e.asked || ltb 0 e.parked_len) e.next_wake s,
    record e { asked = false; next_wake = none },
  )

  unfoldable pub spent : Edge W → S → Bool × S
  spent e s = (leb e.until (now s).0, (now s).1)

-- What may be asked between two edges.
pub data Ask (W : Type 0) : Type 0 where
  next_turn : Ask W
  at_time : ℕ → Ask W
  extend : ℕ → Ask W
  to_park : W → Ask W

module _ {W : Type 0} where
  abbrev pub ask : Ask W → Edge W → Run (Edge W)
  ask next_turn e = done (ask_next e)
  ask (at_time t) e = done (wake_at t e)
  ask (extend t) e = done (extend_to t e)
  ask (to_park w) e = park w e

  unfoldable pub ask_all : List (Ask W) → Edge W → Run (Edge W)
  unfolding park
  ask_all [] e = done e
  ask_all (a ∷ l) e = ask a e >>= ask_all l
