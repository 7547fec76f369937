-- ===== src/Guest/Edge/Turn.antt =====
-- What the next fall and rise make of what was asked between two edges.
use xpute.Common.{
  ℕ, zero, suc, ◌+◌, ◌-◌, ◌≤◌, ◌<◌, ◌≡◌, ◌↔◌, ◌⊎◌, inl, inr, refl, ap, subst, ◌∙◌, Bool, true,
  false, ◌||◌, Option, none, some, List, [], ◌∷◌, ◌++◌, length, leb→le, le→leb,
}
use xpute.Status.{Errno, done, bug}
use xpute.Guest.Edge.{Edge, wake_from, rise, delay, fall, spent, Ask, ask_all}
use xpute.Guest.Edge.Least.{IsLeast, IsGreatest, as_list}
use xpute.Guest.Edge.Asked.{
  waiting_from, parks, asks_now, times, extensions, waiting, is_asked, ask_all-Asked,
}

abbrev pub wake_each : {W S : Type 0} → (W → S → S) → List W → S → S
wake_each wake [] s = s
wake_each wake (w ∷ ws) s = wake_each wake ws (wake w s)

wake_from-each :
    {W S : Type 0} (wake : W → S → S) (p : ℕ → W) (n i : ℕ) (s : S)
    → wake_from wake p n i s ≡ wake_each wake (waiting_from p i n) s
unfolding wake_from
wake_from-each wake p zero i s = refl
wake_from-each wake p (suc n) i s = wake_from-each wake p n (i + 1) (wake (p i) s)

module _ {S : Type 0} (now : S → ℕ × S) where
  -- What a fall answers: no delay where a turn was asked for, without a look at the clock; no wake where none was and
  -- no time; else the time left to the least of the times.
  abbrev pub Answers : Bool → List ℕ → S → Option ℕ × S → Type 0
  Answers soon ts s a =
      ((soon ≡ true) × (a ≡ (some 0, s)))
      ⊎ ((soon ≡ false) × (ts ≡ []) × (a ≡ (none, s)))
      ⊎ ((soon ≡ false) × ((t : ℕ) × IsLeast ts (some t) × (a ≡ (some (t - (now s).0), (now s).1))))

  delay-Answers :
      (soon : Bool) (ts : List ℕ) (o : Option ℕ) (s : S)
      → IsLeast ts o
      → Answers soon ts s (delay now soon o s)
  delay-Answers true ts o s l = inl (refl, refl)
  delay-Answers false ts none s l = inr (inl (refl, l, refl))
  delay-Answers false ts (some t) s l = inr (inr (refl, (t, l, refl)))

module _ {W S : Type 0} (now : S → ℕ × S) (wake : W → S → S) where
  -- What the next fall answers at a state and the next rise wakes at another, from an edge and what was asked of it;
  -- until when the tasks may run before the fall and after the rise; and what is left of what was asked.
  abbrev pub Next : List (Ask W) → Edge W → ℕ → S → S → Edge W → Type 0
  Next l e quota s r e' =
      let fallen = fall now e' s in
      let risen = rise now wake quota fallen.1 r in
      (e.parked_len + length (parks l) ≤ e.cap)
      × Answers now (is_asked e || asks_now l) (as_list e.next_wake ++ times l) s fallen.0
      × ((u : ℕ) × IsGreatest (e.until ∷ extensions l) u
          × (((spent now e' s).0 ≡ true) ↔ (u ≤ (now s).0)))
      × (risen.1 ≡ wake_each wake (waiting e ++ parks l) (now r).1)
      × (risen.0.until ≡ (now r).0 + quota)
      × (is_asked risen.0 ≡ false)
      × (risen.0.next_wake ≡ none)

  -- Whatever is asked between two edges: it is the bug ENOSPC exactly where more wakers are parked than the edge has
  -- room for. Else the fall answers no delay where a turn was asked for or a waker is parked; the time left to the
  -- least of the times asked where there is one; and no wake where nothing was asked. The turn is spent from the
  -- greatest of its own end and what it was extended to. The rise wakes the parked wakers in order, each once, ends
  -- the new turn a quota after its own reading of the clock, and leaves no waker parked and nothing asked.
  pub turn_correct :
      (l : List (Ask W)) (e : Edge W) (quota : ℕ) (s r : S)
      → e.parked_len ≤ e.cap
      → ((ask_all l e ≡ bug Errno.enospc) × (e.cap < e.parked_len + length (parks l)))
        ⊎ ((e' : Edge W) × (ask_all l e ≡ done e') × Next l e quota s r e')
  unfolding fall rise spent
  turn_correct l e quota s r v = elim (ask_all-Asked l e v) [
    | inl full ↦ inl full
    | inr (e', back, to) ↦ inr (
      e',
      back,
      (
        to.fits,
        subst
            (λ b.
              Answers now b (as_list e.next_wake ++ times l) s
                (delay now (is_asked e') e'.next_wake s))
            to.soon
            (delay-Answers now (is_asked e') (as_list e.next_wake ++ times l) e'.next_wake s
              to.first),
        (e'.until, to.last, (leb→le e'.until (now s).0, le→leb e'.until (now s).0)),
        (wake_from-each wake e'.parked e'.parked_len 0 (now r).1
            ∙ ap (λ ws. wake_each wake ws (now r).1) to.wakers),
        refl,
        refl,
        refl,
      ),
    )
  ]
