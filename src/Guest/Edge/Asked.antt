-- ===== src/Guest/Edge/Asked.antt =====
-- What was asked between two edges, as lists, and what an edge holds of it after.
use xpute.Common.{
  ℕ, zero, suc, ◌+◌, ◌≤◌, ◌<◌, ◌≡◌, ◌⊎◌, inl, inr, refl, sym, ap, ◌∙◌, Bool, true, false, ◌||◌,
  List, [], ◌∷◌, ◌++◌, length, ltb, ◌==◌, if◌then◌else◌, arith, Bool-cases, ltb→ge, ltb→lt, lt→ltb,
  append_nil, append_assoc,
}
use xpute.Status.{Errno, Run, done, bug, ◌>>=◌, ◌>>◌, ensure}
use xpute.Guest.Edge.{
  Edge, extend_to, ask_next, wake_at, Ask, next_turn, at_time, extend, to_park, ask_all,
}
use xpute.Guest.Edge.Least.{
  IsLeast, IsGreatest, as_list, as_list-IsLeast, sooner-IsLeast, max-IsGreatest,
}

or_false : (b : Bool) → (b || false) ≡ b
or_false true = refl
or_false false = refl

or_true : (b : Bool) → (b || true) ≡ true
or_true true = refl
or_true false = refl

module _ {W : Type 0} where
  abbrev pub waiting_from : (ℕ → W) → ℕ → ℕ → List W
  waiting_from p i zero = []
  waiting_from p i (suc n) = p i ∷ waiting_from p (i + 1) n

  -- The wakers asked to be parked, in order; whether any turn was asked for, or a waker parked.
  abbrev pub parks : List (Ask W) → List W
  parks [] = []
  parks (to_park w ∷ l) = w ∷ parks l
  parks (_ ∷ l) = parks l

  abbrev pub asks_now : List (Ask W) → Bool
  asks_now [] = false
  asks_now (next_turn ∷ l) = true
  asks_now (to_park w ∷ l) = true
  asks_now (_ ∷ l) = asks_now l

  -- The times asked for the next turn at, and those that the tasks' turn was extended to.
  abbrev pub times : List (Ask W) → List ℕ
  times [] = []
  times (at_time t ∷ l) = t ∷ times l
  times (_ ∷ l) = times l

  abbrev pub extensions : List (Ask W) → List ℕ
  extensions [] = []
  extensions (extend t ∷ l) = t ∷ extensions l
  extensions (_ ∷ l) = extensions l

  waiting-put :
      (p : ℕ → W) (w : W) (i n k : ℕ)
      → k ≡ i + n
      → waiting_from (λ j. if j == k then w else p j) i (suc n) ≡ waiting_from p i n ++ (w ∷ [])
  waiting-put p w i zero k h =
      let here : (if i == k then w else p i) ≡ w = ground arith in ap (λ x. x ∷ []) here
  waiting-put p w i (suc n) k h =
      let here : (if i == k then w else p i) ≡ p i = ground arith in
      ap (λ x. x ∷ waiting_from (λ j. if j == k then w else p j) (i + 1) (suc n)) here
      ∙ ap (λ xs. p i ∷ xs) (waiting-put p w (i + 1) n k (omega arith))

  abbrev pub waiting : Edge W → List W
  waiting e = waiting_from e.parked 0 e.parked_len

  abbrev pub is_asked : Edge W → Bool
  is_asked e = e.asked || ltb 0 e.parked_len

  -- What asking came to, from one edge to another.
  pub record Asked (l : List (Ask W)) (e e' : Edge W) : Type 0 where
    pub fits : e.parked_len + length (parks l) ≤ e.cap
    pub wakers : waiting e' ≡ waiting e ++ parks l
    pub soon : is_asked e' ≡ is_asked e || asks_now l
    pub first : IsLeast (as_list e.next_wake ++ times l) e'.next_wake
    pub last : IsGreatest (e.until ∷ extensions l) e'.until

  abbrev placed : W → Edge W → Edge W
  placed w e = record e {
    parked = λ j. if j == e.parked_len then w else e.parked j;
    parked_len = e.parked_len + 1;
  }

  waiting-placed : (w : W) (e : Edge W) → waiting (placed w e) ≡ waiting e ++ (w ∷ [])
  waiting-placed w e =
      let one : e.parked_len + 1 ≡ suc e.parked_len = omega arith in
      ap (waiting_from (placed w e).parked 0) one
      ∙ waiting-put e.parked w 0 e.parked_len e.parked_len (omega arith)

  is_asked-placed : (w : W) (e : Edge W) → is_asked (placed w e) ≡ true
  is_asked-placed w e =
      ap (λ b. e.asked || b) (lt→ltb 0 (e.parked_len + 1) (omega arith)) ∙ or_true e.asked

  pub ask_all-Asked :
      (l : List (Ask W)) (e : Edge W)
      → e.parked_len ≤ e.cap
      → ((ask_all l e ≡ bug Errno.enospc) × (e.cap < e.parked_len + length (parks l)))
        ⊎ ((e' : Edge W) × (ask_all l e ≡ done e') × Asked l e e')
  unfolding ask_all
  ask_all-Asked [] e v = inr (
    e,
    refl,
    record {
      fits = omega arith;
      wakers = sym (append_nil (waiting e));
      soon = sym (or_false (is_asked e));
      first = as_list-IsLeast e.next_wake;
      last = (inl refl, (omega arith, tt));
    },
  )
  ask_all-Asked (next_turn ∷ l) e v = elim (ask_all-Asked l (ask_next e) v) [
    | inl full ↦ inl full
    | inr (e', back, r) ↦ inr (
      e',
      back,
      record {
        fits = r.fits;
        wakers = r.wakers;
        soon = r.soon ∙ sym (or_true (is_asked e));
        first = r.first;
        last = r.last;
      },
    )
  ]
  ask_all-Asked (at_time t ∷ l) e v = elim (ask_all-Asked l (wake_at t e) v) [
    | inl full ↦ inl full
    | inr (e', back, r) ↦ inr (
      e',
      back,
      record {
        fits = r.fits;
        wakers = r.wakers;
        soon = r.soon;
        first = sooner-IsLeast e.next_wake t (times l) e'.next_wake r.first;
        last = r.last;
      },
    )
  ]
  ask_all-Asked (extend t ∷ l) e v = elim (ask_all-Asked l (extend_to t e) v) [
    | inl full ↦ inl full
    | inr (e', back, r) ↦ inr (
      e',
      back,
      record {
        fits = r.fits;
        wakers = r.wakers;
        soon = r.soon;
        first = r.first;
        last = max-IsGreatest e.until t (extensions l) e'.until r.last;
      },
    )
  ]
  ask_all-Asked (to_park w ∷ l) e v =
      let run : Bool → Run (Edge W) =
        λ b. (ensure b Errno.enospc >> done (placed w e)) >>= ask_all l in
      elim (Bool-cases (ltb e.parked_len e.cap)) [
        | inr full ↦ inl (ap run full, omega (arith, ltb→ge e.parked_len e.cap full))
        | inl room ↦
            elim (ask_all-Asked l (placed w e) (omega (arith, ltb→lt e.parked_len e.cap room))) [
              | inl (back, full) ↦ inl (ap run room ∙ back, omega (arith, full))
              | inr (e', back, r) ↦ inr (
                e',
                ap run room ∙ back,
                record {
                  fits = omega (arith, r.fits);
                  wakers =
                      r.wakers
                      ∙ ap (λ ws. ws ++ parks l) (waiting-placed w e)
                      ∙ append_assoc (waiting e) (w ∷ []) (parks l);
                  soon =
                      r.soon
                      ∙ ap (λ b. b || asks_now l) (is_asked-placed w e)
                      ∙ sym (or_true (is_asked e));
                  first = r.first;
                  last = r.last;
                },
              )
            ]
      ]
