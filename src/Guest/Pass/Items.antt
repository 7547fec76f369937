-- ===== src/Guest/Pass/Items.antt =====
-- The loop over the items: which are tried, and where it stops.
use xpute.Common.{
  ℕ, zero, suc, ◌+◌, ◌^◌, ◌%◌, ◌≤◌, ◌<◌, ◌≡◌, ◌⊎◌, inl, inr, refl, ap, Bool, true, false, List, [],
  ◌∷◌, length, if◌then◌else◌, arith, either_way,
}
use xpute.Guest.Pass.{PassStat, Limits, is_over, run_items}

-- Enough is done, by a cap, a deadline and a hard one, a number tried and a number that did work, and the time.
abbrev pub IsOver : ℕ → ℕ → ℕ → ℕ → ℕ → ℕ → Type 0
IsOver cap deadline hard visited ran time =
    ((0 < visited) × (hard ≤ time)) ⊎ ((0 < ran) × ((cap ≤ ran) ⊎ (deadline ≤ time)))

is_over-IsOver :
    (l : Limits) (stat : PassStat) (t : ℕ)
    → is_over l stat t ≡ true
    → IsOver l.cap l.deadline l.hard_deadline stat.visited stat.ran t
unfolding is_over
is_over-IsOver l stat t e = ground arith

is_over-going :
    (l : Limits) (stat : PassStat) (t : ℕ)
    → is_over l stat t ≡ false
    → ¬ IsOver l.cap l.deadline l.hard_deadline stat.visited stat.ran t
unfolding is_over
is_over-going l stat t e o = ground arith

pub IsOver-same :
    (cap deadline hard v r t : ℕ) {cap' deadline' hard' v' r' : ℕ}
    → (cap ≡ cap') × (deadline ≡ deadline') × (hard ≡ hard')
    → v ≡ v'
    → r ≡ r'
    → IsOver cap deadline hard v r t
    → IsOver cap' deadline' hard' v' r' t
IsOver-same cap deadline hard v r t e f g (inl (p, q)) = inl (omega arith, omega arith)
IsOver-same cap deadline hard v r t e f g (inr (p, inl q)) = inr (omega arith, inl (omega arith))
IsOver-same cap deadline hard v r t e f g (inr (p, inr q)) = inr (omega arith, inr (omega arith))

-- What holds at no place: not at the first, and at none after.
none_below :
    (P : ℕ → Type 0) (n : ℕ) → ¬ P 0 → ((k : ℕ) → k < n → ¬ P (suc k)) → (k : ℕ) → k < suc n → ¬ P k
none_below P n first later zero h = first
none_below P n first later (suc k) h = later k (omega arith)

-- A count goes up by one where the step did work.
counted :
    (b : Bool) (n : ℕ)
    → n + 1 < 2 ^ 32
    → (if b then (n + 1) % 2 ^ 32 else n) ≡ n + (if b then 1 else 0)
counted true n fits = omega arith
counted false n fits = omega arith

at_most : (b : Bool) → (if b then 1 else 0) ≤ 1
at_most true = omega arith
at_most false = omega arith

module _ {S I : Type 0} (now : S → ℕ × S) (step : I → S → Bool × S) where
  -- The state after so many of the items were tried, the clock read before each, and how many did work.
  abbrev pub after : ℕ → List I → S → S
  after zero items s = s
  after (suc n) [] s = s
  after (suc n) (i ∷ is) s = after n is (step i (now s).1).1

  abbrev pub worked : ℕ → List I → S → ℕ
  worked zero items s = 0
  worked (suc n) [] s = 0
  worked (suc n) (i ∷ is) s =
      (if (step i (now s).1).0 then 1 else 0) + worked n is (step i (now s).1).1

  -- The items tried at a state, so many before and so many of them that did work: it is over there.
  abbrev pub OverAt : Limits → List I → ℕ → ℕ → S → ℕ → Type 0
  OverAt l items visited ran s k =
      let there = (now (after k items s)).0 in
      IsOver l.cap l.deadline l.hard_deadline (visited + k) (ran + worked k items s) there

  -- From one count of the loop to its end, with the items tried on the way.
  pub record Ran (l : Limits) (items : List I) (stat : PassStat) (s : S) (out : PassStat × S)
      : Type 0 where
    pub count : ℕ
    pub visited : out.0.visited ≡ stat.visited + count
    pub ran : out.0.ran ≡ stat.ran + worked count items s
    pub whole : out.0.stopped_early ≡ false → (count ≡ length items) × (out.1 ≡ after count items s)
    pub going : (k : ℕ) → k < count → ¬ OverAt l items stat.visited stat.ran s k
    pub part :
        out.0.stopped_early ≡ true
        → (count < length items)
          × (out.1 ≡ (now (after count items s)).1)
          × OverAt l items stat.visited stat.ran s count

  pub run_items-Ran :
      (l : Limits) (items : List I) (stat : PassStat) (s : S)
      → stat.stopped_early ≡ false
      → stat.visited + length items < 2 ^ 32
      → stat.ran ≤ stat.visited
      → Ran l items stat s (run_items now step l items stat s)
  unfolding run_items
  run_items-Ran l [] stat s h fits less = record {
    count = 0;
    visited = omega arith;
    ran = omega arith;
    whole = λ e. (refl, refl);
    going = λ k p. absurd (omega arith);
    part = λ e. absurd (cc);
  }
  run_items-Ran l (i ∷ is) stat s h fits less =
      let b = (step i (now s).1).0 in
      let next = (step i (now s).1).1 in
      let v = (stat.visited + 1) % 2 ^ 32 in
      let ran' = if b then (stat.ran + 1) % 2 ^ 32 else stat.ran in
      let v_one : v ≡ stat.visited + 1 = omega arith in
      let one : ran' ≡ stat.ran + (if b then 1 else 0) = counted b stat.ran (omega arith) in
      either_way (Ran l (i ∷ is) stat s) (is_over l stat (now s).0)
        (λ over. record {
          count = 0;
          visited = omega arith;
          ran = omega arith;
          whole = λ e. absurd (cc);
          going = λ k p. absurd (omega arith);
          part = λ e. (
            omega arith,
            refl,
            IsOver-same l.cap l.deadline l.hard_deadline stat.visited stat.ran (now s).0
                (refl, refl, refl) (omega arith) (omega arith)
                (is_over-IsOver l stat (now s).0 over),
          );
        })
        (λ goes_on.
          let rest =
            run_items-Ran l is (record stat { visited = v; ran = ran' }) next h (omega arith)
              (omega (arith, one, at_most b)) in
          record {
            count = suc rest.count;
            visited = omega (arith, rest.visited);
            ran = omega (arith, rest.ran, one);
            whole = λ e. let (all, end) = rest.whole e in (ap suc all, end);
            going =
                none_below (OverAt l (i ∷ is) stat.visited stat.ran s) rest.count
                  (λ o. is_over-going l stat (now s).0 goes_on (
                    IsOver-same l.cap l.deadline l.hard_deadline (stat.visited + 0) (stat.ran + 0)
                      (now s).0 (refl, refl, refl) (omega arith) (omega arith) o))
                  (λ k h o. rest.going k h (
                    IsOver-same l.cap l.deadline l.hard_deadline _ _ (now (after k is next)).0
                      (refl, refl, refl) (omega arith) (omega (arith, one)) o));
            part = λ e.
                let (some_left, end, why) = rest.part e in
                (
                  omega arith,
                  end,
                  IsOver-same l.cap l.deadline l.hard_deadline _ _
                      (now (after rest.count is next)).0 (refl, refl, refl) (omega arith)
                      (omega (arith, one)) why,
                );
          })
