-- ===== src/Guest/Tick/Registry.antt =====
-- The registry: ids that are apart, given in rising order.
use xpute.Common.{
  ℕ, ◌+◌, ◌%◌, ◌^◌, ◌≤◌, ◌<◌, ◌≡◌, ◌≢◌, inl, inr, refl, sym, ap, ◌∙◌, List, [], ◌∷◌, ◌++◌, length,
  ◌==◌, arith, All, Bool-cases, length-append,
}
use xpute.Status.{Errno, Run, done, bug}
use xpute.Guest.Tick.{TickContext, Registered, Tick, on_tick, off_tick, remove}
use xpute.Guest.Tick.Gone.{AreDistinct, keep, keep-remove, keep_all}

module _ {S : Type 0} where
  abbrev pub AreBelow : ℕ → List (Registered S) → Type 0
  AreBelow n rs = All (λ (r : Registered S). r.id < n) rs

  pub record IsValid (t : Tick S) : Type 0 where
    pub distinct : AreDistinct t.registry
    pub below : AreBelow t.next_id t.registry
    pub fits : length t.registry ≤ t.cap

  AreBelow-more : (n m : ℕ) (rs : List (Registered S)) → n ≤ m → AreBelow n rs → AreBelow m rs
  AreBelow-more n m [] h b = tt
  AreBelow-more n m (r ∷ rs) h (p, b) = (omega arith, AreBelow-more n m rs h b)

  AreBelow-append :
      (n : ℕ) (rs : List (Registered S)) (q : Registered S)
      → q.id < n
      → AreBelow n rs
      → AreBelow n (rs ++ (q ∷ []))
  AreBelow-append n [] q h b = (h, tt)
  AreBelow-append n (r ∷ rs) q h (p, b) = (p, AreBelow-append n rs q h b)

  apart-append :
      (id : ℕ) (rs : List (Registered S)) (q : Registered S)
      → id < q.id
      → All (λ (p : Registered S). p.id ≢ id) rs
      → All (λ (p : Registered S). p.id ≢ id) (rs ++ (q ∷ []))
  apart-append id [] q h a = (omega arith, tt)
  apart-append id (r ∷ rs) q h (p, a) = (p, apart-append id rs q h a)

  AreDistinct-append :
      (rs : List (Registered S)) (q : Registered S)
      → AreBelow q.id rs
      → AreDistinct rs
      → AreDistinct (rs ++ (q ∷ []))
  AreDistinct-append [] q b d = (tt, tt)
  AreDistinct-append (r ∷ rs) q (p, b) (a, d) =
      (apart-append r.id rs q p a, AreDistinct-append rs q b d)

  All-remove :
      (P : Registered S → Type 0) (id : ℕ) (rs : List (Registered S))
      → All P rs
      → All P (remove id rs).1
  unfolding remove
  All-remove P id [] h = tt
  All-remove P id (r ∷ rs) (p, h) = elim (Bool-cases (r.id == id)) [
    | inl here ↦ rw here h
    | inr other ↦ rw other (p, All-remove P id rs h)
  ]

  AreDistinct-remove :
      (id : ℕ) (rs : List (Registered S)) → AreDistinct rs → AreDistinct (remove id rs).1
  unfolding remove
  AreDistinct-remove id [] h = tt
  AreDistinct-remove id (r ∷ rs) (a, d) = elim (Bool-cases (r.id == id)) [
    | inl here ↦ rw here d
    | inr other ↦ rw other (All-remove (λ q. q.id ≢ r.id) id rs a, AreDistinct-remove id rs d)
  ]

  length-remove : (id : ℕ) (rs : List (Registered S)) → length (remove id rs).1 ≤ length rs
  unfolding remove
  length-remove id [] = omega arith
  length-remove id (r ∷ rs) = ground (arith, length-remove id rs)

  -- On a valid registry: a step is refused, as a bug, exactly where the registry is full (ENOSPC) or else its phase is not
  -- one of the policy's (EINVAL); else it gets an id that no entry has and comes last. Taking an id off leaves the
  -- entries of other ids, in order. Both leave a valid registry, as long as the ids do not wrap.
  pub registry_correct :
      (t : Tick S) (phase name id : ℕ) (step : TickContext S → Run (TickContext S))
      → IsValid t
      → t.next_id + 1 < 2 ^ 32
      → ((t.cap ≤ length t.registry → on_tick phase step name t ≡ bug Errno.enospc)
          × (length t.registry < t.cap
              → t.phases ≤ phase
              → on_tick phase step name t ≡ bug Errno.einval)
          × (length t.registry < t.cap
              → phase < t.phases
              → (t' : Tick S) × (on_tick phase step name t ≡ done (t.next_id, t'))
                × IsValid t'
                × All (λ (r : Registered S). r.id ≢ t.next_id) t.registry
                × (t'.registry
                    ≡ t.registry
                      ++ (record { id = t.next_id; phase = phase; step = step; name = name }
                          ∷ []))))
        × (IsValid (off_tick id t) × ((off_tick id t).registry ≡ keep (id ∷ []) t.registry))
  unfolding on_tick off_tick
  registry_correct t phase name id step v h =
      let q : Registered S = record { id = t.next_id; phase = phase; step = step; name = name } in
      let next : (t.next_id + 1) % 2 ^ 32 ≡ t.next_id + 1 = omega arith in
      (
        (
          λ full. ground arith,
          λ room other. ground arith,
          λ room named. (
            record t { registry = t.registry ++ (q ∷ []); next_id = (t.next_id + 1) % 2 ^ 32 },
            ground arith,
            record {
              distinct = AreDistinct-append t.registry q v.below v.distinct;
              below = rw next (
                  AreBelow-append (t.next_id + 1) t.registry q (omega arith)
                    (AreBelow-more t.next_id (t.next_id + 1) t.registry (omega arith) v.below));
              fits = omega (arith, length-append t.registry (q ∷ []));
            },
            below-apart t.next_id t.registry v.below,
            refl,
          ),
        ),
        (
          record {
            distinct = AreDistinct-remove id t.registry v.distinct;
            below = All-remove (λ r. r.id < t.next_id) id t.registry v.below;
            fits = omega (arith, v.fits, length-remove id t.registry);
          },
          ap (λ l. (remove id l).1) (sym (keep_all t.registry))
              ∙ keep-remove id [] t.registry v.distinct,
        ),
      )
    where
      below-apart :
          (n : ℕ) (rs : List (Registered S))
          → AreBelow n rs
          → All (λ (r : Registered S). r.id ≢ n) rs
      below-apart n [] b = tt
      below-apart n (r ∷ rs) (p, b) = (omega arith, below-apart n rs b)
