-- ===== src/Collection/Arena/Grow.antt =====
-- An arena's invariant, and what growing does with it.
use xpute.Common.{
  ℕ, zero, suc, ◌+◌, ◌-◌, ◌*◌, ◌^◌, ◌≤◌, ◌<◌, ◌≡◌, ◌∙◌, refl, ap, arith, List, [], ◌∷◌, ◌++◌, take,
  replicate, length, length-append, length-take, length-replicate, min, max, lt→ltb, ge→ltb, le→leb,
  gt→leb, get_elem?,
}
use xpute.Status.{Errno, val, err, marshal_error}
use xpute.Collection.Arena.{Arena, resize, new_cap, grow}

-- Capacities are below the last number of 32 bits, so that one more is a number.
pub record IsValid {A : Type 0} (a : Arena A) : Type 0 where
  pub made : length a.mem ≡ a.cap
  pub len_in : a.len ≤ a.cap
  pub cap_in : a.cap + 1 < 2 ^ 32
  pub max_in : a.max_cap + 1 < 2 ^ 32

length-resize : {A : Type 0} (blank : A) (n : ℕ) (xs : List A) → length (resize blank n xs) ≡ n
length-resize blank n xs = omega (
  arith,
  length-append (take n xs) (replicate (n - length xs) blank),
  length-take n xs,
  length-replicate (n - length xs) blank,
)

-- A resize to no fewer keeps every value at its index.
get_elem?-resize :
    {A : Type 0} (blank : A) (n : ℕ) (xs : List A) (i : ℕ)
    → i < length xs
    → length xs ≤ n
    → get_elem? (resize blank n xs) i ≡ get_elem? xs i
get_elem?-resize blank n [] i p q = absurd (omega arith)
get_elem?-resize blank zero (x ∷ xs) i p q = absurd (omega arith)
get_elem?-resize blank (suc n) (x ∷ xs) zero p q = refl
get_elem?-resize blank (suc n) (x ∷ xs) (suc i) p q =
    ap (λ k. get_elem? (take n xs ++ replicate k blank) i) (omega arith)
    ∙ get_elem?-resize blank n xs i (omega arith) (omega arith)

module _ {A : Type 0} (blank : A) where
  -- A capacity grown to `req` is at least that, at most the most allowed, and, where there is room for
  -- it, twice what it was.
  new_cap-bounds :
      (a : Arena A) (req : ℕ)
      → IsValid a
      → a.cap < req
      → req ≤ a.max_cap
      → (req ≤ new_cap blank a req)
        × (new_cap blank a req ≤ a.max_cap)
        × (min (a.cap * 2) a.max_cap ≤ new_cap blank a req)
  new_cap-bounds a req v p q = ground (arith, v)

  -- An arena that holds what another held, at the same places, with as many slots or more, though none more where that
  -- is past the most allowed.
  pub record Extends (a b : Arena A) : Type 0 where
    pub valid : IsValid b
    pub same_max : b.max_cap ≡ a.max_cap
    pub same_len : b.len ≡ a.len
    pub more : a.cap ≤ b.cap
    pub within : b.cap ≤ max a.cap a.max_cap
    pub kept : (i : ℕ) → i < a.cap → get_elem? b.mem i ≡ get_elem? a.mem i

  pub grow-room :
      (a : Arena A) (req : ℕ)
      → IsValid a
      → a.cap < req
      → req ≤ a.max_cap
      → (b : Arena A) × (grow blank a req ≡ (val tt, b)) × Extends a b × (req ≤ b.cap)
  unfolding grow
  grow-room a req v p q =
      let b = record a {
        mem = resize blank (new_cap blank a req) a.mem;
        cap = new_cap blank a req;
      } in
      let bounds = new_cap-bounds a req v p q in
      (
        b,
        rw (gt→leb req a.cap p, ge→ltb a.max_cap req q) refl,
        record {
          valid = record {
            made = length-resize blank (new_cap blank a req) a.mem;
            len_in = omega (arith, bounds, v);
            cap_in = omega (arith, bounds, v);
            max_in = v.max_in;
          };
          same_max = refl;
          same_len = refl;
          more = omega (arith, bounds);
          within = omega (arith, bounds);
          kept = λ i h.
              get_elem?-resize blank (new_cap blank a req) a.mem i (omega (arith, v))
                (omega (arith, bounds, v));
        },
        bounds.0,
      )

  pub Extends-refl : (a : Arena A) → IsValid a → Extends a a
  Extends-refl a v = record {
    valid = v;
    same_max = refl;
    same_len = refl;
    more = omega arith;
    within = omega arith;
    kept = λ i h. refl;
  }

  pub grow-full :
      (a : Arena A) (req : ℕ)
      → a.cap < req
      → a.max_cap < req
      → grow blank a req ≡ (err (marshal_error Errno.eoverflow), a)
  unfolding grow
  grow-full a req p q = rw (gt→leb req a.cap p, lt→ltb a.max_cap req q) refl

  pub grow-none : (a : Arena A) (req : ℕ) → req ≤ a.cap → grow blank a req ≡ (val tt, a)
  unfolding grow
  grow-none a req p = rw (le→leb req a.cap p) refl
