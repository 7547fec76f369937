-- ===== src/Collection/Arena/Bounds.antt =====
-- What allocating and reserving come to, on a valid arena.
use native.Mathlib.Decide.{dec_lt}
use xpute.Common.{
  ℕ, ◌+◌, ◌-◌, ◌^◌, ◌≤◌, ◌<◌, ◌≡◌, ◌⊎◌, inl, inr, refl, ap, ap₂, arith, max, lt→ltb, ge→ltb, le→leb,
  gt→leb,
}
use xpute.Status.{Errno, val, err, marshal_error}
use xpute.Guest.Memory.{u32}
use xpute.Collection.Arena.{Arena, grow, alloc, reserve}
use xpute.Collection.Arena.Grow.{IsValid, Extends, Extends-refl, grow-room, grow-full, grow-none}

module _ {A : Type 0} (blank : A) where
  alloc-grown :
      (a : Arena A)
      → IsValid a
      → a.cap ≤ a.len
      → (b : Arena A) × (grow blank a (a.len + 1) ≡ (val tt, b))
        × Extends blank a b
        × (a.len + 1 ≤ b.cap)
      → (b : Arena A) × (alloc blank a ≡ (val a.len, record b { len = a.len + 1 }))
        × Extends blank a b
        × (a.len < b.cap)
        × (a.len < max a.cap a.max_cap)
  unfolding alloc
  alloc-grown a v p (b, e, x, r) =
      let plain : u32 (a.len + 1) ≡ a.len + 1 = omega (arith, v) in
      (
        b,
        rw (le→leb a.cap a.len p, plain, e)
            (ap₂ (λ i n. (val i, record b { len = n })) x.same_len (omega (arith, v, x.same_len))),
        x,
        omega arith,
        omega (arith, x.within),
      )

  reserve-grown :
      (a : Arena A) (cnt : ℕ)
      → a.len ≤ 2 ^ 32 - 1 - cnt
      → u32 (a.len + cnt) ≡ a.len + cnt
      → (b : Arena A) × (grow blank a (a.len + cnt) ≡ (val tt, b))
        × Extends blank a b
        × (a.len + cnt ≤ b.cap)
      → (b : Arena A) × (reserve blank a cnt ≡ (val tt, b))
        × Extends blank a b
        × (a.len + cnt ≤ b.cap)
        × (a.len + cnt ≤ max a.cap a.max_cap)
  unfolding reserve
  reserve-grown a cnt p plain (b, e, x, r) =
      (b, rw (ge→ltb (2 ^ 32 - 1 - cnt) a.len p, plain, e) refl, x, r, omega (arith, x.within))

  -- On a valid arena `alloc` answers the index at the cursor and moves the cursor past it, where a slot is left there
  -- or one more is allowed: the arena has a slot there, holds what it held at the same places, stays valid, and grows
  -- to no more slots than are allowed. Else, where every slot is taken and no more are allowed, it answers EOVERFLOW
  -- and changes nothing.
  pub alloc_correct :
      (a : Arena A)
      → IsValid a
      → ((b : Arena A) × (alloc blank a ≡ (val a.len, record b { len = a.len + 1 }))
          × Extends blank a b
          × (a.len < b.cap)
          × (a.len < max a.cap a.max_cap))
        ⊎ ((alloc blank a ≡ (err (marshal_error Errno.eoverflow), a))
            × (a.len ≡ a.cap)
            × (a.max_cap ≤ a.cap))
  unfolding alloc
  alloc_correct a v = elim (dec_lt a.len a.cap) [
    | yes p ↦ inl (
      a,
      rw (gt→leb a.cap a.len p) (ap (λ n. (val a.len, record a { len = n })) (omega (arith, v))),
      Extends-refl blank a v,
      p,
      omega arith,
    )
    | no p ↦
        let plain : u32 (a.len + 1) ≡ a.len + 1 = omega (arith, v) in
        elim (dec_lt a.max_cap (a.len + 1)) [
          | yes q ↦ inr (
            rw
                (
                  le→leb a.cap a.len (omega arith),
                  plain,
                  grow-full blank a (a.len + 1) (omega (arith, v)) q,
                )
                refl,
            omega (arith, v),
            omega (arith, v),
          )
          | no q ↦ inl (
              alloc-grown a v (omega arith)
                (grow-room blank a (a.len + 1) v (omega (arith, v)) (omega arith)))
        ]
  ]

  -- On a valid arena `reserve` of a 32-bit count makes room for as many past the cursor, where there are so many slots
  -- or so many are allowed: the arena is valid, holds what it held, and grows to no more slots than are allowed. Else,
  -- where they are more than there are slots and more than are allowed, it answers EOVERFLOW and changes nothing.
  pub reserve_correct :
      (a : Arena A) (cnt : ℕ)
      → IsValid a
      → cnt < 2 ^ 32
      → ((b : Arena A) × (reserve blank a cnt ≡ (val tt, b))
          × Extends blank a b
          × (a.len + cnt ≤ b.cap)
          × (a.len + cnt ≤ max a.cap a.max_cap))
        ⊎ ((reserve blank a cnt ≡ (err (marshal_error Errno.eoverflow), a))
            × (a.cap < a.len + cnt)
            × (a.max_cap < a.len + cnt))
  unfolding reserve
  reserve_correct a cnt v h = elim (dec_lt (2 ^ 32 - 1 - cnt) a.len) [
    | yes wraps ↦ inr (
      rw (lt→ltb (2 ^ 32 - 1 - cnt) a.len wraps)
          (grow-full blank a (2 ^ 32 - 1) (omega (arith, v)) (omega (arith, v))),
      omega (arith, v),
      omega (arith, v),
    )
    | no plain ↦
        let sum : u32 (a.len + cnt) ≡ a.len + cnt = omega arith in
        elim (dec_lt a.cap (a.len + cnt)) [
          | no inside ↦ inl (
            a,
            rw (ge→ltb (2 ^ 32 - 1 - cnt) a.len (omega arith), sum)
                (grow-none blank a (a.len + cnt) (omega arith)),
            Extends-refl blank a v,
            omega arith,
            omega arith,
          )
          | yes past ↦ elim (dec_lt a.max_cap (a.len + cnt)) [
            | yes full ↦ inr (
              rw (ge→ltb (2 ^ 32 - 1 - cnt) a.len (omega arith), sum)
                  (grow-full blank a (a.len + cnt) past full),
              past,
              full,
            )
            | no room ↦ inl (
                reserve-grown a cnt (omega arith) sum
                  (grow-room blank a (a.len + cnt) v past (omega arith)))
          ]
        ]
  ]
