-- ===== src/Collection/Arena.antt =====
-- kit/collection/arena.hpp: a pool of constructed slots, bump-allocated and rewound whole. A slot is
-- named by its index, where the source answers its address; `T{}`, which a slot is first made with, is
-- the parameter `blank`. That the vector's memory runs out is not modelled: the caller's allocator says.
pub mod Grow
pub mod Bounds
mod Tests
use xpute.Common.{
  ℕ, zero, suc, ◌+◌, ◌-◌, ◌*◌, ◌/◌, ◌%◌, ◌^◌, ◌<◌, ◌≤◌, min, max, Bool, List, [], ◌∷◌, ◌++◌, length,
  take, replicate, get_elem?, Option, none, some, ltb, leb, ◌==◌, if◌then◌else◌,
}
use xpute.Status.{Errno, Run, done, ◌>>=◌, ◌>>◌, ensure, or_bug, Result, val, err, marshal_error}
use xpute.Guest.Memory.{u32}

pub record Arena {ℓ} (A : Type ℓ) : Type ℓ where
  pub mem : List A
  pub max_cap : ℕ
  pub cap : ℕ
  pub len : ℕ

-- `std::vector::resize`: cut short, or longer by blank values.
abbrev pub resize {ℓ} : {A : Type ℓ} → A → ℕ → List A → List A
resize blank n xs = take n xs ++ replicate (n - length xs) blank

-- `std::clamp(v, lo, hi)`, for `lo` no more than `hi`.
abbrev pub clamp : ℕ → ℕ → ℕ → ℕ
clamp v lo hi = if ltb v lo then lo else if ltb hi v then hi else v

module _ {ℓ} {A : Type ℓ} (blank : A) where
  abbrev pub new_cap : Arena A → ℕ → ℕ
  new_cap a req =
      clamp (if ltb (a.max_cap / 2) a.cap then a.max_cap else u32 (a.cap * 2)) req a.max_cap

  pub grow : Arena A → ℕ → Result (Unit {0}) × Arena A
  grow a req =
      if leb req a.cap
      then (val tt, a)
      else if ltb a.max_cap req
      then (err (marshal_error Errno.eoverflow), a)
      else (val tt, record a { mem = resize blank (new_cap a req) a.mem; cap = new_cap a req })

  -- The first slots are made, or the error comes back in the arena's place.
  abbrev pub made : Result (Unit {0}) × Arena A → Result (Arena A)
  made (val x, a) = val a
  made (err e, a) = err e

  pub make : ℕ → ℕ → Result (Arena A)
  unfolding grow
  make init_cap max_cap =
      made (grow (record { mem = []; max_cap = max_cap; cap = 0; len = 0 }) (min init_cap max_cap))

  -- The slot at the cursor, once there is room for it.
  abbrev pub bump : Result (Unit {0}) × Arena A → Result ℕ × Arena A
  bump (err e, a) = (err e, a)
  bump (val x, a) = (val a.len, record a { len = u32 (a.len + 1) })

  pub alloc : Arena A → Result ℕ × Arena A
  unfolding grow
  alloc a = if leb a.cap a.len then bump (grow a (u32 (a.len + 1))) else bump (val tt, a)

  pub reserve : Arena A → ℕ → Result (Unit {0}) × Arena A
  unfolding grow
  reserve a cnt = grow a (if ltb (2 ^ 32 - 1 - cnt) a.len then 2 ^ 32 - 1 else u32 (a.len + cnt))

module _ {ℓ} {A : Type ℓ} where
  pub get : Arena A → ℕ → Run A
  get a idx = do
    ensure (ltb idx (length a.mem)) Errno.enotrecoverable
    or_bug (get_elem? a.mem idx) Errno.enotrecoverable

  abbrev pub set_max_cap : Arena A → ℕ → Arena A
  set_max_cap a cap = record a { max_cap = cap }

  pub truncate : Arena A → ℕ → Run (Arena A)
  truncate a new_len = do ensure (leb new_len a.len) Errno.einval; done (record a { len = new_len })

  -- A guard keeps the length at its start, and truncates to it at its end.
  abbrev pub guard_mark : Arena A → ℕ
  guard_mark a = a.len

  abbrev pub guard_end : ℕ → Arena A → Run (Arena A)
  guard_end mark a = truncate a mark
