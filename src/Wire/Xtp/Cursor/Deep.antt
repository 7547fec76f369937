-- ===== src/Wire/Xtp/Cursor/Deep.antt =====
-- kit/wire/xtp/cursor.hpp: the reads that go through a branch's children, one level or all levels down.
-- The recursion is given the levels it may go down; with as many as the packet has bytes it needs no more.
use xpute.Common.{ℕ, zero, suc, ◌+◌, Bool, true, false, Option, none, some, List, [], ◌∷◌}
use xpute.Status.{Result, val, err}
use xpute.Wire.Xtp.Cursor.{Cursor, Value, is_branch, as_branch, child_at}
use xpute.Wire.Xtp.Cursor.Read.{get}

mutual
  pub data DeepValue : Type 0 where
    leaf : Value → DeepValue
    list : DeepValues → DeepValue

  pub data DeepValues : Type 0 where
    nil : DeepValues
    cons : DeepValue → DeepValues → DeepValues

-- What a deep read comes to, none where it is not given the levels.
abbrev pub Deep {ℓ} : Type ℓ → Type ℓ
Deep A = Option (Result A)

infixl 5 ◌>>=◌
abbrev pub ◌>>=◌ {ℓ κ} : {A : Type ℓ} {B : Type κ} → Deep A → (A → Deep B) → Deep B
none >>= f = none
some (err e) >>= f = some (err e)
some (val a) >>= f = f a

module _ (mem : List ℕ) where
  -- `BranchCursor::get`, of `n` children from the `i`th.
  unfoldable pub get_from : Cursor → ℕ → ℕ → Deep (List Value)
  unfolding child_at get
  get_from b zero i = some (val [])
  get_from b (suc n) i = do
    c ← some (child_at mem b i)
    v ← some (get mem c)
    vs ← get_from b n (i + 1)
    some (val (v ∷ vs))

  -- The loop over the children, each read by `g`.
  unfoldable pub deep_from : (Cursor → Deep DeepValue) → Cursor → ℕ → ℕ → Deep DeepValues
  unfolding child_at
  deep_from g b zero i = some (val nil)
  deep_from g b (suc n) i = do
    c ← some (child_at mem b i)
    d ← g c
    ds ← deep_from g b n (i + 1)
    some (val (cons d ds))

  -- A node, as it is a branch or not.
  unfoldable pub read_node : (Cursor → Deep DeepValue) → Cursor → Bool → Deep DeepValue
  unfolding deep_from get as_branch
  read_node g c false = do v ← some (get mem c); some (val (leaf v))
  read_node g c true = do b ← some (as_branch c); ds ← deep_from g b b.len 0; some (val (list ds))

  unfoldable pub get_deep : ℕ → Cursor → Deep DeepValue
  unfolding read_node is_branch
  get_deep zero c = none
  get_deep (suc f) c = read_node (get_deep f) c (is_branch c)

-- The nodes of a tree that was read.
abbrev mutual
  pub nodes : DeepValue → ℕ
  nodes (leaf v) = 1
  nodes (list ds) = 1 + nodes_of ds

  pub nodes_of : DeepValues → ℕ
  nodes_of nil = 0
  nodes_of (cons d ds) = nodes d + nodes_of ds
