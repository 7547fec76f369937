-- ===== src/Gpu/Objects.antt =====
-- gpu/encode.hpp: `Gpu<N>`, the objects that a guest makes, over a table of handles whose slots say the
-- op that made what lasts until it is destroyed, and 0 otherwise. `N` is the length of the slots.
pub mod Create
pub mod Make
pub mod Transaction
use xpute.Common.{
  ℕ, zero, suc, ◌+◌, ◌-◌, ◌%◌, ◌^◌, Bool, true, false, Option, none, some, List, [], ◌∷◌, get_or,
  set, ltb, is_some, if◌then◌else◌,
}
use xpute.Status.{Run, done, ◌>>=◌}
use xpute.Guest.Handle.{Table, insert, remove, live, rollback}
use xpute.Guest.Handle
use xpute.Guest.Memory.{Memory, u32}
use xpute.Guest.Stream.{Stream}
use xpute.Guest.Stream
use xpute.Gpu.Op.{op_destroy, op_end, op_submit}
use xpute.Gpu.Record.{Part, word, emit}
use xpute.Gpu.Parts

pub record Gpu : Type 0 where
  pub handles : Table ℕ
  pub objects : List ℕ

-- OBJECT_OPS: the ops below make what lasts.
abbrev pub object_ops : ℕ
object_ops = op_destroy

-- What the handles, the stream and the memory are after a call.
abbrev pub State : Type 0
State = Gpu × Stream × Memory

abbrev pub slot_op : ℕ → ℕ
slot_op op = if ltb op object_ops then op % 2 ^ 8 else 0

abbrev pub count_up : ℕ → List ℕ → List ℕ
count_up op os = if ltb op object_ops then set os op (u32 (get_or os op 0 + 1)) else os

unfoldable pub forget : ℕ → Gpu → Gpu
forget zero g = g
forget (suc op) g = record g {
  objects = set g.objects (suc op) (u32 (get_or g.objects (suc op) 0 + 2 ^ 32 - 1));
}

abbrev pub live_object : Gpu → ℕ → Bool
live_object g id = live 0 g.handles id

-- `forget(*op)` where a slot was let go.
abbrev pub let_go : Gpu → Option ℕ × Table ℕ → Bool × Gpu
let_go g (none, t) = (false, record g { handles = t })
let_go g (some op, t) = (true, forget op (record g { handles = t }))

unfoldable pub release : ℕ → Gpu → Bool × Gpu
unfolding forget
release id g = let_go g (remove 0 id g.handles)

-- Whether the record of a new handle was written, and what is kept.
abbrev pub made : ℕ → ℕ → Gpu → Bool × Stream × Memory → Option ℕ × State
made op id g (true, s, m) = (some id, (record g { objects = count_up op g.objects }, s, m))
made op id g (false, s, m) = (none, (record g { handles = (remove 0 id g.handles).1 }, s, m))

abbrev pub make_with :
    ℕ → List Part → Gpu → Stream × Memory → Option ℕ × Table ℕ → Run (Option ℕ × State)
make_with op ps g (s, m) (none, t) = done (none, (record g { handles = t }, s, m))
make_with op ps g s (some id, t) = do
  r ← emit op (word id ∷ ps) s
  done (made op id (record g { handles = t }) r)

-- An object's handle, written by `op` as the record's first word; none where the table is full or the
-- record did not fit.
unfoldable pub make : ℕ → List Part → State → Run (Option ℕ × State)
make op ps (g, s, m) = make_with op ps g (s, m) (insert 0 (slot_op op) g.handles)

unfoldable pub begin : State → State
begin (g, s, m) = (record g { handles = Handle.begin g.handles }, Stream.begin s, m)

unfoldable pub forget_all : List (ℕ × ℕ) → Gpu → Gpu
unfolding forget
forget_all [] g = g
forget_all ((id, op) ∷ gone) g = forget_all gone (forget op g)

-- What a rollback of the handles leaves: each that was taken since `begin` is let go.
abbrev pub rolled : Gpu → Table ℕ × List (ℕ × ℕ) → Gpu
rolled g (t, gone) = forget_all gone (record g { handles = t })

abbrev pub committed : Gpu → Memory → Bool × Stream → Bool × State
committed g m (true, s) = (true, (g, s, m))
committed g m (false, s) = (false, (rolled g (rollback 0 g.handles), s, m))

-- False where the transaction did not fit.
unfoldable pub commit : State → Bool × State
unfolding forget_all
commit (g, s, m) = committed g m (Stream.commit s)

-- A handle let go after its record, whether or not that was written.
abbrev pub with_release : ℕ → Gpu → Bool × Stream × Memory → Bool × State
with_release id g (sent, s, m) = (sent, ((release id g).1, s, m))

unfoldable pub end : ℕ → State → Run (Bool × State)
unfolding release
end pass (g, s, m) = do r ← emit op_end (word pass ∷ []) (s, m); done (with_release pass g r)

unfoldable pub release_all : List ℕ → Gpu → Gpu
unfolding release
release_all [] g = g
release_all (e ∷ es) g = release_all es (release e g).1

abbrev pub with_release_all : List ℕ → Gpu → Bool × Stream × Memory → Bool × State
with_release_all es g (sent, s, m) = (sent, (release_all es g, s, m))

-- Each encoder finished, submitted in order and let go, as `end` lets a pass go.
unfoldable pub submit : List ℕ → State → Run (Bool × State)
unfolding release_all
submit encoders (g, s, m) = do
  r ← emit op_submit (Parts.submit encoders) (s, m)
  done (with_release_all encoders g r)

abbrev pub with_handles : Gpu → Bool × Stream × Memory → State
with_handles g (sent, s, m) = (g, s, m)

abbrev pub destroyed : ℕ → Stream × Memory → Bool × Gpu → Run State
destroyed id (s, m) (false, g) = done (g, s, m)
destroyed id s (true, g) = do r ← emit op_destroy (word id ∷ []) s; done (with_handles g r)

unfoldable pub destroy : ℕ → State → Run State
unfolding release
destroy id (g, s, m) = destroyed id (s, m) (release id g)
