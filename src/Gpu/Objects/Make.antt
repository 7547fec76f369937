-- ===== src/Gpu/Objects/Make.antt =====
-- What making an object comes to: a handle and its record, or neither.
use xpute.Common.{
  ℕ, ◌+◌, ◌*◌, ◌^◌, ◌<◌, ◌≡◌, refl, ap, ◌∙◌, ◌⊎◌, inl, inr, arith, true, false, none, some, List,
  ◌∷◌, length, eq→==,
}
use xpute.Status.{Errno, done, bug}
use xpute.Guest.Memory.{Memory}
use xpute.Guest.Stream.{Stream, MarkState}
use xpute.Guest.Stream.Inv.{IsValid}
use xpute.Guest.Handle.{Table, handle_slot, insert, remove, live, get}
use xpute.Guest.Handle.Inv
use xpute.Guest.Handle.Laws.{Inserted, insert_correct}
use xpute.Guest.Handle.Remove.{Removed, remove_correct, live-Live}
use xpute.Guest.Handle.Since.{Stepped, Removed-Stepped}
use xpute.Gpu.Record.{Part, word, emit}
use xpute.Gpu.Record.Written.{Written, flat}
use xpute.Gpu.Record.Emit.{
  Emitted, InRange, record_of, emit_correct, recorded, dropped, already_spilled, no_room,
}
use xpute.Gpu.Objects.{Gpu, make, slot_op, count_up}

Inserted-get : {t t' : Table ℕ} {x h : ℕ} → Inserted 0 t x h t' → get 0 t' h ≡ some x
Inserted-get {h = h} i = i.names h ∙ rw (eq→== h h refl) refl

get-live : (t : Table ℕ) (h x : ℕ) → get 0 t h ≡ some x → live 0 t h ≡ true
unfolding get
get-live t h x e = ground arith

-- A handle that a valid table made is of 32 bits.
pub Inserted-lt : {t t' : Table ℕ} {x h : ℕ} → Inserted 0 t x h t' → h < 2 ^ 32
Inserted-lt {t' = t'} {x = x} {h = h} i =
    let l = live-Live 0 t' h (get-live t' h x (Inserted-get i)) in
    omega (arith, l.current, i.valid.1.generations (handle_slot h))

-- A handle made and taken back leaves what every handle names.
Inserted-Removed :
    {t t' t'' : Table ℕ} {x h : ℕ}
    → Inserted 0 t x h t'
    → Removed 0 t' h t''
    → (k : ℕ) → get 0 t'' k ≡ get 0 t k
unfolding get
Inserted-Removed {t} {t'} {t''} {x} {h} i r k = ground (arith, i.names k, r.names k, i.fresh)

-- What `make` comes to.
pub data MakeEnd (op : ℕ) (ps : List Part) (g : Gpu) (s : Stream) (m : Memory) : Type 0 where
  table_full :
      make op ps (g, s, m) ≡ done (none, (g, s, m))
      → g.handles.count + 1 ≡ length g.handles.slots
      → MakeEnd op ps g s m
  object :
      (id : ℕ) (t' : Table ℕ) (s' : Stream) (m' : Memory)
      → make op ps (g, s, m)
        ≡ done (some id, (record { handles = t'; objects = count_up op g.objects }, s', m'))
      → Inserted 0 g.handles (slot_op op) id t'
      → s' ≡ record s { len = s.len + 2 + length (flat (word id ∷ ps)) }
      → Written m m' (s.at + 4 * (s.head + s.len)) (record_of op (word id ∷ ps))
      → IsValid m' s'
      → MakeEnd op ps g s m
  refused :
      (t' : Table ℕ)
      → make op ps (g, s, m)
        ≡ done (none, (record g { handles = t' }, record s { mark = MarkState.spilled }, m))
      → ((k : ℕ) → get 0 t' k ≡ get 0 g.handles k)
      → (frees : List ℕ) × Inv.IsValid 0 t' frees
      → Stepped 0 g.handles t'
      → MakeEnd op ps g s m
  bug_room :
      make op ps (g, s, m) ≡ bug Errno.enospc → s.mark ≡ MarkState.off_mark → MakeEnd op ps g s m

module _ (op : ℕ) (ps : List Part) {g : Gpu} {m : Memory} {s : Stream} (id : ℕ) (t' : Table ℕ)
    (e : insert 0 (slot_op op) g.handles ≡ (some id, t'))
    (i : Inserted 0 g.handles (slot_op op) id t') where
  taken_back :
      (s' : Stream)
      → emit op (word id ∷ ps) (s, m) ≡ done (false, s', m)
      → s' ≡ record s { mark = MarkState.spilled }
      → ((live 0 t' id ≡ false) × (remove 0 id t' ≡ (none, t')))
        ⊎ ((x : ℕ) × (t'' : Table ℕ) × (get 0 t' id ≡ some x)
            × (remove 0 id t' ≡ (some x, t''))
            × Removed 0 t' id t'')
      → MakeEnd op ps g s m
  unfolding make
  taken_back s' f n (inl (dead, q)) =
      absurd (let alive : live 0 t' id ≡ true = get-live t' id (slot_op op) (Inserted-get i) in cc)
  taken_back s' f n (inr (x, t'', a, q, r)) =
      refused t'' (rw (e, f, q, n) refl) (Inserted-Removed i r) r.valid
        (Removed-Stepped 0 i r (Inserted-Removed i r))

  written : Emitted op (word id ∷ ps) m s → MakeEnd op ps g s m
  unfolding make
  written (recorded m' f k h w u) = object id t' _ m' (rw (e, f) refl) i refl w u
  written (dropped f k h) = taken_back _ f refl (remove_correct 0 id i.valid.0 i.valid.1)
  written (already_spilled f k) =
      taken_back s f (ap (λ n. record s { mark = n }) k) (remove_correct 0 id i.valid.0 i.valid.1)
  written (no_room f k h) = bug_room (rw (e, f) refl) k

-- On a valid table and a valid stream, with words of 32 bits, `make` does one of four things: with every
-- slot taken it answers none and changes nothing; or it answers a handle that was not live, which alone
-- changes what it names, counts one object more of its op where that lasts, and the stream's next record
-- is the op's, the handle its first word; or, in a transaction that drops the record, it answers none,
-- every handle names what it named and the memory is as it was; or, outside one, a record that does not
-- fit is the bug ENOSPC.
pub make_correct :
    (op : ℕ) (ps : List Part) {g : Gpu} {m : Memory} {s : Stream} (frees : List ℕ)
    → Inv.IsValid 0 g.handles frees
    → IsValid m s
    → InRange op (word 0 ∷ ps)
    → MakeEnd op ps g s m
unfolding make
make_correct op ps {g} {m} {s} frees v w r = elim (insert_correct 0 (slot_op op) frees v) [
  | inl (e, full) ↦ table_full (rw e refl) full
  | inr (id, t', e, i, c) ↦
      written op ps id t' e i
        (emit_correct op (word id ∷ ps) w (r.0, (r.1.0, (Inserted-lt i, r.1.1.1))))
]
