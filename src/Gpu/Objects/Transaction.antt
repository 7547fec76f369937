-- ===== src/Gpu/Objects/Transaction.antt =====
-- The objects made between `begin` and `commit` are one: a transaction that does not fit drops them.
use xpute.Common.{
  ℕ, zero, suc, length, ◌+◌, ◌^◌, ◌<◌, ◌≡◌, ◌≢◌, refl, sym, ap, subst, ◌∙◌, arith, Bool, true,
  false, Option, none, some, List, [], ◌∷◌, All,
}
use xpute.Status.{Run, done, ◌>>=◌}
use xpute.Guest.Memory.{Memory}
use xpute.Guest.Stream.{Stream, MarkState}
use xpute.Guest.Stream
use xpute.Guest.Stream.Inv.{IsValid, Grown-refl, IsValid-Grown}
use xpute.Guest.Handle.{Table, get, live, rollback}
use xpute.Guest.Handle
use xpute.Guest.Handle.Inv
use xpute.Guest.Handle.Since.{
  Since, Dated, Inserted-Stepped, Since-Stepped, Since-begin, begin-IsValid, rollback-Since,
  Since-kept, get-begin, Dated-Stepped, begin-Dated, rollback-Dated,
}
use xpute.Guest.Handle.Rollback.{rollback_correct}
use xpute.Gpu.Record.{Part, word}
use xpute.Gpu.Record.Written.{flat}
use xpute.Gpu.Record.Emit.{InRange}
use xpute.Gpu.Objects.{Gpu, State, make, begin, commit, forget, forget_all, rolled}
use xpute.Gpu.Objects.Make.{MakeEnd, make_correct, table_full, object, refused, bug_room}

-- The objects of a transaction, each an op and its words; what `make` answers is kept by no one here.
unfoldable pub make_all : List (ℕ × List Part) → State → Run State
unfolding make
make_all [] st = done st
make_all ((op, ps) ∷ cs) st = do r ← make op ps st; make_all cs r.1

unfoldable pub attempt : List (ℕ × List Part) → State → Run (Bool × State)
unfolding begin commit make_all
attempt cs st = do st' ← make_all cs (begin st); done (commit st')

forget_all-handles : (gone : List (ℕ × ℕ)) (g : Gpu) → (forget_all gone g).handles ≡ g.handles
unfolding forget_all forget
forget_all-handles [] g = refl
forget_all-handles ((id, zero) ∷ gone) g = forget_all-handles gone g
forget_all-handles ((id, suc op) ∷ gone) g = forget_all-handles gone _

-- A transaction that began with the table `u` and the stream `s`.
record Opened (u : Table ℕ) (s : Stream) (g : Gpu) (s' : Stream) (m : Memory) : Type 0 where
  len : ℕ
  mark : MarkState
  stream : s' ≡ record s { len = len; mark = mark; mark_at = s.len }
  marked : mark ≢ MarkState.off_mark
  table : (frees : List ℕ) × Inv.IsValid 0 g.handles frees
  valid : IsValid m s'
  since : Since 0 u g.handles
  dated : Dated 0 g.handles

-- A call that leaves the transaction open.
abbrev Leaves : Table ℕ → Stream → Run (Option ℕ × State) → Type 0
Leaves u s x =
    (r : Option ℕ) × (g : Gpu) × (s' : Stream) × (m : Memory) × (x ≡ done (r, (g, s', m)))
    × Opened u s g s' m

make-Leaves :
    (op : ℕ) (ps : List Part) (u : Table ℕ) (s : Stream) (g : Gpu) (s' : Stream) (m : Memory)
    → Opened u s g s' m
    → MakeEnd op ps g s' m
    → Leaves u s (make op ps (g, s', m))
make-Leaves op ps u s g s' m o (table_full e full) = (none, g, s', m, e, o)
make-Leaves op ps u s g s' m o (object id t' s₁ m' e i f w v) = (
  some id,
  _,
  s₁,
  m',
  e,
  record {
    len = s'.len + 2 + length (flat (word id ∷ ps));
    mark = o.mark;
    stream =
        f
        ∙ ap (λ (k : Stream). record k { len = s'.len + 2 + length (flat (word id ∷ ps)) })
            o.stream;
    marked = o.marked;
    table = i.valid;
    valid = v;
    since = Since-Stepped 0 u o.since (Inserted-Stepped 0 i);
    dated = Dated-Stepped 0 o.dated (Inserted-Stepped 0 i);
  },
)
make-Leaves op ps u s g s' m o (refused t' e same v p) = (
  none,
  _,
  _,
  m,
  e,
  record {
    len = o.len;
    mark = MarkState.spilled;
    stream = ap (λ (k : Stream). record k { mark = MarkState.spilled }) o.stream;
    marked = λ q. cc;
    table = v;
    valid =
        IsValid-Grown m m s' _ 0 o.valid (Grown-refl m 0) refl refl refl (omega (arith, o.valid));
    since = Since-Stepped 0 u o.since p;
    dated = Dated-Stepped 0 o.dated p;
  },
)
make-Leaves op ps u s g s' m o (bug_room e k) =
    absurd (o.marked (sym (ap (λ (q : Stream). q.mark) o.stream) ∙ k))

-- A run of makes that leaves it open.
abbrev Runs : Table ℕ → Stream → Run State → Type 0
Runs u s x = (g : Gpu) × (s' : Stream) × (m : Memory) × (x ≡ done (g, s', m)) × Opened u s g s' m

make_all-Runs :
    (cs : List (ℕ × List Part)) (u : Table ℕ) (s : Stream) (g : Gpu) (s' : Stream) (m : Memory)
    → All (λ c. InRange c.0 (word 0 ∷ c.1)) cs
    → Opened u s g s' m
    → Runs u s (make_all cs (g, s', m))
unfolding make_all
make_all-Runs [] u s g s' m a o = (g, s', m, refl, o)
make_all-Runs ((op, ps) ∷ cs) u s g s' m (r, a) o =
    let (id, g₁, s₁, m₁, e, o₁) =
      make-Leaves op ps u s g s' m o (make_correct op ps o.table.0 o.table.1 o.valid r) in
    rw e (make_all-Runs cs u s g₁ s₁ m₁ a o₁)

-- What an attempt comes to.
pub data AttemptEnd (cs : List (ℕ × List Part)) (g : Gpu) (s : Stream) (m : Memory) : Type 0 where
  fit :
      (g' : Gpu) (s' : Stream) (m' : Memory)
      → attempt cs (g, s, m) ≡ done (true, (g', s', m'))
      → IsValid m' s'
      → ((h op : ℕ) → get 0 g.handles h ≡ some op → get 0 g'.handles h ≡ some op)
      → (frees : List ℕ) × Inv.IsValid 0 g'.handles frees
      → Dated 0 g'.handles
      → AttemptEnd cs g s m
  undone :
      (g' : Gpu) (m' : Memory)
      → attempt cs (g, s, m)
        ≡ done (false, (g', record s { mark = MarkState.off_mark; mark_at = 0 }, m'))
      → ((h : ℕ) → get 0 g'.handles h ≡ get 0 g.handles h)
      → (frees : List ℕ) × Inv.IsValid 0 g'.handles frees
      → Dated 0 g'.handles
      → AttemptEnd cs g s m

module _ (cs : List (ℕ × List Part)) (g : Gpu) (s : Stream) (m : Memory) (g' : Gpu) (s' : Stream)
    (m' : Memory) (e : make_all cs (begin (g, s, m)) ≡ done (g', s', m'))
    (o : Opened (Handle.begin g.handles) s g' s' m') where
  abbrev after : Stream
  after = record s { len = o.len; mark = MarkState.off_mark; mark_at = 0 }

  all_made : o.mark ≡ MarkState.is_open → AttemptEnd cs g s m
  unfolding attempt commit
  all_made k =
      fit g' after m' (rw (e, o.stream, k) refl)
        (IsValid-Grown m' m' s' after 0 o.valid (Grown-refl m' 0)
          (ap (λ (q : Stream). q.at) (sym o.stream)) (ap (λ (q : Stream). q.words) (sym o.stream))
          (ap (λ (q : Stream). q.head) (sym o.stream))
          (let l = ap (λ (q : Stream). q.len) o.stream in omega (arith, o.valid, l)))
        (λ h op q. Since-kept 0 _ _ o.since h op (get-begin 0 g.handles h ∙ q)) o.table o.dated

  some_dropped : o.mark ≡ MarkState.spilled → AttemptEnd cs g s m
  unfolding attempt commit
  some_dropped k =
      let back = rollback 0 g'.handles in
      let same : (rolled g' back).handles ≡ back.0 = forget_all-handles back.1 _ in
      undone (rolled g' back) m' (rw (e, o.stream, k) refl)
        (λ h.
          ap (λ t. get 0 t h) same
          ∙ rollback-Since 0 _ o.table.0 o.table.1 o.since h
          ∙ get-begin 0 g.handles h)
        (subst (λ t. (frees : List ℕ) × Inv.IsValid 0 t frees) (sym same)
          (rollback_correct 0 o.table.0 o.table.1).0)
        (subst (Dated 0) (sym same) (rollback-Dated 0 o.table.0 o.table.1 o.dated))

  ended : (k : MarkState) → o.mark ≡ k → AttemptEnd cs g s m
  ended MarkState.is_open k = all_made k
  ended MarkState.spilled k = some_dropped k
  ended MarkState.off_mark k = absurd (o.marked k)

-- Any objects, their words of 32 bits, made between `begin` and `commit` on a valid table and a valid stream are never
-- a bug, where no slot of the table was made in an epoch to come and two more epochs are numbers of 64 bits. Where
-- `commit` answers true, all that was named before is named still. Where it answers false, the stream is as it was at
-- `begin` and every handle names what it named then, those made since nothing. In both the table stays valid, and no
-- slot of it was made in an epoch to come.
pub attempt_correct :
    (cs : List (ℕ × List Part)) {g : Gpu} {s : Stream} {m : Memory} (frees : List ℕ)
    → Inv.IsValid 0 g.handles frees
    → Dated 0 g.handles
    → g.handles.epoch + 2 < 2 ^ 64
    → IsValid m s
    → All (λ c. InRange c.0 (word 0 ∷ c.1)) cs
    → AttemptEnd cs g s m
unfolding begin Handle.begin get live
attempt_correct cs {g} {s} {m} frees v d h w a =
    let u = Handle.begin g.handles in
    let (g', s', m', e, o) =
      make_all-Runs cs u s (record g { handles = u }) (Stream.begin s) m a
        (record {
          len = s.len;
          mark = MarkState.is_open;
          stream = refl;
          marked = λ q. cc;
          table = (frees, begin-IsValid 0 v h);
          valid =
              IsValid-Grown m m s (Stream.begin s) 0 w (Grown-refl m 0) refl refl refl
                (omega (arith, w));
          since = Since-begin 0 g.handles d (omega (arith, h));
          dated = begin-Dated 0 g.handles d (omega (arith, h));
        }) in
    ended cs g s m g' s' m' e o o.mark refl
