-- ===== src/Wire/Xtp/Writer/Nodes.antt =====
-- Trees of any shape are written in the buffer, and no call is a bug where branches are counted right.
use xpute.Common.{
  either_way, ℕ, ◌+◌, ◌*◌, ◌≤◌, ◌<◌, ◌≡◌, inr, refl, sym, ap, subst, ◌∙◌, true, false, not, ◌||◌,
  length, Option, none, some, ltb, ◌==◌, is_some, arith, ltb→ge, eq→==,
}
use native.Mathlib.Nat.{le_refl}
use xpute.Status.{Errno, Run, ◌>>=◌, ◌>>◌, ensure}
use xpute.Wire.Xtp.Cursor.{u32}
use xpute.Wire.Xtp.Writer.{Frame, PacketWriter, Placed, clear, set_word, reserve, word_up, entry}
use xpute.Wire.Xtp.Writer.Tree.{
  Node, Nodes, nil, no_branch, number, numbers, bits, text, texts, graft_of, branch_of, end, and,
  branch_open, branch_close, branch, value_or, write_node, write_nodes,
}
use xpute.Wire.Xtp.Writer.Lengths.{length-clear, length-set_word}
use xpute.Wire.Xtp.Writer.Kept.{
  IsValid, Kept, Kept-self, Kept-trans, Kept-IsValid, Lands, Lands-Kept, going_or_not, spoil-Kept,
  change-Kept, reserve-Lands, at_place-Lands, Wrote,
}
use xpute.Wire.Xtp.Writer.Entry.{Adds, entry-Adds}
use xpute.Wire.Xtp.Writer.Safe.{scalar-Adds, array-Adds, bitset-Adds, strs-Adds, graft-Adds}
use xpute.Wire.Xtp.Writer.Text.{str-Adds}

abbrev pub count : Nodes → ℕ
count end = 0
count (and n ns) = 1 + count ns

-- Each branch says how many children it has.
abbrev mutual
  pub IsCounted : Node → Type 0
  IsCounted (branch_of cnt ns) = (count ns ≡ cnt) × AreCounted ns
  IsCounted n = Unit {0}

  pub AreCounted : Nodes → Type 0
  AreCounted end = Unit {0}
  AreCounted (and n ns) = IsCounted n × AreCounted ns

module _ {w : PacketWriter} (v : IsValid w) where
  branch_open-Lands : (cnt : ℕ) → Lands w (8 + cnt * 8) (branch_open cnt w)
  unfolding branch_open
  branch_open-Lands cnt =
      at_place-Lands v (8 + cnt * 8) (λ at_. set_word at_ cnt 0) (reserve 8 (8 + cnt * 8) w)
        (reserve-Lands v 8 (8 + cnt * 8) (inr (inr (inr refl))))
        (λ at_ buf e h. length-set_word at_ cnt 0 buf (omega arith))

  branch_close-Kept : (at_ : Option ℕ) → Kept w (branch_close (at_, w)).1
  unfolding branch_close
  branch_close-Kept at_ =
      either_way (λ (p : Placed). Kept w p.1) (not (is_some at_) || is_some w.failure)
        (λ h. Kept-self v)
        λ h.
          let going = going_or_not w.failure (ground arith) in
          either_way (λ (p : Placed). Kept w p.1) (ltb (length w.buf) (word_up w.lim))
            (λ z. spoil-Kept v Errno.eoverflow)
            λ z.
              let room = ltb→ge (length w.buf) (word_up w.lim) z in
              let cap = v.capped in
              change-Kept v (clear w.lim (word_up w.lim) w.buf) (u32 (word_up w.lim)) going
                (length-clear w.lim (word_up w.lim) w.buf (v.hi going) room) (omega arith)
                (omega arith)

module _ {w : PacketWriter} (v : IsValid w) where
  -- The writer that a branch's children are written by.
  abbrev inner : ℕ → Placed → PacketWriter
  inner cnt p = record p.1 {
    frame = record { base = value_or 0 p.0; cnt = cnt; written = 0; root = false };
  }

  inner-IsValid : (cnt : ℕ) (p : Placed) → Lands w (8 + cnt * 8) p → IsValid (inner cnt p)
  inner-IsValid cnt (none, w') (k, failed) =
      let v' = Kept-IsValid v k in
      record {
        capped = v'.capped;
        lo = v'.lo;
        hi = v'.hi;
        framed = λ e h. absurd (let t = ap is_some e in cc);
      }
  inner-IsValid cnt (some at_, w') (k, going, lo, hi) =
      let v' = Kept-IsValid v k in
      record { capped = v'.capped; lo = v'.lo; hi = v'.hi; framed = λ e h. omega arith }

  -- Past its children the branch is the node of the frame around it.
  closed-Kept :
      (cnt : ℕ) (p : Placed) (w2 : PacketWriter) (n : ℕ)
      → Kept w p.1
      → Wrote n (inner cnt p) w2
      → Kept w (record w2 { frame = w.frame })
  closed-Kept cnt p w2 n k o = record {
    same_len = o.same_len ∙ k.same_len;
    same_frame = refl;
    grows = omega (arith, k.grows, o.grows);
    hi = λ e. let v2 = o.valid in v2.hi e;
    first = λ e h.
        let (failed, buf, lim) = k.first e h in
        let (failed', buf', lim') = o.first e failed in (failed', buf' ∙ buf, lim' ∙ lim);
  }

  branch-Adds :
      (cnt : ℕ) (fill : PacketWriter → Run PacketWriter)
      → w.frame.written < w.frame.cnt
      → ((u : PacketWriter) → IsValid u → u.frame.written + cnt ≤ u.frame.cnt → Adds cnt u (fill u))
      → Adds 1 w (branch cnt fill w)
  unfolding branch
  branch-Adds cnt fill room fills =
      let p = branch_open cnt w in
      let l = branch_open-Lands v cnt in
      let k = Lands-Kept (8 + cnt * 8) p l in
      let (w2, e, o) = fills (inner cnt p) (inner-IsValid cnt p l) (omega arith) in
      let w3 : PacketWriter = record w2 { frame = w.frame } in
      let k3 = closed-Kept cnt p w2 cnt k o in
      let k4 = Kept-trans k3 (branch_close-Kept (Kept-IsValid v k3) p.0) in
      let (w', e', o') = entry-Adds v 32 (branch_close (p.0, w3)) room k4 in
      let all : (w2.frame.written == w2.frame.cnt) ≡ true = eq→== w2.frame.written w2.frame.cnt (
        ap (λ (f : Frame). f.written) o.frame
        ∙ (omega arith)
        ∙ sym (ap (λ (f : Frame). f.cnt) o.frame)) in
      let go_on = λ (u : PacketWriter).
        ensure (u.frame.written == u.frame.cnt) Errno.enotrecoverable
        >> entry 32 (branch_close (p.0, record u { frame = w.frame })) in
      (
        w',
        ap (λ r. r >>= go_on) e
            ∙ ap (λ b. ensure b Errno.enotrecoverable >> entry 32 (branch_close (p.0, w3))) all
            ∙ e',
        o',
      )

Wrote-both : {w w1 w2 : PacketWriter} (m n : ℕ) → Wrote m w w1 → Wrote n w1 w2 → Wrote (m + n) w w2
Wrote-both {w} {w1} {w2} m n a b = record {
  valid = b.valid;
  same_len = b.same_len ∙ a.same_len;
  frame =
      b.frame
      ∙ ap (λ (f : Frame). record f { written = f.written + n }) a.frame
      ∙ ap (λ k. record w.frame { written = k }) (omega arith);
  grows = omega (arith, a.grows, b.grows);
  first = λ e h.
      let (failed, buf, lim) = a.first e h in
      let (failed', buf', lim') = b.first e failed in (failed', buf' ∙ buf, lim' ∙ lim);
}

mutual
  unfolding write_node write_nodes

  write_node-Adds :
      (n : Node) (w : PacketWriter)
      → IsCounted n
      → IsValid w
      → w.frame.written < w.frame.cnt
      → Adds 1 w (write_node n w)
  write_node-Adds nil w c v h = entry-Adds v 0 (none, w) h (Kept-self v)
  write_node-Adds no_branch w c v h = entry-Adds v 32 (none, w) h (Kept-self v)
  write_node-Adds (number s x) w c v h = scalar-Adds v h s x
  write_node-Adds (numbers s q xs) w c v h = array-Adds v h s q xs
  write_node-Adds (bits b) w c v h = bitset-Adds v h b
  write_node-Adds (text t) w c v h = str-Adds v h t
  write_node-Adds (texts ts) w c v h = strs-Adds v h ts
  write_node-Adds (graft_of pkt) w c v h = graft-Adds v h pkt
  write_node-Adds (branch_of cnt ns) w (e, cs) v h =
      branch-Adds v cnt (write_nodes ns) h λ u vu room.
        subst (λ k. Adds k u (write_nodes ns u)) e (write_nodes-Adds ns u cs vu (omega arith))

  write_nodes-Adds :
      (ns : Nodes) (w : PacketWriter)
      → AreCounted ns
      → IsValid w
      → w.frame.written + count ns ≤ w.frame.cnt
      → Adds (count ns) w (write_nodes ns w)
  write_nodes-Adds end w c v h = (
    w,
    refl,
    record {
      valid = v;
      same_len = refl;
      frame = ap (λ k. record w.frame { written = k }) (omega arith);
      grows = le_refl w.lim;
      first = λ e z. (z, refl, refl);
    },
  )
  write_nodes-Adds (and n ns) w (c, cs) v h =
      let (w1, e1, o1) = write_node-Adds n w c v (omega arith) in
      let written = ap (λ (f : Frame). f.written) o1.frame in
      let cnt = ap (λ (f : Frame). f.cnt) o1.frame in
      let (w2, e2, o2) = write_nodes-Adds ns w1 cs o1.valid (omega arith) in
      (w2, ap (λ r. r >>= write_nodes ns) e1 ∙ e2, Wrote-both 1 (count ns) o1 o2)

-- A tree whose branches are counted right, in a frame with a place to go: the call returns, one child further, with
-- a valid writer and a buffer as long as before. After a refusal it changes no byte, and the refusal stays.
pub write_node_correct :
    (n : Node) (w : PacketWriter)
    → IsCounted n
    → IsValid w
    → w.frame.written < w.frame.cnt
    → Adds 1 w (write_node n w)
write_node_correct n w c v h = write_node-Adds n w c v h
