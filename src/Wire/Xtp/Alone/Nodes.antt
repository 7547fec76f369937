-- ===== src/Wire/Xtp/Alone/Nodes.antt =====
-- The steps from node to node are of the packet alone.
use xpute.Common.{
  ℕ, zero, suc, ◌+◌, ◌-◌, ◌*◌, ◌/◌, ◌^◌, ◌%◌, ◌≤◌, ◌<◌, ◌≡◌, refl, ap, ap₂, not, List, ◌++◌, length,
  ltb, ◌==◌, min, if◌then◌else◌, arith, ltb→ge,
}
use xpute.Status.{val}
use xpute.Wire.Xtp.{Desc, align_sz, get_len, get_desc, word_sz}
use xpute.Wire.Xtp.Cursor.{
  Cursor, u32, bad, ◌>>=◌, branch_type, hdr_sz, magic_ok, cursor_at, next_from, end_of,
  present_child, child_at, root_at, read_tree,
}
use xpute.Wire.Xtp.Cursor.Within.{next_from-le}
use xpute.Wire.Xtp.Alone.{
  guarded, bind_alike, bind_both, get_word_alone, get_len_alone, get_desc_alone,
}

module _ (mem more : List ℕ) where
  cursor_at_alone :
      (pkt base ty : ℕ)
      → pkt ≤ length mem
      → cursor_at (mem ++ more) pkt base ty ≡ cursor_at mem pkt base ty
  unfolding cursor_at
  cursor_at_alone pkt base ty h = bind_alike (align_sz ty) λ unit e.
      guarded (not (base % unit == 0)) _ λ e1. guarded (not (ty == branch_type)) _ (λ _.
        guarded (ltb pkt (base + word_sz)) _ λ e2.
          let room = ltb→ge pkt (base + 8) e2 in
          ap
            (λ r. r >>= λ n.
              if ltb ((pkt - base - word_sz) / word_sz) n
              then bad
              else val (record { pkt = pkt; base = base; ty = ty; len = n }))
            (get_len_alone mem more base (omega arith)))

  module _ (b : Cursor) (small : b.pkt < 2 ^ 32) (fits : b.pkt ≤ length mem)
      (room : b.base + 8 + b.len * 8 ≤ b.pkt) where
    next_from_alone :
        (n j : ℕ) → n + j ≤ b.len → next_from (mem ++ more) b n j ≡ next_from mem b n j
    unfolding next_from
    next_from_alone zero j h = refl
    next_from_alone (suc n) j h =
        ap₂ (λ (w : ℕ × ℕ) rest. if not (w.0 == 0) then u32 (min (b.base + w.0) b.pkt) else rest)
          (get_word_alone mem more (u32 (b.base + 8 + j * 8)) (omega arith))
          (next_from_alone n (j + 1) (omega arith))

    present_child_alone :
        (idx : ℕ) (d : Desc)
        → idx < b.len
        → present_child (mem ++ more) b idx d ≡ present_child mem b idx d
    unfolding present_child end_of
    present_child_alone idx d h =
        let n = b.len - (idx + 1) in
        let same = next_from_alone n (idx + 1) (omega arith) in
        let end = next_from mem b n (idx + 1) in
        let child = u32 (b.base + d.off) in
        rw
          (
            same,
            cursor_at_alone end child d.ty (omega (arith, next_from-le mem b n (idx + 1) small)),
          )
          refl

    pub child_at_alone : (idx : ℕ) → child_at (mem ++ more) b idx ≡ child_at mem b idx
    unfolding child_at
    child_at_alone idx = guarded (not (ltb idx b.len)) _ λ e.
        let near : idx < b.len = ground arith in
        bind_both (get_desc_alone mem more (u32 (b.base + 8 + idx * 8)) (omega arith))
          λ d e. guarded (d.off == 0) _ λ z. present_child_alone idx d near

  pub read_tree_alone :
      length mem < 2 ^ 32 → read_tree (mem ++ more) (length mem) ≡ read_tree mem (length mem)
  unfolding read_tree root_at
  read_tree_alone small = guarded (ltb (length mem) hdr_sz) _ λ e.
      let long = ltb→ge (length mem) hdr_sz e in
      rw (get_len_alone mem more 0 (omega arith), get_desc_alone mem more 8 (omega arith))
        (guarded (not (magic_ok (get_len mem 0))) _ λ e1. bind_alike (get_desc mem 8) λ d e2.
          guarded (ltb (length mem - hdr_sz) d.off) _ λ e3.
            guarded (d.off == 0) _
              λ z. (cursor_at_alone (u32 (hdr_sz + d.off)) hdr_sz d.ty (ground arith)))
