-- ===== src/Wire/Xtp/Writer/Safe.antt =====
-- Each call of the writer writes in its buffer and adds one child, whatever it is given.
use xpute.Common.{
  either_way, ℕ, zero, suc, ◌+◌, ◌-◌, ◌*◌, ◌/◌, ◌%◌, ◌^◌, ◌≤◌, ◌<◌, ◌≡◌, inl, inr, refl, sym, ap,
  ◌∙◌, Bool, true, false, not, ◌||◌, List, [], ◌∷◌, length, take, drop, Option, none, some, ltb,
  ◌==◌, if◌then◌else◌, arith, ltb→ge, length-take, length-drop,
}
use native.Mathlib.Nat.{le_refl}
use xpute.Status.{Errno, Result, val, err, marshal_error}
use xpute.Wire.Tlv.{le}
use xpute.Wire.Tlv.Step.{length-le}
use xpute.Wire.Xtp.{
  ScalarType, SequenceType, scalar_type, sequence_type, Desc, align_sz, type_is_seq,
}
use xpute.Wire.Xtp.Cursor.{u32}
use xpute.Wire.Xtp.Cursor.Read.{scalar_sz}
use xpute.Wire.Xtp.Cursor.Within.{val_inj}
use xpute.Wire.Xtp.Writer.{
  PacketWriter, Placed, put, set_word, spoil, reserve, entry, at_place, word_up, scalar, seq,
  store_all, array, set_bits, bitset,
}
use xpute.Wire.Xtp.Writer.Tree.{
  lane_of, blob_len, store_strs, strs, graft_payload, graft_at, graft, graft_desc, unit_or_none,
}
use xpute.Wire.Xtp.Writer.Lengths.{
  length-put, length-set_word, length-store_all, length-set_bits, length-store_strs, IsUnit,
}
use xpute.Wire.Xtp.Writer.Kept.{
  IsValid, Kept, Kept-self, Lands, Lands-Kept, spoil-Kept, reserve-Lands, at_place-Lands,
}
use xpute.Wire.Xtp.Writer.Entry.{Adds, entry-Adds}

align_sz-IsUnit : (t : ℕ) {u : ℕ} → align_sz t ≡ val u → IsUnit u
unfolding align_sz
align_sz-IsUnit t e = of (t == 32 || type_is_seq t) _ _ _ _ e
  where
    of :
        (a b c d f : Bool) {u : ℕ}
        → (if a
            then val 8
            else if b
            then val 1
            else if c
            then val 2
            else if d
            then val 4
            else if f
            then val 8
            else err (marshal_error Errno.ebadmsg))
          ≡ val u
        → IsUnit u
    of true b c d f e = inr (inr (inr (sym (val_inj e))))
    of false true c d f e = inl (sym (val_inj e))
    of false false true d f e = inr (inl (sym (val_inj e)))
    of false false false true f e = inr (inr (inl (sym (val_inj e))))
    of false false false false true e = inr (inr (inr (sym (val_inj e))))
    of false false false false false e = absurd (cc)

blob_len-take : (n : ℕ) (ss : List (List ℕ)) → blob_len (take n ss) ≤ blob_len ss
blob_len-take zero ss = omega arith
blob_len-take (suc n) [] = le_refl 0
blob_len-take (suc n) (s ∷ ss) = omega (arith, blob_len-take n ss)

module _ {w : PacketWriter} (v : IsValid w) where
  module _ (room : w.frame.written < w.frame.cnt) where
    scalar-IsUnit : (s : ScalarType) → IsUnit (scalar_sz s)
    unfolding scalar_sz
    scalar-IsUnit ScalarType.u8 = inl refl
    scalar-IsUnit ScalarType.i8 = inl refl
    scalar-IsUnit ScalarType.boolean = inl refl
    scalar-IsUnit ScalarType.u16 = inr (inl refl)
    scalar-IsUnit ScalarType.i16 = inr (inl refl)
    scalar-IsUnit ScalarType.u32 = inr (inr (inl refl))
    scalar-IsUnit ScalarType.i32 = inr (inr (inl refl))
    scalar-IsUnit ScalarType.f32 = inr (inr (inl refl))
    scalar-IsUnit ScalarType.u64 = inr (inr (inr refl))
    scalar-IsUnit ScalarType.i64 = inr (inr (inr refl))
    scalar-IsUnit ScalarType.f64 = inr (inr (inr refl))

    -- What was reserved and then filled.
    filled :
        (need : ℕ) (ty : ℕ) (change : ℕ → List ℕ → List ℕ) (p : Placed)
        → Lands w need p
        → ((at_ : ℕ) (buf : List ℕ)
            → length buf ≡ length w.buf
            → at_ + need ≤ length buf
            → length (change at_ buf) ≡ length buf)
        → Adds 1 w (entry ty (at_place change p))
    filled need ty change p l h =
        entry-Adds v ty (at_place change p) room
          (Lands-Kept need (at_place change p) (at_place-Lands v need change p l h))

    pub scalar-Adds : (s : ScalarType) (x : Option ℕ) → Adds 1 w (scalar s x w)
    unfolding scalar
    scalar-Adds s none = entry-Adds v (scalar_type s) (none, w) room (Kept-self v)
    scalar-Adds s (some x) =
        let sz = scalar_sz s in
        filled sz (scalar_type s) (λ at_. put at_ (le sz x)) (reserve sz sz w)
          (reserve-Lands v sz sz (scalar-IsUnit s))
          (λ at_ buf e h. length-put at_ (le sz x) buf (omega (arith, length-le sz x)))

    seq-Lands : (len bytes : ℕ) → Lands w (8 + word_up bytes) (seq len bytes w)
    unfolding seq
    seq-Lands len bytes =
        at_place-Lands v (8 + word_up bytes) (λ at_. set_word at_ len 0)
          (reserve 8 (8 + word_up bytes) w)
          (reserve-Lands v 8 (8 + word_up bytes) (inr (inr (inr refl))))
          (λ at_ buf e h. length-set_word at_ len 0 buf (omega arith))

    pub array-Adds :
        (s : ScalarType) (q : SequenceType) (xs : Option (List ℕ)) → Adds 1 w (array s q xs w)
    unfolding array
    array-Adds s q none = entry-Adds v (sequence_type q) (none, w) room (Kept-self v)
    array-Adds s q (some xs) =
        let len = u32 (length xs) in
        let sz = scalar_sz s in
        filled (8 + word_up (len * sz)) (sequence_type q)
          (λ at_. store_all sz (at_ + 8) (take len xs)) (seq len (len * sz) w)
          (seq-Lands len (len * sz))
          (λ at_ buf e h.
            let few : length (take len xs) ≡ len = omega (arith, length-take len xs) in
            let all : length (take len xs) * sz ≡ len * sz = ap (λ (n : ℕ). n * sz) few in
            length-store_all sz (at_ + 8) (take len xs) buf (omega (arith, h, all)))

    pub bitset-Adds : (bits : Option (List ℕ)) → Adds 1 w (bitset bits w)
    unfolding bitset
    bitset-Adds none = entry-Adds v (sequence_type SequenceType.bitset) (none, w) room (Kept-self v)
    bitset-Adds (some bits) =
        let len = u32 (length bits) in
        let bytes = (len + 7) / 2 ^ 3 in
        filled (8 + word_up bytes) (sequence_type SequenceType.bitset)
          (λ at_. set_bits (at_ + 8) 0 (take len bits)) (seq len bytes w) (seq-Lands len bytes)
          (λ at_ buf e h.
            let few : length (take len bits) ≡ len = omega (arith, length-take len bits) in
            length-set_bits (at_ + 8) 0 (take len bits) buf (omega (arith, h, few)))

    pub strs-Adds : (items : Option (List (List ℕ))) → Adds 1 w (strs items w)
    unfolding strs
    strs-Adds none = entry-Adds v (sequence_type SequenceType.strs) (none, w) room (Kept-self v)
    strs-Adds (some items) =
        let n = u32 (length items) in
        let lane = lane_of n in
        let bytes = lane + blob_len items in
        let few = length-take n items in
        let fewer = blob_len-take n items in
        filled (8 + word_up bytes) (sequence_type SequenceType.strs)
          (λ at_ buf. store_strs (at_ + 8) lane 0 0 (take n items) (put (at_ + 8) (le 4 0) buf))
          (seq n bytes w) (seq-Lands n bytes)
          (λ at_ buf e h.
            let cap = v.capped in
            let start = length-put (at_ + 8) (le 4 0) buf (omega (arith, length-le 4 0)) in
            length-store_strs (at_ + 8) lane 0 0 (take n items) (put (at_ + 8) (le 4 0) buf)
              (omega arith) (omega arith) (omega arith)
            ∙ start)

    graft-Lands : (pkt : List ℕ) (d : Desc) → Kept w (graft_at pkt d w).1
    unfolding graft_at graft_payload
    graft-Lands pkt d =
        either_way (λ (p : Placed). Kept w p.1) (ltb (length pkt - 16) d.off)
          (λ h. spoil-Kept v Errno.ebadmsg)
          λ h.
            either_way (λ (p : Placed). Kept w p.1) (d.off == 0) (λ z. Kept-self v)
              λ z. payload_lands (align_sz d.ty) refl (ltb→ge (length pkt - 16) d.off h)
      where
        payload_lands :
            (r : Result ℕ)
            → align_sz d.ty ≡ r
            → d.off ≤ length pkt - 16
            → Kept w (graft_payload pkt d.off (unit_or_none r) w).1
        payload_lands (err e) a h = spoil-Kept v Errno.ebadmsg
        payload_lands (val u) a h =
            either_way (λ (p : Placed). Kept w p.1) (not (d.off % u == 0))
              (λ z. spoil-Kept v Errno.ebadmsg)
              λ z.
                let copied : length (take d.off (drop 16 pkt)) ≡ d.off =
                  omega (arith, length-take d.off (drop 16 pkt), length-drop 16 pkt) in
                let copy = λ (at_ : ℕ). put at_ (take d.off (drop 16 pkt)) in
                Lands-Kept d.off (at_place copy (reserve u d.off w)) (
                  at_place-Lands v d.off copy (reserve u d.off w)
                    (reserve-Lands v u d.off (align_sz-IsUnit d.ty a))
                    (λ at_ buf e k.
                      length-put at_ (take d.off (drop 16 pkt)) buf (omega (arith, k, copied))))

    pub graft-Adds : (pkt : List ℕ) → Adds 1 w (graft pkt w)
    unfolding graft
    graft-Adds pkt = of (graft_desc pkt)
      where
        of :
            (r : Result Desc)
            → Adds 1 w (elim r [
              | err e ↦ entry 0 (spoil Errno.ebadmsg w)
              | val d ↦ entry d.ty (graft_at pkt d w)
            ])
        of (err e) = entry-Adds v 0 (spoil Errno.ebadmsg w) room (spoil-Kept v Errno.ebadmsg)
        of (val d) = entry-Adds v d.ty (graft_at pkt d w) room (graft-Lands pkt d)
