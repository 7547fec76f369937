-- ===== src/Wire/Xtp/Writer/Entry.antt =====
-- An entry is one child more of the frame, wherever its node was put.
use xpute.Common.{
  either_way, ℕ, ◌+◌, ◌*◌, ◌<◌, ◌≡◌, refl, ap, ◌∙◌, List, length, some, is_some, if◌then◌else◌,
  arith, lt→ltb,
}
use xpute.Status.{Error, Run, done}
use xpute.Wire.Xtp.Cursor.{u32}
use xpute.Wire.Xtp.Writer.{Frame, PacketWriter, Placed, set_word, entry, place_of}
use xpute.Wire.Xtp.Writer.Lengths.{length-set_word}
use xpute.Wire.Xtp.Writer.Kept.{IsValid, Kept, Kept-IsValid, Kept-going, going_or_not, Wrote}

-- A call that returns, having added so many children.
abbrev pub Adds : ℕ → PacketWriter → Run PacketWriter → Type 0
Adds count w r = (w' : PacketWriter) × (r ≡ done w') × Wrote count w w'

abbrev pub counted : PacketWriter → ℕ → List ℕ → PacketWriter
counted w ty buf = record w {
  buf = buf;
  root_type = ty;
  frame = record w.frame { written = w.frame.written + 1 };
}

module _ {w : PacketWriter} (v : IsValid w) where
  counted-Wrote :
      {w' : PacketWriter} (ty : ℕ) (buf : List ℕ)
      → Kept w w'
      → length buf ≡ length w'.buf
      → ((e : Error) → w.failure ≡ some e → buf ≡ w'.buf)
      → Wrote 1 w (counted w' ty buf)
  counted-Wrote {w'} ty buf k same kept =
      let v' = Kept-IsValid v k in
      record {
        valid = record {
          capped = omega (arith, v'.capped, same);
          lo = v'.lo;
          hi = λ e. omega (arith, v'.hi e, same);
          framed = v'.framed;
        };
        same_len = same ∙ k.same_len;
        frame = ap (λ (f : Frame). record f { written = f.written + 1 }) k.same_frame;
        grows = k.grows;
        first = λ e h.
            let (failed, same_buf, same_lim) = k.first e h in
            (failed, kept e h ∙ same_buf, same_lim);
      }

  -- An entry is one child more, wherever the node was put.
  pub entry-Adds :
      (ty : ℕ) (p : Placed) → w.frame.written < w.frame.cnt → Kept w p.1 → Adds 1 w (entry ty p)
  unfolding entry
  entry-Adds ty (at_, w') room k =
      let v' = Kept-IsValid v k in
      let f = k.same_frame in
      let written = ap (λ (f : Frame). f.written) f in
      let cnt = ap (λ (f : Frame). f.cnt) f in
      let next = record w'.frame { written = w'.frame.written + 1 } in
      let off = u32 (w'.frame.base + 8 + w'.frame.written * 8) in
      let buf = set_word off (place_of w'.frame.base at_) ty w'.buf in
      let before : w'.frame.written < w'.frame.cnt = omega arith in
      (
        if w'.frame.root
            then counted w' ty w'.buf
            else if is_some w'.failure
            then counted w' w'.root_type w'.buf
            else counted w' w'.root_type buf,
        rw (lt→ltb w'.frame.written w'.frame.cnt before) refl,
        either_way (Wrote 1 w) w'.frame.root (λ h. counted-Wrote ty w'.buf k refl (λ e z. refl))
            λ inner.
              either_way (Wrote 1 w) (is_some w'.failure)
                (λ h. counted-Wrote w'.root_type w'.buf k refl (λ e z. refl))
                λ h.
                  let going = going_or_not w'.failure h in
                  let words = v'.framed going inner in
                  let hi = v'.hi going in
                  let cap = v'.capped in
                  counted-Wrote w'.root_type buf k
                    (length-set_word off (place_of w'.frame.base at_) ty w'.buf (omega arith))
                    (λ e z. absurd (let t = Kept-going k going in cc)),
      )
