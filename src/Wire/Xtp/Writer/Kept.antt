-- ===== src/Wire/Xtp/Writer/Kept.antt =====
-- What a step of the writer keeps: the buffer's length, the frame, what was refused, and a limit in the buffer.
use xpute.Common.{
  either_way, ℕ, ◌+◌, ◌*◌, ◌≤◌, ◌≡◌, inl, inr, refl, sym, ap, ◌∙◌, true, false, List, length,
  Option, none, some, ltb, is_some, arith, Option-cases, ltb→ge,
}
use native.Mathlib.Nat.{le_refl}
use xpute.Status.{Errno, Error}
use xpute.Wire.Xtp.Cursor.{u32}
use xpute.Wire.Xtp.Writer.{
  Frame, PacketWriter, Placed, max_pkt_sz, clear, round_up, spoil, reserve, at_place,
}
use xpute.Wire.Xtp.Writer.Lengths.{length-clear, IsUnit, round_up_ge}

-- Where nothing was refused, the limit lies past the header and in the buffer, and the words of an open branch
-- lie before it.
pub record IsValid (w : PacketWriter) : Type 0 where
  pub capped : length w.buf ≤ max_pkt_sz
  pub lo : w.failure ≡ none → 16 ≤ w.lim
  pub hi : w.failure ≡ none → w.lim ≤ length w.buf
  pub framed : w.failure ≡ none → w.frame.root ≡ false → w.frame.base + 8 + w.frame.cnt * 8 ≤ w.lim

-- From one writer to the next, within a node.
pub record Kept (w w' : PacketWriter) : Type 0 where
  pub same_len : length w'.buf ≡ length w.buf
  pub same_frame : w'.frame ≡ w.frame
  pub grows : w.lim ≤ w'.lim
  pub hi : w'.failure ≡ none → w'.lim ≤ length w'.buf
  pub first :
      (e : Error) → w.failure ≡ some e → (w'.failure ≡ some e) × (w'.buf ≡ w.buf) × (w'.lim ≡ w.lim)

pub Kept-going : {w w' : PacketWriter} → Kept w w' → w'.failure ≡ none → w.failure ≡ none
Kept-going {w} {w'} k e = elim (Option-cases w.failure) [
  | inl going ↦ going
  | inr (x, failed) ↦ let same = (k.first x failed).0 in absurd (cc)
]

pub Kept-self : {w : PacketWriter} → IsValid w → Kept w w
Kept-self {w} v = record {
  same_len = refl;
  same_frame = refl;
  grows = le_refl w.lim;
  hi = v.hi;
  first = λ e h. (h, refl, refl);
}

pub Kept-trans : {w w1 w2 : PacketWriter} → Kept w w1 → Kept w1 w2 → Kept w w2
Kept-trans {w} {w1} {w2} k l = record {
  same_len = l.same_len ∙ k.same_len;
  same_frame = l.same_frame ∙ k.same_frame;
  grows = omega (arith, k.grows, l.grows);
  hi = l.hi;
  first = λ e h.
      let (failed, buf, lim) = k.first e h in
      let (failed', buf', lim') = l.first e failed in (failed', buf' ∙ buf, lim' ∙ lim);
}

pub Kept-IsValid : {w w' : PacketWriter} → IsValid w → Kept w w' → IsValid w'
Kept-IsValid {w} {w'} v k = record {
  capped = omega (arith, v.capped, k.same_len);
  lo = λ e. omega (arith, v.lo (Kept-going k e), k.grows);
  hi = k.hi;
  framed = λ e r.
      let was = v.framed (Kept-going k e) (ap (λ (f : Frame). f.root) (sym k.same_frame) ∙ r) in
      omega (
        arith,
        was,
        k.grows,
        ap (λ (f : Frame). f.base) k.same_frame,
        ap (λ (f : Frame). f.cnt) k.same_frame,
      );
}

-- A place of so many bytes past the limit, all of it in the buffer, or none.
abbrev pub Lands : PacketWriter → ℕ → Placed → Type 0
Lands w need (none, w') = Kept w w' × (is_some w'.failure ≡ true)
Lands w need (some at_, w') =
    Kept w w' × (w'.failure ≡ none) × (w.lim ≤ at_) × (at_ + need ≤ w'.lim)

pub Lands-Kept : {w : PacketWriter} (need : ℕ) (p : Placed) → Lands w need p → Kept w p.1
Lands-Kept need (none, w') l = l.0
Lands-Kept need (some at_, w') l = l.0

pub going_or_not : (o : Option Error) → is_some o ≡ false → o ≡ none
going_or_not none e = refl
going_or_not (some x) e = absurd (cc)

module _ {w : PacketWriter} (v : IsValid w) where
  pub spoil-Kept : (e : Errno) → Kept w (spoil e w).1
  unfolding spoil
  spoil-Kept e =
      either_way (Kept w) (is_some w.failure) (λ h. Kept-self v)
        λ h. record {
          same_len = refl;
          same_frame = refl;
          grows = le_refl w.lim;
          hi = λ z. absurd (cc);
          first = λ x z. absurd (let t = ap is_some z in cc);
        }

  pub spoil-Lands : (e : Errno) (need : ℕ) → Lands w need (spoil e w)
  unfolding spoil
  spoil-Lands e need = (
    spoil-Kept e,
    either_way (λ (w' : PacketWriter). is_some w'.failure ≡ true) (is_some w.failure) (λ h. h)
        (λ h. refl),
  )

  -- Bytes that change within the buffer, and a limit that grows within it.
  pub change-Kept :
      (buf : List ℕ) (lim : ℕ)
      → w.failure ≡ none
      → length buf ≡ length w.buf
      → w.lim ≤ lim
      → lim ≤ length w.buf
      → Kept w (record w { buf = buf; lim = lim })
  change-Kept buf lim going same lo hi = record {
    same_len = same;
    same_frame = refl;
    grows = lo;
    hi = λ z. omega (arith, same, hi);
    first = λ x z. absurd (cc);
  }

  pub reserve-Lands : (unit bytes : ℕ) → IsUnit unit → Lands w bytes (reserve unit bytes w)
  unfolding reserve spoil
  reserve-Lands unit bytes u =
      let base = round_up w.lim unit in
      let end = base + bytes in
      let up = round_up_ge w.lim unit u in
      either_way (Lands w bytes) (is_some w.failure) (λ h. (Kept-self v, h))
        λ h.
          let going = going_or_not w.failure h in
          either_way (Lands w bytes) (ltb (length w.buf) end)
            (λ e. spoil-Lands Errno.eoverflow bytes)
            λ e.
              let room = ltb→ge (length w.buf) end e in
              let cap = v.capped in
              let whole : u32 end ≡ end = omega arith in
              let start : u32 base ≡ base = omega arith in
              (
                change-Kept (clear w.lim end w.buf) (u32 end) going
                    (length-clear w.lim end w.buf (v.hi going) room) (omega arith) (omega arith),
                going,
                omega arith,
                omega arith,
              )

  pub at_place-Lands :
      (need : ℕ) (change : ℕ → List ℕ → List ℕ) (p : Placed)
      → Lands w need p
      → ((at_ : ℕ) (buf : List ℕ)
          → length buf ≡ length w.buf
          → at_ + need ≤ length buf
          → length (change at_ buf) ≡ length buf)
      → Lands w need (at_place change p)
  unfolding at_place
  at_place-Lands need change (none, w') l h = l
  at_place-Lands need change (some at_, w') (k, going, lo, hi) h =
      let room = k.hi going in
      let same = h at_ w'.buf k.same_len (omega arith) in
      (
        record {
          same_len = same ∙ k.same_len;
          same_frame = k.same_frame;
          grows = k.grows;
          hi = λ z. omega (arith, same, room);
          first = λ x z. absurd (let t = Kept-going k going in cc);
        },
        going,
        lo,
        hi,
      )

-- What a node leaves: a writer that is valid and has so many children more, and that where something was refused
-- is the same but for the count.
pub record Wrote (count : ℕ) (w w' : PacketWriter) : Type 0 where
  pub valid : IsValid w'
  pub same_len : length w'.buf ≡ length w.buf
  pub frame : w'.frame ≡ record w.frame { written = w.frame.written + count }
  pub grows : w.lim ≤ w'.lim
  pub first :
      (e : Error) → w.failure ≡ some e → (w'.failure ≡ some e) × (w'.buf ≡ w.buf) × (w'.lim ≡ w.lim)
