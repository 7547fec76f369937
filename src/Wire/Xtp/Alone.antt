-- ===== src/Wire/Xtp/Alone.antt =====
-- Reads of a packet are of its bytes alone: what lies behind them in memory makes no difference.
pub mod Nodes
pub mod Values
pub mod Trees
use xpute.Common.{
  ℕ, zero, suc, ◌+◌, ◌-◌, ◌*◌, ◌^◌, ◌%◌, ◌≤◌, ◌<◌, ◌≡◌, refl, ap, ◌∙◌, Bool, true, false, List, [],
  ◌∷◌, ◌++◌, length, take, drop, if◌then◌else◌, not, ◌||◌, ◌==◌, arith,
}
use Prim.Native.Nat.{bit_and}
use xpute.Status.{Errno, Result, val, err, marshal_error}
use xpute.Wire.Tlv.{from_le}
use xpute.Wire.Xtp.{Desc, get_word, get_len, get_desc, desc_type_mask, type_is_known}
use xpute.Wire.Xtp.Cursor.{◌>>=◌, load}

take-append {ℓ} :
    {A : Type ℓ} (n : ℕ) (xs ys : List A) → n ≤ length xs → take n (xs ++ ys) ≡ take n xs
take-append zero xs ys h = refl
take-append (suc n) [] ys h = absurd (omega arith)
take-append (suc n) (x ∷ xs) ys h = ap (◌∷◌ x) (take-append n xs ys (omega arith))

pub take-drop-append {ℓ} :
    {A : Type ℓ} (off n : ℕ) (xs ys : List A)
    → off + n ≤ length xs
    → take n (drop off (xs ++ ys)) ≡ take n (drop off xs)
take-drop-append zero n xs ys h = take-append n xs ys (omega arith)
take-drop-append (suc off) n [] ys h = absurd (omega arith)
take-drop-append (suc off) n (x ∷ xs) ys h = take-drop-append off n xs ys (omega arith)

-- A test's later part may count on the test.
pub guarded {ℓ} :
    {A : Type ℓ} (t : Bool) (z : A) {x y : A}
    → (t ≡ false → x ≡ y)
    → (if t then z else x) ≡ (if t then z else y)
guarded true z h = refl
guarded false z h = h refl

pub bind_alike {ℓ κ} :
    {A : Type ℓ} {B : Type κ} (r : Result A) {f g : A → Result B}
    → ((a : A) → r ≡ val a → f a ≡ g a)
    → (r >>= f) ≡ (r >>= g)
bind_alike (val a) h = h a refl
bind_alike (err e) h = refl

pub bind_both {ℓ κ} :
    {A : Type ℓ} {B : Type κ} {r s : Result A} {f g : A → Result B}
    → r ≡ s
    → ((a : A) → s ≡ val a → f a ≡ g a)
    → (r >>= f) ≡ (s >>= g)
bind_both {s = s} {f} e h = ap (λ r. r >>= f) e ∙ bind_alike s h

abbrev desc_of_word : ℕ × ℕ → Result Desc
desc_of_word w =
    let t = bit_and w.1 desc_type_mask in
    if not (w.1 == t) || not (type_is_known t)
    then err (marshal_error Errno.ebadmsg)
    else val (record { off = w.0; ty = t })

module _ (mem more : List ℕ) where
  pub load_alone : (n off : ℕ) → off + n ≤ length mem → load (mem ++ more) n off ≡ load mem n off
  unfolding load
  load_alone n off h = ap from_le (take-drop-append off n mem more h)

  pub get_word_alone :
      (off : ℕ) → off + 8 ≤ length mem → get_word (mem ++ more) off ≡ get_word mem off
  unfolding get_word
  get_word_alone off h =
      rw
        (
          take-drop-append off 4 mem more (omega arith),
          take-drop-append (off + 4) 4 mem more (omega arith),
        )
        refl

  pub get_len_alone : (off : ℕ) → off + 8 ≤ length mem → get_len (mem ++ more) off ≡ get_len mem off
  unfolding get_len
  get_len_alone off h =
      ap (λ (w : ℕ × ℕ). if w.1 == 0 then val w.0 else err (marshal_error Errno.ebadmsg))
        (get_word_alone off h)

  pub get_desc_alone :
      (off : ℕ) → off + 8 ≤ length mem → get_desc (mem ++ more) off ≡ get_desc mem off
  unfolding get_desc
  get_desc_alone off h = ap desc_of_word (get_word_alone off h)
