-- ===== src/Wire/Xtp/Writer/Lengths.antt =====
-- A write within the buffer keeps its length, so one that does keep it is within.
use xpute.Common.{
  ℕ, suc, ◌+◌, ◌-◌, ◌*◌, ◌/◌, ◌%◌, ◌^◌, ◌≤◌, ◌<◌, ◌≡◌, ◌⊎◌, inl, inr, refl, ◌∙◌, List, [], ◌∷◌,
  ◌++◌, length, take, drop, replicate, get_or, ◌==◌, if◌then◌else◌, arith, length-append,
  length-take, length-drop, length-replicate, Bool-cases,
}
use Prim.Native.Nat.{bit_or}
use xpute.Wire.Tlv.{le}
use xpute.Wire.Tlv.Step.{length-le}
use xpute.Wire.Xtp.Cursor.{u32}
use xpute.Wire.Xtp.Writer.{put, clear, set_word, store_all, set_bits, round_up}
use xpute.Wire.Xtp.Writer.Tree.{store_strs, blob_len}

pub length-put :
    (off : ℕ) (bytes buf : List ℕ)
    → off + length bytes ≤ length buf
    → length (put off bytes buf) ≡ length buf
unfolding put
length-put off bytes buf h = omega (
  arith,
  length-append (take off buf) (bytes ++ drop (off + length bytes) buf),
  length-append bytes (drop (off + length bytes) buf),
  length-take off buf,
  length-drop (off + length bytes) buf,
)

pub length-clear :
    (from end : ℕ) (buf : List ℕ)
    → from ≤ length buf
    → end ≤ length buf
    → length (clear from end buf) ≡ length buf
unfolding clear
length-clear from end buf h k =
    length-put from (replicate (end - from) 0) buf
      (omega (arith, length-replicate {A = ℕ} (end - from) 0))

pub length-set_word :
    (off lo hi : ℕ) (buf : List ℕ)
    → off + 8 ≤ length buf
    → length (set_word off lo hi buf) ≡ length buf
unfolding set_word
length-set_word off lo hi buf h =
    let low = length-put off (le 4 lo) buf (omega (arith, length-le 4 lo)) in
    length-put (off + 4) (le 4 hi) (put off (le 4 lo) buf) (omega (arith, low, length-le 4 hi))
    ∙ low

pub length-store_all :
    (sz off : ℕ) (xs buf : List ℕ)
    → off + length xs * sz ≤ length buf
    → length (store_all sz off xs buf) ≡ length buf
unfolding store_all
length-store_all sz off [] buf h = refl
length-store_all sz off (x ∷ xs) buf h =
    let step : length xs * sz + sz ≡ suc (length xs) * sz = grind arith in
    let one = length-put off (le sz x) buf (omega (arith, h, step, length-le sz x)) in
    length-store_all sz (off + sz) xs (put off (le sz x) buf) (omega (arith, h, step, one)) ∙ one

pub length-set_bits :
    (payload i : ℕ) (bits buf : List ℕ)
    → payload + (i + length bits + 7) / 8 ≤ length buf
    → length (set_bits payload i bits buf) ≡ length buf
unfolding set_bits
length-set_bits payload i [] buf h = refl
length-set_bits payload i (b ∷ bs) buf h =
    let k = payload + i / 2 ^ 3 in
    let byte = bit_or (get_or buf k 0) (2 ^ (i % 2 ^ 3)) in
    let one : length (if b == 0 then buf else put k (byte ∷ []) buf) ≡ length buf =
      elim (Bool-cases (b == 0)) [
        | inl unset ↦ rw unset refl
        | inr is_set ↦ rw is_set (length-put k (byte ∷ []) buf (omega arith))
      ] in
    length-set_bits payload (i + 1) bs (if b == 0 then buf else put k (byte ∷ []) buf)
      (omega (arith, h, one))
    ∙ one

pub length-store_strs :
    (payload lane i off : ℕ) (ss : List (List ℕ)) (buf : List ℕ)
    → payload + 4 * (i + length ss + 1) ≤ length buf
    → payload + lane + off + blob_len ss ≤ length buf
    → length buf < 2 ^ 32
    → length (store_strs payload lane i off ss buf) ≡ length buf
unfolding store_strs
length-store_strs payload lane i off [] buf h k small = refl
length-store_strs payload lane i off (s ∷ ss) buf h k small =
    let next = u32 (off + length s) in
    let copied = length-put (payload + lane + off) s buf (omega arith) in
    let b = put (payload + lane + off) s buf in
    let one =
      length-put (payload + 4 * (i + 1)) (le 4 next) b (omega (arith, length-le 4 next, copied)) in
    length-store_strs payload lane (i + 1) next ss (put (payload + 4 * (i + 1)) (le 4 next) b)
      (omega (arith, one, copied)) (omega (arith, one, copied)) (omega (arith, one, copied))
    ∙ one
    ∙ copied

abbrev pub IsUnit : ℕ → Type 0
IsUnit u = (u ≡ 1) ⊎ (u ≡ 2) ⊎ (u ≡ 4) ⊎ (u ≡ 8)

pub round_up_ge : (n u : ℕ) → IsUnit u → n ≤ round_up n u
round_up_ge n u (inl e) = rw e (omega arith)
round_up_ge n u (inr (inl e)) = rw e (omega arith)
round_up_ge n u (inr (inr (inl e))) = rw e (omega arith)
round_up_ge n u (inr (inr (inr e))) = rw e (omega arith)
