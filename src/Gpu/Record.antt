-- ===== src/Gpu/Record.antt =====
-- gpu/encode.hpp, its `detail`: a record's words, which one function gives twice, once to count them and
-- once into the room that the stream reserved. What the function puts is a list of parts here.
pub mod Written
pub mod Emit
use xpute.Common.{
  ℕ, zero, suc, ◌+◌, ◌-◌, ◌*◌, ◌/◌, ◌%◌, ◌^◌, Bool, true, false, Option, none, some, List, [], ◌∷◌,
  ◌++◌, length, ◌==◌,
}
use xpute.Status.{Errno, Run, done, ◌>>=◌, ◌>>◌, ensure}
use xpute.Guest.Memory.{Memory, u32, set_word}
use xpute.Guest.Stream.{Stream, reserve, word_bytes}
use xpute.Gpu.Enum.{Coded, u}
use xpute.Gpu.Op.{none_word}
use xpute.Gpu.Descriptor.{TimestampWrites, TexelCopyTexture, TexelCopyBuffer, StencilFaceState}
use xpute.Gpu.Enum.Sample.{texture_aspect_coded}
use xpute.Gpu.Enum.Blend.{compare_function_coded, stencil_operation_coded}

-- What a record's writer is handed: a word, or bytes, which come as their count and then words.
pub data Part : Type 0 where
  word : ℕ → Part
  bytes : List ℕ → Part

-- `Count`, whose `n` is a `uint32_t`.
abbrev pub counted : Part → ℕ → ℕ
counted (word v) n = u32 (n + 1)
counted (bytes b) n = u32 (n + u32 (1 + u32 ((length b + word_bytes - 1) / word_bytes)))

unfoldable pub count_from : ℕ → List Part → ℕ
count_from n [] = n
count_from n (p ∷ ps) = count_from (counted p n) ps

abbrev pub count : List Part → ℕ
count ps = count_from 0 ps

-- Up to four bytes at a time as a word, low byte first, the rest of the last one 0.
unfoldable pub packed : List ℕ → List ℕ
packed [] = []
packed (a ∷ []) = a ∷ []
packed (a ∷ b ∷ []) = (a + b * 2 ^ 8) ∷ []
packed (a ∷ b ∷ c ∷ []) = (a + b * 2 ^ 8 + c * 2 ^ 16) ∷ []
packed (a ∷ b ∷ c ∷ d ∷ rest) = (a + b * 2 ^ 8 + c * 2 ^ 16 + d * 2 ^ 24) ∷ packed rest

-- `Fill`: the words written so far, and the memory.
unfoldable pub fill_word : ℕ → ℕ → ℕ × Memory → Run (ℕ × Memory)
fill_word at v (n, m) = do
  m' ← set_word m (u32 (at + u32 (word_bytes * n))) v
  done (u32 (n + 1), m')

unfoldable pub fill_words : ℕ → List ℕ → ℕ × Memory → Run (ℕ × Memory)
unfolding fill_word
fill_words at [] s = done s
fill_words at (v ∷ vs) s = do s' ← fill_word at v s; fill_words at vs s'

unfoldable pub fill_part : ℕ → Part → ℕ × Memory → Run (ℕ × Memory)
unfolding fill_word fill_words packed
fill_part at (word v) s = fill_word at v s
fill_part at (bytes b) s = do s' ← fill_word at (u32 (length b)) s; fill_words at (packed b) s'

unfoldable pub fill_parts : ℕ → List Part → ℕ × Memory → Run (ℕ × Memory)
unfolding fill_part
fill_parts at [] s = done s
fill_parts at (p ∷ ps) s = do s' ← fill_part at p s; fill_parts at ps s'

-- What is written where the stream had room, and that as much was written as was counted.
abbrev pub filled : List Part → Option ℕ × Stream × Memory → Run (Bool × Stream × Memory)
filled ps (none, s, m) = done (false, s, m)
filled ps (some at, s, m) = do
  (n, m') ← fill_parts at ps (0, m)
  ensure (n == count ps) Errno.enotrecoverable
  done (true, s, m')

unfoldable pub emit : ℕ → List Part → Stream × Memory → Run (Bool × Stream × Memory)
unfolding count_from fill_parts
emit op ps (s, m) = do r ← reserve m s op (count ps); filled ps r

-- In 64 bits.
abbrev pub measured : List Part → ℕ
measured ps = (2 + count ps) * word_bytes

abbrev pub opt : Option ℕ → ℕ
opt none = none_word
opt (some v) = v

abbrev pub opt_u : {A : Type 0} ⦃c : Coded A⦄ → Option A → ℕ
opt_u none = none_word
opt_u (some a) = u a

abbrev pub flag : Bool → ℕ
flag true = 1
flag false = 0

unfoldable pub words : List ℕ → List Part
words [] = []
words (v ∷ vs) = word v ∷ words vs

abbrev pub timestamps : Option TimestampWrites → List Part
timestamps none = words (none_word ∷ none_word ∷ none_word ∷ [])
timestamps (some t) = words (t.query_set ∷ opt t.begin ∷ opt t.end ∷ [])

abbrev pub texture_place : TexelCopyTexture → List Part
texture_place t = words (t.texture ∷ t.mip ∷ t.origin.0 ∷ t.origin.1 ∷ t.origin.2 ∷ u t.aspect ∷ [])

abbrev pub buffer_layout : TexelCopyBuffer → List Part
buffer_layout b = words (b.buffer ∷ b.offset ∷ b.bytes_per_row ∷ b.rows_per_image ∷ [])

abbrev pub extent : ℕ × ℕ × ℕ → List Part
extent e = words (e.0 ∷ e.1 ∷ e.2 ∷ [])

abbrev pub stencil_face : StencilFaceState → List Part
stencil_face f = words (u f.compare ∷ u f.fail ∷ u f.depth_fail ∷ u f.pass ∷ [])
