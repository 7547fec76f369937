-- ===== src/Gpu/Call.antt =====
-- gpu/encode.cpp: the calls that make no object, each an op's words straight to the stream; false where
-- an open transaction no longer fits them. What lies in the guest's memory is its address and length,
-- and `base` is the memory's start. Here those that write, map and wait; the children have the others.
pub mod Copy
pub mod Fits
pub mod Ticket
pub mod Pass
use xpute.Common.{ℕ, Bool, true, false, Option, none, some, List, [], ◌∷◌, ◌++◌, length}
use xpute.Status.{Run, done, ◌>>=◌}
use xpute.Guest.Memory.{Memory, u32, off_of, off_of_span, raw_set_word}
use xpute.Guest.Stream.{Stream}
use xpute.Gpu.Enum.{u}
use xpute.Gpu.Enum.Texture.{TextureFormat, texture_format_coded}
use xpute.Gpu.Enum.Sample.{TextureAspect}
use xpute.Gpu.Enum.Pass.{CanvasAlphaMode, canvas_alpha_mode_coded}
use xpute.Gpu.Op.{
  op_write_buffer, op_write_buffer_at, op_write_texture, op_write_texture_at,
  op_copy_external_image, op_map_async, op_queue_done, op_configure, op_resize, op_device,
  surface_preferred,
}
use xpute.Gpu.Descriptor.{TexelCopyTexture}
use xpute.Gpu.Record.{Part, bytes, words, emit, measured, flag, texture_place, extent}

-- What a call comes to: whether its record was written, the stream and the memory after it.
abbrev pub Sent : Type 0
Sent = Run (Bool × Stream × Memory)

-- `words`, a record of words alone.
unfoldable pub send : ℕ → List ℕ → Stream × Memory → Sent
send op w s = emit op (words w) s

abbrev pub buffer_write : ℕ → ℕ → List ℕ → List Part
buffer_write buffer offset bs = words (buffer ∷ offset ∷ []) ++ (bytes bs ∷ [])

unfoldable pub write_buffer : ℕ → ℕ → List ℕ → Stream × Memory → Sent
write_buffer buffer offset bs s = emit op_write_buffer (buffer_write buffer offset bs) s

unfoldable pub write_buffer_bytes : List ℕ → ℕ
write_buffer_bytes bs = measured (buffer_write 0 0 bs)

abbrev pub texture_write : TexelCopyTexture → ℕ × ℕ → ℕ × ℕ × ℕ → List Part
texture_write place layout size =
    texture_place place ++ words (layout.0 ∷ layout.1 ∷ []) ++ extent size

unfoldable pub write_texture :
    TexelCopyTexture → ℕ × ℕ → ℕ × ℕ × ℕ → List ℕ → Stream × Memory → Sent
write_texture place layout size bs s =
    emit op_write_texture (texture_write place layout size ++ (bytes bs ∷ [])) s

abbrev pub no_place : TexelCopyTexture
no_place = record { texture = 0; mip = 0; origin = (0, 0, 0); aspect = TextureAspect.all }

unfoldable pub write_texture_bytes : List ℕ → ℕ
write_texture_bytes bs = measured (texture_write no_place (0, 0) (0, 0, 0) ++ (bytes bs ∷ []))

pub configure : ℕ → Option TextureFormat → ℕ → CanvasAlphaMode → Stream × Memory → Sent
unfolding send
configure surface none usage alpha s =
    send op_configure (surface ∷ surface_preferred ∷ usage ∷ u alpha ∷ []) s
configure surface (some format) usage alpha s =
    send op_configure (surface ∷ u format ∷ usage ∷ u alpha ∷ []) s

pub resize : ℕ → ℕ × ℕ → Stream × Memory → Sent
unfolding send
resize surface size s = send op_resize (surface ∷ size.0 ∷ size.1 ∷ []) s

-- `word = ticket`, and where the word lies. The word is written before its offset is asked for, which
-- does not show: a word outside the memory is the bug of `off_of`.
unfoldable pub ticketed : ℕ → ℕ → ℕ → Memory → Run (ℕ × Memory)
ticketed base word ticket m = do at ← off_of m base word; done (at, raw_set_word m at ticket)

module _ (base : ℕ) where
  pub write_buffer_at : ℕ → ℕ → ℕ × ℕ → Stream × Memory → Sent
  unfolding send
  write_buffer_at buffer offset bs (s, m) = do
    at ← off_of_span m base bs
    send op_write_buffer_at (buffer ∷ offset ∷ at ∷ u32 bs.1 ∷ []) (s, m)

  pub write_texture_at : TexelCopyTexture → ℕ × ℕ → ℕ × ℕ × ℕ → ℕ × ℕ → Stream × Memory → Sent
  write_texture_at place layout size bs (s, m) = do
    at ← off_of_span m base bs
    emit op_write_texture_at (texture_write place layout size ++ words (at ∷ u32 bs.1 ∷ [])) (s, m)

  pub copy_external_image : TexelCopyTexture → Bool → Bool → ℕ × ℕ → ℕ → ℕ → Stream × Memory → Sent
  unfolding ticketed
  copy_external_image to flip_y premultiplied image word ticket (s, m) = do
    image_at ← off_of_span m base image
    (word_at, m') ← ticketed base word ticket m
    emit op_copy_external_image
        (texture_place to
          ++ words
              (flag flip_y ∷ flag premultiplied ∷ image_at ∷ u32 image.1 ∷ word_at ∷ ticket ∷ []))
        (s, m')

  pub map_async : ℕ → ℕ → ℕ × ℕ → ℕ → ℕ → Stream × Memory → Sent
  unfolding send ticketed
  map_async buffer offset into word ticket (s, m) = do
    into_at ← off_of_span m base into
    (word_at, m') ← ticketed base word ticket m
    send op_map_async (buffer ∷ offset ∷ u32 into.1 ∷ into_at ∷ word_at ∷ ticket ∷ []) (s, m')

  pub queue_done : ℕ → ℕ → Stream × Memory → Sent
  unfolding send ticketed
  queue_done word ticket (s, m) = do
    (word_at, m') ← ticketed base word ticket m
    send op_queue_done (word_at ∷ ticket ∷ []) (s, m')

  pub device : ℕ × ℕ → Stream × Memory → Sent
  unfolding send
  device into (s, m) = do at ← off_of_span m base into; send op_device (at ∷ u32 into.1 ∷ []) (s, m)
