-- ===== src/Gpu/Call/Copy.antt =====
-- gpu/encode.cpp: an encoder's copies, and what it clears and resolves.
use xpute.Common.{ℕ, Option, [], ◌∷◌, ◌++◌}
use xpute.Guest.Memory.{Memory}
use xpute.Guest.Stream.{Stream}
use xpute.Gpu.Op.{
  op_copy_buffer_to_buffer, op_copy_buffer_to_texture, op_copy_texture_to_buffer,
  op_copy_texture_to_texture, op_clear_buffer, op_resolve_query_set,
}
use xpute.Gpu.Descriptor.{TexelCopyTexture, TexelCopyBuffer}
use xpute.Gpu.Record.{word, emit, opt, texture_place, buffer_layout, extent}
use xpute.Gpu.Call.{Sent, send}

pub copy_buffer_to_buffer : ℕ → ℕ × ℕ → ℕ × ℕ → ℕ → Stream × Memory → Sent
unfolding send
copy_buffer_to_buffer encoder from to size s =
    send op_copy_buffer_to_buffer (encoder ∷ from.0 ∷ from.1 ∷ to.0 ∷ to.1 ∷ size ∷ []) s

pub copy_buffer_to_texture :
    ℕ → TexelCopyBuffer → TexelCopyTexture → ℕ × ℕ × ℕ → Stream × Memory → Sent
copy_buffer_to_texture encoder from to size s =
    emit op_copy_buffer_to_texture
      (word encoder ∷ (buffer_layout from ++ texture_place to ++ extent size)) s

pub copy_texture_to_buffer :
    ℕ → TexelCopyTexture → TexelCopyBuffer → ℕ × ℕ × ℕ → Stream × Memory → Sent
copy_texture_to_buffer encoder from to size s =
    emit op_copy_texture_to_buffer
      (word encoder ∷ (texture_place from ++ buffer_layout to ++ extent size)) s

pub copy_texture_to_texture :
    ℕ → TexelCopyTexture → TexelCopyTexture → ℕ × ℕ × ℕ → Stream × Memory → Sent
copy_texture_to_texture encoder from to size s =
    emit op_copy_texture_to_texture
      (word encoder ∷ (texture_place from ++ texture_place to ++ extent size)) s

pub clear_buffer : ℕ → ℕ → ℕ → Option ℕ → Stream × Memory → Sent
unfolding send
clear_buffer encoder buffer offset size s =
    send op_clear_buffer (encoder ∷ buffer ∷ offset ∷ opt size ∷ []) s

pub resolve_query_set : ℕ → ℕ → ℕ → ℕ → ℕ → ℕ → Stream × Memory → Sent
unfolding send
resolve_query_set encoder query_set first count buffer offset s =
    send op_resolve_query_set (encoder ∷ query_set ∷ first ∷ count ∷ buffer ∷ offset ∷ []) s
