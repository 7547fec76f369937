-- ===== src/Gpu/Call/Fits.antt =====
-- What a caller may measure before it writes: a write that `fits` is written.
use xpute.Common.{
  ℕ, ◌+◌, ◌*◌, ◌/◌, ◌^◌, ◌<◌, ◌≡◌, ◌≢◌, refl, true, arith, List, [], ◌∷◌, ◌++◌, length, All,
}
use xpute.Status.{done}
use xpute.Guest.Memory.{Memory, u32}
use xpute.Guest.Stream.{Stream, MarkState, fits}
use xpute.Guest.Stream.Inv.{IsValid}
use xpute.Gpu.Op.{op_write_buffer, op_write_texture}
use xpute.Gpu.Descriptor.{TexelCopyTexture}
use xpute.Gpu.Enum.{u, u-member}
use xpute.Gpu.Enum.Sample.{texture_aspect_coded}
use xpute.Gpu.Record.{count_from, bytes, packed, words}
use xpute.Gpu.Record.Written.{Written}
use xpute.Gpu.Record.Emit.{measured-fits}
use xpute.Gpu.Call.{
  write_buffer, write_buffer_bytes, buffer_write, write_texture, write_texture_bytes, texture_write,
}

-- Bytes that a record of 32 bits can count and hold.
abbrev pub IsPayload : List ℕ → Type 0
IsPayload bs = (length bs < 2 ^ 31) × All (λ b. b < 2 ^ 8) bs

packed-All : (bs : List ℕ) → All (λ b. b < 2 ^ 8) bs → All (λ v. v < 2 ^ 32) (packed bs ++ [])
unfolding packed
packed-All [] h = tt
packed-All (a ∷ []) h = (omega (arith, h.0), tt)
packed-All (a ∷ b ∷ []) h = (omega (arith, h.0, h.1.0), tt)
packed-All (a ∷ b ∷ c ∷ []) h = (omega (arith, h.0, h.1.0, h.1.1.0), tt)
packed-All (a ∷ b ∷ c ∷ d ∷ rest) h =
    (omega (arith, h.0, h.1.0, h.1.1.0, h.1.1.1.0), packed-All rest h.1.1.1.1)

length-packed_nil : (bs : List ℕ) → length (packed bs ++ []) ≡ (length bs + 3) / 4
unfolding packed
length-packed_nil [] = refl
length-packed_nil (a ∷ []) = refl
length-packed_nil (a ∷ b ∷ []) = refl
length-packed_nil (a ∷ b ∷ c ∷ []) = refl
length-packed_nil (a ∷ b ∷ c ∷ d ∷ rest) = omega (arith, length-packed_nil rest)

-- Where the room that `write_buffer_bytes` says fits a valid stream, and no open transaction has dropped a record,
-- `write_buffer` of fewer than 2^31 bytes, to a buffer and an offset of 32 bits, is recorded: it answers true, and the
-- memory reads its op, its count, the buffer, the offset, the bytes' length and the bytes in words.
pub write_buffer-fits :
    {m : Memory} {s : Stream} (buffer offset : ℕ) (bs : List ℕ)
    → IsValid m s
    → s.mark ≢ MarkState.spilled
    → (buffer < 2 ^ 32) × (offset < 2 ^ 32) × IsPayload bs
    → fits s (write_buffer_bytes bs) 0 ≡ true
    → let ws = buffer ∷ offset ∷ u32 (length bs) ∷ (packed bs ++ []) in
      (m' : Memory) × (write_buffer buffer offset bs (s, m)
        ≡ done (true, record s { len = s.len + 2 + length ws }, m'))
      × Written m m' (s.at + 4 * (s.head + s.len)) (op_write_buffer ∷ length ws ∷ ws)
unfolding write_buffer write_buffer_bytes words count_from
write_buffer-fits buffer offset bs v k (p, q, (small, all)) f =
    measured-fits op_write_buffer (buffer_write buffer offset bs) v
      (
        omega arith,
        (omega (arith, length-packed_nil bs), (p, (q, (omega arith, packed-All bs all)))),
      )
      k f

-- A place, a layout and a size of words of 32 bits.
abbrev pub InPlace : TexelCopyTexture → ℕ × ℕ → ℕ × ℕ × ℕ → Type 0
InPlace t layout size =
    All (λ v. v < 2 ^ 32)
      (t.texture ∷ t.mip ∷ t.origin.0 ∷ t.origin.1 ∷ t.origin.2 ∷ layout.0 ∷ layout.1 ∷ size.0
        ∷ size.1 ∷ size.2 ∷ [])

-- So with `write_texture` and `write_texture_bytes`, whatever the place, the layout and the size.
write_texture-fits :
    {m : Memory} {s : Stream} (t : TexelCopyTexture) (layout : ℕ × ℕ) (size : ℕ × ℕ × ℕ)
    (bs : List ℕ)
    → IsValid m s
    → s.mark ≢ MarkState.spilled
    → InPlace t layout size × IsPayload bs
    → fits s (write_texture_bytes bs) 0 ≡ true
    → let ws =
        t.texture
        ∷ t.mip
        ∷ t.origin.0
        ∷ t.origin.1
        ∷ t.origin.2
        ∷ u t.aspect
        ∷ layout.0
        ∷ layout.1
        ∷ size.0
        ∷ size.1
        ∷ size.2
        ∷ u32 (length bs)
        ∷ (packed bs ++ []) in
      (m' : Memory) × (write_texture t layout size bs (s, m)
        ≡ done (true, record s { len = s.len + 2 + length ws }, m'))
      × Written m m' (s.at + 4 * (s.head + s.len)) (op_write_texture ∷ length ws ∷ ws)
unfolding write_texture write_texture_bytes words count_from
write_texture-fits t layout size bs v k
      ((a, (b, (c, (d, (e, (g, (h, (i, (j, (l, z)))))))))), (small, all)) f =
    let h' : u (t.aspect) < 2 ^ 32 = omega (arith, (u-member t.aspect t.aspect).0) in
    measured-fits op_write_texture (texture_write t layout size ++ (bytes bs ∷ [])) v
      (
        omega arith,
        (
          omega (arith, length-packed_nil bs),
          (a, (b, (c, (d, (e, (h', (g, (h, (i, (j, (l, (omega arith, packed-All bs all)))))))))))),
        ),
      )
      k f
