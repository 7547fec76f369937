-- ===== src/Gpu/Tests.antt =====
-- Runs of a few GPU calls, and the witnesses; the children have those of objects and of their records.
mod Objects
use xpute.Common.{
  ℕ, ◌+◌, ◌*◌, ◌^◌, ◌<◌, ◌≡◌, ◌↔◌, refl, arith, Bool, true, false, Option, none, some, List, [],
  ◌∷◌, ◌++◌, length,
}
use xpute.Status.{done, map_run}
use xpute.Guest.Memory.{Memory, raw_set_word, set_word}
use xpute.Guest.Stream.{Stream, MarkState, reserve, reserve_in, opened}
use xpute.Guest.Stream.Inv.{IsValid}
use xpute.Guest.Handle.{
  Slot, Table, insert, remove, live, rollback, rollback_from, rollback_step, handle_of, handle_slot,
}
use xpute.Guest.Handle
use xpute.Guest.Handle.Inv
use xpute.Gpu.Enum.{u, u-member}
use xpute.Gpu.Enum.Texture.{TextureFormat, texture_format_coded}
use xpute.Gpu.Enum.Vertex.{PrimitiveTopology, FrontFace, CullMode, VertexStepMode, VertexFormat}
use xpute.Gpu.Enum.Sample.{
  TextureAspect, BufferBindingType, SamplerBindingType, texture_aspect_coded,
}
use xpute.Gpu.Enum.Pass.{LoadOp, StoreOp}
use xpute.Gpu.Op.{
  op_write_buffer, op_write_texture, op_buffer, op_set_pipeline, binding_entry_words,
  resource_entry_words,
}
use xpute.Gpu.Descriptor.{
  TexelCopyTexture, BindGroupLayoutEntry, BindGroupEntry, RenderPassDescriptor,
  RenderPipelineDescriptor, buffer_binding, sampler_binding, buffer_resource,
}
use xpute.Gpu.Record.{
  Part, bytes, words, emit, count_from, fill_parts, fill_part, fill_word, fill_words, packed,
}
use xpute.Gpu.Record.Written.{Written, flat}
use xpute.Gpu.Record.Emit.{Emitted, emit_correct}
use xpute.Gpu.Parts.{bind_group_layout, bind_group}
use xpute.Gpu.Parts.Pass.{render_pass, render_pipeline}
use xpute.Gpu.Parts.Shape.{size-bindings, size-render_pass, size-render_pipeline}
use xpute.Gpu.Call.{
  write_buffer, write_texture, write_buffer_bytes, write_texture_bytes, queue_done,
}
use xpute.Gpu.Call.Fits.{write_buffer-fits}
use xpute.Gpu.Call.Ticket.{Answered, queue_done_correct}
use xpute.Gpu.Objects.{Gpu, make, forget, begin, commit, forget_all}
use xpute.Gpu.Objects.Make.{MakeEnd, make_correct}
use xpute.Gpu.Objects.Transaction.{AttemptEnd, attempt, make_all, attempt_correct}

abbrev pub zeros : Memory
zeros = record { size = 256; byte = λ a. 0 }

-- Two words were recorded of a range of forty.
abbrev pub forty : Stream
forty = record { at = 16; words = 40; head = 1; len = 2; mark = MarkState.off_mark; mark_at = 0 }

abbrev pub forty_open : Stream
forty_open = record forty { mark = MarkState.is_open; mark_at = 2 }

pub forty-IsValid : IsValid zeros forty
forty-IsValid = record {
  placed = omega arith;
  head_in = omega arith;
  room = omega arith;
  in_mem = omega arith;
  small = omega arith;
}

forty_open-IsValid : IsValid zeros forty_open
forty_open-IsValid = record {
  placed = omega arith;
  head_in = omega arith;
  room = omega arith;
  in_mem = omega arith;
  small = omega arith;
}

emit_correct_example : Emitted op_set_pipeline (words (7 ∷ 9 ∷ [])) zeros forty_open
unfolding words
emit_correct_example =
    emit_correct op_set_pipeline (words (7 ∷ 9 ∷ [])) forty_open-IsValid
      (omega arith, (omega arith, (omega arith, (omega arith, tt))))

abbrev pub five : List ℕ
five = 1 ∷ 2 ∷ 3 ∷ 4 ∷ 5 ∷ []

write_buffer-fits_example :
    let ws = 7 ∷ 8 ∷ 5 ∷ (packed five ++ []) in
    (m' : Memory) × (write_buffer 7 8 five (forty, zeros)
      ≡ done (true, record forty { len = 2 + 2 + length ws }, m'))
    × Written zeros m' 28 (op_write_buffer ∷ length ws ∷ ws)
unfolding write_buffer_bytes words count_from
write_buffer-fits_example =
    write_buffer-fits 7 8 five forty-IsValid (λ e. cc)
      (
        omega arith,
        omega arith,
        (
          omega arith,
          (omega arith, (omega arith, (omega arith, (omega arith, (omega arith, tt))))),
        ),
      )
      refl

-- A memory that starts at 4096, its word at the offset 8.
queue_done_correct_example :
    Answered 4096 4104 forty_open-IsValid
      (omega arith)
      (omega arith)
      77
      (queue_done 4096 4104 77 (forty_open, zeros))
queue_done_correct_example =
    queue_done_correct 4096 4104 forty_open-IsValid (omega arith) (omega arith) 77 (omega arith)
      (λ e. cc)
