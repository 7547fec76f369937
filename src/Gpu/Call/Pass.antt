-- ===== src/Gpu/Call/Pass.antt =====
-- gpu/encode.cpp: what a pass sets, draws and dispatches. A `float` and an `int32_t` are their bit
-- patterns.
use xpute.Common.{ℕ, Option, List, [], ◌∷◌, ◌++◌, length}
use xpute.Guest.Memory.{Memory, u32}
use xpute.Guest.Stream.{Stream}
use xpute.Gpu.Enum.{u}
use xpute.Gpu.Enum.Vertex.{IndexFormat, index_format_coded}
use xpute.Gpu.Op.{
  op_set_pipeline, op_set_bind_group, op_set_vertex_buffer, op_set_index_buffer, op_set_viewport,
  op_set_scissor, op_set_blend_constant, op_set_stencil_reference, op_draw, op_draw_indexed,
  op_draw_indirect, op_draw_indexed_indirect, op_dispatch, op_dispatch_indirect,
}
use xpute.Gpu.Record.{words, emit, opt}
use xpute.Gpu.Call.{Sent, send}

pub set_pipeline : ℕ → ℕ → Stream × Memory → Sent
unfolding send
set_pipeline pass pipeline s = send op_set_pipeline (pass ∷ pipeline ∷ []) s

pub set_bind_group : ℕ → ℕ → ℕ → List ℕ → Stream × Memory → Sent
set_bind_group pass index group dynamic_offsets s =
    emit op_set_bind_group
      (words (pass ∷ index ∷ group ∷ u32 (length dynamic_offsets) ∷ []) ++ words dynamic_offsets) s

pub set_vertex_buffer : ℕ → ℕ → ℕ → ℕ → Option ℕ → Stream × Memory → Sent
unfolding send
set_vertex_buffer pass slot buffer offset size s =
    send op_set_vertex_buffer (pass ∷ slot ∷ buffer ∷ offset ∷ opt size ∷ []) s

pub set_index_buffer : ℕ → ℕ → IndexFormat → ℕ → Option ℕ → Stream × Memory → Sent
unfolding send
set_index_buffer pass buffer format offset size s =
    send op_set_index_buffer (pass ∷ buffer ∷ u format ∷ offset ∷ opt size ∷ []) s

pub set_viewport : ℕ → ℕ × ℕ × ℕ × ℕ → ℕ × ℕ → Stream × Memory → Sent
unfolding send
set_viewport pass rect depth s =
    send op_set_viewport (pass ∷ rect.0 ∷ rect.1 ∷ rect.2 ∷ rect.3 ∷ depth.0 ∷ depth.1 ∷ []) s

pub set_scissor : ℕ → ℕ × ℕ × ℕ × ℕ → Stream × Memory → Sent
unfolding send
set_scissor pass rect s = send op_set_scissor (pass ∷ rect.0 ∷ rect.1 ∷ rect.2 ∷ rect.3 ∷ []) s

pub set_blend_constant : ℕ → ℕ × ℕ × ℕ × ℕ → Stream × Memory → Sent
unfolding send
set_blend_constant pass rgba s =
    send op_set_blend_constant (pass ∷ rgba.0 ∷ rgba.1 ∷ rgba.2 ∷ rgba.3 ∷ []) s

pub set_stencil_reference : ℕ → ℕ → Stream × Memory → Sent
unfolding send
set_stencil_reference pass reference s = send op_set_stencil_reference (pass ∷ reference ∷ []) s

pub draw : ℕ → ℕ → ℕ → ℕ → ℕ → Stream × Memory → Sent
unfolding send
draw pass vertices instances first_vertex first_instance s =
    send op_draw (pass ∷ vertices ∷ instances ∷ first_vertex ∷ first_instance ∷ []) s

pub draw_indexed : ℕ → ℕ → ℕ → ℕ → ℕ → ℕ → Stream × Memory → Sent
unfolding send
draw_indexed pass indices instances first_index base_vertex first_instance s =
    send op_draw_indexed
      (pass ∷ indices ∷ instances ∷ first_index ∷ base_vertex ∷ first_instance ∷ []) s

pub draw_indirect : ℕ → ℕ → ℕ → Stream × Memory → Sent
unfolding send
draw_indirect pass buffer offset s = send op_draw_indirect (pass ∷ buffer ∷ offset ∷ []) s

pub draw_indexed_indirect : ℕ → ℕ → ℕ → Stream × Memory → Sent
unfolding send
draw_indexed_indirect pass buffer offset s =
    send op_draw_indexed_indirect (pass ∷ buffer ∷ offset ∷ []) s

pub dispatch : ℕ → ℕ × ℕ × ℕ → Stream × Memory → Sent
unfolding send
dispatch pass workgroups s =
    send op_dispatch (pass ∷ workgroups.0 ∷ workgroups.1 ∷ workgroups.2 ∷ []) s

pub dispatch_indirect : ℕ → ℕ → ℕ → Stream × Memory → Sent
unfolding send
dispatch_indirect pass buffer offset s = send op_dispatch_indirect (pass ∷ buffer ∷ offset ∷ []) s
