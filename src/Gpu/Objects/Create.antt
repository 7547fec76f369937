-- ===== src/Gpu/Objects/Create.antt =====
-- gpu/encode.hpp: the calls of `Gpu<N>` that make an object or what a turn lets go: an op and its words.
use xpute.Common.{ℕ, List, [], Option}
use xpute.Status.{Run}
use xpute.Gpu.Enum.Pass.{QueryType}
use xpute.Gpu.Op.{
  op_buffer, op_texture, op_view, op_sampler, op_shader_module, op_bind_group_layout,
  op_pipeline_layout, op_bind_group, op_render_pipeline, op_compute_pipeline, op_query_set,
  op_encoder, op_render_pass, op_compute_pass, op_current,
}
use xpute.Gpu.Descriptor.{
  BufferDescriptor, TextureDescriptor, ViewDescriptor, SamplerDescriptor, BindGroupLayoutEntry,
  BindGroupEntry, RenderPipelineDescriptor, ComputePipelineDescriptor, RenderPassDescriptor,
  TimestampWrites,
}
use xpute.Gpu.Parts
use xpute.Gpu.Parts.Pass
use xpute.Gpu.Objects.{State, make}

-- What a call that makes an object comes to: its handle, where one was made.
abbrev pub Made : Type 0
Made = Run (Option ℕ × State)

pub buffer : BufferDescriptor → State → Made
buffer d s = make op_buffer (Parts.buffer d) s

pub texture : TextureDescriptor → State → Made
texture d s = make op_texture (Parts.texture d) s

pub view : ℕ → ViewDescriptor → State → Made
view of d s = make op_view (Parts.view of d) s

pub sampler : SamplerDescriptor → State → Made
sampler d s = make op_sampler (Parts.sampler d) s

pub shader_module : List ℕ → State → Made
shader_module wgsl s = make op_shader_module (Parts.shader_module wgsl) s

pub bind_group_layout : List BindGroupLayoutEntry → State → Made
bind_group_layout entries s = make op_bind_group_layout (Parts.bind_group_layout entries) s

pub pipeline_layout : List ℕ → State → Made
pipeline_layout layouts s = make op_pipeline_layout (Parts.pipeline_layout layouts) s

pub bind_group : ℕ → List BindGroupEntry → State → Made
bind_group layout entries s = make op_bind_group (Parts.bind_group layout entries) s

pub render_pipeline : RenderPipelineDescriptor → State → Made
render_pipeline d s = make op_render_pipeline (Pass.render_pipeline d) s

pub compute_pipeline : ComputePipelineDescriptor → State → Made
compute_pipeline d s = make op_compute_pipeline (Pass.compute_pipeline d) s

pub query_set : QueryType → ℕ → State → Made
query_set ty n s = make op_query_set (Parts.query_set ty n) s

pub encoder : State → Made
encoder s = make op_encoder [] s

pub render_pass : ℕ → RenderPassDescriptor → State → Made
render_pass encoder d s = make op_render_pass (Pass.render_pass encoder d) s

pub compute_pass : ℕ → Option TimestampWrites → State → Made
compute_pass encoder t s = make op_compute_pass (Parts.compute_pass encoder t) s

pub current : ℕ → State → Made
current surface s = make op_current (Parts.current surface) s
