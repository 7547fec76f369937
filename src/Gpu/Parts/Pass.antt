-- ===== src/Gpu/Parts/Pass.antt =====
-- gpu/encode.hpp: the records of the pipelines and of a render pass. What is absent is written as words
-- too, so a record's shape is fixed.
use xpute.Common.{ℕ, ◌+◌, List, [], ◌∷◌, ◌++◌, length, Option, none, some, replicate}
use xpute.Guest.Memory.{u32}
use xpute.Gpu.Enum.{u}
use xpute.Gpu.Enum.Texture.{texture_format_coded}
use xpute.Gpu.Enum.Vertex.{
  vertex_format_coded, primitive_topology_coded, index_format_coded, front_face_coded,
  cull_mode_coded, vertex_step_mode_coded,
}
use xpute.Gpu.Enum.Blend.{compare_function_coded, blend_operation_coded, blend_factor_coded}
use xpute.Gpu.Enum.Pass.{load_op_coded, store_op_coded}
use xpute.Gpu.Op.{none_word}
use xpute.Gpu.Descriptor.{
  VertexAttribute, VertexBufferLayout, PrimitiveState, DepthStencilState, MultisampleState,
  BlendState, ColorTargetState, FragmentState, RenderPipelineDescriptor, ComputePipelineDescriptor,
  ColorAttachment, DepthStencilAttachment, RenderPassDescriptor,
}
use xpute.Gpu.Record.{Part, word, bytes, words, opt, opt_u, flag, timestamps, stencil_face}

unfoldable pub attributes : List VertexAttribute → List Part
attributes [] = []
attributes (a ∷ rest) = words (u a.format ∷ a.offset ∷ a.location ∷ []) ++ attributes rest

unfoldable pub vertex_buffers : List VertexBufferLayout → List Part
unfolding attributes
vertex_buffers [] = []
vertex_buffers (b ∷ rest) =
    words (b.stride ∷ u b.step ∷ u32 (length b.attributes) ∷ [])
    ++ attributes b.attributes
    ++ vertex_buffers rest

abbrev pub primitive_state : PrimitiveState → List Part
primitive_state p = words (
    u p.topology
    ∷ opt_u p.strip_index_format
    ∷ u p.front_face
    ∷ u p.cull
    ∷ flag p.unclipped_depth
    ∷ [])

unfoldable pub depth_stencil_state : Option DepthStencilState → List Part
depth_stencil_state none = word none_word ∷ words (replicate (2 + 8 + 5) 0)
depth_stencil_state (some ds) =
    words (u ds.format ∷ flag ds.depth_write ∷ u ds.depth_compare ∷ [])
    ++ stencil_face ds.stencil_front
    ++ stencil_face ds.stencil_back
    ++ words
        (ds.stencil_read_mask ∷ ds.stencil_write_mask ∷ ds.bias ∷ ds.slope_scale ∷ ds.clamp ∷ [])

abbrev pub multisample_state : MultisampleState → List Part
multisample_state m = words (m.count ∷ m.mask ∷ flag m.alpha_to_coverage ∷ [])

unfoldable pub blend_state : Option BlendState → List Part
blend_state none = word none_word ∷ words (replicate 5 0)
blend_state (some b) = words (
    u b.color.operation
    ∷ u b.color.src
    ∷ u b.color.dst
    ∷ u b.alpha.operation
    ∷ u b.alpha.src
    ∷ u b.alpha.dst
    ∷ [])

unfoldable pub targets : List ColorTargetState → List Part
unfolding blend_state
targets [] = []
targets (t ∷ rest) = word (u t.format) ∷ (blend_state t.blend ++ (word t.write_mask ∷ targets rest))

unfoldable pub fragment_state : Option FragmentState → List Part
unfolding targets
fragment_state none = word none_word ∷ bytes [] ∷ word 0 ∷ []
fragment_state (some f) =
    word f.shader ∷ bytes f.entry ∷ word (u32 (length f.targets)) ∷ targets f.targets

unfoldable pub render_pipeline : RenderPipelineDescriptor → List Part
unfolding vertex_buffers depth_stencil_state fragment_state
render_pipeline d =
    let v = d.vertex in
    word (opt d.layout)
    ∷ word v.shader
    ∷ bytes v.entry
    ∷ word (u32 (length v.buffers))
    ∷ (vertex_buffers v.buffers
        ++ primitive_state d.primitive
        ++ depth_stencil_state d.depth_stencil
        ++ multisample_state d.multisample
        ++ fragment_state d.fragment)

unfoldable pub compute_pipeline : ComputePipelineDescriptor → List Part
compute_pipeline d = words (opt d.layout ∷ d.shader ∷ []) ++ (bytes d.entry ∷ [])

unfoldable pub colors : List ColorAttachment → List Part
colors [] = []
colors (c ∷ rest) =
    words (
      c.view
      ∷ opt c.resolve
      ∷ u c.load
      ∷ u c.store
      ∷ c.clear.0
      ∷ c.clear.1
      ∷ c.clear.2
      ∷ c.clear.3
      ∷ [])
    ++ colors rest

unfoldable pub depth_stencil_attachment : Option DepthStencilAttachment → List Part
depth_stencil_attachment none = word none_word ∷ words (replicate 8 0)
depth_stencil_attachment (some ds) = words (
    ds.view
    ∷ u ds.depth_load
    ∷ u ds.depth_store
    ∷ ds.depth_clear
    ∷ flag ds.depth_read_only
    ∷ u ds.stencil_load
    ∷ u ds.stencil_store
    ∷ ds.stencil_clear
    ∷ flag ds.stencil_read_only
    ∷ [])

unfoldable pub render_pass : ℕ → RenderPassDescriptor → List Part
unfolding colors depth_stencil_attachment
render_pass encoder d =
    words (encoder ∷ u32 (length d.colors) ∷ [])
    ++ colors d.colors
    ++ depth_stencil_attachment d.depth_stencil
    ++ timestamps d.timestamps
    ++ (word (opt d.occlusion) ∷ [])
