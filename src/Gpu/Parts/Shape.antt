-- ===== src/Gpu/Parts/Shape.antt =====
-- How many words a record takes. What is absent takes as many as what is there, so the lists' lengths
-- and the names' bytes are all that counts.
use xpute.Common.{
  ℕ, ◌+◌, ◌*◌, ◌/◌, ◌≡◌, refl, arith, none, some, Option, List, [], ◌∷◌, ◌++◌, length,
  length-append,
}
use xpute.Gpu.Op.{binding_entry_words, resource_entry_words}
use xpute.Gpu.Descriptor.{
  BindGroupLayoutEntry, BindGroupEntry, ColorAttachment, DepthStencilAttachment,
  RenderPassDescriptor, TimestampWrites, VertexAttribute, VertexBufferLayout, ColorTargetState,
  BlendState, DepthStencilState, FragmentState, RenderPipelineDescriptor,
}
use xpute.Guest.Memory.{u32}
use xpute.Gpu.Record.{Part, word, bytes, words, packed, timestamps, opt}
use xpute.Gpu.Record.Written.{flat, length-packed}
use xpute.Gpu.Parts.{layout_entries, bind_group_layout, group_entries, bind_group}
use xpute.Gpu.Parts.Pass.{
  primitive_state, multisample_state, attributes, vertex_buffers, depth_stencil_state, blend_state,
  targets, fragment_state, render_pipeline, colors, depth_stencil_attachment, render_pass,
}

-- Words of a list of parts.
abbrev size : List Part → ℕ
size ps = length (flat ps)

size-append : (ps qs : List Part) → size (ps ++ qs) ≡ size ps + size qs
size-append [] qs = omega arith
size-append (word v ∷ ps) qs = omega (arith, size-append ps qs)
size-append (bytes b ∷ ps) qs = omega (
  arith,
  size-append ps qs,
  length-append (packed b) (flat ps),
  length-append (packed b) (flat (ps ++ qs)),
)

size-layout_entries : (es : List BindGroupLayoutEntry) → size (layout_entries es) ≡ 6 * length es
unfolding layout_entries words
size-layout_entries [] = omega arith
size-layout_entries (e ∷ es) = omega (arith, size-layout_entries es)

size-group_entries : (es : List BindGroupEntry) → size (group_entries es) ≡ 5 * length es
unfolding group_entries words
size-group_entries [] = omega arith
size-group_entries (e ∷ es) = omega (arith, size-group_entries es)

-- A bind group's layout takes BINDING_ENTRY_WORDS for each entry and its group RESOURCE_ENTRY_WORDS,
-- whatever an entry binds, after the words that count them.
pub size-bindings :
    (layout : ℕ) (entries : List BindGroupLayoutEntry) (resources : List BindGroupEntry)
    → (length (flat (bind_group_layout entries)) ≡ 1 + binding_entry_words * length entries)
      × (length (flat (bind_group layout resources)) ≡ 2 + resource_entry_words * length resources)
unfolding bind_group_layout bind_group words
size-bindings layout entries resources =
    (omega (arith, size-layout_entries entries), omega (arith, size-group_entries resources))

size-colors : (cs : List ColorAttachment) → size (colors cs) ≡ 8 * length cs
unfolding colors words
size-colors [] = omega arith
size-colors (c ∷ cs) = omega (arith, size-colors cs)

size-depth_stencil_attachment :
    (d : Option DepthStencilAttachment) → size (depth_stencil_attachment d) ≡ 9
unfolding depth_stencil_attachment words
size-depth_stencil_attachment none = refl
size-depth_stencil_attachment (some d) = refl

size-timestamps : (t : Option TimestampWrites) → size (timestamps t) ≡ 3
unfolding words
size-timestamps none = refl
size-timestamps (some t) = refl

-- A render pass's record takes 8 words for each color and 15 more, whatever attachments, timestamps and
-- queries there are.
pub size-render_pass :
    (encoder : ℕ) (d : RenderPassDescriptor)
    → length (flat (render_pass encoder d)) ≡ 15 + 8 * length d.colors
unfolding render_pass words
size-render_pass encoder d =
    let last = word (opt d.occlusion) ∷ [] in
    let cs = colors d.colors in
    let ds = depth_stencil_attachment d.depth_stencil in
    let times = timestamps d.timestamps in
    omega (
      arith,
      size-append (cs ++ ds ++ times) last,
      size-append (cs ++ ds) times,
      size-append cs ds,
      size-colors d.colors,
      size-depth_stencil_attachment d.depth_stencil,
      size-timestamps d.timestamps,
    )

size-attributes : (xs : List VertexAttribute) → size (attributes xs) ≡ 3 * length xs
unfolding attributes words
size-attributes [] = omega arith
size-attributes (a ∷ rest) = omega (arith, size-attributes rest)

-- Three words for each vertex buffer and for each of its attributes.
abbrev pub buffer_words : List VertexBufferLayout → ℕ
buffer_words [] = 0
buffer_words (b ∷ rest) = 3 + 3 * length b.attributes + buffer_words rest

size-vertex_buffers : (bs : List VertexBufferLayout) → size (vertex_buffers bs) ≡ buffer_words bs
unfolding vertex_buffers words
size-vertex_buffers [] = refl
size-vertex_buffers (b ∷ rest) = omega (
  arith,
  size-append (attributes b.attributes) (vertex_buffers rest),
  size-attributes b.attributes,
  size-vertex_buffers rest,
)

size-depth_stencil_state : (d : Option DepthStencilState) → size (depth_stencil_state d) ≡ 16
unfolding depth_stencil_state words
size-depth_stencil_state none = refl
size-depth_stencil_state (some d) = refl

size-blend_state : (b : Option BlendState) → size (blend_state b) ≡ 6
unfolding blend_state words
size-blend_state none = refl
size-blend_state (some b) = refl

size-targets : (ts : List ColorTargetState) → size (targets ts) ≡ 8 * length ts
unfolding targets
size-targets [] = omega arith
size-targets (t ∷ rest) = omega (
  arith,
  size-append (blend_state t.blend) (word t.write_mask ∷ targets rest),
  size-blend_state t.blend,
  size-targets rest,
)

-- A name's words, and eight for each target.
abbrev pub fragment_words : Option FragmentState → ℕ
fragment_words none = 0
fragment_words (some f) = (length f.entry + 3) / 4 + 8 * length f.targets

size-fragment_state : (f : Option FragmentState) → size (fragment_state f) ≡ 3 + fragment_words f
unfolding fragment_state packed
size-fragment_state none = refl
size-fragment_state (some f) = omega (
  arith,
  length-append (packed f.entry) (u32 (length f.targets) ∷ flat (targets f.targets)),
  length-packed f.entry,
  size-targets f.targets,
)

-- A render pipeline's record takes 31 words, the words of its vertex stage's name, three for each vertex
-- buffer and each of its attributes, and, where there is a fragment stage, its name's words and eight for
-- each target, whether or not there is a depth stencil state, and blended or not.
pub size-render_pipeline :
    (d : RenderPipelineDescriptor)
    → length (flat (render_pipeline d))
      ≡ 31
        + (length d.vertex.entry + 3) / 4
        + buffer_words d.vertex.buffers
        + fragment_words d.fragment
unfolding render_pipeline words
size-render_pipeline d =
    let vertices = vertex_buffers d.vertex.buffers in
    let primitives = primitive_state d.primitive in
    let depth = depth_stencil_state d.depth_stencil in
    let samples = multisample_state d.multisample in
    let fragment = fragment_state d.fragment in
    let five : size primitives ≡ 5 = refl in
    let three : size samples ≡ 3 = refl in
    let before = vertices ++ primitives ++ depth ++ samples in
    omega (
      arith,
      length-append (packed d.vertex.entry)
          (u32 (length d.vertex.buffers) ∷ flat (before ++ fragment)),
      length-packed d.vertex.entry,
      size-append before fragment,
      size-append (vertices ++ primitives ++ depth) samples,
      size-append (vertices ++ primitives) depth,
      size-append vertices primitives,
      size-vertex_buffers d.vertex.buffers,
      size-depth_stencil_state d.depth_stencil,
      size-fragment_state d.fragment,
      five,
      three,
    )
