-- ===== src/Gpu/Parts.antt =====
-- gpu/encode.hpp: what each object's record says after the object's handle, as the lambda that `make` is
-- given puts it. The pipelines' and the passes' are in the child.
pub mod Pass
pub mod Shape
use xpute.Common.{ℕ, List, [], ◌∷◌, ◌++◌, length, Option, none, some}
use xpute.Guest.Memory.{u32}
use xpute.Gpu.Enum.{u}
use xpute.Gpu.Enum.Texture.{TextureFormat, texture_format_coded}
use xpute.Gpu.Enum.Blend.{compare_function_coded}
use xpute.Gpu.Enum.Sample.{
  TextureAspect, address_mode_coded, filter_mode_coded, mipmap_filter_mode_coded,
  texture_dimension_coded, texture_view_dimension_coded, texture_aspect_coded,
  buffer_binding_type_coded, sampler_binding_type_coded, texture_sample_type_coded,
  storage_texture_access_coded,
}
use xpute.Gpu.Enum.Pass.{
  BindingKind, ResourceKind, QueryType, binding_kind_coded, resource_kind_coded, query_type_coded,
}
use xpute.Gpu.Descriptor.{
  BufferDescriptor, TextureDescriptor, ViewDescriptor, SamplerDescriptor, BindingLayout,
  BindGroupLayoutEntry, Resource, BindGroupEntry, TimestampWrites, buffer_binding, sampler_binding,
  texture_binding, storage_texture_binding, buffer_resource, sampler_resource, view_resource,
}
use xpute.Gpu.Record.{Part, word, bytes, words, opt, opt_u, flag, timestamps}

pub buffer : BufferDescriptor → List Part
buffer d = words (d.size ∷ d.usage ∷ flag d.mapped_at_creation ∷ [])

pub formats : List TextureFormat → List Part
formats [] = []
formats (f ∷ fs) = word (u f) ∷ formats fs

pub texture : TextureDescriptor → List Part
unfolding formats
texture d =
    words (
      d.size.0
      ∷ d.size.1
      ∷ d.size.2
      ∷ d.mip_levels
      ∷ d.samples
      ∷ u d.dimension
      ∷ u d.format
      ∷ d.usage
      ∷ u32 (length d.view_formats)
      ∷ [])
    ++ formats d.view_formats

abbrev pub aspect_or_all : Option TextureAspect → TextureAspect
aspect_or_all none = TextureAspect.all
aspect_or_all (some a) = a

pub view : ℕ → ViewDescriptor → List Part
view of d = words (
    of
    ∷ opt_u d.format
    ∷ opt_u d.dimension
    ∷ u (aspect_or_all d.aspect)
    ∷ d.base_mip
    ∷ opt d.mips
    ∷ d.base_layer
    ∷ opt d.layers
    ∷ [])

pub sampler : SamplerDescriptor → List Part
sampler d = words (
    u d.address.0
    ∷ u d.address.1
    ∷ u d.address.2
    ∷ u d.mag
    ∷ u d.min
    ∷ u d.mipmap
    ∷ d.lod.0
    ∷ d.lod.1
    ∷ opt_u d.compare
    ∷ d.max_anisotropy
    ∷ [])

pub shader_module : List ℕ → List Part
shader_module wgsl = bytes wgsl ∷ []

-- A binding's kind and its three words.
unfoldable pub layout_words : BindingLayout → ℕ × ℕ × ℕ × ℕ
layout_words (buffer_binding b) =
    (u BindingKind.buffer, u b.ty, flag b.dynamic_offset, b.min_binding_size)
layout_words (sampler_binding b) = (u BindingKind.sampler, u b.ty, 0, 0)
layout_words (texture_binding b) =
    (u BindingKind.texture, u b.sample, u b.dimension, flag b.multisampled)
layout_words (storage_texture_binding t) =
    (u BindingKind.storage_texture, u t.access, u t.format, u t.dimension)

unfoldable pub layout_entries : List BindGroupLayoutEntry → List Part
unfolding layout_words
layout_entries [] = []
layout_entries (e ∷ es) =
    let w = layout_words e.layout in
    words (e.binding ∷ e.visibility ∷ w.0 ∷ w.1 ∷ w.2 ∷ w.3 ∷ []) ++ layout_entries es

unfoldable pub bind_group_layout : List BindGroupLayoutEntry → List Part
unfolding layout_entries
bind_group_layout entries = word (u32 (length entries)) ∷ layout_entries entries

pub pipeline_layout : List ℕ → List Part
pipeline_layout layouts = word (u32 (length layouts)) ∷ words layouts

-- A resource's kind and its three words.
unfoldable pub resource_words : Resource → ℕ × ℕ × ℕ × ℕ
resource_words (buffer_resource b) = (u ResourceKind.buffer, b.buffer, b.offset, opt b.size)
resource_words (sampler_resource r) = (u ResourceKind.sampler, r.sampler, 0, 0)
resource_words (view_resource r) = (u ResourceKind.texture_view, r.view, 0, 0)

unfoldable pub group_entries : List BindGroupEntry → List Part
unfolding resource_words
group_entries [] = []
group_entries (e ∷ es) =
    let w = resource_words e.resource in
    words (e.binding ∷ w.0 ∷ w.1 ∷ w.2 ∷ w.3 ∷ []) ++ group_entries es

unfoldable pub bind_group : ℕ → List BindGroupEntry → List Part
unfolding group_entries
bind_group layout entries = words (layout ∷ u32 (length entries) ∷ []) ++ group_entries entries

pub query_set : QueryType → ℕ → List Part
query_set ty count = words (u ty ∷ count ∷ [])

pub compute_pass : ℕ → Option TimestampWrites → List Part
compute_pass encoder t = word encoder ∷ timestamps t

pub current : ℕ → List Part
current surface = word surface ∷ []

pub submit : List ℕ → List Part
submit encoders = word (u32 (length encoders)) ∷ words encoders
