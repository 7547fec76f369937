-- ===== src/Gpu/Enum/Device.antt =====
-- gpu/enum.spec.hpp: the enumerations of what a device has.
use xpute.Common.{ℕ, ◌≡◌, refl, arith, some, List, [], ◌∷◌, get_elem?}
use xpute.Gpu.Enum.{Coded}

pub data FeatureName : Type 0 where
  depth_clip_control depth32float_stencil8 texture_compression_bc : FeatureName
  texture_compression_bc_sliced_3d texture_compression_etc2 texture_compression_astc : FeatureName
  texture_compression_astc_sliced_3d timestamp_query indirect_first_instance shader_f16 :
      FeatureName
  rg11b10ufloat_renderable bgra8unorm_storage float32_filterable float32_blendable : FeatureName
  clip_distances dual_source_blending subgroups : FeatureName

pub feature_name : FeatureName → ℕ
feature_name FeatureName.depth_clip_control = 0
feature_name FeatureName.depth32float_stencil8 = 1
feature_name FeatureName.texture_compression_bc = 2
feature_name FeatureName.texture_compression_bc_sliced_3d = 3
feature_name FeatureName.texture_compression_etc2 = 4
feature_name FeatureName.texture_compression_astc = 5
feature_name FeatureName.texture_compression_astc_sliced_3d = 6
feature_name FeatureName.timestamp_query = 7
feature_name FeatureName.indirect_first_instance = 8
feature_name FeatureName.shader_f16 = 9
feature_name FeatureName.rg11b10ufloat_renderable = 10
feature_name FeatureName.bgra8unorm_storage = 11
feature_name FeatureName.float32_filterable = 12
feature_name FeatureName.float32_blendable = 13
feature_name FeatureName.clip_distances = 14
feature_name FeatureName.dual_source_blending = 15
feature_name FeatureName.subgroups = 16

abbrev pub feature_names : List FeatureName
feature_names =
    FeatureName.depth_clip_control ∷ FeatureName.depth32float_stencil8
    ∷ FeatureName.texture_compression_bc ∷ FeatureName.texture_compression_bc_sliced_3d
    ∷ FeatureName.texture_compression_etc2 ∷ FeatureName.texture_compression_astc
    ∷ FeatureName.texture_compression_astc_sliced_3d ∷ FeatureName.timestamp_query
    ∷ FeatureName.indirect_first_instance ∷ FeatureName.shader_f16
    ∷ FeatureName.rg11b10ufloat_renderable ∷ FeatureName.bgra8unorm_storage
    ∷ FeatureName.float32_filterable ∷ FeatureName.float32_blendable ∷ FeatureName.clip_distances
    ∷ FeatureName.dual_source_blending ∷ FeatureName.subgroups ∷ []

pub feature_name-place : (a : FeatureName) → get_elem? feature_names (feature_name a) ≡ some a
unfolding feature_name
feature_name-place FeatureName.depth_clip_control = refl
feature_name-place _ = refl

instance abbrev pub feature_name_coded : Coded FeatureName
feature_name_coded = record {
  code = feature_name;
  members = feature_names;
  place = feature_name-place;
  few = omega arith;
}

pub data LimitName : Type 0 where
  max_texture_dimension_1d max_texture_dimension_2d max_texture_dimension_3d : LimitName
  max_texture_array_layers max_bind_groups max_bind_groups_plus_vertex_buffers : LimitName
  max_bindings_per_bind_group max_dynamic_uniform_buffers_per_pipeline_layout : LimitName
  max_dynamic_storage_buffers_per_pipeline_layout max_sampled_textures_per_shader_stage : LimitName
  max_samplers_per_shader_stage max_storage_buffers_per_shader_stage : LimitName
  max_storage_textures_per_shader_stage max_uniform_buffers_per_shader_stage : LimitName
  max_uniform_buffer_binding_size max_storage_buffer_binding_size : LimitName
  min_uniform_buffer_offset_alignment min_storage_buffer_offset_alignment max_vertex_buffers :
      LimitName
  max_buffer_size max_vertex_attributes max_vertex_buffer_array_stride : LimitName
  max_inter_stage_shader_variables max_color_attachments max_color_attachment_bytes_per_sample :
      LimitName
  max_compute_workgroup_storage_size max_compute_invocations_per_workgroup : LimitName
  max_compute_workgroup_size_x max_compute_workgroup_size_y max_compute_workgroup_size_z : LimitName
  max_compute_workgroups_per_dimension : LimitName

pub limit_name : LimitName → ℕ
limit_name LimitName.max_texture_dimension_1d = 0
limit_name LimitName.max_texture_dimension_2d = 1
limit_name LimitName.max_texture_dimension_3d = 2
limit_name LimitName.max_texture_array_layers = 3
limit_name LimitName.max_bind_groups = 4
limit_name LimitName.max_bind_groups_plus_vertex_buffers = 5
limit_name LimitName.max_bindings_per_bind_group = 6
limit_name LimitName.max_dynamic_uniform_buffers_per_pipeline_layout = 7
limit_name LimitName.max_dynamic_storage_buffers_per_pipeline_layout = 8
limit_name LimitName.max_sampled_textures_per_shader_stage = 9
limit_name LimitName.max_samplers_per_shader_stage = 10
limit_name LimitName.max_storage_buffers_per_shader_stage = 11
limit_name LimitName.max_storage_textures_per_shader_stage = 12
limit_name LimitName.max_uniform_buffers_per_shader_stage = 13
limit_name LimitName.max_uniform_buffer_binding_size = 14
limit_name LimitName.max_storage_buffer_binding_size = 15
limit_name LimitName.min_uniform_buffer_offset_alignment = 16
limit_name LimitName.min_storage_buffer_offset_alignment = 17
limit_name LimitName.max_vertex_buffers = 18
limit_name LimitName.max_buffer_size = 19
limit_name LimitName.max_vertex_attributes = 20
limit_name LimitName.max_vertex_buffer_array_stride = 21
limit_name LimitName.max_inter_stage_shader_variables = 22
limit_name LimitName.max_color_attachments = 23
limit_name LimitName.max_color_attachment_bytes_per_sample = 24
limit_name LimitName.max_compute_workgroup_storage_size = 25
limit_name LimitName.max_compute_invocations_per_workgroup = 26
limit_name LimitName.max_compute_workgroup_size_x = 27
limit_name LimitName.max_compute_workgroup_size_y = 28
limit_name LimitName.max_compute_workgroup_size_z = 29
limit_name LimitName.max_compute_workgroups_per_dimension = 30

abbrev pub limit_names : List LimitName
limit_names =
    LimitName.max_texture_dimension_1d ∷ LimitName.max_texture_dimension_2d
    ∷ LimitName.max_texture_dimension_3d ∷ LimitName.max_texture_array_layers
    ∷ LimitName.max_bind_groups ∷ LimitName.max_bind_groups_plus_vertex_buffers
    ∷ LimitName.max_bindings_per_bind_group
    ∷ LimitName.max_dynamic_uniform_buffers_per_pipeline_layout
    ∷ LimitName.max_dynamic_storage_buffers_per_pipeline_layout
    ∷ LimitName.max_sampled_textures_per_shader_stage ∷ LimitName.max_samplers_per_shader_stage
    ∷ LimitName.max_storage_buffers_per_shader_stage
    ∷ LimitName.max_storage_textures_per_shader_stage
    ∷ LimitName.max_uniform_buffers_per_shader_stage ∷ LimitName.max_uniform_buffer_binding_size
    ∷ LimitName.max_storage_buffer_binding_size ∷ LimitName.min_uniform_buffer_offset_alignment
    ∷ LimitName.min_storage_buffer_offset_alignment ∷ LimitName.max_vertex_buffers
    ∷ LimitName.max_buffer_size ∷ LimitName.max_vertex_attributes
    ∷ LimitName.max_vertex_buffer_array_stride ∷ LimitName.max_inter_stage_shader_variables
    ∷ LimitName.max_color_attachments ∷ LimitName.max_color_attachment_bytes_per_sample
    ∷ LimitName.max_compute_workgroup_storage_size ∷ LimitName.max_compute_invocations_per_workgroup
    ∷ LimitName.max_compute_workgroup_size_x ∷ LimitName.max_compute_workgroup_size_y
    ∷ LimitName.max_compute_workgroup_size_z ∷ LimitName.max_compute_workgroups_per_dimension ∷ []

pub limit_name-place : (a : LimitName) → get_elem? limit_names (limit_name a) ≡ some a
unfolding limit_name
limit_name-place LimitName.max_texture_dimension_1d = refl
limit_name-place _ = refl

instance abbrev pub limit_name_coded : Coded LimitName
limit_name_coded = record {
  code = limit_name;
  members = limit_names;
  place = limit_name-place;
  few = omega arith;
}
