-- ===== src/Gpu/Enum/Sample.antt =====
-- gpu/enum.spec.hpp: the enumerations of textures, samplers and bindings.
use xpute.Common.{ℕ, ◌≡◌, refl, arith, some, List, [], ◌∷◌, get_elem?}
use xpute.Gpu.Enum.{Coded}

pub data AddressMode : Type 0 where
  clamp_to_edge repeat mirror_repeat : AddressMode

pub address_mode : AddressMode → ℕ
address_mode AddressMode.clamp_to_edge = 0
address_mode AddressMode.repeat = 1
address_mode AddressMode.mirror_repeat = 2

abbrev pub address_modes : List AddressMode
address_modes = AddressMode.clamp_to_edge ∷ AddressMode.repeat ∷ AddressMode.mirror_repeat ∷ []

pub address_mode-place : (a : AddressMode) → get_elem? address_modes (address_mode a) ≡ some a
unfolding address_mode
address_mode-place AddressMode.clamp_to_edge = refl
address_mode-place _ = refl

instance abbrev pub address_mode_coded : Coded AddressMode
address_mode_coded = record {
  code = address_mode;
  members = address_modes;
  place = address_mode-place;
  few = omega arith;
}

pub data FilterMode : Type 0 where
  nearest linear : FilterMode

pub filter_mode : FilterMode → ℕ
filter_mode FilterMode.nearest = 0
filter_mode FilterMode.linear = 1

abbrev pub filter_modes : List FilterMode
filter_modes = FilterMode.nearest ∷ FilterMode.linear ∷ []

pub filter_mode-place : (a : FilterMode) → get_elem? filter_modes (filter_mode a) ≡ some a
unfolding filter_mode
filter_mode-place FilterMode.nearest = refl
filter_mode-place _ = refl

instance abbrev pub filter_mode_coded : Coded FilterMode
filter_mode_coded = record {
  code = filter_mode;
  members = filter_modes;
  place = filter_mode-place;
  few = omega arith;
}

pub data MipmapFilterMode : Type 0 where
  nearest linear : MipmapFilterMode

pub mipmap_filter_mode : MipmapFilterMode → ℕ
mipmap_filter_mode MipmapFilterMode.nearest = 0
mipmap_filter_mode MipmapFilterMode.linear = 1

abbrev pub mipmap_filter_modes : List MipmapFilterMode
mipmap_filter_modes = MipmapFilterMode.nearest ∷ MipmapFilterMode.linear ∷ []

pub mipmap_filter_mode-place :
    (a : MipmapFilterMode) → get_elem? mipmap_filter_modes (mipmap_filter_mode a) ≡ some a
unfolding mipmap_filter_mode
mipmap_filter_mode-place MipmapFilterMode.nearest = refl
mipmap_filter_mode-place _ = refl

instance abbrev pub mipmap_filter_mode_coded : Coded MipmapFilterMode
mipmap_filter_mode_coded = record {
  code = mipmap_filter_mode;
  members = mipmap_filter_modes;
  place = mipmap_filter_mode-place;
  few = omega arith;
}

pub data TextureDimension : Type 0 where
  d1 d2 d3 : TextureDimension

pub texture_dimension : TextureDimension → ℕ
texture_dimension TextureDimension.d1 = 0
texture_dimension TextureDimension.d2 = 1
texture_dimension TextureDimension.d3 = 2

abbrev pub texture_dimensions : List TextureDimension
texture_dimensions = TextureDimension.d1 ∷ TextureDimension.d2 ∷ TextureDimension.d3 ∷ []

pub texture_dimension-place :
    (a : TextureDimension) → get_elem? texture_dimensions (texture_dimension a) ≡ some a
unfolding texture_dimension
texture_dimension-place TextureDimension.d1 = refl
texture_dimension-place _ = refl

instance abbrev pub texture_dimension_coded : Coded TextureDimension
texture_dimension_coded = record {
  code = texture_dimension;
  members = texture_dimensions;
  place = texture_dimension-place;
  few = omega arith;
}

pub data TextureViewDimension : Type 0 where
  d1 d2 d2_array cube cube_array d3 : TextureViewDimension

pub texture_view_dimension : TextureViewDimension → ℕ
texture_view_dimension TextureViewDimension.d1 = 0
texture_view_dimension TextureViewDimension.d2 = 1
texture_view_dimension TextureViewDimension.d2_array = 2
texture_view_dimension TextureViewDimension.cube = 3
texture_view_dimension TextureViewDimension.cube_array = 4
texture_view_dimension TextureViewDimension.d3 = 5

abbrev pub texture_view_dimensions : List TextureViewDimension
texture_view_dimensions =
    TextureViewDimension.d1 ∷ TextureViewDimension.d2 ∷ TextureViewDimension.d2_array
    ∷ TextureViewDimension.cube ∷ TextureViewDimension.cube_array ∷ TextureViewDimension.d3 ∷ []

pub texture_view_dimension-place :
    (a : TextureViewDimension)
    → get_elem? texture_view_dimensions (texture_view_dimension a) ≡ some a
unfolding texture_view_dimension
texture_view_dimension-place TextureViewDimension.d1 = refl
texture_view_dimension-place _ = refl

instance abbrev pub texture_view_dimension_coded : Coded TextureViewDimension
texture_view_dimension_coded = record {
  code = texture_view_dimension;
  members = texture_view_dimensions;
  place = texture_view_dimension-place;
  few = omega arith;
}

pub data TextureAspect : Type 0 where
  all stencil_only depth_only : TextureAspect

pub texture_aspect : TextureAspect → ℕ
texture_aspect TextureAspect.all = 0
texture_aspect TextureAspect.stencil_only = 1
texture_aspect TextureAspect.depth_only = 2

abbrev pub texture_aspects : List TextureAspect
texture_aspects = TextureAspect.all ∷ TextureAspect.stencil_only ∷ TextureAspect.depth_only ∷ []

pub texture_aspect-place :
    (a : TextureAspect) → get_elem? texture_aspects (texture_aspect a) ≡ some a
unfolding texture_aspect
texture_aspect-place TextureAspect.all = refl
texture_aspect-place _ = refl

instance abbrev pub texture_aspect_coded : Coded TextureAspect
texture_aspect_coded = record {
  code = texture_aspect;
  members = texture_aspects;
  place = texture_aspect-place;
  few = omega arith;
}

pub data BufferBindingType : Type 0 where
  uniform storage read_only_storage : BufferBindingType

pub buffer_binding_type : BufferBindingType → ℕ
buffer_binding_type BufferBindingType.uniform = 0
buffer_binding_type BufferBindingType.storage = 1
buffer_binding_type BufferBindingType.read_only_storage = 2

abbrev pub buffer_binding_types : List BufferBindingType
buffer_binding_types =
    BufferBindingType.uniform ∷ BufferBindingType.storage ∷ BufferBindingType.read_only_storage ∷ []

pub buffer_binding_type-place :
    (a : BufferBindingType) → get_elem? buffer_binding_types (buffer_binding_type a) ≡ some a
unfolding buffer_binding_type
buffer_binding_type-place BufferBindingType.uniform = refl
buffer_binding_type-place _ = refl

instance abbrev pub buffer_binding_type_coded : Coded BufferBindingType
buffer_binding_type_coded = record {
  code = buffer_binding_type;
  members = buffer_binding_types;
  place = buffer_binding_type-place;
  few = omega arith;
}

pub data SamplerBindingType : Type 0 where
  filtering non_filtering comparison : SamplerBindingType

pub sampler_binding_type : SamplerBindingType → ℕ
sampler_binding_type SamplerBindingType.filtering = 0
sampler_binding_type SamplerBindingType.non_filtering = 1
sampler_binding_type SamplerBindingType.comparison = 2

abbrev pub sampler_binding_types : List SamplerBindingType
sampler_binding_types =
    SamplerBindingType.filtering ∷ SamplerBindingType.non_filtering ∷ SamplerBindingType.comparison
    ∷ []

pub sampler_binding_type-place :
    (a : SamplerBindingType) → get_elem? sampler_binding_types (sampler_binding_type a) ≡ some a
unfolding sampler_binding_type
sampler_binding_type-place SamplerBindingType.filtering = refl
sampler_binding_type-place _ = refl

instance abbrev pub sampler_binding_type_coded : Coded SamplerBindingType
sampler_binding_type_coded = record {
  code = sampler_binding_type;
  members = sampler_binding_types;
  place = sampler_binding_type-place;
  few = omega arith;
}

pub data TextureSampleType : Type 0 where
  float_ unfilterable_float depth sint uint : TextureSampleType

pub texture_sample_type : TextureSampleType → ℕ
texture_sample_type TextureSampleType.float_ = 0
texture_sample_type TextureSampleType.unfilterable_float = 1
texture_sample_type TextureSampleType.depth = 2
texture_sample_type TextureSampleType.sint = 3
texture_sample_type TextureSampleType.uint = 4

abbrev pub texture_sample_types : List TextureSampleType
texture_sample_types =
    TextureSampleType.float_ ∷ TextureSampleType.unfilterable_float ∷ TextureSampleType.depth
    ∷ TextureSampleType.sint ∷ TextureSampleType.uint ∷ []

pub texture_sample_type-place :
    (a : TextureSampleType) → get_elem? texture_sample_types (texture_sample_type a) ≡ some a
unfolding texture_sample_type
texture_sample_type-place TextureSampleType.float_ = refl
texture_sample_type-place _ = refl

instance abbrev pub texture_sample_type_coded : Coded TextureSampleType
texture_sample_type_coded = record {
  code = texture_sample_type;
  members = texture_sample_types;
  place = texture_sample_type-place;
  few = omega arith;
}

pub data StorageTextureAccess : Type 0 where
  write_only read_only read_write : StorageTextureAccess

pub storage_texture_access : StorageTextureAccess → ℕ
storage_texture_access StorageTextureAccess.write_only = 0
storage_texture_access StorageTextureAccess.read_only = 1
storage_texture_access StorageTextureAccess.read_write = 2

abbrev pub storage_texture_accesss : List StorageTextureAccess
storage_texture_accesss =
    StorageTextureAccess.write_only ∷ StorageTextureAccess.read_only
    ∷ StorageTextureAccess.read_write ∷ []

pub storage_texture_access-place :
    (a : StorageTextureAccess)
    → get_elem? storage_texture_accesss (storage_texture_access a) ≡ some a
unfolding storage_texture_access
storage_texture_access-place StorageTextureAccess.write_only = refl
storage_texture_access-place _ = refl

instance abbrev pub storage_texture_access_coded : Coded StorageTextureAccess
storage_texture_access_coded = record {
  code = storage_texture_access;
  members = storage_texture_accesss;
  place = storage_texture_access-place;
  few = omega arith;
}
