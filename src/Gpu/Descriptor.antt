-- ===== src/Gpu/Descriptor.antt =====
-- gpu/encode.hpp: what a call is given. A `float` and an `int32_t` are their bit patterns, text is its
-- bytes, and an array is a tuple. The field `module` is `shader` here.
use xpute.Common.{ℕ, Bool, Option, List}
use xpute.Gpu.Enum.Texture.{TextureFormat}
use xpute.Gpu.Enum.Vertex.{
  VertexFormat, PrimitiveTopology, IndexFormat, FrontFace, CullMode, VertexStepMode,
}
use xpute.Gpu.Enum.Blend.{CompareFunction, StencilOperation, BlendOperation, BlendFactor}
use xpute.Gpu.Enum.Sample.{
  AddressMode, FilterMode, MipmapFilterMode, TextureDimension, TextureViewDimension, TextureAspect,
  BufferBindingType, SamplerBindingType, TextureSampleType, StorageTextureAccess,
}
use xpute.Gpu.Enum.Pass.{LoadOp, StoreOp}

pub record BufferDescriptor : Type 0 where
  pub size : ℕ
  pub usage : ℕ
  pub mapped_at_creation : Bool

pub record TextureDescriptor : Type 0 where
  pub size : ℕ × ℕ × ℕ
  pub mip_levels : ℕ
  pub samples : ℕ
  pub dimension : TextureDimension
  pub format : TextureFormat
  pub usage : ℕ
  pub view_formats : List TextureFormat

pub record ViewDescriptor : Type 0 where
  pub format : Option TextureFormat
  pub dimension : Option TextureViewDimension
  pub aspect : Option TextureAspect
  pub base_mip : ℕ
  pub mips : Option ℕ
  pub base_layer : ℕ
  pub layers : Option ℕ

pub record SamplerDescriptor : Type 0 where
  pub address : AddressMode × AddressMode × AddressMode
  pub mag : FilterMode
  pub min : FilterMode
  pub mipmap : MipmapFilterMode
  pub lod : ℕ × ℕ
  pub compare : Option CompareFunction
  pub max_anisotropy : ℕ

pub record BufferBinding : Type 0 where
  pub ty : BufferBindingType
  pub dynamic_offset : Bool
  pub min_binding_size : ℕ

pub record SamplerBinding : Type 0 where
  pub ty : SamplerBindingType

pub record TextureBinding : Type 0 where
  pub sample : TextureSampleType
  pub dimension : TextureViewDimension
  pub multisampled : Bool

pub record StorageTextureBinding : Type 0 where
  pub access : StorageTextureAccess
  pub format : TextureFormat
  pub dimension : TextureViewDimension

pub data BindingLayout : Type 0 where
  buffer_binding : BufferBinding → BindingLayout
  sampler_binding : SamplerBinding → BindingLayout
  texture_binding : TextureBinding → BindingLayout
  storage_texture_binding : StorageTextureBinding → BindingLayout

pub record BindGroupLayoutEntry : Type 0 where
  pub binding : ℕ
  pub visibility : ℕ
  pub layout : BindingLayout

pub record BufferResource : Type 0 where
  pub buffer : ℕ
  pub offset : ℕ
  pub size : Option ℕ

pub record SamplerResource : Type 0 where
  pub sampler : ℕ

pub record ViewResource : Type 0 where
  pub view : ℕ

pub data Resource : Type 0 where
  buffer_resource : BufferResource → Resource
  sampler_resource : SamplerResource → Resource
  view_resource : ViewResource → Resource

pub record BindGroupEntry : Type 0 where
  pub binding : ℕ
  pub resource : Resource

pub record VertexAttribute : Type 0 where
  pub format : VertexFormat
  pub offset : ℕ
  pub location : ℕ

pub record VertexBufferLayout : Type 0 where
  pub stride : ℕ
  pub step : VertexStepMode
  pub attributes : List VertexAttribute

pub record VertexState : Type 0 where
  pub shader : ℕ
  pub entry : List ℕ
  pub buffers : List VertexBufferLayout

pub record PrimitiveState : Type 0 where
  pub topology : PrimitiveTopology
  pub strip_index_format : Option IndexFormat
  pub front_face : FrontFace
  pub cull : CullMode
  pub unclipped_depth : Bool

-- WebGPU's default face: always, keep, keep, keep.
pub record StencilFaceState : Type 0 where
  pub compare : CompareFunction
  pub fail : StencilOperation
  pub depth_fail : StencilOperation
  pub pass : StencilOperation

pub record DepthStencilState : Type 0 where
  pub format : TextureFormat
  pub depth_write : Bool
  pub depth_compare : CompareFunction
  pub stencil_front : StencilFaceState
  pub stencil_back : StencilFaceState
  pub stencil_read_mask : ℕ
  pub stencil_write_mask : ℕ
  pub bias : ℕ
  pub slope_scale : ℕ
  pub clamp : ℕ

-- One sample, every sample's bit set.
pub record MultisampleState : Type 0 where
  pub count : ℕ
  pub mask : ℕ
  pub alpha_to_coverage : Bool

pub record BlendComponent : Type 0 where
  pub operation : BlendOperation
  pub src : BlendFactor
  pub dst : BlendFactor

pub record BlendState : Type 0 where
  pub color : BlendComponent
  pub alpha : BlendComponent

pub record ColorTargetState : Type 0 where
  pub format : TextureFormat
  pub blend : Option BlendState
  pub write_mask : ℕ

pub record FragmentState : Type 0 where
  pub shader : ℕ
  pub entry : List ℕ
  pub targets : List ColorTargetState

pub record RenderPipelineDescriptor : Type 0 where
  pub layout : Option ℕ
  pub vertex : VertexState
  pub primitive : PrimitiveState
  pub depth_stencil : Option DepthStencilState
  pub multisample : MultisampleState
  pub fragment : Option FragmentState

pub record ComputePipelineDescriptor : Type 0 where
  pub layout : Option ℕ
  pub shader : ℕ
  pub entry : List ℕ

-- A texture's place a copy reads or writes.
pub record TexelCopyTexture : Type 0 where
  pub texture : ℕ
  pub mip : ℕ
  pub origin : ℕ × ℕ × ℕ
  pub aspect : TextureAspect

-- A buffer's bytes laid out as texels.
pub record TexelCopyBuffer : Type 0 where
  pub buffer : ℕ
  pub offset : ℕ
  pub bytes_per_row : ℕ
  pub rows_per_image : ℕ

pub record ColorAttachment : Type 0 where
  pub view : ℕ
  pub resolve : Option ℕ
  pub load : LoadOp
  pub store : StoreOp
  pub clear : ℕ × ℕ × ℕ × ℕ

pub record DepthStencilAttachment : Type 0 where
  pub view : ℕ
  pub depth_load : LoadOp
  pub depth_store : StoreOp
  pub depth_clear : ℕ
  pub depth_read_only : Bool
  pub stencil_load : LoadOp
  pub stencil_store : StoreOp
  pub stencil_clear : ℕ
  pub stencil_read_only : Bool

pub record TimestampWrites : Type 0 where
  pub query_set : ℕ
  pub begin : Option ℕ
  pub end : Option ℕ

pub record RenderPassDescriptor : Type 0 where
  pub colors : List ColorAttachment
  pub depth_stencil : Option DepthStencilAttachment
  pub timestamps : Option TimestampWrites
  pub occlusion : Option ℕ
