-- ===== src/Gpu/Enum/Vertex.antt =====
-- gpu/enum.spec.hpp: the enumerations of vertices and how they are put together.
use xpute.Common.{ℕ, ◌≡◌, refl, arith, some, List, [], ◌∷◌, get_elem?}
use xpute.Gpu.Enum.{Coded}

pub data VertexFormat : Type 0 where
  uint8 uint8x2 uint8x4 sint8 sint8x2 sint8x4 unorm8 unorm8x2 unorm8x4 snorm8 snorm8x2 :
      VertexFormat
  snorm8x4 uint16 uint16x2 uint16x4 sint16 sint16x2 sint16x4 unorm16 unorm16x2 : VertexFormat
  unorm16x4 snorm16 snorm16x2 snorm16x4 float16 float16x2 float16x4 float32 float32x2 : VertexFormat
  float32x3 float32x4 uint32 uint32x2 uint32x3 uint32x4 sint32 sint32x2 sint32x3 : VertexFormat
  sint32x4 unorm10_10_10_2 unorm8x4_bgra : VertexFormat

pub vertex_format : VertexFormat → ℕ
vertex_format VertexFormat.uint8 = 0
vertex_format VertexFormat.uint8x2 = 1
vertex_format VertexFormat.uint8x4 = 2
vertex_format VertexFormat.sint8 = 3
vertex_format VertexFormat.sint8x2 = 4
vertex_format VertexFormat.sint8x4 = 5
vertex_format VertexFormat.unorm8 = 6
vertex_format VertexFormat.unorm8x2 = 7
vertex_format VertexFormat.unorm8x4 = 8
vertex_format VertexFormat.snorm8 = 9
vertex_format VertexFormat.snorm8x2 = 10
vertex_format VertexFormat.snorm8x4 = 11
vertex_format VertexFormat.uint16 = 12
vertex_format VertexFormat.uint16x2 = 13
vertex_format VertexFormat.uint16x4 = 14
vertex_format VertexFormat.sint16 = 15
vertex_format VertexFormat.sint16x2 = 16
vertex_format VertexFormat.sint16x4 = 17
vertex_format VertexFormat.unorm16 = 18
vertex_format VertexFormat.unorm16x2 = 19
vertex_format VertexFormat.unorm16x4 = 20
vertex_format VertexFormat.snorm16 = 21
vertex_format VertexFormat.snorm16x2 = 22
vertex_format VertexFormat.snorm16x4 = 23
vertex_format VertexFormat.float16 = 24
vertex_format VertexFormat.float16x2 = 25
vertex_format VertexFormat.float16x4 = 26
vertex_format VertexFormat.float32 = 27
vertex_format VertexFormat.float32x2 = 28
vertex_format VertexFormat.float32x3 = 29
vertex_format VertexFormat.float32x4 = 30
vertex_format VertexFormat.uint32 = 31
vertex_format VertexFormat.uint32x2 = 32
vertex_format VertexFormat.uint32x3 = 33
vertex_format VertexFormat.uint32x4 = 34
vertex_format VertexFormat.sint32 = 35
vertex_format VertexFormat.sint32x2 = 36
vertex_format VertexFormat.sint32x3 = 37
vertex_format VertexFormat.sint32x4 = 38
vertex_format VertexFormat.unorm10_10_10_2 = 39
vertex_format VertexFormat.unorm8x4_bgra = 40

abbrev pub vertex_formats : List VertexFormat
vertex_formats =
    VertexFormat.uint8 ∷ VertexFormat.uint8x2 ∷ VertexFormat.uint8x4 ∷ VertexFormat.sint8
    ∷ VertexFormat.sint8x2 ∷ VertexFormat.sint8x4 ∷ VertexFormat.unorm8 ∷ VertexFormat.unorm8x2
    ∷ VertexFormat.unorm8x4 ∷ VertexFormat.snorm8 ∷ VertexFormat.snorm8x2 ∷ VertexFormat.snorm8x4
    ∷ VertexFormat.uint16 ∷ VertexFormat.uint16x2 ∷ VertexFormat.uint16x4 ∷ VertexFormat.sint16
    ∷ VertexFormat.sint16x2 ∷ VertexFormat.sint16x4 ∷ VertexFormat.unorm16 ∷ VertexFormat.unorm16x2
    ∷ VertexFormat.unorm16x4 ∷ VertexFormat.snorm16 ∷ VertexFormat.snorm16x2
    ∷ VertexFormat.snorm16x4 ∷ VertexFormat.float16 ∷ VertexFormat.float16x2
    ∷ VertexFormat.float16x4 ∷ VertexFormat.float32 ∷ VertexFormat.float32x2
    ∷ VertexFormat.float32x3 ∷ VertexFormat.float32x4 ∷ VertexFormat.uint32 ∷ VertexFormat.uint32x2
    ∷ VertexFormat.uint32x3 ∷ VertexFormat.uint32x4 ∷ VertexFormat.sint32 ∷ VertexFormat.sint32x2
    ∷ VertexFormat.sint32x3 ∷ VertexFormat.sint32x4 ∷ VertexFormat.unorm10_10_10_2
    ∷ VertexFormat.unorm8x4_bgra ∷ []

pub vertex_format-place : (a : VertexFormat) → get_elem? vertex_formats (vertex_format a) ≡ some a
unfolding vertex_format
vertex_format-place VertexFormat.uint8 = refl
vertex_format-place _ = refl

instance abbrev pub vertex_format_coded : Coded VertexFormat
vertex_format_coded = record {
  code = vertex_format;
  members = vertex_formats;
  place = vertex_format-place;
  few = omega arith;
}

pub data PrimitiveTopology : Type 0 where
  point_list line_list line_strip triangle_list triangle_strip : PrimitiveTopology

pub primitive_topology : PrimitiveTopology → ℕ
primitive_topology PrimitiveTopology.point_list = 0
primitive_topology PrimitiveTopology.line_list = 1
primitive_topology PrimitiveTopology.line_strip = 2
primitive_topology PrimitiveTopology.triangle_list = 3
primitive_topology PrimitiveTopology.triangle_strip = 4

abbrev pub primitive_topologys : List PrimitiveTopology
primitive_topologys =
    PrimitiveTopology.point_list ∷ PrimitiveTopology.line_list ∷ PrimitiveTopology.line_strip
    ∷ PrimitiveTopology.triangle_list ∷ PrimitiveTopology.triangle_strip ∷ []

pub primitive_topology-place :
    (a : PrimitiveTopology) → get_elem? primitive_topologys (primitive_topology a) ≡ some a
unfolding primitive_topology
primitive_topology-place PrimitiveTopology.point_list = refl
primitive_topology-place _ = refl

instance abbrev pub primitive_topology_coded : Coded PrimitiveTopology
primitive_topology_coded = record {
  code = primitive_topology;
  members = primitive_topologys;
  place = primitive_topology-place;
  few = omega arith;
}

pub data IndexFormat : Type 0 where
  uint16 uint32 : IndexFormat

pub index_format : IndexFormat → ℕ
index_format IndexFormat.uint16 = 0
index_format IndexFormat.uint32 = 1

abbrev pub index_formats : List IndexFormat
index_formats = IndexFormat.uint16 ∷ IndexFormat.uint32 ∷ []

pub index_format-place : (a : IndexFormat) → get_elem? index_formats (index_format a) ≡ some a
unfolding index_format
index_format-place IndexFormat.uint16 = refl
index_format-place _ = refl

instance abbrev pub index_format_coded : Coded IndexFormat
index_format_coded = record {
  code = index_format;
  members = index_formats;
  place = index_format-place;
  few = omega arith;
}

pub data FrontFace : Type 0 where
  ccw cw : FrontFace

pub front_face : FrontFace → ℕ
front_face FrontFace.ccw = 0
front_face FrontFace.cw = 1

abbrev pub front_faces : List FrontFace
front_faces = FrontFace.ccw ∷ FrontFace.cw ∷ []

pub front_face-place : (a : FrontFace) → get_elem? front_faces (front_face a) ≡ some a
unfolding front_face
front_face-place FrontFace.ccw = refl
front_face-place _ = refl

instance abbrev pub front_face_coded : Coded FrontFace
front_face_coded = record {
  code = front_face;
  members = front_faces;
  place = front_face-place;
  few = omega arith;
}

pub data CullMode : Type 0 where
  none front back : CullMode

pub cull_mode : CullMode → ℕ
cull_mode CullMode.none = 0
cull_mode CullMode.front = 1
cull_mode CullMode.back = 2

abbrev pub cull_modes : List CullMode
cull_modes = CullMode.none ∷ CullMode.front ∷ CullMode.back ∷ []

pub cull_mode-place : (a : CullMode) → get_elem? cull_modes (cull_mode a) ≡ some a
unfolding cull_mode
cull_mode-place CullMode.none = refl
cull_mode-place _ = refl

instance abbrev pub cull_mode_coded : Coded CullMode
cull_mode_coded = record {
  code = cull_mode;
  members = cull_modes;
  place = cull_mode-place;
  few = omega arith;
}

pub data VertexStepMode : Type 0 where
  vertex per_instance : VertexStepMode

pub vertex_step_mode : VertexStepMode → ℕ
vertex_step_mode VertexStepMode.vertex = 0
vertex_step_mode VertexStepMode.per_instance = 1

abbrev pub vertex_step_modes : List VertexStepMode
vertex_step_modes = VertexStepMode.vertex ∷ VertexStepMode.per_instance ∷ []

pub vertex_step_mode-place :
    (a : VertexStepMode) → get_elem? vertex_step_modes (vertex_step_mode a) ≡ some a
unfolding vertex_step_mode
vertex_step_mode-place VertexStepMode.vertex = refl
vertex_step_mode-place _ = refl

instance abbrev pub vertex_step_mode_coded : Coded VertexStepMode
vertex_step_mode_coded = record {
  code = vertex_step_mode;
  members = vertex_step_modes;
  place = vertex_step_mode-place;
  few = omega arith;
}
