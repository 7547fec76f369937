-- ===== src/Gpu/Enum/Pass.antt =====
-- gpu/enum.spec.hpp and api.spec.hpp: the enumerations of passes, queries and what a record is of.
use xpute.Common.{ℕ, ◌≡◌, refl, arith, some, List, [], ◌∷◌, get_elem?}
use xpute.Gpu.Enum.{Coded}

pub data LoadOp : Type 0 where
  load clear : LoadOp

pub load_op : LoadOp → ℕ
load_op LoadOp.load = 0
load_op LoadOp.clear = 1

abbrev pub load_ops : List LoadOp
load_ops = LoadOp.load ∷ LoadOp.clear ∷ []

pub load_op-place : (a : LoadOp) → get_elem? load_ops (load_op a) ≡ some a
unfolding load_op
load_op-place LoadOp.load = refl
load_op-place _ = refl

instance abbrev pub load_op_coded : Coded LoadOp
load_op_coded = record {
  code = load_op;
  members = load_ops;
  place = load_op-place;
  few = omega arith;
}

pub data StoreOp : Type 0 where
  store discard : StoreOp

pub store_op : StoreOp → ℕ
store_op StoreOp.store = 0
store_op StoreOp.discard = 1

abbrev pub store_ops : List StoreOp
store_ops = StoreOp.store ∷ StoreOp.discard ∷ []

pub store_op-place : (a : StoreOp) → get_elem? store_ops (store_op a) ≡ some a
unfolding store_op
store_op-place StoreOp.store = refl
store_op-place _ = refl

instance abbrev pub store_op_coded : Coded StoreOp
store_op_coded = record {
  code = store_op;
  members = store_ops;
  place = store_op-place;
  few = omega arith;
}

pub data QueryType : Type 0 where
  occlusion timestamp : QueryType

pub query_type : QueryType → ℕ
query_type QueryType.occlusion = 0
query_type QueryType.timestamp = 1

abbrev pub query_types : List QueryType
query_types = QueryType.occlusion ∷ QueryType.timestamp ∷ []

pub query_type-place : (a : QueryType) → get_elem? query_types (query_type a) ≡ some a
unfolding query_type
query_type-place QueryType.occlusion = refl
query_type-place _ = refl

instance abbrev pub query_type_coded : Coded QueryType
query_type_coded = record {
  code = query_type;
  members = query_types;
  place = query_type-place;
  few = omega arith;
}

pub data CanvasAlphaMode : Type 0 where
  opaque premultiplied : CanvasAlphaMode

pub canvas_alpha_mode : CanvasAlphaMode → ℕ
canvas_alpha_mode CanvasAlphaMode.opaque = 0
canvas_alpha_mode CanvasAlphaMode.premultiplied = 1

abbrev pub canvas_alpha_modes : List CanvasAlphaMode
canvas_alpha_modes = CanvasAlphaMode.opaque ∷ CanvasAlphaMode.premultiplied ∷ []

pub canvas_alpha_mode-place :
    (a : CanvasAlphaMode) → get_elem? canvas_alpha_modes (canvas_alpha_mode a) ≡ some a
unfolding canvas_alpha_mode
canvas_alpha_mode-place CanvasAlphaMode.opaque = refl
canvas_alpha_mode-place _ = refl

instance abbrev pub canvas_alpha_mode_coded : Coded CanvasAlphaMode
canvas_alpha_mode_coded = record {
  code = canvas_alpha_mode;
  members = canvas_alpha_modes;
  place = canvas_alpha_mode-place;
  few = omega arith;
}

pub data BindingKind : Type 0 where
  buffer sampler texture storage_texture : BindingKind

pub binding_kind : BindingKind → ℕ
binding_kind BindingKind.buffer = 0
binding_kind BindingKind.sampler = 1
binding_kind BindingKind.texture = 2
binding_kind BindingKind.storage_texture = 3

abbrev pub binding_kinds : List BindingKind
binding_kinds =
    BindingKind.buffer ∷ BindingKind.sampler ∷ BindingKind.texture ∷ BindingKind.storage_texture
    ∷ []

pub binding_kind-place : (a : BindingKind) → get_elem? binding_kinds (binding_kind a) ≡ some a
unfolding binding_kind
binding_kind-place BindingKind.buffer = refl
binding_kind-place _ = refl

instance abbrev pub binding_kind_coded : Coded BindingKind
binding_kind_coded = record {
  code = binding_kind;
  members = binding_kinds;
  place = binding_kind-place;
  few = omega arith;
}

pub data ResourceKind : Type 0 where
  buffer sampler texture_view : ResourceKind

pub resource_kind : ResourceKind → ℕ
resource_kind ResourceKind.buffer = 0
resource_kind ResourceKind.sampler = 1
resource_kind ResourceKind.texture_view = 2

abbrev pub resource_kinds : List ResourceKind
resource_kinds = ResourceKind.buffer ∷ ResourceKind.sampler ∷ ResourceKind.texture_view ∷ []

pub resource_kind-place : (a : ResourceKind) → get_elem? resource_kinds (resource_kind a) ≡ some a
unfolding resource_kind
resource_kind-place ResourceKind.buffer = refl
resource_kind-place _ = refl

instance abbrev pub resource_kind_coded : Coded ResourceKind
resource_kind_coded = record {
  code = resource_kind;
  members = resource_kinds;
  place = resource_kind-place;
  few = omega arith;
}
