-- ===== src/Gpu/Enum/Blend.antt =====
-- gpu/enum.spec.hpp: the enumerations of tests and blending.
use xpute.Common.{ℕ, ◌≡◌, refl, arith, some, List, [], ◌∷◌, get_elem?}
use xpute.Gpu.Enum.{Coded}

pub data CompareFunction : Type 0 where
  never less equal less_equal greater not_equal greater_equal always : CompareFunction

pub compare_function : CompareFunction → ℕ
compare_function CompareFunction.never = 0
compare_function CompareFunction.less = 1
compare_function CompareFunction.equal = 2
compare_function CompareFunction.less_equal = 3
compare_function CompareFunction.greater = 4
compare_function CompareFunction.not_equal = 5
compare_function CompareFunction.greater_equal = 6
compare_function CompareFunction.always = 7

abbrev pub compare_functions : List CompareFunction
compare_functions =
    CompareFunction.never ∷ CompareFunction.less ∷ CompareFunction.equal
    ∷ CompareFunction.less_equal ∷ CompareFunction.greater ∷ CompareFunction.not_equal
    ∷ CompareFunction.greater_equal ∷ CompareFunction.always ∷ []

pub compare_function-place :
    (a : CompareFunction) → get_elem? compare_functions (compare_function a) ≡ some a
unfolding compare_function
compare_function-place CompareFunction.never = refl
compare_function-place _ = refl

instance abbrev pub compare_function_coded : Coded CompareFunction
compare_function_coded = record {
  code = compare_function;
  members = compare_functions;
  place = compare_function-place;
  few = omega arith;
}

pub data StencilOperation : Type 0 where
  keep zero replace invert increment_clamp decrement_clamp increment_wrap : StencilOperation
  decrement_wrap : StencilOperation

pub stencil_operation : StencilOperation → ℕ
stencil_operation StencilOperation.keep = 0
stencil_operation StencilOperation.zero = 1
stencil_operation StencilOperation.replace = 2
stencil_operation StencilOperation.invert = 3
stencil_operation StencilOperation.increment_clamp = 4
stencil_operation StencilOperation.decrement_clamp = 5
stencil_operation StencilOperation.increment_wrap = 6
stencil_operation StencilOperation.decrement_wrap = 7

abbrev pub stencil_operations : List StencilOperation
stencil_operations =
    StencilOperation.keep ∷ StencilOperation.zero ∷ StencilOperation.replace
    ∷ StencilOperation.invert ∷ StencilOperation.increment_clamp ∷ StencilOperation.decrement_clamp
    ∷ StencilOperation.increment_wrap ∷ StencilOperation.decrement_wrap ∷ []

pub stencil_operation-place :
    (a : StencilOperation) → get_elem? stencil_operations (stencil_operation a) ≡ some a
unfolding stencil_operation
stencil_operation-place StencilOperation.keep = refl
stencil_operation-place _ = refl

instance abbrev pub stencil_operation_coded : Coded StencilOperation
stencil_operation_coded = record {
  code = stencil_operation;
  members = stencil_operations;
  place = stencil_operation-place;
  few = omega arith;
}

pub data BlendOperation : Type 0 where
  add subtract reverse_subtract min max : BlendOperation

pub blend_operation : BlendOperation → ℕ
blend_operation BlendOperation.add = 0
blend_operation BlendOperation.subtract = 1
blend_operation BlendOperation.reverse_subtract = 2
blend_operation BlendOperation.min = 3
blend_operation BlendOperation.max = 4

abbrev pub blend_operations : List BlendOperation
blend_operations =
    BlendOperation.add ∷ BlendOperation.subtract ∷ BlendOperation.reverse_subtract
    ∷ BlendOperation.min ∷ BlendOperation.max ∷ []

pub blend_operation-place :
    (a : BlendOperation) → get_elem? blend_operations (blend_operation a) ≡ some a
unfolding blend_operation
blend_operation-place BlendOperation.add = refl
blend_operation-place _ = refl

instance abbrev pub blend_operation_coded : Coded BlendOperation
blend_operation_coded = record {
  code = blend_operation;
  members = blend_operations;
  place = blend_operation-place;
  few = omega arith;
}

pub data BlendFactor : Type 0 where
  zero one src one_minus_src src_alpha one_minus_src_alpha dst one_minus_dst dst_alpha : BlendFactor
  one_minus_dst_alpha src_alpha_saturated constant one_minus_constant src1 : BlendFactor
  one_minus_src1 src1_alpha one_minus_src1_alpha : BlendFactor

pub blend_factor : BlendFactor → ℕ
blend_factor BlendFactor.zero = 0
blend_factor BlendFactor.one = 1
blend_factor BlendFactor.src = 2
blend_factor BlendFactor.one_minus_src = 3
blend_factor BlendFactor.src_alpha = 4
blend_factor BlendFactor.one_minus_src_alpha = 5
blend_factor BlendFactor.dst = 6
blend_factor BlendFactor.one_minus_dst = 7
blend_factor BlendFactor.dst_alpha = 8
blend_factor BlendFactor.one_minus_dst_alpha = 9
blend_factor BlendFactor.src_alpha_saturated = 10
blend_factor BlendFactor.constant = 11
blend_factor BlendFactor.one_minus_constant = 12
blend_factor BlendFactor.src1 = 13
blend_factor BlendFactor.one_minus_src1 = 14
blend_factor BlendFactor.src1_alpha = 15
blend_factor BlendFactor.one_minus_src1_alpha = 16

abbrev pub blend_factors : List BlendFactor
blend_factors =
    BlendFactor.zero ∷ BlendFactor.one ∷ BlendFactor.src ∷ BlendFactor.one_minus_src
    ∷ BlendFactor.src_alpha ∷ BlendFactor.one_minus_src_alpha ∷ BlendFactor.dst
    ∷ BlendFactor.one_minus_dst ∷ BlendFactor.dst_alpha ∷ BlendFactor.one_minus_dst_alpha
    ∷ BlendFactor.src_alpha_saturated ∷ BlendFactor.constant ∷ BlendFactor.one_minus_constant
    ∷ BlendFactor.src1 ∷ BlendFactor.one_minus_src1 ∷ BlendFactor.src1_alpha
    ∷ BlendFactor.one_minus_src1_alpha ∷ []

pub blend_factor-place : (a : BlendFactor) → get_elem? blend_factors (blend_factor a) ≡ some a
unfolding blend_factor
blend_factor-place BlendFactor.zero = refl
blend_factor-place _ = refl

instance abbrev pub blend_factor_coded : Coded BlendFactor
blend_factor_coded = record {
  code = blend_factor;
  members = blend_factors;
  place = blend_factor-place;
  few = omega arith;
}
