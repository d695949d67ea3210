-- ===== src/Sema/Expr/As.antt =====
-- Conversions: src/sema/module/parts/exprs/as.c and include/ast/private/expr/as.h. A conversion answers
-- its kind, which the source writes to `conv_type`, with the value.
pub mod Sizes
pub mod Typed
use hoblang_old.Base.{ℕ, Bool, true, false, not, Option, none, some, if◌then◌else◌, ltb, ◌==◌}
use hoblang_old.Sema.Analysis.{
  World, Analysis, answer, null, abort, refuse, ◌>>=◌, or_abort, node_of, same_type, new_type,
  the_world,
}
use hoblang_old.Sema.Expr.{SemaExpr, sema_const_int, sema_const_float, sema_value_expr_type}
use hoblang_old.Sema.Types.{
  SemaPrimitiveIntType, int8, int16, int32, int64, uint8, uint16, uint32, uint64,
  SemaPrimitiveFloatType, float32, float64, SemaPrimitive, int, bool, float, void, Ref, SemaType,
  primitive, optional, pointer, function, structure, slice, array, generic, sema_type_is_int,
}
use hoblang_old.Sema.Value.{
  Floats, SemaConst, const_int, const_float, const_null, const_filled, SemaValue, value_const,
  value_final, sema_value_is_const, sema_type_primitive, sema_arch_ptr,
}

pub data SemaAsConvType : Type 0 where
  conv_extend conv_trunc conv_fextend conv_ftrunc conv_bitcast : SemaAsConvType
  conv_int_to_float conv_uint_to_float conv_float_to_int conv_float_to_uint : SemaAsConvType
  conv_int_to_ptr conv_ptr_to_int conv_opt_unwrap conv_opt_wrap : SemaAsConvType
  conv_arr_ptr_to_slice conv_slice_to_ptr conv_ignore : SemaAsConvType

unfoldable pub sema_int_is_signed : SemaPrimitiveIntType → Bool
sema_int_is_signed int8 = true
sema_int_is_signed int16 = true
sema_int_is_signed int32 = true
sema_int_is_signed int64 = true
sema_int_is_signed _ = false

-- The entries of the two tables `sizes`.
unfoldable pub int_size : SemaPrimitiveIntType → ℕ
int_size int8 = 1
int_size int16 = 2
int_size int32 = 3
int_size int64 = 4
int_size uint8 = 1
int_size uint16 = 2
int_size uint32 = 3
int_size uint64 = 4

unfoldable pub float_size : SemaPrimitiveFloatType → ℕ
float_size float32 = 1
float_size float64 = 2

-- `primitive.integer` of a float type: the other member of the union, with the same number.
abbrev pub integer_of_float : SemaPrimitiveFloatType → SemaPrimitiveIntType
integer_of_float float32 = int8
integer_of_float float64 = int16

-- Which of three kinds fits the sizes of the source and of the destination.
abbrev pub by_size : ℕ → ℕ → SemaAsConvType → SemaAsConvType → SemaAsConvType → SemaAsConvType
by_size src dst larger equal smaller =
    if ltb dst src then larger else if src == dst then equal else smaller

-- The conversions of one primitive type into another; `none` is an error.
unfoldable pub float_conversion : SemaPrimitiveFloatType → SemaType → Option SemaAsConvType
unfolding sema_int_is_signed float_size
float_conversion k (primitive (int i)) =
    some (if sema_int_is_signed i then conv_float_to_int else conv_float_to_uint)
float_conversion k (primitive (float d)) =
    some (by_size (float_size k) (float_size d) conv_ftrunc conv_bitcast conv_fextend)
float_conversion k _ = none

unfoldable pub int_conversion : SemaPrimitiveIntType → SemaType → Option SemaAsConvType
unfolding sema_int_is_signed int_size
int_conversion k (primitive (float d)) =
    some (if sema_int_is_signed (integer_of_float d) then conv_int_to_float else conv_uint_to_float)
int_conversion k (primitive (int d)) =
    some (by_size (int_size k) (int_size d) conv_trunc conv_bitcast conv_extend)
int_conversion k (pointer t) = some conv_int_to_ptr
int_conversion k _ = none

unfoldable pub primitive_conversion : SemaPrimitive → SemaType → Option SemaAsConvType
unfolding float_conversion int_conversion
primitive_conversion (float k) d = float_conversion k d
primitive_conversion (int k) d = int_conversion k d
primitive_conversion bool d = none
primitive_conversion void d = none

module _ {F : Type 0} (floats : Floats F) (fuel : ℕ) where
  -- What a constant becomes: a pointer keeps none. A read of another member of the union than the
  -- constant has is undefined.
  unfoldable pub convert_const : SemaConst F → Ref → SemaType → Analysis (SemaValue F)
  unfolding sema_const_int sema_const_float
  convert_const (const_float t x) dest (primitive (int k)) = do
    c ← sema_const_int dest (floats.to_int x)
    answer (value_const c)
  convert_const (const_float t x) dest (primitive (float k)) = do
    c ← sema_const_float dest x
    answer (value_const c)
  convert_const (const_int t x) dest (primitive (float k)) = do
    c ← sema_const_float dest (floats.of_int x)
    answer (value_const c)
  convert_const (const_int t x) dest (primitive (int k)) = do
    c ← sema_const_int dest x
    answer (value_const c)
  convert_const c dest (pointer t) = answer (value_final dest)
  convert_const c dest d = abort

  abbrev pub convert_value : SemaValue F → Ref → SemaType → Analysis (SemaValue F)
  convert_value (value_const c) dest d = convert_const c dest d
  convert_value v dest d = answer (value_final dest)

  unfoldable pub sema_conv_primitive :
      SemaPrimitive → SemaValue F → Ref → Analysis (SemaAsConvType × SemaValue F)
  unfolding primitive_conversion convert_const
  sema_conv_primitive p source dest = do
    d ← node_of dest
    kind ← elim (primitive_conversion p d) [ none ↦ refuse | some k ↦ answer k ]
    v ← convert_value source dest d
    answer (kind, v)

  unfoldable pub sema_conv_array : SemaValue F → Ref → Analysis (SemaAsConvType × SemaValue F)
  sema_conv_array source dest = refuse

  abbrev is_array : SemaType → Bool
  is_array (array n t) = true
  is_array _ = false

  -- From a pointer to a type `of`.
  abbrev pub pointer_conversion : SemaType → SemaType → Option SemaAsConvType
  pointer_conversion of (slice t) = if is_array of then some conv_arr_ptr_to_slice else none
  pointer_conversion of (pointer t) = some conv_bitcast
  pointer_conversion of (primitive (int k)) = some conv_ptr_to_int
  pointer_conversion of _ = none

  unfoldable pub sema_conv_pointer :
      Ref → SemaValue F → Ref → Analysis (SemaAsConvType × SemaValue F)
  sema_conv_pointer to source dest = do
    of ← node_of to
    d ← node_of dest
    elim (pointer_conversion of d) [ none ↦ refuse | some k ↦ answer (k, value_final dest) ]

  unfoldable pub sema_conv_slice : Ref → SemaValue F → Ref → Analysis (SemaAsConvType × SemaValue F)
  unfolding same_type
  sema_conv_slice of source dest = do
    d ← node_of dest
    elim d [
      | pointer t ↦
          same_type fuel of t
          >>= (λ same. if not same then refuse else answer (conv_slice_to_ptr, value_final dest))
      | _ ↦ refuse
    ]

  -- Where the destination is a pointer to void, the source reads its function type as a slice type,
  -- which is undefined.
  abbrev function_to_pointer : SemaType → Analysis (SemaAsConvType × SemaValue F)
  function_to_pointer (pointer t) = do
    same ← same_type fuel t (sema_type_primitive void)
    if same then abort else refuse
  function_to_pointer _ = refuse

  unfoldable pub sema_conv_function : SemaValue F → Ref → Analysis (SemaAsConvType × SemaValue F)
  unfolding same_type
  sema_conv_function source dest = do
    w ← the_world
    is_ptr ← same_type fuel dest (sema_arch_ptr w.arch)
    d ← node_of dest
    if is_ptr then answer (conv_ptr_to_int, value_final dest) else function_to_pointer d

  abbrev unwrapped : SemaValue F → Ref → Analysis (SemaAsConvType × SemaValue F)
  unwrapped (value_const (const_filled t c)) dest = answer (conv_opt_unwrap, value_const c)
  unwrapped (value_const (const_null t)) dest = refuse
  unwrapped (value_const _) dest = abort
  unwrapped v dest = answer (conv_opt_unwrap, value_final dest)

  unfoldable pub sema_conv_optional :
      Ref → SemaValue F → Ref → Analysis (SemaAsConvType × SemaValue F)
  unfolding same_type
  sema_conv_optional of source dest = do
    same ← same_type fuel of dest
    if same then unwrapped source dest else refuse

  -- The switch over the type of the operand.
  unfoldable pub convert : SemaType → SemaValue F → Ref → Analysis (SemaAsConvType × SemaValue F)
  unfolding sema_conv_primitive sema_conv_array sema_conv_pointer sema_conv_slice sema_conv_function
      sema_conv_optional
  convert (primitive p) v dest = sema_conv_primitive p v dest
  convert (array n t) v dest = sema_conv_array v dest
  convert (pointer t) v dest = sema_conv_pointer t v dest
  convert (slice t) v dest = sema_conv_slice t v dest
  convert (function args r) v dest = sema_conv_function v dest
  convert (optional t) v dest = sema_conv_optional t v dest
  convert (generic g) v dest = refuse
  convert (structure d) v dest = refuse

  abbrev wrapped : SemaValue F → Ref → Ref → Analysis (SemaAsConvType × SemaValue F)
  wrapped (value_const c) type dest = do
    t ← new_type (optional type)
    answer (conv_opt_wrap, value_const (const_filled t c))
  wrapped v type dest = answer (conv_opt_wrap, value_final dest)

  abbrev pub expected_inside : Ref → SemaType → Ref
  expected_inside dest (optional t) = t
  expected_inside dest _ = dest

  -- Where the types differ.
  unfoldable pub wrap_or_convert :
      Ref → SemaType → SemaValue F → Ref → Analysis (SemaAsConvType × SemaValue F)
  unfolding same_type convert new_type
  wrap_or_convert dest (optional t) v type = do
    same ← same_type fuel type t
    if not same then refuse else wrapped v type dest
  wrap_or_convert dest d v type = do n ← node_of type; convert n v dest

  -- `as_type` is the type written, or none for the `as` of the expected type.
  unfoldable pub sema_analyze_expr_as :
      Option Ref → SemaExpr F → Option Ref → Analysis (SemaAsConvType × SemaValue F)
  unfolding sema_value_expr_type same_type wrap_or_convert
  sema_analyze_expr_as as_type e expectation = do
    dest ← elim as_type [
      | some t ↦ answer t
      | none ↦ elim expectation [ none ↦ refuse | some t ↦ answer t ]
    ]
    d ← node_of dest
    (v, type) ← sema_value_expr_type e (some (expected_inside dest d))
    same ← same_type fuel dest type
    if same then answer (conv_ignore, v) else wrap_or_convert dest d v type
