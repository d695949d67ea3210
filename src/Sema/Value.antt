-- ===== src/Sema/Value.antt =====
-- What an expression is worth to the analysis: include/sema/value/private.h, include/sema/const/ and
-- src/sema/module/value/api.c; and the types of the target, src/sema/arch/private.c.
use hoblang_old.Base.{
  ℕ, ◌/◌, ◌%◌, Bool, true, false, ◌||◌, ◌==◌, List, [], ◌∷◌, Option, none, some, if◌then◌else◌,
}
use hoblang_old.Sema.Types.{
  int8, int16, int32, int64, uint8, uint16, uint32, uint64, float32, float64, SemaPrimitive, int,
  bool, float, void, SemaType, primitive, Ref,
}

-- The operations of the machine on `long double`, in which constants are computed.
pub record Floats (F : Type 0) : Type 0 where
  pub add : F → F → F
  pub sub : F → F → F
  pub mul : F → F → F
  pub div : F → F → F
  pub neg : F → F
  pub is_equal : F → F → Bool
  pub is_less : F → F → Bool
  pub is_at_most : F → F → Bool
  pub of_int : ℕ → F
  pub to_int : F → ℕ
  pub of_bool : Bool → F

-- A constant with its type. An integer is the bit pattern of an `int64_t`. The elements of an array
-- and the fields of a struct are behind a pointer.
pub data SemaConst (F : Type 0) : Type 0 where
  const_int : Ref → ℕ → SemaConst F
  const_float : Ref → F → SemaConst F
  const_bool : Ref → Bool → SemaConst F
  const_null : Ref → SemaConst F
  const_filled : Ref → SemaConst F → SemaConst F
  const_struct : Ref → ℕ → SemaConst F
  const_array : Ref → ℕ → SemaConst F

-- A generic function has its parameters, which are types, a pointer to the generic of the syntax tree,
-- and the type of the function.
pub data SemaValue (F : Type 0) : Type 0 where
  value_const : SemaConst F → SemaValue F
  value_final value_var value_type value_ext_func_handle : Ref → SemaValue F
  value_behaviour : ℕ → SemaValue F
  value_generic : List Ref → ℕ → Ref → SemaValue F
  value_module : ℕ → SemaValue F

module _ {F : Type 0} where
  abbrev pub const_type : SemaConst F → Ref
  const_type (const_int t x) = t
  const_type (const_float t x) = t
  const_type (const_bool t x) = t
  const_type (const_null t) = t
  const_type (const_filled t x) = t
  const_type (const_struct t x) = t
  const_type (const_array t x) = t

  -- `none` is the failed assertion.
  abbrev pub sema_value_typeof : SemaValue F → Option Ref
  sema_value_typeof (value_generic types generic t) = some t
  sema_value_typeof (value_type t) = some t
  sema_value_typeof (value_var t) = some t
  sema_value_typeof (value_final t) = some t
  sema_value_typeof (value_ext_func_handle t) = some t
  sema_value_typeof (value_const c) = some (const_type c)
  sema_value_typeof (value_module m) = none
  sema_value_typeof (value_behaviour b) = none

  abbrev pub sema_value_module_of : SemaValue F → Option ℕ
  sema_value_module_of (value_module m) = some m
  sema_value_module_of _ = none

  abbrev pub sema_value_is_type : SemaValue F → Option Ref
  sema_value_is_type (value_type t) = some t
  sema_value_is_type _ = none

  abbrev pub sema_value_is_const : SemaValue F → Bool
  sema_value_is_const (value_const c) = true
  sema_value_is_const _ = false

  abbrev pub sema_value_is_final : SemaValue F → Bool
  sema_value_is_final (value_final t) = true
  sema_value_is_final _ = false

  abbrev pub sema_value_is_var : SemaValue F → Bool
  sema_value_is_var (value_var t) = true
  sema_value_is_var _ = false

  abbrev pub sema_value_is_not_mut : SemaValue F → Bool
  sema_value_is_not_mut v = sema_value_is_const v || sema_value_is_final v

  abbrev pub sema_value_is_value : SemaValue F → Bool
  sema_value_is_value v = sema_value_is_not_mut v || sema_value_is_var v

  abbrev pub sema_value_is_runtime : SemaValue F → Bool
  sema_value_is_runtime v = sema_value_is_var v || sema_value_is_final v

-- The primitive types are static objects of the compiler: the first cells of every heap.
abbrev pub sema_type_primitive : SemaPrimitive → Ref
sema_type_primitive (int uint8) = 0
sema_type_primitive (int uint16) = 1
sema_type_primitive (int uint32) = 2
sema_type_primitive (int uint64) = 3
sema_type_primitive (int int8) = 4
sema_type_primitive (int int16) = 5
sema_type_primitive (int int32) = 6
sema_type_primitive (int int64) = 7
sema_type_primitive (float float32) = 8
sema_type_primitive (float float64) = 9
sema_type_primitive bool = 10
sema_type_primitive void = 11

abbrev pub static_types : List SemaType
static_types =
    primitive (int uint8)
    ∷ primitive (int uint16)
    ∷ primitive (int uint32)
    ∷ primitive (int uint64)
    ∷ primitive (int int8)
    ∷ primitive (int int16)
    ∷ primitive (int int32)
    ∷ primitive (int int64)
    ∷ primitive (float float32)
    ∷ primitive (float float64)
    ∷ primitive bool
    ∷ primitive void
    ∷ []

-- The bit masks `SemaIntBits` and `SemaFloatBits`.
pub record SemaArchInfo : Type 0 where
  pub ints : ℕ
  pub floats : ℕ

abbrev pub has_bit : ℕ → ℕ → Bool
has_bit bits mask = bits / mask % 2 == 1

abbrev pub sema_arch_uint : SemaArchInfo → Ref
sema_arch_uint a =
    if has_bit a.ints 8
    then sema_type_primitive (int uint64)
    else if has_bit a.ints 4
    then sema_type_primitive (int uint32)
    else if has_bit a.ints 2
    then sema_type_primitive (int uint16)
    else sema_type_primitive (int uint8)

abbrev pub sema_arch_usize : SemaArchInfo → Ref
sema_arch_usize a = sema_arch_uint a

abbrev pub sema_arch_ptr : SemaArchInfo → Ref
sema_arch_ptr a = sema_arch_uint a

abbrev pub sema_arch_int : SemaArchInfo → Ref
sema_arch_int a =
    if has_bit a.ints 8
    then sema_type_primitive (int int64)
    else if has_bit a.ints 4
    then sema_type_primitive (int int32)
    else if has_bit a.ints 2
    then sema_type_primitive (int int16)
    else sema_type_primitive (int int8)

abbrev pub sema_arch_float : SemaArchInfo → Option Ref
sema_arch_float a = if a.floats == 0 then none else some (sema_type_primitive (float float32))
