-- ===== src/Sema/Expr/As/Sizes.antt =====
-- Which conversion `as` chooses between primitive types.
use hoblang_old.Base.{ℕ, ◌<◌, Bool, true, false, ◌≡◌, ◌≢◌, ◌↔◌, none, some, arith}
use hoblang_old.Sema.Expr.As.{
  conv_extend, conv_trunc, conv_bitcast, conv_int_to_float, conv_uint_to_float, int_size,
  sema_int_is_signed, int_conversion, float_conversion, primitive_conversion,
}
use hoblang_old.Sema.Types.{
  SemaPrimitiveIntType, int8, int16, int32, int64, uint8, uint16, uint32, uint64,
  SemaPrimitiveFloatType, SemaPrimitive, int, float, primitive,
}

-- The width in bits.
abbrev pub int_bits : SemaPrimitiveIntType → ℕ
int_bits int8 = 8
int_bits int16 = 16
int_bits int32 = 32
int_bits int64 = 64
int_bits uint8 = 8
int_bits uint16 = 16
int_bits uint32 = 32
int_bits uint64 = 64

-- The kind of a conversion between integers says which of the two is wider.
int_conversion-width :
    (s d : SemaPrimitiveIntType)
    → ((int_conversion s (primitive (int d)) ≡ some conv_trunc) ↔ (int_bits d < int_bits s))
      × ((int_conversion s (primitive (int d)) ≡ some conv_bitcast) ↔ (int_bits s ≡ int_bits d))
      × ((int_conversion s (primitive (int d)) ≡ some conv_extend) ↔ (int_bits s < int_bits d))
unfolding int_conversion int_size
int_conversion-width s d = ground arith

-- Every integer, signed or not, is converted to a float as a signed one: the signedness that is tested
-- is read from the float type, whose number is that of a signed integer type.
pub int_conversion-float :
    (s : SemaPrimitiveIntType) (d : SemaPrimitiveFloatType)
    → (int_conversion s (primitive (float d)) ≡ some conv_int_to_float)
      × (int_conversion s (primitive (float d)) ≢ some conv_uint_to_float)
unfolding int_conversion sema_int_is_signed
int_conversion-float s d = ground arith

abbrev pub is_numeric : SemaPrimitive → Bool
is_numeric (int k) = true
is_numeric (float k) = true
is_numeric _ = false

-- Primitive types convert into each other exactly where both are integers or floats.
primitive_conversion_iff :
    (p q : SemaPrimitive)
    → (primitive_conversion p (primitive q) ≢ none)
      ↔ ((is_numeric p ≡ true) × (is_numeric q ≡ true))
unfolding primitive_conversion int_conversion float_conversion
primitive_conversion_iff p q = ground arith
