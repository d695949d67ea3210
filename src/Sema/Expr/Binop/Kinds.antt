-- ===== src/Sema/Expr/Binop/Kinds.antt =====
-- Kinds of binary operators, number types, and the checks of src/sema/module/parts/exprs/binop.c.
use hoblang_old.Base.{
  ◌⊎◌, inl, inr, Bool-cases, Bool, true, false, not, ◌&&◌, ◌≡◌, refl, Option, none, some,
  if◌then◌else◌,
}
use hoblang_old.Parser.Binop.{
  AstBinopType, binop_and, binop_mod, binop_add, binop_sub, binop_mul, binop_div, binop_eq,
  binop_neq, binop_gt, binop_ge, binop_lt, binop_le, binop_or, binop_bitand, binop_bitor, binop_shr,
  binop_shl, binop_xor,
}
use hoblang_old.Sema.Analysis.{World, answer, or_abort, refuse}
use hoblang_old.Sema.Expr.Answers.{Answers}
use hoblang_old.Sema.Expr.Binop.{is_binary_binop, is_number}
use hoblang_old.Sema.Types.{
  void, generic, array, slice, structure, function, pointer, optional, SemaType, sema_type_is_int,
  sema_type_is_float, float, SemaPrimitiveFloatType, int, SemaPrimitiveIntType, primitive, type_at,
  Heap, SemaPrimitive, Ref, bool,
}
use hoblang_old.Sema.Value.{Floats}

-- What an operator is of.
pub data BinopKind : Type 0 where
  arithmetic comparison logical : BinopKind

abbrev pub kind_of : AstBinopType → BinopKind
kind_of binop_add = arithmetic
kind_of binop_sub = arithmetic
kind_of binop_mul = arithmetic
kind_of binop_div = arithmetic
kind_of binop_mod = arithmetic
kind_of binop_bitand = arithmetic
kind_of binop_bitor = arithmetic
kind_of binop_xor = arithmetic
kind_of binop_shl = arithmetic
kind_of binop_shr = arithmetic
kind_of binop_eq = comparison
kind_of binop_neq = comparison
kind_of binop_lt = comparison
kind_of binop_le = comparison
kind_of binop_gt = comparison
kind_of binop_ge = comparison
kind_of binop_and = logical
kind_of binop_or = logical

-- The type is an integer or a floating point type.
abbrev pub IsNumber : Heap → Ref → Type 0
IsNumber h t =
    (p : SemaPrimitive) × (type_at h t ≡ some (primitive p))
    × (((k : SemaPrimitiveIntType) × (p ≡ int k)) ⊎ ((k : SemaPrimitiveFloatType) × (p ≡ float k)))

-- A primitive type at the place `t` is still there.
abbrev pub KeepsPrimitive : Ref → World → World → Type 0
KeepsPrimitive t w w' =
    (p : SemaPrimitive)
    → type_at w.heap t ≡ some (primitive p)
    → type_at w'.heap t ≡ some (primitive p)

-- A check goes on in the world it was made in.
pub guard-Answers :
    (b : Bool) (w : World)
    → Answers (λ _ w'. (w' ≡ w) × (b ≡ false)) ((if b then refuse else answer tt) w)
guard-Answers true w = tt
guard-Answers false w = (refl, refl)

pub given-Answers :
    {A : Type 0} (o : Option A) (w : World)
    → Answers (λ a w'. (w' ≡ w) × (o ≡ some a)) (or_abort o w)
given-Answers none w = tt
given-Answers (some a) w = (refl, refl)

pub true-not : (b : Bool) → not b ≡ false → b ≡ true
true-not true h = refl
true-not false h = cc

pub IsNumber-kept :
    (l : Ref) (w w' : World) → KeepsPrimitive l w w' → IsNumber w.heap l → IsNumber w'.heap l
IsNumber-kept l w w' k (p, e, x) = (p, k p e, x)

module _ {F : Type 0} (floats : Floats F) where
  is_number-IsNumber :
      (n : SemaType) (h : Heap) (t : Ref)
      → type_at h t ≡ some n
      → is_number floats n ≡ true
      → IsNumber h t
  unfolding sema_type_is_int sema_type_is_float
  is_number-IsNumber (primitive (int k)) h t e i = (int k, e, inl (k, refl))
  is_number-IsNumber (primitive (float k)) h t e i = (float k, e, inr (k, refl))
  is_number-IsNumber (primitive bool) h t e i = cc
  is_number-IsNumber (primitive void) h t e i = cc
  is_number-IsNumber (optional u) h t e i = cc
  is_number-IsNumber (pointer u) h t e i = cc
  is_number-IsNumber (function us u) h t e i = cc
  is_number-IsNumber (structure d) h t e i = cc
  is_number-IsNumber (slice u) h t e i = cc
  is_number-IsNumber (array k u) h t e i = cc
  is_number-IsNumber (generic g) h t e i = cc

  -- Where the test of the left operand is passed.
  pub passed-IsNumber :
      (op : AstBinopType) (n : SemaType) (h : Heap) (t : Ref)
      → type_at h t ≡ some n
      → not (is_binary_binop op) && not (is_number floats n) ≡ false
      → is_binary_binop op ≡ false
      → IsNumber h t
  passed-IsNumber op n h t e g b = elim (Bool-cases (is_number floats n)) [
    | inl i ↦ is_number-IsNumber n h t e i
    | inr i ↦ cc
  ]
