-- ===== src/Sema/Expr/Binop.antt =====
-- Binary operators: src/sema/module/parts/exprs/binop.c.
pub mod Order
pub mod Kinds
pub mod Typed
use hoblang_old.Base.{
  ℕ, Bool, true, false, not, ◌&&◌, ◌||◌, ◌==◌, Option, none, some, if◌then◌else◌,
}
use hoblang_old.Parser.Binop.{
  AstBinopType, binop_and, binop_mod, binop_add, binop_sub, binop_mul, binop_div, binop_eq,
  binop_neq, binop_gt, binop_ge, binop_lt, binop_le, binop_or, binop_bitand, binop_bitor, binop_shr,
  binop_shl, binop_xor,
}
use hoblang_old.Sema.Analysis.{
  World, Analysis, answer, null, abort, refuse, ◌>>=◌, or_abort, node_of, same_type,
}
use hoblang_old.Sema.Expr.{
  SemaExpr, sema_const_int, sema_const_float, sema_const_bool, sema_value_expr_type,
}
use hoblang_old.Sema.Types.{Ref, SemaType, sema_type_is_int, sema_type_is_float, bool}
use hoblang_old.Sema.Value.{
  Floats, SemaConst, const_int, const_float, const_bool, const_type, SemaValue, value_const,
  value_final, sema_type_primitive,
}
use hoblang_old.Sema.Word.{
  add_int, sub_int, mul_int, div_int, mod_int, bitwise, shift_left, shift_right, less_int,
}

abbrev pub bit : Bool → ℕ
bit b = if b then 1 else 0

abbrev differ : Bool → Bool → Bool
differ a b = if a then not b else b

-- The C operator that the switch gives each binop, on integers; the two of booleans are apart.
unfoldable pub int_operator : AstBinopType → ℕ → ℕ → Option ℕ
unfolding bitwise
int_operator binop_add x y = some (add_int x y)
int_operator binop_mod x y = mod_int x y
int_operator binop_sub x y = some (sub_int x y)
int_operator binop_mul x y = some (mul_int x y)
int_operator binop_div x y = div_int x y
int_operator binop_bitand x y = some (bitwise 64 (λ a b. a && b) x y)
int_operator binop_bitor x y = some (bitwise 64 (λ a b. a || b) x y)
int_operator binop_shr x y = shift_right x y
int_operator binop_shl x y = shift_left x y
int_operator binop_xor x y = some (bitwise 64 differ x y)
int_operator binop_eq x y = some (bit (x == y))
int_operator binop_neq x y = some (bit (not (x == y)))
int_operator binop_gt x y = some (bit (not (less_int x y)))
int_operator binop_ge x y = some (bit (not (less_int y x)))
int_operator binop_lt x y = some (bit (less_int y x))
int_operator binop_le x y = some (bit (less_int x y))
int_operator binop_and x y = none
int_operator binop_or x y = none

-- The binops that the switch writes `BO`.
abbrev pub is_bool_binop : AstBinopType → Bool
is_bool_binop binop_or = true
is_bool_binop binop_and = true
is_bool_binop _ = false

abbrev is_comparison : AstBinopType → Bool
is_comparison binop_eq = true
is_comparison binop_neq = true
is_comparison binop_gt = true
is_comparison binop_ge = true
is_comparison binop_lt = true
is_comparison binop_le = true
is_comparison _ = false

-- `binary_binop`
abbrev pub is_binary_binop : AstBinopType → Bool
is_binary_binop op = is_comparison op || is_bool_binop op

module _ {F : Type 0} (floats : Floats F) where
  -- The C operator on `long double`, where the switch writes `IFO`.
  unfoldable pub float_operator : AstBinopType → F → F → Option F
  float_operator binop_add x y = some (floats.add x y)
  float_operator binop_sub x y = some (floats.sub x y)
  float_operator binop_mul x y = some (floats.mul x y)
  float_operator binop_div x y = some (floats.div x y)
  float_operator binop_eq x y = some (floats.of_bool (floats.is_equal x y))
  float_operator binop_neq x y = some (floats.of_bool (not (floats.is_equal x y)))
  float_operator binop_gt x y = some (floats.of_bool (floats.is_at_most y x))
  float_operator binop_ge x y = some (floats.of_bool (floats.is_at_most x y))
  float_operator binop_lt x y = some (floats.of_bool (floats.is_less y x))
  float_operator binop_le x y = some (floats.of_bool (floats.is_less x y))
  float_operator _ x y = none

  unfoldable pub bool_operator : AstBinopType → Bool → Bool → Option Bool
  bool_operator binop_and x y = some (x && y)
  bool_operator binop_or x y = some (x || y)
  bool_operator _ x y = none

  -- A read of another member of the union than the constant has is undefined.
  unfoldable pub sema_expr_binop_eval :
      AstBinopType → SemaConst F → SemaConst F → Analysis (SemaValue F)
  unfolding int_operator float_operator bool_operator sema_const_int sema_const_float
  sema_expr_binop_eval op (const_int t x) (const_int u y) = do
    z ← or_abort (int_operator op x y)
    c ← sema_const_int t z
    answer (value_const c)
  sema_expr_binop_eval op (const_float t x) (const_float u y) = do
    z ← or_abort (float_operator op x y)
    c ← sema_const_float t z
    answer (value_const c)
  sema_expr_binop_eval op (const_bool t x) (const_bool u y) = do
    z ← or_abort (bool_operator op x y)
    answer (value_const (sema_const_bool z))
  sema_expr_binop_eval op _ _ = abort

  abbrev pub is_number : SemaType → Bool
  is_number n = sema_type_is_float n || sema_type_is_int n

  -- The two operands of `&&` and `||` are compared with bool, the left one first.
  unfoldable pub both_bool : ℕ → Ref → Ref → Analysis Bool
  unfolding same_type
  both_bool fuel l r = do
    left ← same_type fuel l (sema_type_primitive bool)
    if not left then answer false else same_type fuel r (sema_type_primitive bool)

  abbrev pub eval_or_final : AstBinopType → SemaValue F → SemaValue F → Ref → Analysis (SemaValue F)
  eval_or_final op (value_const c) (value_const d) t = sema_expr_binop_eval op c d
  eval_or_final op _ _ t = answer (value_final t)

  unfoldable pub sema_analyze_expr_binop : ℕ → AstBinopType → SemaExpr F → SemaExpr F → SemaExpr F
  unfolding sema_value_expr_type both_bool same_type sema_expr_binop_eval sema_type_is_int
      sema_type_is_float
  sema_analyze_expr_binop fuel op left right expectation = do
    let of_bools = is_bool_binop op
    let binary = is_binary_binop op
    let expect =
        if binary then (if of_bools then some (sema_type_primitive bool) else none) else expectation
    (lv, l) ← sema_value_expr_type left expect
    n ← node_of l
    _ ← (if not binary && not (is_number n) then refuse else answer tt)
    (rv, r) ← sema_value_expr_type right (if not of_bools then some l else expect)
    bools ← (if of_bools then both_bool fuel l r else answer true)
    _ ← (if not bools then refuse else answer tt)
    same ← same_type fuel l r
    _ ← (if not same then refuse else answer tt)
    eval_or_final op lv rv (if binary then sema_type_primitive bool else l)
