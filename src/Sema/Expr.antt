-- ===== src/Sema/Expr.antt =====
-- The analysis of expressions: src/sema/module/parts/expr.c and src/sema/module/parts/exprs/. An
-- expression inside another is its own analysis, which takes the type expected of it.
pub mod Answers
pub mod Binop
pub mod As
pub mod Simple
pub mod Compound
use hoblang_old.Base.{ℕ, Bool, true, false, not, ◌||◌, Option, none, some, if◌then◌else◌}
use hoblang_old.Sema.Analysis.{
  World, Analysis, answer, null, abort, refuse, report, ◌>>=◌, or_abort, node_of,
}
use hoblang_old.Sema.Types.{Ref, sema_type_is_int, sema_type_is_float}
use hoblang_old.Sema.Value.{
  SemaConst, const_int, const_float, const_bool, SemaValue, value_const, value_ext_func_handle,
  sema_value_typeof, sema_value_is_value, sema_value_is_var, sema_value_is_runtime, Floats,
  sema_type_primitive,
}
use hoblang_old.Sema.Types.{bool}

-- `sema_expr` on an expression, from `ctx.expectation`.
abbrev pub SemaExpr : Type 0 → Type 0
SemaExpr F = Option Ref → Analysis (SemaValue F)

module _ {F : Type 0} where
  -- The constructors of constants assert the kind of their type.
  unfoldable pub sema_const_int : Ref → ℕ → Analysis (SemaConst F)
  unfolding sema_type_is_int
  sema_const_int t x = do
    n ← node_of t
    if sema_type_is_int n then answer (const_int t x) else abort

  unfoldable pub sema_const_float : Ref → F → Analysis (SemaConst F)
  unfolding sema_type_is_float
  sema_const_float t x = do
    n ← node_of t
    if sema_type_is_float n then answer (const_float t x) else abort

  -- Its tag is that of an integer, which the analysis does not read.
  abbrev pub sema_const_bool : Bool → SemaConst F
  sema_const_bool b = const_bool (sema_type_primitive bool) b

  -- The value of the expression, and its type.
  unfoldable pub sema_value_expr_type : SemaExpr F → Option Ref → Analysis (SemaValue F × Ref)
  sema_value_expr_type e expect = do
    v ← e expect
    _ ← (if not (sema_value_is_value v) then refuse else answer tt)
    t ← or_abort (sema_value_typeof v)
    answer (v, t)

  -- An expression that is no variable is reported, and its type returned all the same.
  unfoldable pub sema_var_expr_type : SemaExpr F → Option Ref → Analysis (SemaValue F × Ref)
  sema_var_expr_type e expect = do
    v ← e expect
    _ ← (if not (sema_value_is_var v) then report else answer tt)
    t ← or_abort (sema_value_typeof v)
    answer (v, t)

  abbrev is_callable : SemaValue F → Bool
  is_callable (value_ext_func_handle t) = true
  is_callable v = sema_value_is_runtime v

  unfoldable pub sema_callable_expr_type : SemaExpr F → Option Ref → Analysis (SemaValue F)
  sema_callable_expr_type e expect = do
    v ← e expect
    if not (is_callable v) then refuse else answer v

  unfoldable pub sema_const_expr : SemaExpr F → Option Ref → Analysis (SemaConst F)
  sema_const_expr e expect = do v ← e expect; elim v [ value_const c ↦ answer c | _ ↦ refuse ]
