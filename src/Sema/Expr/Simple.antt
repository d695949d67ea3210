-- ===== src/Sema/Expr/Simple.antt =====
-- Short analyses of src/sema/module/parts/exprs/: int.c, float.c, null.c, not.c, unary.c, ref.c and
-- unwrap.c.
use hoblang_old.Base.{ℕ, ◌-◌, Bool, not, ◌||◌, Option, none, some, if◌then◌else◌, Bytes}
use hoblang_old.Parser.Syntax.{AstUnaryType, unary_minus, unary_bitnot}
use hoblang_old.Sema.Analysis.{
  World, Analysis, answer, null, abort, refuse, report, ◌>>=◌, node_of, same_type, new_type,
  the_world,
}
use hoblang_old.Sema.Decls.{sema_decl_new}
use hoblang_old.Sema.Expr.{
  SemaExpr, sema_const_int, sema_const_float, sema_const_bool, sema_value_expr_type,
  sema_var_expr_type,
}
use hoblang_old.Sema.Scopes.{sema_module_push_scope_decl}
use hoblang_old.Sema.State.{SemaModule}
use hoblang_old.Sema.Types.{
  Ref, SemaType, optional, pointer, bool, sema_type_is_int, sema_type_is_float,
}
use hoblang_old.Sema.Value.{
  Floats, const_int, const_float, const_bool, const_null, SemaValue, value_const, value_final,
  sema_type_primitive, sema_arch_int, sema_arch_float,
}
use hoblang_old.Sema.Word.{negate, whole}

pub data SemaNullType : Type 0 where
  null_pointer null_optional : SemaNullType

-- NULL is read where the first part gives it.
abbrev not_null : {A : Type 0} → Option (Option A × World) → Option (Option A × World)
not_null none = none
not_null (some (none, w)) = none
not_null (some (some a, w)) = some (some a, w)

abbrev with_module : World → Option SemaModule → Option (Option (Unit {0}) × World)
with_module w none = none
with_module w (some m) = some (some tt, record w { sema = m })

-- A function of the module's state.
abbrev pub on_module : (SemaModule → Option SemaModule) → Analysis (Unit {0})
on_module f w = with_module w (f w.sema)

-- The type expected, where it is of the kind; or else the other.
abbrev expected_or : (SemaType → Bool) → Option Ref → Analysis Ref → Analysis Ref
expected_or test none other = other
expected_or test (some t) other = do n ← node_of t; if test n then answer t else other

abbrev float_or_null : Option Ref → Analysis Ref
float_or_null none = null
float_or_null (some t) = answer t

module _ {F : Type 0} where
  unfoldable pub sema_analyze_expr_int : ℕ → SemaExpr F
  unfolding sema_const_int
  sema_analyze_expr_int integer expectation = do
    w ← the_world
    t ← expected_or sema_type_is_int expectation (answer (sema_arch_int w.arch))
    c ← sema_const_int t integer
    answer (value_const c)

  unfoldable pub sema_analyze_expr_float : F → SemaExpr F
  unfolding sema_const_float
  sema_analyze_expr_float value expectation = do
    w ← the_world
    t ← expected_or sema_type_is_float expectation (float_or_null (sema_arch_float w.arch))
    c ← sema_const_float t value
    answer (value_const c)

  abbrev null_of : Ref → SemaType → Analysis (SemaNullType × SemaValue F)
  null_of t (pointer to) = answer (null_pointer, value_final t)
  null_of t (optional of) = do
    u ← new_type (optional of)
    answer (null_optional, value_const (const_null u))
  null_of t _ = refuse

  unfoldable pub sema_analyze_expr_null : Option Ref → Analysis (SemaNullType × SemaValue F)
  unfolding new_type
  sema_analyze_expr_null none = refuse
  sema_analyze_expr_null (some t) = do n ← node_of t; null_of t n

  -- A constant of another kind has no `boolean`.
  abbrev negated : SemaValue F → Analysis (SemaValue F)
  negated (value_const (const_bool t b)) = answer (value_const (sema_const_bool (not b)))
  negated (value_const c) = abort
  negated v = answer (value_final (sema_type_primitive bool))

  -- The operand's type is compared before it is known not to be NULL; an operand of another type is
  -- reported, and the result is bool all the same.
  unfoldable pub sema_analyze_expr_not : ℕ → SemaExpr F → SemaExpr F
  unfolding sema_value_expr_type same_type
  sema_analyze_expr_not fuel e expectation = do
    (v, t) ← (λ w. not_null (sema_value_expr_type e (some (sema_type_primitive bool)) w))
    same ← same_type fuel t (sema_type_primitive bool)
    _ ← (if not same then report else answer tt)
    negated v

  unfoldable pub sema_analyze_expr_ref : SemaExpr F → SemaExpr F
  unfolding sema_var_expr_type new_type
  sema_analyze_expr_ref e expectation = do
    (v, t) ← sema_var_expr_type e none
    p ← new_type (pointer t)
    answer (value_final p)

  -- The name is declared in the scope, for the inner type; the result is bool.
  abbrev unwrap_of : Bytes → SemaType → ℕ → Analysis (SemaValue F)
  unwrap_of name (optional of) value = do
    _ ← on_module (sema_module_push_scope_decl (sema_decl_new name value))
    answer (value_final (sema_type_primitive bool))
  unwrap_of name _ value = refuse

  -- `value` is the address of the new `sema_value_final` of the inner type.
  unfoldable pub sema_analyze_expr_unwrap : Bytes → ℕ → SemaExpr F → SemaExpr F
  unfolding sema_value_expr_type sema_module_push_scope_decl
  sema_analyze_expr_unwrap name value e expectation = do
    (v, t) ← sema_value_expr_type e none
    n ← node_of t
    unwrap_of name n value

module _ {F : Type 0} (floats : Floats F) where
  abbrev minus_of : SemaValue F → Ref → Analysis (SemaValue F)
  minus_of (value_const (const_int u x)) t = do
    c ← sema_const_int t (negate x)
    answer (value_const c)
  minus_of (value_const (const_float u x)) t = do
    c ← sema_const_float t (floats.neg x)
    answer (value_const c)
  minus_of v t = answer (value_final t)

  abbrev bitnot_of : SemaValue F → Ref → Analysis (SemaValue F)
  bitnot_of (value_const (const_int u x)) t = do
    c ← sema_const_int t (whole - 1 - x)
    answer (value_const c)
  bitnot_of (value_const c) t = abort
  bitnot_of v t = answer (value_final t)

  -- An operand that the operator does not fit is reported, and the result returned all the same. It
  -- is the integers that `~` reports.
  unfoldable pub sema_analyze_expr_unary : AstUnaryType → SemaExpr F → SemaExpr F
  unfolding sema_value_expr_type sema_const_int sema_const_float sema_type_is_int sema_type_is_float
  sema_analyze_expr_unary unary_minus e expectation = do
    (v, t) ← sema_value_expr_type e expectation
    n ← node_of t
    _ ← (if not (sema_type_is_int n || sema_type_is_float n) then report else answer tt)
    minus_of v t
  sema_analyze_expr_unary unary_bitnot e expectation = do
    (v, t) ← sema_value_expr_type e expectation
    n ← node_of t
    _ ← (if sema_type_is_int n then report else answer tt)
    bitnot_of v t
