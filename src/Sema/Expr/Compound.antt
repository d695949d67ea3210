-- ===== src/Sema/Expr/Compound.antt =====
-- Analyses of src/sema/module/parts/exprs/ with several expressions in them: idx.c, array.c, call.c,
-- ret_on_null.c and get_inner.c; and `sema_value_with_type` of include/sema/value/private.h.
use hoblang_old.Base.{
  ℕ, ◌+◌, ◌-◌, ◌%◌, ◌^◌, Bool, true, false, not, List, [], ◌∷◌, Option, none, some, length,
  if◌then◌else◌, ◌==◌,
}
use hoblang_old.Parser.Syntax.{AstPath}
use hoblang_old.Sema.Analysis.{
  World, Analysis, answer, abort, refuse, report, ◌>>=◌, or_abort, node_of, same_type, new_type,
  the_world,
}
use hoblang_old.Sema.Expr.{SemaExpr, sema_value_expr_type, sema_callable_expr_type}
use hoblang_old.Sema.Scopes.{sema_module_returns}
use hoblang_old.Sema.Types.{Ref, SemaType, slice, array, function, optional}
use hoblang_old.Sema.Value.{
  SemaValue, value_final, value_var, value_type, value_ext_func_handle, sema_value_typeof,
  sema_arch_usize,
}

-- NULL as a pointer to a type that is kept: an index that no heap in 64 bits reaches.
abbrev pub null_ref : Ref
null_ref = 2 ^ 64

abbrev pub or_null_ref : Option Ref → Ref
or_null_ref none = null_ref
or_null_ref (some t) = t

abbrev element_type : SemaType → Analysis Ref
element_type (slice t) = answer t
element_type (array n t) = answer t
element_type _ = refuse

-- The type of the elements that a type expected gives.
abbrev expected_element : SemaType → Option Ref
expected_element (array n t) = some t
expected_element _ = none

abbrev element_of : Option Ref → Analysis (Option Ref)
element_of none = answer none
element_of (some t) = do n ← node_of t; answer (expected_element n)

abbrev signature : SemaType → Analysis (List Ref × Ref)
signature (function args returning) = answer (args, returning)
signature _ = refuse

-- NULL of the first part does not end the call.
abbrev all_the_same : Option (Option (Unit {0}) × World) → Option (Option (Unit {0}) × World)
all_the_same none = none
all_the_same (some (o, w)) = some (some tt, w)

abbrev optional_of : SemaType → Analysis Ref
optional_of (optional t) = answer t
optional_of _ = abort

abbrev pub is_optional : SemaType → Bool
is_optional (optional t) = true
is_optional _ = false

abbrev inner_expectation : Option Ref → Analysis (Option Ref)
inner_expectation none = answer none
inner_expectation (some t) = do u ← new_type (optional t); answer (some u)

module _ {F : Type 0} where
  -- The type is written over the first word of the union: of a constant it is the tag, after which the
  -- constant cannot be read; and a module or a behaviour is a pointer to something else.
  abbrev pub sema_value_with_type : SemaValue F → Ref → Option (SemaValue F)
  sema_value_with_type (value_final t) u = some (value_final u)
  sema_value_with_type (value_var t) u = some (value_var u)
  sema_value_with_type (value_type t) u = some (value_type u)
  sema_value_with_type (value_ext_func_handle t) u = some (value_ext_func_handle u)
  sema_value_with_type _ u = none

  unfoldable pub sema_analyze_expr_idx : ℕ → SemaExpr F → SemaExpr F → SemaExpr F
  unfolding sema_value_expr_type same_type new_type
  sema_analyze_expr_idx fuel of idx expectation = do
    expected ← new_type (slice (or_null_ref expectation))
    (v, of_type) ← sema_value_expr_type of (some expected)
    w ← the_world
    (_, idx_type) ← sema_value_expr_type idx (some (sema_arch_usize w.arch))
    same ← same_type fuel idx_type (sema_arch_usize w.arch)
    _ ← (if not same then refuse else answer tt)
    n ← node_of of_type
    t ← element_type n
    or_abort (sema_value_with_type v t)

  -- The loop over the elements but the first.
  unfoldable pub same_elements : ℕ → Ref → List (SemaExpr F) → Analysis (Unit {0})
  unfolding sema_value_expr_type same_type
  same_elements fuel t [] = answer tt
  same_elements fuel t (e ∷ es) = do
    (_, u) ← sema_value_expr_type e (some t)
    same ← same_type fuel t u
    if not same then refuse else same_elements fuel t es

  -- An empty array has the type that is expected.
  abbrev first_type : List (SemaExpr F) → Option Ref → Option Ref → Analysis Ref
  first_type [] expectation none = refuse
  first_type [] expectation (some t) = answer t
  first_type (e ∷ es) expectation expected = do (_, t) ← sema_value_expr_type e expected; answer t

  abbrev others : List (SemaExpr F) → List (SemaExpr F)
  others [] = []
  others (e ∷ es) = es

  unfoldable pub sema_analyze_expr_array : ℕ → List (SemaExpr F) → SemaExpr F
  unfolding same_elements new_type sema_value_expr_type
  sema_analyze_expr_array fuel es expectation = do
    expected ← element_of expectation
    t ← first_type es expectation expected
    _ ← same_elements fuel t (others es)
    u ← new_type (array (length es) t)
    answer (value_var u)

  -- The first argument of an extension is the value that it is called on.
  abbrev args_passed : SemaValue F → List Ref → List Ref
  args_passed (value_ext_func_handle t) [] = []
  args_passed (value_ext_func_handle t) (a ∷ args) = args
  args_passed v args = args

  -- How many arguments are asked for, as a `size_t`.
  abbrev args_asked : SemaValue F → List Ref → ℕ
  args_asked (value_ext_func_handle t) args = (length args + 2 ^ 64 - 1) % 2 ^ 64
  args_asked v args = length args

  unfoldable pub same_args : ℕ → List Ref → List (SemaExpr F) → Analysis (Unit {0})
  unfolding sema_value_expr_type same_type
  same_args fuel (t ∷ ts) (e ∷ es) = do
    (_, u) ← sema_value_expr_type e (some t)
    same ← same_type fuel u t
    if not same then refuse else same_args fuel ts es
  same_args fuel _ _ = answer tt

  -- Behind the callable, a call has the type that is returned, also where its arguments are refused.
  unfoldable pub sema_analyze_expr_call : ℕ → SemaExpr F → List (SemaExpr F) → SemaExpr F
  unfolding sema_callable_expr_type same_args
  sema_analyze_expr_call fuel callable args expectation = do
    v ← sema_callable_expr_type callable none
    t ← or_abort (sema_value_typeof v)
    n ← node_of t
    (params, returning) ← signature n
    _ ← (λ w. all_the_same (
        (if length args == args_asked v params
            then same_args fuel (args_passed v params) args
            else refuse)
          w))
    answer (value_final returning)

  -- A type that is no optional is reported, and then read as one.
  unfoldable pub sema_analyze_expr_ret_on_null : SemaExpr F → SemaExpr F
  unfolding sema_value_expr_type new_type
  sema_analyze_expr_ret_on_null e expectation = do
    w ← the_world
    returns ← or_abort (sema_module_returns w.sema)
    r ← node_of returns
    _ ← (if is_optional r then answer tt else report)
    expected ← inner_expectation expectation
    (v, t) ← sema_value_expr_type e expected
    n ← node_of t
    _ ← (if is_optional n then answer tt else report)
    u ← optional_of n
    or_abort (sema_value_with_type v u)

  -- `resolve` is `sema_resolve_path`, from a value or from none.
  abbrev pub sema_analyze_expr_get_inner :
      (Option (SemaValue F) → AstPath → Analysis (SemaValue F)) → SemaExpr F → AstPath → SemaExpr F
  sema_analyze_expr_get_inner resolve of path expectation = do v ← of none; resolve (some v) path

  abbrev pub sema_analyze_expr_get_local :
      (Option (SemaValue F) → AstPath → Analysis (SemaValue F)) → AstPath → SemaExpr F
  sema_analyze_expr_get_local resolve path expectation = resolve none path
