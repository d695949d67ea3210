-- ===== src/Sema/Statements.antt =====
-- The analysis of statements: src/sema/module/parts/stmts/. An expression or a body inside a statement
-- is its own analysis.
pub mod While
pub mod Values
pub mod Body
pub mod Keeps
use hoblang_old.Base.{
  ℕ, Bool, true, false, not, List, [], ◌∷◌, Option, none, some, if◌then◌else◌, Bytes,
}
use hoblang_old.Sema.Analysis.{
  World, Analysis, answer, null, abort, refuse, report, ◌>>=◌, or_abort, node_of, same_type,
  the_world,
}
use hoblang_old.Sema.Defers.{sema_module_push_defer, sema_module_defers_up_to}
use hoblang_old.Sema.Expr.{SemaExpr, sema_value_expr_type, sema_var_expr_type}
use hoblang_old.Sema.Expr.Simple.{on_module}
use hoblang_old.Sema.Loops.{
  sema_loop_new, sema_loop_new_named, sema_module_push_loop, sema_module_pop_loop,
  sema_module_top_loop, sema_module_named_loop,
}
use hoblang_old.Sema.Scopes.{sema_module_returns}
use hoblang_old.Sema.State.{SemaLoop, SemaModule}
use hoblang_old.Sema.Types.{Ref, bool, void}
use hoblang_old.Sema.Value.{sema_type_primitive}

-- A lookup that changes the module.
abbrev ask : {A : Type 0} → (SemaModule → Option (Option A × SemaModule)) → Analysis A
ask f w = elim (f w.sema) [ none ↦ none | some (o, m) ↦ some (o, record w { sema = m }) ]

abbrev pub ignore : {A : Type 0} → Option (A × SemaModule) → Option SemaModule
ignore none = none
ignore (some (a, m)) = some m

abbrev defers_to : ℕ → Option ℕ → Analysis (List ℕ)
defers_to depth to = do w ← the_world; or_abort (sema_module_defers_up_to depth to w.sema)

-- A function without a result that is called inside another ends in its own early return.
abbrev pub ended : Option (Option (Unit {0}) × World) → Option (Option (Unit {0}) × World)
ended none = none
ended (some (o, w)) = some (some tt, w)

-- The number `depth` is the fuel for the bodies around the statement, `fuel` that for the types.
module _ {F : Type 0} (fuel : ℕ) where
  abbrev returned : Option (SemaExpr F) → Ref → Analysis Bool
  returned none returns = same_type fuel returns (sema_type_primitive void)
  returned (some e) returns = do
    (v, t) ← sema_value_expr_type e (some returns)
    same_type fuel returns t

  -- The answer is what the source writes to `ret->defers`.
  unfoldable pub sema_stmt_return : ℕ → Option (SemaExpr F) → Analysis (List ℕ)
  unfolding same_type sema_value_expr_type sema_module_defers_up_to
  sema_stmt_return depth e = do
    w ← the_world
    returns ← or_abort (sema_module_returns w.sema)
    same ← returned e returns
    if not same then refuse else defers_to depth none

  unfoldable pub sema_stmt_assign : SemaExpr F → SemaExpr F → Analysis Unit
  unfolding same_type sema_value_expr_type sema_var_expr_type
  sema_stmt_assign target e = do
    (_, t) ← sema_var_expr_type target none
    (_, u) ← sema_value_expr_type e (some t)
    same ← same_type fuel t u
    if not same then refuse else answer tt

  -- The condition of a loop or of an if: another type than bool is reported, and the analysis goes on.
  unfoldable pub condition : SemaExpr F → Analysis Unit
  unfolding same_type sema_value_expr_type
  condition e = do
    (_, t) ← sema_value_expr_type e (some (sema_type_primitive bool))
    same ← same_type fuel t (sema_type_primitive bool)
    if not same then report else answer tt

  unfoldable pub sema_if_else_body : SemaExpr F → Analysis Unit → Analysis Unit
  unfolding condition
  sema_if_else_body e body w = ended ((condition e >>= (λ _. body)) w)

  abbrev else_ifs_then : List (SemaExpr F × Analysis Unit) → Analysis Unit → Analysis Unit
  else_ifs_then [] last = last
  else_ifs_then ((e, body) ∷ more) last =
      sema_if_else_body e body >>= (λ _. else_ifs_then more last)

  unfoldable pub sema_stmt_if_else :
      SemaExpr F × Analysis Unit
      → List (SemaExpr F × Analysis Unit)
      → Option (Analysis Unit)
      → Analysis Unit
  unfolding sema_if_else_body
  sema_stmt_if_else (e, body) else_ifs none =
      sema_if_else_body e body >>= (λ _. else_ifs_then else_ifs (answer tt))
  sema_stmt_if_else (e, body) else_ifs (some else_body) =
      sema_if_else_body e body >>= (λ _. else_ifs_then else_ifs else_body)

  -- `loop` is the new loop, with the name and the body of the statement. The answer of
  -- `sema_module_push_loop` is not read: the loop is popped where it was refused too.
  unfoldable pub sema_stmt_while_loop : SemaExpr F → SemaLoop → Analysis Unit → Analysis Unit
  unfolding condition sema_module_push_loop sema_module_pop_loop
  sema_stmt_while_loop e loop body = do
    _ ← condition e
    _ ← on_module (λ m. ignore (sema_module_push_loop loop m))
    _ ← (λ w. ended (body w))
    on_module sema_module_pop_loop

-- `break` and `continue`: the loop meant, and what the source writes to `loop_control->defers`.
unfoldable pub sema_stmt_loop_control : ℕ → Option Bytes → Analysis (SemaLoop × List ℕ)
unfolding sema_module_named_loop sema_module_top_loop sema_module_defers_up_to
sema_stmt_loop_control depth (some name) = do
  l ← ask (sema_module_named_loop name)
  ds ← defers_to depth (some l.body)
  answer (l, ds)
sema_stmt_loop_control depth none = do
  l ← ask sema_module_top_loop
  ds ← defers_to depth (some l.body)
  answer (l, ds)

unfoldable pub sema_stmt_defer : ℕ → Analysis Unit → Analysis Unit
unfolding sema_module_push_defer
sema_stmt_defer defer body = do _ ← (λ w. ended (body w)); on_module (sema_module_push_defer defer)
