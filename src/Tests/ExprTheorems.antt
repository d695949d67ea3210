-- ===== src/Tests/ExprTheorems.antt =====
-- The theorems on expressions, at concrete operands.
use hoblang_old.Base.{List, ◌∙◌, ap, ℕ, ◌≡◌, ◌≢◌, true, false, [], ◌∷◌, refl, some, none, arith}
use hoblang_old.Parser.Binop.{binop_gt, binop_ge, binop_lt, binop_le}
use hoblang_old.Sema.Analysis.{World, Analysis, ◌>>=◌, answer, same_type}
use hoblang_old.Sema.Expr.{SemaExpr, sema_value_expr_type}
use hoblang_old.Sema.Expr.As.{
  conv_int_to_float, conv_uint_to_float, int_conversion, sema_analyze_expr_as,
}
use hoblang_old.Sema.Expr.As.Sizes.{int_conversion-float}
use hoblang_old.Sema.Expr.As.Typed.{IsConverted, analyze_expr_as-IsConverted}
use hoblang_old.Sema.Expr.Answers.{Answers}
use hoblang_old.Sema.Expr.Binop.{bit, sema_expr_binop_eval, sema_analyze_expr_binop}
use hoblang_old.Sema.Expr.Binop.Typed.{IsOperated, analyze_expr_binop-IsOperated}
use hoblang_old.Sema.Expr.Binop.Order.{binop_eval-order}
use hoblang_old.Sema.Types.{Heap, type_at, bool, int32, uint32, float64, float, primitive}
use hoblang_old.Sema.Value.{Floats, static_types, SemaValue, value_const, value_final, const_int}
use hoblang_old.Tests.SemaTheorems.{module_at_work, stack, inner}
use hoblang_old.Lexer.Rules.{codes}
use hoblang_old.Sema.Loops.{sema_loop_new, sema_loop_new_named}
use hoblang_old.Sema.State.{SemaLoop}
use hoblang_old.Sema.Statements.{condition, sema_stmt_while_loop}
use hoblang_old.Sema.Statements.Body.{BodyStmt, declares, performs, sema_ast_body}
use hoblang_old.Sema.Statements.Keeps.{
  Leaves, KeepsStack, AllKeep, declares-KeepsStack, performs-KeepsStack,
}
use hoblang_old.Sema.Statements.While.{LoopsBehind, while_loop-open_loops, while_loop-KeepsStack}

-- Stand-in numbers for `long double`: the natural numbers.
abbrev naturals : Floats ℕ
naturals = record {
  add = λ x y. x;
  sub = λ x y. x;
  mul = λ x y. x;
  div = λ x y. x;
  neg = λ x. x;
  is_equal = λ x y. true;
  is_less = λ x y. false;
  is_at_most = λ x y. true;
  of_int = λ x. x;
  to_int = λ x. x;
  of_bool = λ b. bit b;
}

abbrev pub world : World
world = record {
  sema = module_at_work;
  heap = record { types = static_types; structs = [] };
  arch = record { ints = 15; floats = 3 };
  tables = [];
}

-- A variable of type i32, the seventh static type.
abbrev variable : SemaExpr ℕ
variable expectation = answer (value_final 6)

analyze_expr_as-IsConverted_example :
    Answers
      (IsConverted naturals 2 4)
      (sema_analyze_expr_as naturals 2 (some 4) variable none world)
analyze_expr_as-IsConverted_example =
    analyze_expr_as-IsConverted naturals 2 4 variable none world (λ expect w0. tt)

int_conversion-float_example :
    (int_conversion uint32 (primitive (float float64)) ≡ some conv_int_to_float)
    × (int_conversion uint32 (primitive (float float64)) ≢ some conv_uint_to_float)
int_conversion-float_example = int_conversion-float uint32 float64

-- Comparing 5 with 5, as constants of type i32.
binop_eval-order_example :
    (sema_expr_binop_eval naturals binop_gt (const_int 6 5) (const_int 6 5) world
      ≡ some (some (value_const (const_int 6 1)), world))
    × (sema_expr_binop_eval naturals binop_ge (const_int 6 5) (const_int 6 5) world
        ≡ some (some (value_const (const_int 6 1)), world))
    × (sema_expr_binop_eval naturals binop_lt (const_int 6 5) (const_int 6 5) world
        ≡ some (some (value_const (const_int 6 0)), world))
    × (sema_expr_binop_eval naturals binop_le (const_int 6 5) (const_int 6 5) world
        ≡ some (some (value_const (const_int 6 0)), world))
binop_eval-order_example =
    binop_eval-order naturals 6 6 int32 5 5 world refl (omega arith) (omega arith)

-- A loop that has the name of an open one.
abbrev again : SemaLoop
again = sema_loop_new_named (codes "outer") 2

-- The types have bool in its place.
abbrev HasBool : Heap → Type 0
HasBool h = type_at h 10 ≡ some (primitive bool)

abbrev a_bool : SemaExpr ℕ
a_bool expectation = answer (value_final 10)

a_bool-KeepsStack : (loops : List SemaLoop) → KeepsStack HasBool loops (condition 2 a_bool)
unfolding condition same_type sema_value_expr_type
a_bool-KeepsStack loops w ss top below o l e p =
    (w, top, refl, o, e ∙ ap (λ xs. some (record ss { scopes = xs })) p)

abbrev a_value : Analysis (SemaValue ℕ)
a_value = answer (value_final 6)

a_value-KeepsStack :
    (loops : List SemaLoop) → KeepsStack HasBool loops (a_value >>= (λ _. answer tt))
a_value-KeepsStack loops w ss top below o l e p =
    (w, top, refl, o, e ∙ ap (λ xs. some (record ss { scopes = xs })) p)

-- The body declares a name and has a loop without a name in it, whose body declares one too.
abbrev inner_stmts : List (BodyStmt ℕ)
inner_stmts = declares (codes "j") 8 a_value ∷ []

abbrev inner_while : Analysis (Unit {0})
inner_while = sema_stmt_while_loop 2 a_bool (sema_loop_new 1) (sema_ast_body 1 inner_stmts)

abbrev outer_stmts : List (BodyStmt ℕ)
outer_stmts = declares (codes "i") 7 a_value ∷ performs inner_while ∷ []

inner_stmts-AllKeep : (loops : List SemaLoop) → AllKeep HasBool loops inner_stmts
inner_stmts-AllKeep loops =
    (declares-KeepsStack HasBool loops (codes "j") 8 a_value (a_value-KeepsStack loops), tt)

outer_stmts-AllKeep : (loops : List SemaLoop) → AllKeep HasBool loops outer_stmts
outer_stmts-AllKeep loops = (
  declares-KeepsStack HasBool loops (codes "i") 7 a_value (a_value-KeepsStack loops),
  (
    performs-KeepsStack ℕ HasBool loops inner_while (
        while_loop-KeepsStack 2 HasBool (sema_loop_new 1) inner_stmts a_bool loops
          (λ (name, n, h). cc) (a_bool-KeepsStack loops) (inner_stmts-AllKeep loops)
          (inner_stmts-AllKeep (sema_loop_new 1 ∷ loops))),
    tt,
  ),
)

while_loop-open_loops_example :
    (loops : List SemaLoop) × LoopsBehind again stack.loops loops
    × Leaves HasBool stack
        (record { decls = []; body = some 0 } ∷ [])
        loops
        (sema_stmt_while_loop 2 a_bool again (sema_ast_body 2 outer_stmts) world)
while_loop-open_loops_example =
    while_loop-open_loops 2 HasBool again outer_stmts a_bool world stack inner
      (record { decls = []; body = some 0 } ∷ []) (a_bool-KeepsStack stack.loops)
      (outer_stmts-AllKeep stack.loops) (outer_stmts-AllKeep (again ∷ stack.loops)) refl refl refl

analyze_expr_binop-IsOperated_example :
    Answers
      (IsOperated naturals 2 binop_lt 6 6)
      (sema_analyze_expr_binop naturals 2 binop_lt variable variable none world)
analyze_expr_binop-IsOperated_example =
    analyze_expr_binop-IsOperated naturals 2 binop_lt 6 6 variable variable none world
      (λ expect w0. (tt, refl)) (λ expect w0. ((λ p e. e), refl))
