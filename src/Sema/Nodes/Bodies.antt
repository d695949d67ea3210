-- ===== src/Sema/Nodes/Bodies.antt =====
-- The second pass over the nodes of a module: src/sema/module/parts/module.c.
use hoblang_old.Base.{ℕ, List, ◌∷◌, Option, none, some}
use hoblang_old.Lexer.Rules.{codes}
use hoblang_old.Parser.Nodes.{AstModuleDecl, node_func, AstModuleNode}
use hoblang_old.Parser.Syntax.{
  AstBody, AstFuncTypeInfo, func_type_info, AstFuncArgs, no_args, arg_then,
}
use hoblang_old.Sema.Analysis.{Analysis, answer, abort, or_abort, node_of}
use hoblang_old.Sema.Build.{Build, give, analysed, attempted, ◌>>=◌}
use hoblang_old.Sema.Scopes.{
  sema_module_push_scope, sema_module_pop_scope, sema_module_push_scope_decl,
}
use hoblang_old.Sema.State.{sema_ss_new}
use hoblang_old.Sema.Types.{Ref, SemaType, function}
use hoblang_old.Sema.Value.{value_var}
use hoblang_old.Sema.Nodes.{Parts, FuncSema, swap_ss, scoped, push_scope_decl, type_or_null}

module _ {F : Type 0} (fuel : ℕ) (parts : Parts F) where
  unfoldable pub push_args : AstFuncArgs → Build F (Unit {0})
  unfolding sema_module_push_scope_decl
  push_args no_args = give tt
  push_args (arg_then name type args) = do
    t ← type_or_null parts type
    _ ← push_scope_decl name (value_var t)
    push_args args

  abbrev push_self : Option Ref → Build F (Unit {0})
  push_self none = give tt
  push_self (some t) = push_scope_decl (codes "self") (value_var t)

  unfoldable pub sema_push_ast_func_info : Option Ref → AstFuncArgs → Build F (Unit {0})
  unfolding push_args sema_module_push_scope_decl
  sema_push_ast_func_info ext_of args = do _ ← push_self ext_of; push_args args

  abbrev returns_of : SemaType → Analysis Ref
  returns_of (function args returning) = answer returning
  returns_of n = abort

  abbrev func_body : FuncSema → AstFuncTypeInfo → Option AstBody → Build F (Unit {0})
  func_body fs type none = analysed (λ P. abort)
  func_body fs (func_type_info args returning) (some body) = do
    t ← analysed (λ P. or_abort fs.func_type)
    n ← analysed (λ P. node_of t)
    r ← analysed (λ P. returns_of n)
    ss ← swap_ss (some (sema_ss_new r))
    _ ← scoped sema_module_push_scope
    _ ← sema_push_ast_func_info fs.ext_of args
    _ ← attempted (parts.body body)
    _ ← scoped sema_module_pop_scope
    _ ← swap_ss ss
    give tt

  -- The second pass over a node, with what the first has left in it. Only modules whose nodes were all
  -- accepted come here, so a function has a type.
  unfoldable pub sema_ast_module_node : AstModuleDecl → Option FuncSema → Build F (Unit {0})
  unfolding sema_push_ast_func_info sema_module_push_scope sema_module_pop_scope
  sema_ast_module_node (node_func f) (some fs) = func_body fs f.type f.body
  sema_ast_module_node (node_func f) none = analysed (λ P. abort)
  sema_ast_module_node node left = give tt

  unfoldable pub sema_module_analyze :
      List AstModuleNode → List (Option FuncSema) → Build F (Unit {0})
  unfolding sema_ast_module_node
  sema_module_analyze (node ∷ nodes) (left ∷ more) = do
    _ ← attempted (sema_ast_module_node node.decl left)
    sema_module_analyze nodes more
  sema_module_analyze _ _ = give tt
