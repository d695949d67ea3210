-- ===== src/Sema/Nodes.antt =====
-- The nodes of a module: src/sema/module/parts/module.c, decls/behaviour.c and generic.c, and expressions
-- that declare. Given are the analyses of types, expressions and bodies, the resolution of paths, and
-- the import of a module.
pub mod Rules
pub mod Functions
pub mod Push
pub mod Bodies
pub mod Exprs
use hoblang_old.Base.{
  ℕ, Bool, true, false, not, ◌&&◌, ◌||◌, ◌==◌, List, [], ◌∷◌, ◌++◌, Option, none, some,
  if◌then◌else◌, Bytes, get_elem?,
}
use hoblang_old.Core.Slice.{slice_eq}
use hoblang_old.Lexer.Rules.{codes}
use hoblang_old.Parser.Nodes.{
  AstGenericParam, AstFuncInfo, AstFuncDecl, AstExtFuncDecl, AstExtVarDecl, AstStructMember,
  AstStructDef, AstBehaviourRule, AstDeclBehaviour, AstFromUseListItem, AstModuleDecl, node_import,
  node_struct_def, node_from_use_all, node_from_use_list, node_behaviour_decl, node_use,
  node_val_decl, node_type_alias, node_func, node_external_func, node_external_var, AstModuleNode,
}
use hoblang_old.Parser.Syntax.{
  AstPath, AstType, AstBody, AstFuncTypeInfo, func_type_info, AstFuncArgs, no_args, arg_then,
  AstValDecl, val_decl,
}
use hoblang_old.Sema.Analysis.{
  World, Analysis, answer, null, refuse, report, or_abort, node_of, new_type, same_type,
}
use hoblang_old.Sema.Behaviours.{
  SemaBehaviour, SemaBehaviourRule, SemaBehaviours, no_behaviours, behaviour_then, behaviour_decl,
  behaviour_list,
}
use hoblang_old.Sema.Build.{
  Build, Store, give, give_null, analysed, attempted, new_value, new_behaviour, new_tables,
  new_struct, ◌>>=◌,
}
use hoblang_old.Sema.Decls.{
  sema_decl_new, sema_decl_new_in_type, sema_module_resolve_public_decl,
  sema_module_append_all_from, sema_module_append_ext_funcs_from,
}
use hoblang_old.Sema.Expr.Compound.{null_ref, or_null_ref}
use hoblang_old.Sema.Expr.Simple.{on_module}
use hoblang_old.Sema.Primitives.{push_module_decl, push_new_decl, sema_module_push_primitives}
use hoblang_old.Sema.Program.{Program}
use hoblang_old.Sema.Scopes.{
  sema_module_push_scope, sema_module_pop_scope, sema_module_push_scope_decl,
}
use hoblang_old.Sema.State.{SemaDecl, SemaModule, SemaScopeStack, sema_ss_new, sema_module_ss_swap}
use hoblang_old.Sema.Types.{
  Ref, SemaType, SemaTypeGeneric, generic, pointer, function, StructMember, structure,
}
use hoblang_old.Sema.Types.Equals.{sema_types_equals}
use hoblang_old.Sema.Value.{
  SemaValue, value_final, value_var, value_type, value_behaviour, value_generic, value_module,
}

-- The analyses that a node uses.
pub record Parts (F : Type 0) : Type 0 where
  pub ast_type : AstType → Build F Ref
  pub val_decl : AstValDecl → Build F (SemaValue F)
  pub resolve : AstPath → Build F (SemaValue F)
  pub decl_path : AstPath → Build F (Option SemaDecl)
  pub func : Option Ref → AstFuncArgs → AstType → Build F Ref
  pub body : AstBody → Build F (Unit {0})

-- What is left in the tree of a function: the type that it extends, and its type.
pub record FuncSema : Type 0 where
  pub ext_of : Option Ref
  pub func_type : Option Ref

module _ {F : Type 0} where
  -- The current scope stack is replaced; the answer is the one before.
  abbrev pub swap_ss : Option SemaScopeStack → Build F (Option SemaScopeStack)
  swap_ss ss = analysed (λ P w.
      let (old, m) = sema_module_ss_swap ss w.sema in some (some old, record w { sema = m }))

  abbrev pub scoped : (SemaModule → Option SemaModule) → Build F (Unit {0})
  scoped f = analysed (λ P. on_module f)

  abbrev pub reported : Build F (Unit {0})
  reported = analysed (λ P. report)

  abbrev pub push_scope_decl : Bytes → SemaValue F → Build F (Unit {0})
  push_scope_decl name v = do
    value ← new_value v
    scoped (sema_module_push_scope_decl (sema_decl_new name value))

  -- A type that is pushed whether it is NULL or not.
  abbrev pub type_or_null : Parts F → AstType → Build F Ref
  type_or_null parts t = do o ← attempted (parts.ast_type t); give (or_null_ref o)
