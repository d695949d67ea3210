-- ===== src/Sema/Nodes/Functions.antt =====
-- The first pass over functions, in src/sema/module/parts/module.c.
use hoblang_old.Base.{ℕ, Bool, false, List, Option, none, some, Bytes}
use hoblang_old.Parser.Nodes.{AstGenericParam, AstFuncInfo, AstFuncDecl}
use hoblang_old.Parser.Syntax.{AstType, AstFuncTypeInfo, func_type_info}
use hoblang_old.Sema.Build.{Build, give, analysed, attempted, new_value, new_tables, ◌>>=◌}
use hoblang_old.Sema.Decls.{sema_decl_new_in_type}
use hoblang_old.Sema.Expr.Compound.{null_ref, or_null_ref}
use hoblang_old.Sema.Primitives.{push_module_decl}
use hoblang_old.Sema.Scopes.{sema_module_push_scope, sema_module_pop_scope}
use hoblang_old.Sema.State.{sema_ss_new}
use hoblang_old.Sema.Types.{Ref}
use hoblang_old.Sema.Value.{SemaValue, value_final, value_generic}
use hoblang_old.Sema.Nodes.{Parts, FuncSema, swap_ss, scoped}
use hoblang_old.Sema.Nodes.Rules.{push_generic_params}

module _ {F : Type 0} (fuel : ℕ) (parts : Parts F) where
  abbrev pub ext_type : Option AstType → Build F (Option Ref)
  ext_type none = give none
  ext_type (some t) = do r ← parts.ast_type t; give (some r)

  abbrev pub func_type_of : Option (Option Ref) → AstFuncTypeInfo → Build F FuncSema
  func_type_of none type = give (record { ext_of = none; func_type = none })
  func_type_of (some e) (func_type_info args returning) = do
    t ← attempted (parts.func e args returning)
    give (record { ext_of = e; func_type = t })

  -- Where the type extended is refused, the function has no type.
  unfoldable pub sema_get_ast_func_type : AstFuncInfo → AstFuncTypeInfo → Build F FuncSema
  sema_get_ast_func_type info type = do e ← attempted (ext_type info.ext_of); func_type_of e type

  abbrev pub declare_in_type : Bool → Bytes → Option Ref → SemaValue F → Build F Bool
  declare_in_type public name in_type v = do
    value ← new_value v
    analysed (λ P. push_module_decl fuel public (sema_decl_new_in_type name in_type value))

  -- A function that is generic is declared where its type was not refused.
  abbrev pub declare_generic : Bool → Bytes → List Ref → ℕ → FuncSema → Option Ref → Build F Bool
  declare_generic public name types g fs none = give false
  declare_generic public name types g fs (some t) =
      declare_in_type public name fs.ext_of (value_generic types g t)

  -- A parameter that is refused ends the node: the scope stack of the parameters stays the current one,
  -- which is a variable of the call that has returned.
  unfoldable pub push_func : Bool → AstFuncDecl → Option (List AstGenericParam) → Build F FuncSema
  unfolding push_generic_params sema_get_ast_func_type push_module_decl sema_module_push_scope
      sema_module_pop_scope
  push_func public f none = do
    fs ← sema_get_ast_func_type f.info f.type
    _ ← declare_in_type public f.info.name fs.ext_of (value_final (or_null_ref fs.func_type))
    give fs
  push_func public f (some params) = do
    ss ← swap_ss (some (sema_ss_new null_ref))
    _ ← scoped sema_module_push_scope
    types ← push_generic_params fuel parts params
    g ← new_tables
    fs ← sema_get_ast_func_type f.info f.type
    _ ← declare_generic public f.info.name types g fs fs.func_type
    _ ← scoped sema_module_pop_scope
    _ ← swap_ss ss
    give fs

  abbrev pub declare_external : Bool → Bytes → FuncSema → Option Ref → Build F Bool
  declare_external public name fs none = give false
  declare_external public name fs (some t) = declare_in_type public name fs.ext_of (value_final t)
