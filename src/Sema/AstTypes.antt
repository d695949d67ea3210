-- ===== src/Sema/AstTypes.antt =====
-- Types as they are written: src/sema/module/parts/type.c and func_info.c. `path` is
-- `sema_resolve_type_path` from the module, and `length` the analysis of an array's length. The pointer
-- that a type keeps once it is analysed is left out.
use hoblang_old.Base.{ℕ, not, ◌&&◌, ◌^◌, List, [], ◌∷◌, Option, none, some, if◌then◌else◌, ltb}
use hoblang_old.Parser.Syntax.{
  AstExpr, AstPath, AstType, type_path, type_func, type_slice, type_array, type_optional,
  type_pointer, AstTypes, no_types, type_then, AstFuncArgs, no_args, arg_then,
}
use hoblang_old.Sema.Analysis.{
  Analysis, answer, abort, attempt, refuse, ◌>>=◌, same_type, new_type, the_world,
}
use hoblang_old.Sema.Expr.{SemaExpr, sema_const_expr}
use hoblang_old.Sema.Expr.Compound.{or_null_ref}
use hoblang_old.Sema.Types.{Ref, optional, pointer, slice, array, function}
use hoblang_old.Sema.Value.{SemaConst, const_int, const_type, sema_arch_usize}

-- The length of an array, which is read from the union of the constant as a signed number.
abbrev array_length : {F : Type 0} → SemaConst F → Analysis ℕ
array_length (const_int t n) = if ltb 0 n && ltb n (2 ^ 63) then answer n else refuse
array_length c = abort

module _ {F : Type 0} (fuel : ℕ) (path : AstPath → Analysis Ref)
    (length : AstExpr → SemaExpr F) where
  -- The length behind the type of the elements.
  unfoldable pub analysed_length : AstExpr → Analysis ℕ
  unfolding sema_const_expr same_type
  analysed_length e = do
    w ← the_world
    c ← sema_const_expr (length e) (some (sema_arch_usize w.arch))
    same ← same_type fuel (const_type c) (sema_arch_usize w.arch)
    if not same then refuse else array_length c

  -- What a function returns is not tested for NULL.
  unfoldable mutual
    unfolding analysed_length new_type

    pub sema_ast_type : AstType → Analysis Ref
    sema_ast_type (type_path p) = path p
    sema_ast_type (type_func args returns) = do
      ts ← sema_ast_types args
      r ← attempt (sema_ast_type returns)
      new_type (function ts (or_null_ref r))
    sema_ast_type (type_slice of) = do t ← sema_ast_type of; new_type (slice t)
    sema_ast_type (type_array of e) = do
      t ← sema_ast_type of
      n ← analysed_length e
      new_type (array n t)
    sema_ast_type (type_optional of) = do t ← sema_ast_type of; new_type (optional t)
    sema_ast_type (type_pointer to) = do t ← sema_ast_type to; new_type (pointer t)

    pub sema_ast_types : AstTypes → Analysis (List Ref)
    sema_ast_types no_types = answer []
    sema_ast_types (type_then t ts) = do
      a ← sema_ast_type t
      more ← sema_ast_types ts
      answer (a ∷ more)

  unfoldable pub func_arg_types : AstFuncArgs → Analysis (List Ref)
  unfolding sema_ast_type
  func_arg_types no_args = answer []
  func_arg_types (arg_then name t args) = do
    a ← sema_ast_type t
    more ← func_arg_types args
    answer (a ∷ more)

  -- The type that an extension extends comes first. The type returned is not tested for NULL: the test
  -- reads the type as it is written.
  unfoldable pub sema_ast_func : Option Ref → AstFuncArgs → AstType → Analysis Ref
  unfolding func_arg_types sema_ast_type new_type
  sema_ast_func ext_of args returning = do
    r ← attempt (sema_ast_type returning)
    ts ← func_arg_types args
    new_type (function (elim ext_of [ none ↦ ts | some t ↦ t ∷ ts ]) (or_null_ref r))
