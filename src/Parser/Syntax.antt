-- ===== src/Parser/Syntax.antt =====
-- The syntax trees that the parser builds: include/ast/private/, and the constructors of src/ast/expr.c
-- and src/ast/type.c. Locations and what the analysis adds later are left out.
use hoblang_old.Base.{ℕ, Bool, List, Option, Bytes}
use hoblang_old.Parser.Binop.{AstBinopType}

pub data AstUnaryType : Type 0 where
  unary_minus unary_bitnot : AstUnaryType

pub data AstValDeclType : Type 0 where
  decl_var decl_final decl_const : AstValDeclType

mutual
  -- The flag of a binary operator is `scoped`: it stands in parentheses.
  pub data AstExpr : Type 0 where
    operand : AstNode → AstExpr
    binop : Bool → AstBinopType → AstExpr → AstExpr → AstExpr

  -- An expression of any other kind. `nothing` is NULL where an expression should stand.
  pub data AstNode : Type 0 where
    nothing : AstNode
    get_local : AstPath → AstNode
    get_inner : AstExpr → AstPath → AstNode
    idx : AstExpr → AstExpr → AstNode
    integer : ℕ → AstNode
    float_value : ℕ → ℕ → ℕ → ℕ → AstNode
    character : ℕ → AstNode
    str : Bytes → AstNode
    boolean : Bool → AstNode
    call : AstExpr → AstExprs → AstNode
    not_expr : AstExpr → AstNode
    as_type : AstExpr → AstType → AstNode
    as_auto : AstExpr → AstNode
    unary : AstUnaryType → AstExpr → AstNode
    array : AstExprs → AstNode
    ref_expr : AstExpr → AstNode
    null_expr : AstNode
    ret_on_null : AstExpr → AstNode
    unwrap : AstExpr → Bytes → AstNode
    struct_expr : AstPath → AstMembers → AstNode
    anon_fun : AstFuncTypeInfo → AstBody → AstNode

  pub data AstExprs : Type 0 where
    no_exprs : AstExprs
    expr_then : AstExpr → AstExprs → AstExprs

  -- The members of a struct expression; `undefined` has no value.
  pub data AstMembers : Type 0 where
    no_members : AstMembers
    member_then : Bytes → AstExpr → AstMembers → AstMembers
    undefined_then : Bytes → AstMembers → AstMembers

  pub data AstType : Type 0 where
    type_path : AstPath → AstType
    type_func : AstTypes → AstType → AstType
    type_slice : AstType → AstType
    type_array : AstType → AstExpr → AstType
    type_optional : AstType → AstType
    type_pointer : AstType → AstType

  pub data AstTypes : Type 0 where
    no_types : AstTypes
    type_then : AstType → AstTypes → AstTypes

  -- The segments of a path.
  pub data AstPath : Type 0 where
    no_segments : AstPath
    segment_then : AstPathSegment → AstPath → AstPath

  pub data AstPathSegment : Type 0 where
    seg_ident : Bytes → AstPathSegment
    seg_deref seg_sizeof seg_null : AstPathSegment
    seg_generic : AstTypes → AstPathSegment

  -- The arguments and the type returned.
  pub data AstFuncTypeInfo : Type 0 where
    func_type_info : AstFuncArgs → AstType → AstFuncTypeInfo

  pub data AstFuncArgs : Type 0 where
    no_args : AstFuncArgs
    arg_then : Bytes → AstType → AstFuncArgs → AstFuncArgs

  pub data AstBody : Type 0 where
    ast_body : AstStmts → AstBody

  pub data AstStmts : Type 0 where
    no_stmts : AstStmts
    stmt_then : AstStmt → AstStmts → AstStmts

  pub data AstValDecl : Type 0 where
    val_decl : AstValDeclType → Bytes → OptionalType → OptionalExpr → AstValDecl

  pub data OptionalType : Type 0 where
    no_type : OptionalType
    some_type : AstType → OptionalType

  pub data OptionalExpr : Type 0 where
    no_value : OptionalExpr
    some_value : AstExpr → OptionalExpr

  pub data AstStmt : Type 0 where
    stmt_val_decl : AstValDecl → AstStmt
    stmt_if : AstExpr → AstBody → AstIfBodies → OptionalBody → AstStmt
    stmt_return : OptionalExpr → AstStmt
    stmt_while : Option Bytes → AstExpr → AstBody → AstStmt
    stmt_asm : List Bytes → Bool → AstAsmMnemonics → AstStmt
    stmt_defer : AstBody → AstStmt
    stmt_expr : AstExpr → AstStmt
    stmt_break : Option Bytes → AstStmt
    stmt_continue : Option Bytes → AstStmt
    stmt_assign : AstExpr → AstExpr → AstStmt

  pub data OptionalBody : Type 0 where
    no_body : OptionalBody
    some_body : AstBody → OptionalBody

  pub data AstIfBodies : Type 0 where
    no_else_ifs : AstIfBodies
    else_if_then : AstExpr → AstBody → AstIfBodies → AstIfBodies

  pub data AstAsmMnemonics : Type 0 where
    no_mnems : AstAsmMnemonics
    mnem_then : Bytes → AstAsmArgs → AstAsmMnemonics → AstAsmMnemonics

  pub data AstAsmArgs : Type 0 where
    no_asm_args : AstAsmArgs
    register_then : Bytes → AstAsmArgs → AstAsmArgs
    address_then : AstExpr → AstAsmArgs → AstAsmArgs
    expr_arg_then : AstExpr → AstAsmArgs → AstAsmArgs
