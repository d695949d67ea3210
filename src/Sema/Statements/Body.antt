-- ===== src/Sema/Statements/Body.antt =====
-- Bodies and inline assembler: src/sema/module/parts/body.c and stmts/asm.c.
use hoblang_old.Base.{none, ℕ, Bool, false, ◌||◌, List, [], ◌∷◌, some, if◌then◌else◌, Bytes}
use hoblang_old.Core.Slice.{slice_eq}
use hoblang_old.Lexer.Rules.{codes}
use hoblang_old.Sema.Analysis.{Analysis, answer, report, ◌>>=◌}
use hoblang_old.Sema.Decls.{sema_decl_new}
use hoblang_old.Sema.Expr.{SemaExpr, sema_value_expr_type, sema_var_expr_type}
use hoblang_old.Sema.Expr.Simple.{on_module}
use hoblang_old.Sema.Scopes.{
  sema_module_push_body_scope, sema_module_pop_scope, sema_module_push_scope_decl,
}
use hoblang_old.Sema.State.{AstBody, update}
use hoblang_old.Sema.Statements.{ended}
use hoblang_old.Sema.Value.{SemaValue}

-- A statement with its analysis: a declaration with its name and the address of its value, an expression,
-- or one whose function returns nothing.
pub data BodyStmt (F : Type 0) : Type 0 where
  declares : Bytes → ℕ → Analysis (SemaValue F) → BodyStmt F
  evaluates : SemaExpr F → BodyStmt F
  performs : Analysis (Unit {0}) → BodyStmt F

abbrev pub clear_defers : AstBody → AstBody
clear_defers b = record b { defers = [] }

abbrev pub regs : List Bytes
regs =
    codes "rax"
    ∷ codes "rbx"
    ∷ codes "rcx"
    ∷ codes "rdx"
    ∷ codes "rsp"
    ∷ codes "rbp"
    ∷ codes "rsi"
    ∷ codes "rdi"
    ∷ codes "r8"
    ∷ codes "r9"
    ∷ codes "r10"
    ∷ codes "r11"
    ∷ codes "r12"
    ∷ codes "r13"
    ∷ codes "r14"
    ∷ codes "r15"
    ∷ codes "eax"
    ∷ codes "ebx"
    ∷ codes "ecx"
    ∷ codes "edx"
    ∷ codes "esp"
    ∷ codes "ebp"
    ∷ codes "esi"
    ∷ codes "edi"
    ∷ codes "r8d"
    ∷ codes "r9d"
    ∷ codes "r10d"
    ∷ codes "r11d"
    ∷ codes "r12d"
    ∷ codes "r13d"
    ∷ codes "r14d"
    ∷ codes "r15d"
    ∷ codes "ax"
    ∷ codes "bx"
    ∷ codes "cx"
    ∷ codes "dx"
    ∷ codes "sp"
    ∷ codes "bp"
    ∷ codes "si"
    ∷ codes "di"
    ∷ codes "r8w"
    ∷ codes "r9w"
    ∷ codes "r10w"
    ∷ codes "r11w"
    ∷ codes "r12w"
    ∷ codes "r13w"
    ∷ codes "r14w"
    ∷ codes "r15w"
    ∷ codes "al"
    ∷ codes "bl"
    ∷ codes "cl"
    ∷ codes "dl"
    ∷ codes "spl"
    ∷ codes "bpl"
    ∷ codes "sil"
    ∷ codes "dil"
    ∷ codes "r8b"
    ∷ codes "r9b"
    ∷ codes "r10b"
    ∷ codes "r11b"
    ∷ codes "r12b"
    ∷ codes "r13b"
    ∷ codes "r14b"
    ∷ codes "r15b"
    ∷ codes "ah"
    ∷ codes "bh"
    ∷ codes "ch"
    ∷ codes "dh"
    ∷ []

-- An argument of an instruction, with the analysis of its expression.
pub data AsmArg (F : Type 0) : Type 0 where
  asm_register : Bytes → AsmArg F
  asm_expr asm_address : SemaExpr F → AsmArg F

abbrev is_register : Bytes → List Bytes → Bool
is_register name [] = false
is_register name (r ∷ regs) = slice_eq r name || is_register name regs

module _ {F : Type 0} where
  -- The `switch` of `sema_ast_body`; what a statement refuses does not end the body.
  unfoldable pub body_stmt : BodyStmt F → Analysis (Unit {0})
  unfolding sema_module_push_scope_decl sema_value_expr_type
  body_stmt (declares name value a) w =
      ended ((do _ ← a; on_module (sema_module_push_scope_decl (sema_decl_new name value))) w)
  body_stmt (evaluates e) w = ended ((do _ ← sema_value_expr_type e none; answer tt) w)
  body_stmt (performs a) w = ended (a w)

  unfoldable pub body_stmts_then : List (BodyStmt F) → Analysis (Unit {0}) → Analysis (Unit {0})
  unfolding body_stmt
  body_stmts_then [] last = last
  body_stmts_then (s ∷ stmts) last = body_stmt s >>= (λ _. body_stmts_then stmts last)

  unfoldable pub sema_ast_body : ℕ → List (BodyStmt F) → Analysis (Unit {0})
  unfolding body_stmts_then sema_module_push_body_scope sema_module_pop_scope
  sema_ast_body body stmts = do
    _ ← on_module (λ m. some (record m { bodies = update body clear_defers m.bodies }))
    _ ← on_module (sema_module_push_body_scope (some body))
    body_stmts_then stmts (on_module sema_module_pop_scope)

  unfoldable pub asm_arg_analysis : AsmArg F → Analysis (Unit {0})
  unfolding sema_value_expr_type sema_var_expr_type
  asm_arg_analysis (asm_register name) w = (if is_register name regs then answer tt else report) w
  asm_arg_analysis (asm_expr e) w = ended ((do _ ← sema_value_expr_type e none; answer tt) w)
  asm_arg_analysis (asm_address e) w = ended ((do _ ← sema_var_expr_type e none; answer tt) w)

  -- Over the arguments of all instructions in their order.
  unfoldable pub sema_stmt_inline_asm : List (AsmArg F) → Analysis (Unit {0})
  unfolding asm_arg_analysis
  sema_stmt_inline_asm [] = answer tt
  sema_stmt_inline_asm (a ∷ args) = asm_arg_analysis a >>= (λ _. sema_stmt_inline_asm args)
