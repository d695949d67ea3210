-- ===== src/Parser/Stmts/Body.antt =====
-- `parse_stmt` and `parse_body_maybe_ola` of src/parser/parts/body.c, and stmts/defer.c.
use hoblang_old.Base.{ℕ, zero, suc, Bool, true, false, Option, none, some, if◌then◌else◌}
use hoblang_old.Lexer.Token.{
  TokenType, type_is, token_ident, token_opening_circle_brace, token_continue, token_break,
  token_defer, token_if, token_return, token_while, token_const, token_final, token_var, token_asm,
  token_assign, token_assign_mod, token_assign_add, token_assign_minus, token_assign_multiply,
  token_assign_divide, token_semicolon, token_opening_figure_brace, token_closing_figure_brace,
  token_eoi,
}
use hoblang_old.Parser.Binop.{AstBinopType, binop_mod, binop_add, binop_sub, binop_mul, binop_div}
use hoblang_old.Parser.Cursor.{
  TokenSource, Parsing, pure, refuse, out_of_fuel, attempt, ◌>>=◌, ◌>>◌, current_token, parser_step,
  parser_next, parser_skip_next,
}
use hoblang_old.Parser.Parts.{Parts, token_stop_stmt, token_stop_semicolon}
use hoblang_old.Parser.Stmts.{
  parse_val_decl, parse_if_else, parse_loop_control, parse_return, parse_while,
}
use hoblang_old.Parser.Stmts.Asm.{parse_asm_body}
use hoblang_old.Parser.Syntax.{
  AstExpr, binop, AstBody, ast_body, AstStmts, no_stmts, stmt_then, AstStmt, stmt_val_decl,
  stmt_return, stmt_defer, stmt_expr, stmt_break, stmt_continue, stmt_assign,
}

-- A statement that was refused is left out, and the body goes on.
abbrev pub stmt_or_none : Option AstStmt → AstStmts → AstStmts
stmt_or_none none stmts = stmts
stmt_or_none (some s) stmts = stmt_then s stmts

module _ {L : Type 0} ⦃S : TokenSource L⦄ where
  unfoldable pub parse_assign : Parts L → AstExpr → Parsing L AstStmt
  parse_assign parts into = do
    value ← parts.expr token_stop_semicolon true
    pure (stmt_assign into value)

  -- The operator takes the whole right side.
  unfoldable pub parse_assign_wrapped : Parts L → AstExpr → AstBinopType → Parsing L AstStmt
  parse_assign_wrapped parts into op = do
    value ← parts.expr token_stop_semicolon true
    pure (stmt_assign into (binop false op into value))

  -- The `switch` of `parse_stmt` behind an expression.
  unfoldable pub behind_expr : Parts L → AstExpr → TokenType → Parsing L AstStmt
  unfolding parse_assign parse_assign_wrapped
  behind_expr parts e token_assign = parse_assign parts e
  behind_expr parts e token_assign_mod = parse_assign_wrapped parts e binop_mod
  behind_expr parts e token_assign_add = parse_assign_wrapped parts e binop_add
  behind_expr parts e token_assign_minus = parse_assign_wrapped parts e binop_sub
  behind_expr parts e token_assign_multiply = parse_assign_wrapped parts e binop_mul
  behind_expr parts e token_assign_divide = parse_assign_wrapped parts e binop_div
  behind_expr parts e token_semicolon = pure (stmt_expr e)
  behind_expr parts e _ = refuse

  unfoldable pub parse_expr_stmt : Parts L → Parsing L AstStmt
  unfolding behind_expr parser_step
  parse_expr_stmt parts = do
    parser_skip_next
    e ← parts.expr token_stop_stmt true
    parser_step
    token ← current_token
    behind_expr parts e token.type

  unfoldable pub parse_val_decl_stmt : ℕ → Parts L → Parsing L AstStmt
  unfolding parse_val_decl
  parse_val_decl_stmt n parts = do
    parser_skip_next
    decl ← parse_val_decl n parts
    pure (stmt_val_decl decl)

  -- The body may be one statement.
  unfoldable pub parse_defer : Parts L → Parsing L AstStmt
  parse_defer parts = do deferred ← parts.body true; pure (stmt_defer deferred)

  -- The `switch` of `parse_stmt`.
  unfoldable pub stmt_token : ℕ → Parts L → TokenType → Parsing L AstStmt
  unfolding parse_expr_stmt parse_val_decl_stmt parse_defer parse_if_else parse_while parse_asm_body
  stmt_token n parts token_ident = parse_expr_stmt parts
  stmt_token n parts token_opening_circle_brace = parse_expr_stmt parts
  stmt_token n parts token_continue = do name ← parse_loop_control; pure (stmt_continue name)
  stmt_token n parts token_break = do name ← parse_loop_control; pure (stmt_break name)
  stmt_token n parts token_defer = parse_defer parts
  stmt_token n parts token_if = parse_if_else n parts
  stmt_token n parts token_return = do value ← parse_return parts; pure (stmt_return value)
  stmt_token n parts token_while = parse_while parts
  stmt_token n parts token_const = parse_val_decl_stmt n parts
  stmt_token n parts token_final = parse_val_decl_stmt n parts
  stmt_token n parts token_var = parse_val_decl_stmt n parts
  stmt_token n parts token_asm = parse_asm_body n parts
  stmt_token n parts _ = refuse

  unfoldable pub parse_stmt : ℕ → Parts L → Parsing L AstStmt
  unfolding stmt_token parser_next
  parse_stmt n parts = do token ← parser_next; stmt_token n parts token.type

  -- The `switch` in the loop of `parse_body_maybe_ola`, given what the loop does next time.
  unfoldable pub in_body : Parsing L AstStmts → Parsing L AstStmt → TokenType → Parsing L AstStmts
  in_body again stmt token_semicolon = again
  in_body again stmt token_closing_figure_brace = pure no_stmts
  in_body again stmt token_eoi = refuse
  in_body again stmt _ = do
    parser_skip_next
    s ← attempt stmt
    more ← again
    pure (stmt_or_none s more)

  unfoldable pub body_stmts : ℕ → Parts L → Parsing L AstStmts
  unfolding parse_stmt in_body parser_step
  body_stmts zero parts = out_of_fuel
  body_stmts (suc n) parts = do
    parser_step
    token ← current_token
    in_body (body_stmts n parts) (parse_stmt n parts) token.type

  unfoldable pub parse_body_maybe_ola : ℕ → Parts L → Bool → Parsing L AstBody
  unfolding body_stmts
  parse_body_maybe_ola n parts one_line_allowed = do
    parser_step
    token ← current_token
    if type_is token.type token_opening_figure_brace
        then (do stmts ← body_stmts n parts; pure (ast_body stmts))
        else do
          parser_skip_next
          if one_line_allowed
              then (do s ← parse_stmt n parts; pure (ast_body (stmt_then s no_stmts)))
              else refuse
