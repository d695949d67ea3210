-- ===== src/Parser/Stmts.antt =====
-- Statements but for the assembler's: src/parser/parts/val_decl.c, src/parser/parts/stmts/ and
-- `parse_stmt` and what comes before it in src/parser/parts/body.c.
pub mod Asm
pub mod Body
use hoblang_old.Base.{ℕ, zero, suc, Bool, true, false, Option, none, some, if◌then◌else◌, Bytes}
use hoblang_old.Lexer.Token.{
  Token, TokenType, token_var, token_final, token_const, token_ident, token_colon, token_assign,
  token_semicolon, token_else, token_if, token_opening_figure_brace, token_opening_square_brace,
  token_closing_square_brace,
}
use hoblang_old.Parser.Cursor.{
  TokenSource, Parsing, pure, refuse, out_of_fuel, ◌>>=◌, ◌>>◌, ident_of, parser_next,
  parser_next_is, parser_next_is_or, parser_skip_next, expect_next,
}
use hoblang_old.Parser.Parts.{Parts, token_stop_semicolon, token_stop_opening_figure_brace}
use hoblang_old.Parser.Syntax.{
  AstExpr, AstBody, AstValDeclType, decl_var, decl_final, decl_const, AstValDecl, val_decl,
  OptionalType, no_type, some_type, OptionalExpr, no_value, some_value, AstStmt, stmt_if,
  stmt_return, stmt_while, OptionalBody, no_body, some_body, AstIfBodies, no_else_ifs, else_if_then,
}
use hoblang_old.Parser.Types.{parse_type}

abbrev name_of : Option Token → Option Bytes
name_of none = none
name_of (some t) = some (ident_of t)

module _ {L : Type 0} ⦃S : TokenSource L⦄ where
  abbrev val_decl_type : TokenType → Parsing L AstValDeclType
  val_decl_type token_var = pure decl_var
  val_decl_type token_final = pure decl_final
  val_decl_type token_const = pure decl_const
  val_decl_type _ = refuse

  unfoldable pub parse_val_decl : ℕ → Parts L → Parsing L AstValDecl
  unfolding parse_type
  parse_val_decl n parts = do
    type_token ← parser_next
    kind ← val_decl_type type_token.type
    name ← expect_next token_ident
    typed ← parser_next_is token_colon
    type ← (if typed then (do t ← parse_type n parts; pure (some_type t)) else pure no_type)
    assigned ← parser_next_is token_assign
    value ←
        (if assigned
          then (do e ← parts.expr token_stop_semicolon true; pure (some_value e))
          else pure no_value)
    expect_next token_semicolon
    pure (val_decl kind (ident_of name) type value)

  unfoldable pub parse_if_else_body : Parts L → Parsing L (AstExpr × AstBody)
  parse_if_else_body parts = do
    condition ← parts.expr token_stop_opening_figure_brace true
    parser_skip_next
    body ← parts.body false
    pure (condition, body)

  -- The `switch` behind an `else`, given what the loop does next time.
  unfoldable pub behind_else :
      Parts L
      → Parsing L (AstIfBodies × OptionalBody)
      → TokenType
      → Parsing L (AstIfBodies × OptionalBody)
  unfolding parse_if_else_body
  behind_else parts again token_if = do
    (condition, body) ← parse_if_else_body parts
    (more, last) ← again
    pure (else_if_then condition body more, last)
  behind_else parts again token_opening_figure_brace = do
    parser_skip_next
    body ← parts.body false
    pure (no_else_ifs, some_body body)
  behind_else parts again _ = refuse

  unfoldable pub else_bodies : ℕ → Parts L → Parsing L (AstIfBodies × OptionalBody)
  unfolding behind_else
  else_bodies zero parts = out_of_fuel
  else_bodies (suc n) parts = do
    more ← parser_next_is token_else
    if more
        then (do token ← parser_next; behind_else parts (else_bodies n parts) token.type)
        else pure (no_else_ifs, no_body)

  unfoldable pub parse_if_else : ℕ → Parts L → Parsing L AstStmt
  unfolding else_bodies
  parse_if_else n parts = do
    (condition, body) ← parse_if_else_body parts
    (else_ifs, last) ← else_bodies n parts
    pure (stmt_if condition body else_ifs last)

  -- The name of the loop, where there is one.
  unfoldable pub parse_loop_control : Parsing L (Option Bytes)
  parse_loop_control = do
    token ← parser_next_is_or token_ident
    expect_next token_semicolon
    pure (name_of token)

  -- The semicolon behind a value is left for the body.
  unfoldable pub parse_return : Parts L → Parsing L OptionalExpr
  parse_return parts = do
    empty ← parser_next_is token_semicolon
    if empty
        then pure no_value
        else do e ← parts.expr token_stop_semicolon true; pure (some_value e)

  -- `[name]` in front of a loop's condition, behind its `[`.
  abbrev loop_name : Option Token → Parsing L (Option Bytes)
  loop_name none = pure none
  loop_name (some _) = do
    name ← expect_next token_ident
    expect_next token_closing_square_brace
    pure (some (ident_of name))

  unfoldable pub parse_while : Parts L → Parsing L AstStmt
  parse_while parts = do
    token ← parser_next_is_or token_opening_square_brace
    name ← loop_name token
    condition ← parts.expr token_stop_opening_figure_brace true
    parser_skip_next
    body ← parts.body false
    pure (stmt_while name condition body)
