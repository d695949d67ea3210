-- ===== src/Parser/Stmts/Asm.antt =====
-- Inline assembler: src/parser/parts/stmts/asm.c.
use hoblang_old.Base.{ℕ, zero, suc, true, List, [], ◌∷◌, if◌then◌else◌, Bytes}
use hoblang_old.Lexer.Token.{
  TokenType, type_is, token_ident, token_semicolon, token_comma, token_dollar, token_volatile,
  token_opening_square_brace, token_closing_square_brace, token_opening_circle_brace,
  token_closing_circle_brace, token_opening_figure_brace, token_closing_figure_brace,
}
use hoblang_old.Parser.Cursor.{
  TokenSource, Parsing, pure, refuse, out_of_fuel, ◌>>=◌, ◌>>◌, ident_of, current_token,
  parser_step, parser_next, parser_next_is, parser_skip_next, expect_next,
}
use hoblang_old.Parser.Parts.{Parts, token_is_asm_arg_end, token_is_asm_address_end}
use hoblang_old.Parser.Syntax.{
  AstStmt, stmt_asm, AstAsmMnemonics, no_mnems, mnem_then, AstAsmArgs, no_asm_args, register_then,
  address_then, expr_arg_then,
}

module _ {L : Type 0} ⦃S : TokenSource L⦄ where
  -- An argument of an instruction, in front of those to come.
  unfoldable pub asm_arg : Parts L → TokenType → Parsing L (AstAsmArgs → AstAsmArgs)
  asm_arg parts token_dollar = do
    register ← expect_next token_ident
    pure (register_then (ident_of register))
  asm_arg parts token_opening_square_brace = do
    e ← parts.expr token_is_asm_address_end true
    expect_next token_closing_square_brace
    pure (address_then e)
  asm_arg parts _ = do
    parser_skip_next
    e ← parts.expr token_is_asm_arg_end true
    parser_skip_next
    pure (expr_arg_then e)

  -- The `switch` behind an argument, given what the loop does next time.
  unfoldable pub behind_asm_arg : Parsing L AstAsmArgs → TokenType → Parsing L AstAsmArgs
  behind_asm_arg again token_comma = again
  behind_asm_arg again token_semicolon = pure no_asm_args
  behind_asm_arg again _ = refuse

  unfoldable pub asm_args : ℕ → Parts L → Parsing L AstAsmArgs
  unfolding asm_arg behind_asm_arg
  asm_args zero parts = out_of_fuel
  asm_args (suc n) parts = do
    token ← parser_next
    arg ← asm_arg parts token.type
    next ← parser_next
    more ← behind_asm_arg (asm_args n parts) next.type
    pure (arg more)

  -- In front of the instructions to come.
  unfoldable pub parse_asm_mnemonic : ℕ → Parts L → Parsing L (AstAsmMnemonics → AstAsmMnemonics)
  unfolding asm_args
  parse_asm_mnemonic n parts = do
    name ← expect_next token_ident
    bare ← parser_next_is token_semicolon
    args ← (if bare then pure no_asm_args else asm_args n parts)
    pure (mnem_then (ident_of name) args)

  -- The `switch` behind a register that is overwritten.
  unfoldable pub behind_clobber : Parsing L (List Bytes) → TokenType → Parsing L (List Bytes)
  behind_clobber again token_closing_circle_brace = pure []
  behind_clobber again token_comma = again
  behind_clobber again _ = refuse

  unfoldable pub clobber_list : ℕ → Parsing L (List Bytes)
  unfolding behind_clobber
  clobber_list zero = out_of_fuel
  clobber_list (suc n) = do
    register ← expect_next token_ident
    token ← parser_next
    more ← behind_clobber (clobber_list n) token.type
    pure (ident_of register ∷ more)

  -- What stands in front of `volatile`: nothing, or the registers in parentheses.
  unfoldable pub parse_clobbers : ℕ → Parsing L (List Bytes)
  unfolding clobber_list parser_step
  parse_clobbers n = do
    parser_step
    token ← current_token
    if type_is token.type token_opening_circle_brace
        then (do
          parser_step
          next ← current_token
          if type_is next.type token_closing_circle_brace
              then pure []
              else do parser_skip_next; clobber_list n)
        else do parser_skip_next; pure []

  unfoldable pub asm_mnemonics : ℕ → Parts L → Parsing L AstAsmMnemonics
  unfolding parse_asm_mnemonic parser_step
  asm_mnemonics zero parts = out_of_fuel
  asm_mnemonics (suc n) parts = do
    parser_step
    token ← current_token
    if type_is token.type token_closing_figure_brace then pure no_mnems else do
      parser_skip_next
      mnemonic ← parse_asm_mnemonic n parts
      more ← asm_mnemonics n parts
      pure (mnemonic more)

  unfoldable pub parse_asm_body : ℕ → Parts L → Parsing L AstStmt
  unfolding parse_clobbers asm_mnemonics
  parse_asm_body n parts = do
    clobbers ← parse_clobbers n
    is_volatile ← parser_next_is token_volatile
    expect_next token_opening_figure_brace
    mnems ← asm_mnemonics n parts
    pure (stmt_asm clobbers is_volatile mnems)
