-- ===== src/Parser/Types.antt =====
-- Paths, types and the types of functions: src/parser/parts/path.c, type.c, types/func.c and the types
-- in decls/func_info.c. Every loop takes a fuel.
use hoblang_old.Base.{ℕ, zero, suc, Bool, true, false, if◌then◌else◌}
use hoblang_old.Lexer.Token.{
  Token, TokenType, token_null, token_ident, token_sizeof, token_multiply, token_less,
  token_greater, token_comma, token_dot, token_question_mark, token_fun, token_opening_square_brace,
  token_closing_square_brace, token_opening_circle_brace, token_closing_circle_brace,
  token_func_returns, token_colon,
}
use hoblang_old.Parser.Cursor.{
  TokenSource, Parsing, pure, refuse, out_of_fuel, ◌>>=◌, ◌>>◌, ident_of, parser_next,
  parser_next_is, parser_next_is_not, parser_skip_next, expect_next,
}
use hoblang_old.Parser.Parts.{Parts, token_stop_idx}
use hoblang_old.Parser.Syntax.{
  AstType, AstTypes, no_types, type_then, AstPath, no_segments, segment_then, AstPathSegment,
  seg_ident, seg_deref, seg_sizeof, seg_null, seg_generic, type_path, type_func, type_slice,
  type_array, type_optional, type_pointer, AstFuncTypeInfo, func_type_info, AstFuncArgs, no_args,
  arg_then,
}

module _ {L : Type 0} ⦃S : TokenSource L⦄ where
  -- The loop of `parse_path` over the parameters between `<` and `>`.
  unfoldable pub generic_params : ℕ → Parts L → Parsing L AstTypes
  generic_params zero parts = out_of_fuel
  generic_params (suc n) parts = do
    none_left ← parser_next_is token_greater
    if none_left then pure no_types else do
      type ← parts.type
      closed ← parser_next_is token_greater
      if closed
          then pure (type_then type no_types)
          else do expect_next token_comma; more ← generic_params n parts; pure (type_then type more)

  -- The `switch` of `parse_path`.
  unfoldable pub path_segment : ℕ → Parts L → Token → TokenType → Parsing L AstPathSegment
  unfolding generic_params
  path_segment n parts token token_null = pure seg_null
  path_segment n parts token token_ident = pure (seg_ident (ident_of token))
  path_segment n parts token token_sizeof = pure seg_sizeof
  path_segment n parts token token_multiply = pure seg_deref
  path_segment n parts token token_less = do
    params ← generic_params n parts
    pure (seg_generic params)
  path_segment n parts token _ = refuse

  unfoldable pub parse_path : ℕ → Parts L → Parsing L AstPath
  unfolding path_segment
  parse_path zero parts = out_of_fuel
  parse_path (suc n) parts = do
    token ← parser_next
    segment ← path_segment n parts token token.type
    last ← parser_next_is_not token_dot
    if last
        then pure (segment_then segment no_segments)
        else do more ← parse_path n parts; pure (segment_then segment more)

  -- What the loop of `parse_ast_func_type` does behind an argument, given what it does next time.
  unfoldable pub behind_arg : Parsing L AstTypes → AstType → TokenType → Parsing L AstTypes
  behind_arg again type token_closing_circle_brace = pure (type_then type no_types)
  behind_arg again type token_comma = do more ← again; pure (type_then type more)
  behind_arg again type _ = refuse

  unfoldable pub func_type_args : ℕ → Parts L → Parsing L AstTypes
  unfolding behind_arg
  func_type_args zero parts = out_of_fuel
  func_type_args (suc n) parts = do
    type ← parts.type
    token ← parser_next
    behind_arg (func_type_args n parts) type token.type

  unfoldable pub parse_ast_func_type : ℕ → Parts L → Parsing L AstType
  unfolding func_type_args
  parse_ast_func_type n parts = do
    expect_next token_opening_circle_brace
    empty ← parser_next_is token_closing_circle_brace
    args ← (if empty then pure no_types else func_type_args n parts)
    expect_next token_func_returns
    returns ← parts.type
    pure (type_func args returns)

  -- The `switch` of `parse_type`.
  unfoldable pub type_of_token : ℕ → Parts L → TokenType → Parsing L AstType
  unfolding parse_path parse_ast_func_type
  type_of_token n parts token_question_mark = do of ← parts.type; pure (type_optional of)
  type_of_token n parts token_ident = do
    parser_skip_next
    path ← parse_path n parts
    pure (type_path path)
  type_of_token n parts token_multiply = do to ← parts.type; pure (type_pointer to)
  type_of_token n parts token_fun = parse_ast_func_type n parts
  type_of_token n parts token_opening_square_brace = do
    is_slice ← parser_next_is token_closing_square_brace
    if is_slice then (do of ← parts.type; pure (type_slice of)) else do
      length ← parts.expr token_stop_idx true
      expect_next token_closing_square_brace
      of ← parts.type
      pure (type_array of length)
  type_of_token n parts _ = refuse

  unfoldable pub parse_type : ℕ → Parts L → Parsing L AstType
  unfolding type_of_token
  parse_type n parts = do token ← parser_next; type_of_token n parts token.type

  -- The `switch` of `parse_func_type_info`; the flag is its `was_arg`, given to the next time too.
  unfoldable pub func_arg :
      Parts L → (Bool → Parsing L AstFuncArgs) → Bool → Token → TokenType → Parsing L AstFuncArgs
  func_arg parts again was_arg token token_closing_circle_brace = pure no_args
  func_arg parts again was_arg token token_comma = if was_arg then again false else refuse
  func_arg parts again was_arg token token_ident = do
    expect_next token_colon
    type ← parts.type
    more ← again true
    pure (arg_then (ident_of token) type more)
  func_arg parts again was_arg token _ = refuse

  unfoldable pub func_args : ℕ → Parts L → Bool → Parsing L AstFuncArgs
  unfolding func_arg
  func_args zero parts was_arg = out_of_fuel
  func_args (suc n) parts was_arg = do
    token ← parser_next
    func_arg parts (func_args n parts) was_arg token token.type

  unfoldable pub parse_func_type_info : ℕ → Parts L → Parsing L AstFuncTypeInfo
  unfolding func_args
  parse_func_type_info n parts = do
    expect_next token_opening_circle_brace
    args ← func_args n parts false
    expect_next token_func_returns
    returning ← parts.type
    pure (func_type_info args returning)
