-- ===== src/Parser/Expr/Loop.antt =====
-- The loops of `_parse_expr` of src/parser/parts/expr.c.
use hoblang_old.Base.{ℕ, zero, suc, Bool, true, false, Option, none, some, if◌then◌else◌}
use hoblang_old.Lexer.Token.{
  Token, TokenType, token_fun, token_question_mark, token_true, token_false, token_char, token_str,
  token_opening_square_brace, token_closing_square_brace, token_integer, token_float, token_struct,
  token_opening_figure_brace, token_ident, token_unwrap, token_null, token_not, token_bitand,
  token_mod, token_add, token_and, token_xor, token_bitor, token_bitnot, token_shr, token_shl,
  token_minus, token_multiply, token_divide, token_equals, token_not_equals, token_less,
  token_less_or_equals, token_greater, token_greater_or_equals, token_or,
  token_opening_circle_brace, token_closing_circle_brace, token_as, token_auto, token_dot,
}
use hoblang_old.Parser.Binop.{
  AstBinopType, binop_and, binop_mod, binop_add, binop_sub, binop_mul, binop_div, binop_eq,
  binop_neq, binop_gt, binop_ge, binop_lt, binop_le, binop_or, binop_bitand, binop_bitor, binop_shr,
  binop_shl, binop_xor,
}
use hoblang_old.Parser.Cursor.{
  TokenSource, Parsing, pure, refuse, crash, out_of_fuel, attempt, ◌>>=◌, ◌>>◌, ident_of,
  current_token, parser_next, parser_next_is_not, parser_skip_next, expect_next,
}
use hoblang_old.Parser.Expr.{
  Step, going, returned, or_returned, child, complement, set_scoped, char_node, str_node,
  integer_node, float_node, return_pointer, go, or_refuse, or_crash, report_null, parse_call_args,
  array_values, struct_members,
}
use hoblang_old.Parser.Parts.{Parts, ParseStopFunc, token_stop_idx, token_stop_closing_circle_brace}
use hoblang_old.Parser.PushDown.{expr_make_binop, push_down_crashes}
use hoblang_old.Parser.Syntax.{
  AstExpr, operand, get_local, get_inner, idx, boolean, call, not_expr, as_type, as_auto, unary,
  array, ref_expr, null_expr, ret_on_null, unwrap, struct_expr, anon_fun, unary_minus,
}
use hoblang_old.Parser.Types.{parse_path, parse_type, parse_func_type_info}

module _ {L : Type 0} ⦃S : TokenSource L⦄ where
  -- `PARSE_BINOP`: it returns behind a right side that the stop ended.
  unfoldable pub parse_binop :
      Parts L → ParseStopFunc → Bool → Option AstExpr → AstBinopType → Parsing L Step
  unfolding expr_make_binop push_down_crashes
  parse_binop parts stop true current op = refuse
  parse_binop parts stop false current op = do
    right ← parts.expr stop true
    (if push_down_crashes op right then crash else pure tt)
    token ← current_token
    let tree = expr_make_binop op (child current) right
    if stop token.type then pure (returned (some tree)) else pure (going (some tree) false)

  -- An index, behind its `[`. The code goes on without an expression, and with an index that is NULL.
  unfoldable pub parse_idx : Parts L → Bool → Option AstExpr → Parsing L Step
  parse_idx parts first current = do
    report_null current
    i ← attempt (parts.expr token_stop_idx true)
    expect_next token_closing_square_brace
    go first (idx (child current) (child i))

  -- A call, or an expression in parentheses, behind the `(`.
  unfoldable pub parse_brace : ℕ → Parts L → Bool → Option AstExpr → Parsing L Step
  unfolding parse_call_args
  parse_brace n parts first (some callable) = do
    args ← parse_call_args n parts
    go first (call callable args)
  parse_brace n parts first none = do
    inner ← attempt (parts.expr token_stop_closing_circle_brace true)
    e ← or_crash inner
    expect_next token_closing_circle_brace
    pure (going (some (set_scoped e)) first)

  unfoldable pub parse_struct : ℕ → Parts L → Parsing L Step
  unfolding struct_members parse_path
  parse_struct n parts = do
    path ← parse_path n parts
    expect_next token_opening_figure_brace
    members ← struct_members n parts
    pure (returned (some (operand (struct_expr path members))))

  -- The `switch` of `_parse_expr`, on a token where the expression does not stop.
  unfoldable pub expr_token :
      ℕ → Parts L → ParseStopFunc → Bool → Option AstExpr → Token → TokenType → Parsing L Step
  unfolding parse_binop parse_idx parse_brace parse_struct array_values parse_path
      parse_func_type_info
  expr_token n parts stop first current token token_fun = do
    info ← parse_func_type_info n parts
    body ← parts.body false
    go first (anon_fun info body)
  expr_token n parts stop first current token token_question_mark = do
    e ← or_refuse current
    go first (ret_on_null e)
  expr_token n parts stop first current token token_true = go first (boolean true)
  expr_token n parts stop first current token token_false = go first (boolean false)
  expr_token n parts stop first current token token_char = go first (char_node token.value)
  expr_token n parts stop first current token token_str = go first (str_node token.value)
  expr_token n parts stop first current token token_opening_square_brace =
      parse_idx parts first current
  expr_token n parts stop first current token token_integer = go first (integer_node token.value)
  expr_token n parts stop first current token token_float = go first (float_node token.value)
  expr_token n parts stop first current token token_struct = parse_struct n parts
  expr_token n parts stop first current token token_ident = do
    parser_skip_next
    path ← parse_path n parts
    go first (get_local path)
  expr_token n parts stop first current token token_unwrap = do
    e ← or_refuse current
    name ← expect_next token_ident
    go first (unwrap e (ident_of name))
  expr_token n parts stop first current token token_null = go first null_expr
  expr_token n parts stop first current token token_not = do
    e ← parts.expr stop true
    go first (not_expr e)
  expr_token n parts stop true current token token_bitand = do
    e ← parts.expr stop false
    go true (ref_expr e)
  expr_token n parts stop false current token token_bitand =
      parse_binop parts stop false current binop_bitand
  expr_token n parts stop first current token token_bitnot = do
    e ← attempt (parts.expr stop true)
    pure (going (complement e) first)
  expr_token n parts stop true current token token_minus = do
    e ← parts.expr stop true
    pure (returned (some (operand (unary unary_minus e))))
  expr_token n parts stop false current token token_minus =
      parse_binop parts stop false current binop_sub
  expr_token n parts stop first current token token_mod =
      parse_binop parts stop first current binop_mod
  expr_token n parts stop first current token token_add =
      parse_binop parts stop first current binop_add
  expr_token n parts stop first current token token_and =
      parse_binop parts stop first current binop_and
  expr_token n parts stop first current token token_xor =
      parse_binop parts stop first current binop_xor
  expr_token n parts stop first current token token_bitor =
      parse_binop parts stop first current binop_bitor
  expr_token n parts stop first current token token_shr =
      parse_binop parts stop first current binop_shr
  expr_token n parts stop first current token token_shl =
      parse_binop parts stop first current binop_shl
  expr_token n parts stop first current token token_multiply =
      parse_binop parts stop first current binop_mul
  expr_token n parts stop first current token token_divide =
      parse_binop parts stop first current binop_div
  expr_token n parts stop first current token token_equals =
      parse_binop parts stop first current binop_eq
  expr_token n parts stop first current token token_not_equals =
      parse_binop parts stop first current binop_neq
  expr_token n parts stop first current token token_less =
      parse_binop parts stop first current binop_lt
  expr_token n parts stop first current token token_less_or_equals =
      parse_binop parts stop first current binop_le
  expr_token n parts stop first current token token_greater =
      parse_binop parts stop first current binop_gt
  expr_token n parts stop first current token token_greater_or_equals =
      parse_binop parts stop first current binop_ge
  expr_token n parts stop first current token token_or =
      parse_binop parts stop first current binop_or
  expr_token n parts stop first current token token_opening_circle_brace =
      parse_brace n parts first current
  expr_token n parts stop first current token token_opening_figure_brace = do
    values ← array_values n parts
    go first (array values)
  expr_token n parts stop first current token _ = refuse

  -- The `switch` of the inner loop, which gives `first` its value; `again` is the next time round.
  unfoldable pub post_token :
      ℕ
      → Parts L
      → (Option AstExpr → Bool → Parsing L Step)
      → Bool
      → Option AstExpr
      → TokenType
      → Parsing L Step
  unfolding parse_path parse_type
  post_token n parts again false current token_as = do parser_skip_next; pure (returned current)
  post_token n parts again true current token_as = do
    typed ← parser_next_is_not token_auto
    if typed
        then (do
          type ← parse_type n parts
          again (some (operand (as_type (child current) type))) false)
        else again (some (operand (as_auto (child current)))) false
  post_token n parts again post_parse current token_dot = do
    path ← parse_path n parts
    again (some (operand (get_inner (child current) path))) false
  post_token n parts again post_parse current _ = do parser_skip_next; pure (going current false)

  unfoldable pub post_loop :
      ℕ → Parts L → ParseStopFunc → Bool → Option AstExpr → Bool → Parsing L Step
  unfolding post_token
  post_loop zero parts stop post_parse current first = out_of_fuel
  post_loop (suc n) parts stop post_parse current first = do
    token ← parser_next
    if stop token.type
        then (do parser_skip_next; pure (going current first))
        else post_token n parts (λ e. post_loop n parts stop post_parse e) post_parse current
            token.type

  -- `_parse_expr` from the head of its loop.
  unfoldable pub expr_loop :
      ℕ → Parts L → ParseStopFunc → Bool → Bool → Option AstExpr → Parsing L AstExpr
  unfolding expr_token post_loop
  expr_loop zero parts stop post_parse first current = out_of_fuel
  expr_loop (suc n) parts stop post_parse first current = do
    token ← parser_next
    if stop token.type then (do parser_skip_next; or_refuse current) else do
      step ← expr_token n parts stop first current token token.type
      or_returned return_pointer
          (λ current first. do
            step ← post_loop n parts stop post_parse current first
            or_returned return_pointer
                (λ current first. expr_loop n parts stop post_parse first current) step)
          step

  -- `_parse_expr`.
  unfoldable pub parse_expr_post : ℕ → Parts L → ParseStopFunc → Bool → Parsing L AstExpr
  unfolding expr_loop
  parse_expr_post n parts stop post_parse = expr_loop n parts stop post_parse true none
