-- ===== src/Parser/Expr.antt =====
-- What expressions hold, and their lists: parts of `_parse_expr` of src/parser/parts/expr.c. A pointer that may be NULL is
-- an `Option`; NULL inside a tree is `operand nothing`. Every loop takes a fuel.
pub mod Loop
use hoblang_old.Base.{ℕ, zero, suc, Bool, true, false, Option, none, some, [], if◌then◌else◌}
use hoblang_old.Lexer.Token.{
  TokenType, TokenValue, type_is, token_comma, token_closing_circle_brace,
  token_closing_figure_brace, token_ident, token_colon, token_undefined,
}
use hoblang_old.Parser.Cursor.{
  TokenSource, Parsing, pure, refuse, report, return_null, crash, out_of_fuel, attempt, ◌>>=◌, ◌>>◌,
  ident_of, current_token, parser_next, parser_next_is, parser_next_is_not, parser_skip_next,
  expect_next,
}
use hoblang_old.Parser.Parts.{
  Parts, ParseStopFunc, token_stop_idx, token_stop_funcall_arg, token_stop_array_arg,
  token_stop_closing_circle_brace, token_struct_stop,
}
use hoblang_old.Parser.PushDown.{expr_make_binop, push_down_crashes}
use hoblang_old.Parser.Syntax.{
  AstExpr, operand, binop, AstNode, nothing, get_local, get_inner, idx, boolean, call, not_expr,
  as_type, as_auto, unary, array, ref_expr, null_expr, ret_on_null, unwrap, struct_expr, anon_fun,
  AstExprs, no_exprs, expr_then, AstMembers, no_members, member_then, undefined_then, AstUnaryType,
  unary_minus, unary_bitnot,
}
use hoblang_old.Parser.Types.{parse_path, parse_type, parse_func_type_info}

-- How a part of the loop of `_parse_expr` ends: with `current_expr` and `first`, or by returning.
pub data Step : Type 0 where
  going : Option AstExpr → Bool → Step
  returned : Option AstExpr → Step

-- Behind a part of the loop, the rest, unless the part has returned.
abbrev pub or_returned :
    {B : Type 0} → (Option AstExpr → B) → (Option AstExpr → Bool → B) → Step → B
or_returned end rest (going current first) = rest current first
or_returned end rest (returned e) = end e

-- A pointer as the child of a node.
abbrev pub child : Option AstExpr → AstExpr
child none = operand nothing
child (some e) = e

-- `current_expr->scoped = true`; only of a binary operator is `scoped` kept.
abbrev pub set_scoped : AstExpr → AstExpr
set_scoped (operand a) = operand a
set_scoped (binop scoped op l r) = binop true op l r

-- `~`: the pointer of a node, where there is one below.
abbrev pub complement : Option AstExpr → Option AstExpr
complement none = none
complement (some e) = some (operand (unary unary_bitnot e))

-- The nodes of literals, from the token's union.
abbrev pub char_node : TokenValue → AstNode
char_node (TokenValue.character c) = AstNode.character c
char_node _ = AstNode.character 0

abbrev pub str_node : TokenValue → AstNode
str_node (TokenValue.str s) = AstNode.str s
str_node _ = AstNode.str []

abbrev pub integer_node : TokenValue → AstNode
integer_node (TokenValue.integer n) = AstNode.integer n
integer_node _ = AstNode.integer 0

abbrev pub float_node : TokenValue → AstNode
float_node (TokenValue.float_value a b c d) = AstNode.float_value a b c d
float_node _ = AstNode.float_value 0 0 0 0

module _ {L : Type 0} where
  abbrev pub return_pointer : Option AstExpr → Parsing L AstExpr
  return_pointer none = return_null
  return_pointer (some e) = pure e

  -- A node, with the rest of the loop to come.
  abbrev pub go : Bool → AstNode → Parsing L Step
  go first a = pure (going (some (operand a)) first)

  -- The pointer where it may not be NULL.
  abbrev pub or_refuse : Option AstExpr → Parsing L AstExpr
  or_refuse none = refuse
  or_refuse (some e) = pure e

  abbrev pub or_crash : Option AstExpr → Parsing L AstExpr
  or_crash none = crash
  or_crash (some e) = pure e

  abbrev pub report_null : Option AstExpr → Parsing L (Unit {0})
  report_null none = report
  report_null (some e) = pure tt

module _ {L : Type 0} ⦃S : TokenSource L⦄ where
  -- The loop of `parse_call_args`, from its second line on.
  unfoldable pub behind_call_arg : Parsing L AstExprs → AstExpr → TokenType → Parsing L AstExprs
  behind_call_arg again e token_comma = do more ← again; pure (expr_then e more)
  behind_call_arg again e token_closing_circle_brace = pure (expr_then e no_exprs)
  behind_call_arg again e _ = refuse

  unfoldable pub call_args : ℕ → Parts L → Parsing L AstExprs
  unfolding behind_call_arg
  call_args zero parts = out_of_fuel
  call_args (suc n) parts = do
    e ← parts.expr token_stop_funcall_arg true
    token ← parser_next
    behind_call_arg (call_args n parts) e token.type

  unfoldable pub parse_call_args : ℕ → Parts L → Parsing L AstExprs
  unfolding call_args
  parse_call_args n parts = do
    empty ← parser_next_is token_closing_circle_brace
    if empty then pure no_exprs else call_args n parts

  -- The loop over the values between `{` and `}`.
  unfoldable pub array_values : ℕ → Parts L → Parsing L AstExprs
  array_values zero parts = out_of_fuel
  array_values (suc n) parts = do
    e ← parts.expr token_stop_array_arg true
    token ← parser_next
    if type_is token.type token_closing_figure_brace
        then pure (expr_then e no_exprs)
        else do more ← array_values n parts; pure (expr_then e more)

  -- A member of a struct expression, in front of those to come.
  unfoldable pub struct_member : Parts L → Parsing L (AstMembers → AstMembers)
  struct_member parts = do
    name ← expect_next token_ident
    expect_next token_colon
    is_undefined ← parser_next_is token_undefined
    if is_undefined
        then pure (undefined_then (ident_of name))
        else do e ← parts.expr token_struct_stop true; pure (member_then (ident_of name) e)

  unfoldable pub struct_members : ℕ → Parts L → Parsing L AstMembers
  unfolding struct_member
  struct_members zero parts = out_of_fuel
  struct_members (suc n) parts = do
    member ← struct_member parts
    token ← parser_next
    if type_is token.type token_closing_figure_brace
        then pure (member no_members)
        else do more ← struct_members n parts; pure (member more)
