-- ===== src/Parser/Parts.antt =====
-- The functions of the parser that call each other, and the tokens that stop an expression
-- (include/parser/token_stops.h and the parts that call for an expression).
use hoblang_old.Base.{Bool, ◌||◌}
use hoblang_old.Lexer.Token.{
  TokenType, type_is, token_semicolon, token_closing_circle_brace, token_opening_figure_brace,
  token_comma, token_closing_figure_brace, token_closing_square_brace, token_assign,
  token_assign_mod, token_assign_add, token_assign_minus, token_assign_multiply,
  token_assign_divide,
}
use hoblang_old.Parser.Cursor.{Parsing}
use hoblang_old.Parser.Syntax.{AstExpr, AstType, AstBody}

-- `ParseStopFunc`.
abbrev pub ParseStopFunc : Type 0
ParseStopFunc = TokenType → Bool

abbrev pub token_stop_semicolon : ParseStopFunc
token_stop_semicolon type = type_is type token_semicolon

abbrev pub token_stop_closing_circle_brace : ParseStopFunc
token_stop_closing_circle_brace type = type_is type token_closing_circle_brace

abbrev pub token_stop_opening_figure_brace : ParseStopFunc
token_stop_opening_figure_brace type = type_is type token_opening_figure_brace

abbrev pub token_stop_funcall_arg : ParseStopFunc
token_stop_funcall_arg type = type_is type token_comma || type_is type token_closing_circle_brace

abbrev pub token_stop_array_arg : ParseStopFunc
token_stop_array_arg type = type_is type token_comma || type_is type token_closing_figure_brace

abbrev pub token_stop_idx : ParseStopFunc
token_stop_idx type = type_is type token_closing_square_brace

-- Of src/parser/parts/expr.c.
abbrev pub token_struct_stop : ParseStopFunc
token_struct_stop type = type_is type token_closing_figure_brace || type_is type token_comma

-- Of src/parser/parts/body.c.
abbrev pub token_stop_stmt : ParseStopFunc
token_stop_stmt type =
    type_is type token_assign
    || type_is type token_assign_mod
    || type_is type token_assign_add
    || type_is type token_assign_minus
    || type_is type token_assign_multiply
    || type_is type token_assign_divide
    || type_is type token_semicolon

-- Of src/parser/parts/stmts/asm.c.
abbrev pub token_is_asm_arg_end : ParseStopFunc
token_is_asm_arg_end type = type_is type token_comma || type_is type token_semicolon

abbrev pub token_is_asm_address_end : ParseStopFunc
token_is_asm_address_end type = type_is type token_closing_square_brace

-- `_parse_expr` (with its `post_parse`), `parse_type` and `parse_body_maybe_ola` (with its
-- `one_line_allowed`), as the functions that they call see them.
pub record Parts (L : Type 0) : Type 0 where
  pub expr : ParseStopFunc → Bool → Parsing L AstExpr
  pub type : Parsing L AstType
  pub body : Bool → Parsing L AstBody
