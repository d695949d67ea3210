-- ===== src/Lexer/Token.antt =====
-- include/lexer/token.h: tokens.
use hoblang_old.Base.{ℕ, Bool, ◌==◌, Bytes}

pub data TokenType : Type 0 where
  token_fun token_defer token_type token_import token_use token_while token_var : TokenType
  token_return token_extern token_as token_asm token_dollar token_volatile token_const : TokenType
  token_sizeof token_auto token_unwrap token_break token_continue token_public : TokenType
  token_undefined token_final token_from token_behaviour token_struct : TokenType
  token_func_returns token_if token_else token_question_mark token_null token_colon : TokenType
  token_comma token_semicolon token_assign token_opening_circle_brace : TokenType
  token_closing_circle_brace token_opening_figure_brace token_closing_figure_brace : TokenType
  token_opening_square_brace token_closing_square_brace token_assign_mod : TokenType
  token_assign_add token_assign_minus token_assign_multiply token_assign_divide : TokenType
  token_mod token_add token_minus token_multiply token_divide token_not token_dot : TokenType
  token_bitor token_bitand token_bitnot token_xor token_shr token_shl token_and : TokenType
  token_or token_equals token_not_equals token_less token_less_or_equals : TokenType
  token_greater token_greater_or_equals token_true token_false token_char : TokenType
  token_integer token_float token_ident token_str token_eoi : TokenType

pub record FileLocation : Type 0 where
  pub line : ℕ
  pub column : ℕ

abbrev pub file_loc_new : FileLocation
file_loc_new = record { line = 0; column = 0 }

-- The union of `Token`. A `long double` is kept exact: `left + right / base ^ digits`.
pub data TokenValue : Type 0 where
  unset : TokenValue
  ident : Bytes → TokenValue
  integer : ℕ → TokenValue
  float_value : ℕ → ℕ → ℕ → ℕ → TokenValue
  character : ℕ → TokenValue
  str : Bytes → TokenValue

pub record Token : Type 0 where
  pub type : TokenType
  pub location : FileLocation
  pub value : TokenValue

-- The numbers of the token types in C.
abbrev pub token_code : TokenType → ℕ
token_code token_fun = 0
token_code token_defer = 1
token_code token_type = 2
token_code token_import = 3
token_code token_use = 4
token_code token_while = 5
token_code token_var = 6
token_code token_return = 7
token_code token_extern = 8
token_code token_as = 9
token_code token_asm = 10
token_code token_dollar = 11
token_code token_volatile = 12
token_code token_const = 13
token_code token_sizeof = 14
token_code token_auto = 15
token_code token_unwrap = 16
token_code token_break = 17
token_code token_continue = 18
token_code token_public = 19
token_code token_undefined = 20
token_code token_final = 21
token_code token_from = 22
token_code token_behaviour = 23
token_code token_struct = 24
token_code token_func_returns = 25
token_code token_if = 26
token_code token_else = 27
token_code token_question_mark = 28
token_code token_null = 29
token_code token_colon = 30
token_code token_comma = 31
token_code token_semicolon = 32
token_code token_assign = 33
token_code token_opening_circle_brace = 34
token_code token_closing_circle_brace = 35
token_code token_opening_figure_brace = 36
token_code token_closing_figure_brace = 37
token_code token_opening_square_brace = 38
token_code token_closing_square_brace = 39
token_code token_assign_mod = 40
token_code token_assign_add = 41
token_code token_assign_minus = 42
token_code token_assign_multiply = 43
token_code token_assign_divide = 44
token_code token_mod = 45
token_code token_add = 46
token_code token_minus = 47
token_code token_multiply = 48
token_code token_divide = 49
token_code token_not = 50
token_code token_dot = 51
token_code token_bitor = 52
token_code token_bitand = 53
token_code token_bitnot = 54
token_code token_xor = 55
token_code token_shr = 56
token_code token_shl = 57
token_code token_and = 58
token_code token_or = 59
token_code token_equals = 60
token_code token_not_equals = 61
token_code token_less = 62
token_code token_less_or_equals = 63
token_code token_greater = 64
token_code token_greater_or_equals = 65
token_code token_true = 66
token_code token_false = 67
token_code token_char = 68
token_code token_integer = 69
token_code token_float = 70
token_code token_ident = 71
token_code token_str = 72
token_code token_eoi = 73

-- `==` on token types.
abbrev pub type_is : TokenType → TokenType → Bool
type_is a b = token_code a == token_code b
