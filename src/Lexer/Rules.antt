-- ===== src/Lexer/Rules.antt =====
-- The table of `lexer_try_next` in the order of the source, and `lexer_next`.
use Prim.Native.Char.{code}
use Prim.Native.String.{String}
use hoblang_old.Base.{
  ℕ, zero, suc, Bool, true, false, List, [], ◌∷◌, ◌++◌, Option, none, some, if◌then◌else◌, Bytes,
  length,
}
use hoblang_old.Lexer.Parts.{
  LexPartErr, lex_part_ok, lex_part_err, lex_part_missmatch, LexSymbolAlt, lex_symbol,
  lex_symbol_alt, lex_keyword, lex_char, lex_ident, lex_integer, lex_str, lex_symbol_second,
  read_keyword, escaped_char, lexer_next_escaped, read_while, char_to_digit16, read_digits,
  lex_digits, read_str,
}
use hoblang_old.Core.Chars.{
  char_is_whitespace, char_is_digit, char_is_hex, char_is_ident_start, char_is_ident,
}
use hoblang_old.Lexer.State.{
  Lexer, lexer_future_char, lexer_finished, lexer_fail, lexer_begin, lexer_rollback,
  lexer_next_char, set_token_type,
}
use hoblang_old.Lexer.Token.{
  TokenType, token_fun, token_defer, token_type, token_import, token_use, token_while, token_var,
  token_return, token_extern, token_as, token_asm, token_dollar, token_volatile, token_const,
  token_sizeof, token_auto, token_unwrap, token_break, token_continue, token_public,
  token_undefined, token_final, token_from, token_behaviour, token_struct, token_func_returns,
  token_if, token_else, token_question_mark, token_null, token_colon, token_comma, token_semicolon,
  token_assign, token_opening_circle_brace, token_closing_circle_brace, token_opening_figure_brace,
  token_closing_figure_brace, token_opening_square_brace, token_closing_square_brace,
  token_assign_mod, token_assign_add, token_assign_minus, token_assign_multiply,
  token_assign_divide, token_mod, token_add, token_minus, token_multiply, token_divide, token_not,
  token_dot, token_bitor, token_bitand, token_bitnot, token_shr, token_shl, token_and, token_or,
  token_equals, token_not_equals, token_less, token_less_or_equals, token_greater,
  token_greater_or_equals, token_true, token_false, token_eoi,
}
use hoblang_old.Lexer.Trivia.{
  skip_trivia, skip_trivia_on, lexer_skip_whitespace, skip_whitespace_from, lexer_skip_comment,
  skip_multiline_from, skip_line_from,
}

-- The bytes of an ASCII literal.
abbrev pub codes : String → Bytes
codes String.[] = []
codes (String.◌∷◌ c s) = code c ∷ codes s

-- One line of the table: `SYMBOL`, `SYMBOL_DUAL` and `SYMBOL_TRIAL`, `KEYWORD`, or a part.
pub data Rule : Type 0 where
  symbol : ℕ → TokenType → Rule
  symbol_alt : LexSymbolAlt → List LexSymbolAlt → Rule
  keyword : Bytes → TokenType → Rule
  character identifier number text : Rule

unfoldable pub apply_rule : Rule → Lexer → LexPartErr × Lexer
apply_rule (symbol c t) l = lex_symbol c t l
apply_rule (symbol_alt start alts) l = lex_symbol_alt start alts l
apply_rule (keyword k t) l = lex_keyword k t l
apply_rule character l = lex_char l
apply_rule identifier l = lex_ident l
apply_rule number l = lex_integer l
apply_rule text l = lex_str l

abbrev dual : ℕ → ℕ → TokenType → TokenType → Rule
dual c1 c2 t1 t2 =
    symbol_alt (record { symbol = c1; type = t1 }) (record { symbol = c2; type = t2 } ∷ [])

abbrev trial : ℕ → ℕ → ℕ → TokenType → TokenType → TokenType → Rule
trial c1 c2 c3 t1 t2 t3 =
    symbol_alt (record { symbol = c1; type = t1 })
      (record { symbol = c2; type = t2 } ∷ record { symbol = c3; type = t3 } ∷ [])

unfoldable pub symbol_rules : List Rule
symbol_rules =
    symbol b'{' token_opening_figure_brace
    ∷ symbol b'}' token_closing_figure_brace
    ∷ symbol b'[' token_opening_square_brace
    ∷ symbol b']' token_closing_square_brace
    ∷ symbol b'(' token_opening_circle_brace
    ∷ symbol b')' token_closing_circle_brace
    ∷ dual b'+' b'=' token_add token_assign_add
    ∷ trial b'-' b'=' b'>' token_minus token_assign_minus token_func_returns
    ∷ dual b'*' b'=' token_multiply token_assign_multiply
    ∷ dual b'/' b'=' token_divide token_assign_divide
    ∷ symbol b';' token_semicolon
    ∷ symbol b',' token_comma
    ∷ symbol b'.' token_dot
    ∷ symbol b'~' token_bitnot
    ∷ symbol b'$' token_dollar
    ∷ dual b'%' b'=' token_mod token_assign_mod
    ∷ symbol b'?' token_question_mark
    ∷ symbol b':' token_colon
    ∷ dual b'|' b'|' token_bitor token_or
    ∷ dual b'&' b'&' token_bitand token_and
    ∷ dual b'=' b'=' token_assign token_equals
    ∷ trial b'>' b'>' b'=' token_greater token_shr token_greater_or_equals
    ∷ trial b'<' b'<' b'=' token_less token_shl token_less_or_equals
    ∷ dual b'!' b'=' token_not token_not_equals
    ∷ []

unfoldable pub keyword_rules : List Rule
keyword_rules =
    keyword (codes "asm") token_asm
    ∷ keyword (codes "_") token_auto
    ∷ keyword (codes "unwrap") token_unwrap
    ∷ keyword (codes "break") token_break
    ∷ keyword (codes "continue") token_continue
    ∷ keyword (codes "public") token_public
    ∷ keyword (codes "undefined") token_undefined
    ∷ keyword (codes "final") token_final
    ∷ keyword (codes "from") token_from
    ∷ keyword (codes "behaviour") token_behaviour
    ∷ keyword (codes "null") token_null
    ∷ keyword (codes "sizeof") token_sizeof
    ∷ keyword (codes "const") token_const
    ∷ keyword (codes "volatile") token_volatile
    ∷ keyword (codes "var") token_var
    ∷ keyword (codes "asm") token_asm
    ∷ keyword (codes "struct") token_struct
    ∷ keyword (codes "defer") token_defer
    ∷ keyword (codes "type") token_type
    ∷ keyword (codes "fun") token_fun
    ∷ keyword (codes "if") token_if
    ∷ keyword (codes "else") token_else
    ∷ keyword (codes "return") token_return
    ∷ keyword (codes "extern") token_extern
    ∷ keyword (codes "import") token_import
    ∷ keyword (codes "use") token_use
    ∷ keyword (codes "as") token_as
    ∷ keyword (codes "true") token_true
    ∷ keyword (codes "false") token_false
    ∷ keyword (codes "while") token_while
    ∷ []

abbrev pub part_rules : List Rule
part_rules = character ∷ identifier ∷ number ∷ text ∷ []

unfoldable pub rules : List Rule
unfolding symbol_rules keyword_rules
rules = symbol_rules ++ (keyword_rules ++ part_rules)

-- `TOKEN_PARSE` on one rule: the result of `lexer_try_next` if it returns here, or the lexer for
-- the next rule.
abbrev pub outcome : LexPartErr → Lexer → Option (Bool × Lexer)
outcome lex_part_ok l = some (true, l)
outcome lex_part_err l = some (true, lexer_rollback l)
outcome lex_part_missmatch l = none

unfoldable pub try_rules : List Rule → Lexer → Bool × Lexer
try_rules [] l = (false, lexer_fail l)
try_rules (r ∷ rs) l =
    let (e, l') = apply_rule r l in
    let next = try_rules rs (lexer_rollback l') in
    elim (outcome e l') [ some result ↦ result | none ↦ next ]

-- `lexer->token.location = lexer->location`
abbrev pub locate_token : Lexer → Lexer
locate_token l = record l {
  token = record { type = l.token.type; location = l.location; value = l.token.value };
}

-- `lexer_try_next` from the start of a token on.
unfoldable pub recognise : Lexer → Bool × Lexer
recognise l =
    if lexer_finished l
    then (true, set_token_type token_eoi l)
    else try_rules rules (locate_token l)

unfoldable pub lexer_try_next : Lexer → Bool × Lexer
lexer_try_next l = recognise (lexer_begin (skip_trivia l))

-- `while (!lexer_try_next(lexer)) lexer_next_char(lexer)`, on fuel; `none` is fuel run out.
unfoldable pub lexer_next_on : ℕ → Lexer → Option Lexer
lexer_next_on zero l = none
lexer_next_on (suc fuel) l =
    let (done, l') = lexer_try_next l in
    let next = lexer_next_on fuel (lexer_next_char l').1 in if done then some l' else next

unfoldable pub lexer_next : Lexer → Option Lexer
unfolding lexer_next_on lexer_try_next recognise rules try_rules apply_rule lexer_rollback
    skip_trivia skip_trivia_on lexer_skip_whitespace skip_whitespace_from char_is_whitespace
    lexer_skip_comment skip_multiline_from skip_line_from lex_symbol lex_symbol_second
    lex_symbol_alt read_keyword lex_keyword escaped_char lexer_next_escaped lex_char read_while
    lex_ident char_to_digit16 read_digits lex_digits lex_integer read_str lex_str lexer_next_char
    lexer_future_char char_is_digit char_is_hex char_is_ident_start char_is_ident
lexer_next l = lexer_next_on (suc (length l.remain)) l
