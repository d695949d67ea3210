-- ===== src/Tests/LexerRuns.antt =====
-- The lexer on concrete input.
use Prim.Native.String.{String}
use hoblang_old.Base.{◌≡◌, refl, Option, none, some, Bytes}
use hoblang_old.Lexer.Rules.{codes, lexer_next}
use hoblang_old.Lexer.State.{Lexer, lexer_new}
use hoblang_old.Lexer.Token.{
  Token, TokenType, token_eoi, TokenValue, unset, file_loc_new, token_while, token_ident,
  token_assign_add, token_integer, token_str, integer, ident, str,
}

abbrev blank : Token
blank = record { type = token_eoi; location = file_loc_new; value = unset }

abbrev pub source : String → Lexer
source s = lexer_new blank (codes s)

-- The token that `lexer_next` finds, and what is left.
abbrev found : Option Lexer → Option (TokenType × Bytes)
found none = none
found (some l) = some (l.token.type, l.remain)

abbrev found_value : Option Lexer → Option (TokenType × TokenValue)
found_value none = none
found_value (some l) = some (l.token.type, l.token.value)

finds_keyword : found (lexer_next (source "  # c\n while x")) ≡ some (token_while, codes " x")
unfolding lexer_next
finds_keyword = refl

finds_identifier :
    found_value (lexer_next (source "while1 +=")) ≡ some (token_ident, ident (codes "while1"))
unfolding lexer_next
finds_identifier = refl

finds_longest_symbol : found (lexer_next (source "+=1")) ≡ some (token_assign_add, codes "1")
unfolding lexer_next
finds_longest_symbol = refl

finds_hexadecimal : found_value (lexer_next (source "0x1F;")) ≡ some (token_integer, integer 31)
unfolding lexer_next
finds_hexadecimal = refl

finds_string : found_value (lexer_next (source "\"a\\n\" x")) ≡ some (token_str, str (codes "a\n"))
unfolding lexer_next
finds_string = refl
