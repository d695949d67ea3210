-- ===== src/Tests/WordTheorems.antt =====
-- The theorems on words, numbers and strings, at concrete input.
use hoblang_old.Base.{false, [], ◌∷◌, ◌++◌, ◌≡◌, ◌↔◌, refl, Bytes}
use hoblang_old.Core.Chars.{char_is_digit, char_is_ident, char_is_ident_start, char_is_latin}
use hoblang_old.Lexer.Numbers.{lex_keyword_iff}
use hoblang_old.Lexer.Parts.{lex_part_ok, lex_keyword, lex_ident, lex_str}
use hoblang_old.Lexer.Rules.{codes}
use hoblang_old.Lexer.State.{set_token, first_or_eof}
use hoblang_old.Lexer.Text.{lex_str-escape, escape}
use hoblang_old.Lexer.Token.{token_ident, token_str, token_if, ident, str}
use hoblang_old.Lexer.Words.{lex_ident-passed, passed}
use hoblang_old.Tests.LexerRuns.{source}

lex_keyword_iff_example : ((lex_keyword (codes "if") token_if (source "if (")).0 ≡ lex_part_ok) ↔ (
    (rest : Bytes) × ((source "if (").remain ≡ codes "if" ++ rest)
    × (char_is_ident (first_or_eof rest) ≡ false))
lex_keyword_iff_example = lex_keyword_iff (codes "if") token_if (source "if (") refl

lex_ident-passed_example : lex_ident (source "x_1+y") ≡ (
  lex_part_ok,
  set_token token_ident (ident (codes "x_1")) (passed (codes "x_1") (codes "+y") (source "x_1+y")),
)
unfolding char_is_ident char_is_ident_start char_is_latin char_is_digit
lex_ident-passed_example =
    lex_ident-passed b'x' (codes "_1") (codes "+y") (source "x_1+y") refl refl refl refl

lex_str-escape_example : lex_str (source "\"a\\\"b\\n\";") ≡ (
  lex_part_ok,
  set_token token_str (str (codes "a\"b\n")) (
      passed (b'"' ∷ (escape (codes "a\"b\n") ++ b'"' ∷ [])) (codes ";") (source "\"a\\\"b\\n\";")),
)
lex_str-escape_example =
    lex_str-escape (codes "a\"b\n") (codes ";") (source "\"a\\\"b\\n\";") refl refl
