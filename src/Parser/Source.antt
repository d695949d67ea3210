-- ===== src/Parser/Source.antt =====
-- What the parser takes its tokens from: the lexer, as `parser_new` and `parser_from_file` of
-- src/parser/api.c make it.
use hoblang_old.Base.{Bool, ◌||◌, Bytes}
use hoblang_old.Lexer.Rules.{lexer_next}
use hoblang_old.Lexer.State.{Lexer, lexer_new}
use hoblang_old.Lexer.Token.{Token}
use hoblang_old.Parser.Cursor.{TokenSource, Parser, parser_new}

instance abbrev pub lexer_source : TokenSource Lexer
lexer_source = record { next = lexer_next; token = λ l. l.token }

-- The parser of a file's bytes; `garbage` is the token before the first step, which the source leaves
-- uninitialised.
unfoldable pub parser_from_file : Token → Bytes → Parser Lexer
unfolding parser_new
parser_from_file garbage content = parser_new (lexer_new garbage content)

unfoldable pub parser_failed : Parser Lexer → Bool
parser_failed p = p.failed || p.lexer.failed
