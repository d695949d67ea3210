-- ===== src/Tests/ParserRuns.antt =====
-- The parser on texts.
use Prim.Native.String.{String}
use hoblang_old.Base.{ℕ, false, ◌≡◌, refl, Option, none, some}
use hoblang_old.Lexer.Rules.{codes, lexer_next}
use hoblang_old.Lexer.State.{Lexer, lexer_new}
use hoblang_old.Lexer.Token.{Token, token_eoi, unset, file_loc_new}
use hoblang_old.Parser.Binop.{binop_add, binop_mul, priority}
use hoblang_old.Parser.Cursor.{Outcome, parsed, crashed, Parser, parser_skip_next}
use hoblang_old.Parser.Module.{parse_expr}
use hoblang_old.Parser.Parts.{token_stop_semicolon}
use hoblang_old.Parser.Source.{lexer_source}
use hoblang_old.Parser.Syntax.{AstExpr, operand, binop, integer}

abbrev blank : Token
blank = record { type = token_eoi; location = file_loc_new; value = unset }

abbrev source : String → Parser Lexer
source s = record { lexer = lexer_new blank (codes s); skip_next = false; failed = false }

abbrev num : ℕ → AstExpr
num n = operand (integer n)

abbrev result : {A : Type 0} → Outcome Lexer A → Option A
result (parsed a p) = some a
result _ = none

parses_sum :
    result (parse_expr 5 token_stop_semicolon (source "1 + 2 * 3;"))
    ≡ some (binop false binop_add (num 1) (binop false binop_mul (num 2) (num 3)))
unfolding parse_expr lexer_next parser_skip_next priority
parses_sum = refl

-- `~` keeps no error to itself: the NULL that it stands for is read where `*` goes below `+`.
crashes_at_null_operand : parse_expr 6 token_stop_semicolon (source "1 * ~: + 3;") ≡ crashed
unfolding parse_expr lexer_next parser_skip_next priority
crashes_at_null_operand = refl
