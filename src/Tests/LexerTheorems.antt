-- ===== src/Tests/LexerTheorems.antt =====
-- The theorems on the lexer as a whole, at concrete input.
use hoblang_old.Base.{◌≤◌, true, false, ◌≡◌, refl, some, Bytes, arith, length, ◌==◌}
use hoblang_old.Core.Chars.{char_is_whitespace, char_is_digit, char_is_latin, char_is_ident_start}
use hoblang_old.Lexer.Comments.{skip_trivia-settles, skip_comment_twice}
use hoblang_old.Lexer.Dispatch.{lexer_try_next-unknown}
use hoblang_old.Lexer.Next.{lexer_next-IsPlaced}
use hoblang_old.Lexer.Position.{IsPlaced, SamePlace, rollback-apply_rule}
use hoblang_old.Lexer.Rules.{codes, number, apply_rule, lexer_next, lexer_try_next, rules}
use hoblang_old.Lexer.State.{Lexer, lexer_begin, lexer_rollback, lexer_future_char}
use hoblang_old.Lexer.Stuck.{lexer_next_times-stuck, lexer_next_times}
use hoblang_old.Lexer.Trivia.{skip_trivia, lexer_skip_comment}
use hoblang_old.Tests.LexerRuns.{source}

abbrev program : Bytes
program = codes "# one\n  x += 0x1f;"

abbrev program_lexer : Lexer
program_lexer = source "# one\n  x += 0x1f;"

program_lexer-IsPlaced : IsPlaced program program_lexer
program_lexer-IsPlaced = record { full_is = refl; line_is = refl; column_is = refl }

lexer_next-IsPlaced_example :
    (l' : Lexer) × (lexer_next program_lexer ≡ some l')
    × IsPlaced program l'
    × (length l'.remain ≤ length program_lexer.remain)
lexer_next-IsPlaced_example = lexer_next-IsPlaced program program_lexer program_lexer-IsPlaced

rollback-apply_rule_example :
    SamePlace (source "0xz") (lexer_rollback (apply_rule number (lexer_begin (source "0xz"))).1)
rollback-apply_rule_example = rollback-apply_rule number (source "0xz")

skip_trivia-settles_example :
    (char_is_whitespace (lexer_future_char (skip_trivia program_lexer)) ≡ false)
    × ((lexer_future_char (skip_trivia program_lexer) == b'#') ≡ false)
skip_trivia-settles_example = skip_trivia-settles program_lexer

abbrev commented : Lexer
commented = source "#`c`# x\ny"

skip_comment_twice_example :
    ((lexer_skip_comment commented).1.remain ≡ codes "# x\ny")
    × ((lexer_skip_comment (lexer_skip_comment commented).1).0 ≡ true)
    × ((lexer_skip_comment (lexer_skip_comment commented).1).1.remain ≡ codes "y")
skip_comment_twice_example =
    skip_comment_twice (codes "c") (codes " x") (codes "y") commented refl refl (omega arith) refl
      (omega arith)

lexer_try_next-unknown_example :
    ((lexer_try_next (source "^ 1")).0 ≡ false)
    × ((lexer_try_next (source "^ 1")).1.failed ≡ true)
    × ((lexer_try_next (source "^ 1")).1.remain ≡ codes "^ 1")
unfolding rules char_is_whitespace char_is_digit char_is_latin char_is_ident_start
lexer_try_next-unknown_example =
    lexer_try_next-unknown b'^' (codes " 1") (source "^ 1") refl refl refl refl

lexer_next_times-stuck_example :
    (l' : Lexer) × (lexer_next_times 3 (source "\"\\\\a\"") ≡ some l')
    × (l'.remain ≡ codes "\"\\\\a\"")
    × (l'.failed ≡ true)
lexer_next_times-stuck_example =
    lexer_next_times-stuck 2 b'\\' (codes "a\"") (source "\"\\\\a\"") refl refl
