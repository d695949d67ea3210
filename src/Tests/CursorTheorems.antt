-- ===== src/Tests/CursorTheorems.antt =====
-- The theorems on the parser's steps, on expressions read from tokens, and on failures, at tokens and
-- at a text.
use hoblang_old.Base.{true, false, List, [], ◌∷◌, ◌≡◌, refl, none, some, arith}
use hoblang_old.Lexer.State.{Lexer, lexer_new}
use hoblang_old.Lexer.Token.{
  Token, token_opening_circle_brace, token_closing_circle_brace, token_opening_figure_brace,
  token_semicolon, token_add, token_multiply, token_comma,
}
use hoblang_old.Parser.Ahead.{IsAt, Ahead, fresh}
use hoblang_old.Parser.Ahead.Queue.{
  CursorCall, call_next, call_skip_next, call_next_is, call_expect_next, Answer, said, gave,
  no_answer, Queue, cursor_calls, Shows, cursor_calls-queue_calls,
}
use hoblang_old.Parser.Binop.{binop_add, binop_mul}
use hoblang_old.Parser.Cursor.{Parser, parsed, crashed, spent}
use hoblang_old.Parser.Failures.{parse_expr-crashed, parse_body-spent}
use hoblang_old.Parser.Grammar.{
  Chain, chain, literal, name, parens, done, more, is_integer, op_add, op_mul, chain_tree,
}
use hoblang_old.Parser.Grammar.Reads.{parse_expr-chain_tree}
use hoblang_old.Parser.Module.{parse_expr, parse_body}
use hoblang_old.Parser.Parts.{token_stop_semicolon}
use hoblang_old.Parser.Source.{lexer_source}
use hoblang_old.Parser.Syntax.{integer}
use hoblang_old.Tests.Tape.{Tape, tape, tape-Gives, tape_source, sign, number, word}

-- A parser in front of the tokens.
abbrev at : List Token → Parser Tape
at ts = record { lexer = tape (sign token_semicolon) ts; skip_next = false; failed = false }

at-Ahead : (ts : List Token) → Ahead ts (at ts)
at-Ahead ts = fresh refl (tape-Gives ts (sign token_semicolon))

-- `(1 + x) * 2`
abbrev product : Chain
product =
    chain
      (parens (sign token_opening_circle_brace)
        (chain (literal (number 1) (integer 1))
          (more (sign token_add) binop_add (name (word (b'x' ∷ []))) done))
        (sign token_closing_circle_brace))
      (more (sign token_multiply) binop_mul (literal (number 2) (integer 2)) done)

abbrev product_tokens : List Token
product_tokens =
    sign token_opening_circle_brace
    ∷ number 1
    ∷ sign token_add
    ∷ word (b'x' ∷ [])
    ∷ sign token_closing_circle_brace
    ∷ sign token_multiply
    ∷ number 2
    ∷ sign token_semicolon
    ∷ []

parse_expr-chain_tree_example :
    (q : Parser Tape) × (parse_expr 9 token_stop_semicolon (at product_tokens)
      ≡ parsed (chain_tree product) q)
    × (q.failed ≡ false)
    × IsAt (sign token_semicolon) [] q
parse_expr-chain_tree_example =
    parse_expr-chain_tree Tape product 9 token_stop_semicolon (sign token_semicolon) []
      (at product_tokens)
      ((refl, refl, (is_integer refl, (op_add, refl, tt))), (op_mul, is_integer refl, tt))
      (refl, (refl, refl, tt)) refl refl (omega arith) (at-Ahead product_tokens)

abbrev empty_parens : List Token
empty_parens =
    sign token_opening_circle_brace ∷ sign token_closing_circle_brace ∷ sign token_semicolon ∷ []

parse_expr-crashed_example : parse_expr 5 token_stop_semicolon (at empty_parens) ≡ crashed
parse_expr-crashed_example =
    parse_expr-crashed 2 token_stop_semicolon (sign token_opening_circle_brace)
      (sign token_closing_circle_brace) (sign token_semicolon ∷ []) (at empty_parens) refl refl refl
      (at-Ahead empty_parens)

-- Behind the `{` of `{ "\q"; }`, which is still in hand.
abbrev in_front_of_bad_string : Parser Lexer
in_front_of_bad_string = record {
  lexer =
      lexer_new (sign token_opening_figure_brace) (b'"' ∷ b'\\' ∷ b'q' ∷ b'"' ∷ b';' ∷ b'}' ∷ []);
  skip_next = true;
  failed = false;
}

parse_body-spent_example : parse_body 1000 in_front_of_bad_string ≡ spent
parse_body-spent_example =
    parse_body-spent 1000 b'q' (b'"' ∷ b';' ∷ b'}' ∷ []) in_front_of_bad_string refl refl refl refl

abbrev calls : List CursorCall
calls =
    call_next_is token_comma
    ∷ call_next
    ∷ call_skip_next
    ∷ call_expect_next token_add
    ∷ call_next_is token_comma
    ∷ []

abbrev before : Queue
before = record { held = none; coming = sign token_add ∷ sign token_comma ∷ number 3 ∷ [] }

abbrev answers : List Answer
answers =
    said false
    ∷ gave (some (sign token_add))
    ∷ no_answer
    ∷ gave (some (sign token_add))
    ∷ said true
    ∷ []

abbrev behind : Queue
behind = record { held = some (sign token_comma); coming = number 3 ∷ [] }

cursor_calls-queue_calls_example :
    (q : Parser Tape) × (cursor_calls calls (at before.coming) ≡ parsed answers q)
    × (q.failed ≡ false)
    × Shows behind q
cursor_calls-queue_calls_example =
    cursor_calls-queue_calls calls before behind answers (at before.coming) (at-Ahead before.coming)
      refl
