-- ===== src/Parser/Failures.antt =====
-- Where the parser does not answer.
use hoblang_old.Base.{ℕ, zero, suc, true, false, List, ◌∷◌, ◌≡◌, refl, ◌∙◌, Bytes}
use hoblang_old.Lexer.Token.{
  Token, TokenType, type_is, token_opening_circle_brace, token_closing_circle_brace,
  token_opening_figure_brace,
}
use hoblang_old.Lexer.State.{Lexer}
use hoblang_old.Lexer.Stuck.{is_escape, lexer_next-stuck}
use hoblang_old.Parser.Ahead.{Ahead, behind-Ahead, parser_next-IsBehind}
use hoblang_old.Parser.Cursor.{
  TokenSource, Parser, parsed, crashed, spent, parser_next, parser_step, parser_skip_next, refuse,
  attempt, pure, Parsing, ◌>>=◌, ◌>>◌,
}
use hoblang_old.Parser.Expr.Loop.{expr_token, expr_loop, parse_brace, parse_expr_post}
use hoblang_old.Parser.Module.{parts_at, parse_expr, parse_body}
use hoblang_old.Parser.Parts.{Parts, ParseStopFunc}
use hoblang_old.Parser.Syntax.{AstStmt, AstStmts}
use hoblang_old.Parser.Source.{lexer_source}
use hoblang_old.Parser.Stmts.Body.{
  parse_stmt, stmt_token, body_stmts, in_body, stmt_or_none, parse_body_maybe_ola,
}

module _ {L : Type 0} ⦃S : TokenSource L⦄ where
  -- Parentheses with nothing in them, where an expression should start, make the parser use a null
  -- pointer, whatever comes behind them and whatever stops the expression.
  pub parse_expr-crashed :
      (n : ℕ) (stop : ParseStopFunc) (o e : Token) (ts : List Token) (p : Parser L)
      → o.type ≡ token_opening_circle_brace
      → e.type ≡ token_closing_circle_brace
      → stop o.type ≡ false
      → Ahead (o ∷ e ∷ ts) p
      → parse_expr (suc (suc (suc n))) stop p ≡ crashed
  unfolding parse_expr parts_at parse_expr_post expr_loop expr_token parse_brace parser_skip_next
  parse_expr-crashed n stop o e ts p ho he h a =
      let (q, i, f, b) = parser_next-IsBehind o (e ∷ ts) p a in
      let (r, j, g, c) = parser_next-IsBehind e ts q (behind-Ahead o (e ∷ ts) q b) in
      rw (i, h, ho, j, he) refl

-- The lexer is held up at a string literal with an unknown escape, and its token is still a `{`.
record IsHeldUp (c : ℕ) (rest : Bytes) (p : Parser Lexer) : Type 0 where
  taken : p.skip_next ≡ false
  opens : p.lexer.token.type ≡ token_opening_figure_brace
  remains : p.lexer.remain ≡ b'"' ∷ b'\\' ∷ c ∷ rest

-- A step leads there again.
parser_step-IsHeldUp :
    (c : ℕ) (rest : Bytes) (p : Parser Lexer)
    → is_escape c ≡ false
    → IsHeldUp c rest p
    → (q : Parser Lexer) × (parser_step p ≡ parsed tt q) × IsHeldUp c rest q
unfolding parser_step
parser_step-IsHeldUp c rest p h i =
    let (l, e, r, t) = lexer_next-stuck c rest p.lexer i.remains h in
    (
      record p { lexer = l },
      rw (i.taken, e) refl,
      record { taken = i.taken; opens = t ∙ i.opens; remains = r },
    )

stmt_token-brace :
    (n : ℕ) (parts : Parts Lexer) (type : TokenType)
    → type ≡ token_opening_figure_brace
    → stmt_token n parts type ≡ refuse
unfolding stmt_token
stmt_token-brace n parts type t = rw t refl

in_body-brace :
    (again : Parsing Lexer AstStmts) (stmt : Parsing Lexer AstStmt) (type : TokenType)
    → type ≡ token_opening_figure_brace
    → in_body again stmt type
      ≡ (do parser_skip_next; s ← attempt stmt; more ← again; pure (stmt_or_none s more))
unfolding in_body
in_body-brace again stmt type t = rw t refl

-- A `{` begins no statement: it is read, an error is recorded, and the loop goes on.
body_stmts-brace :
    (n : ℕ) (parts : Parts Lexer) (p q : Parser Lexer)
    → parser_step p ≡ parsed tt q
    → q.skip_next ≡ false
    → q.lexer.token.type ≡ token_opening_figure_brace
    → body_stmts n parts (record q { skip_next = false; failed = true }) ≡ spent
    → body_stmts (suc n) parts p ≡ spent
unfolding body_stmts parse_stmt parser_next parser_skip_next
body_stmts-brace n parts p q e s t h =
    let refused = stmt_token-brace n parts q.lexer.token.type t in
    let goes_on = in_body-brace (body_stmts n parts) (parse_stmt n parts) q.lexer.token.type t in
    rw (e, goes_on, parser_step, refused, h) refl

body_stmts-spent :
    (n c : ℕ) (rest : Bytes) (parts : Parts Lexer) (p : Parser Lexer)
    → is_escape c ≡ false
    → IsHeldUp c rest p
    → body_stmts n parts p ≡ spent
unfolding body_stmts
body_stmts-spent zero c rest parts p h i = refl
body_stmts-spent (suc n) c rest parts p h i =
    let (q, e, j) = parser_step-IsHeldUp c rest p h i in
    body_stmts-brace n parts p q e j.taken j.opens (
      body_stmts-spent n c rest parts (record q { skip_next = false; failed = true }) h
        (record { taken = refl; opens = j.opens; remains = j.remains }))

-- A body never ends whose first token is a string literal that begins with an unknown escape: behind
-- its `{`, which a function's type leaves in hand, `parse_body` returns with no amount of fuel.
pub parse_body-spent :
    (n c : ℕ) (rest : Bytes) (p : Parser Lexer)
    → p.skip_next ≡ true
    → p.lexer.token.type ≡ token_opening_figure_brace
    → p.lexer.remain ≡ b'"' ∷ b'\\' ∷ c ∷ rest
    → is_escape c ≡ false
    → parse_body n p ≡ spent
unfolding parse_body parts_at parse_body_maybe_ola parser_step
parse_body-spent zero c rest p s t r h = refl
parse_body-spent (suc n) c rest p s t r h =
    let q = record p { skip_next = false } in
    let opened : type_is p.lexer.token.type token_opening_figure_brace ≡ true = rw t refl in
    let held_up : IsHeldUp c rest q = record { taken = refl; opens = t; remains = r } in
    rw (s, opened, body_stmts-spent n c rest (parts_at n) q h held_up) refl
