-- ===== src/Parser/Grammar/Loops.antt =====
-- The loops of `_parse_expr` at an operator and at a token to stop at.
use hoblang_old.Base.{ℕ, suc, Bool, true, false, List, ◌∷◌, ◌≡◌, refl, ◌∙◌, Option, some}
use hoblang_old.Lexer.Token.{Token, TokenType, type_is, token_dot, token_closing_circle_brace}
use hoblang_old.Parser.Ahead.{IsAt, Ahead, Reads, parser_next-IsBehind, skip_next-IsAt}
use hoblang_old.Parser.Binop.{AstBinopType}
use hoblang_old.Parser.Cursor.{TokenSource, Parser, Parsing, pure, ◌>>◌, parser_skip_next}
use hoblang_old.Parser.Expr.{Step, going}
use hoblang_old.Parser.Expr.Loop.{expr_token, post_token, post_loop, expr_loop, parse_binop}
use hoblang_old.Parser.Grammar.{
  IsOperator, op_bitand, op_sub, op_mod, op_add, op_and, op_xor, op_bitor, op_shr, op_shl, op_mul,
  op_div, op_eq, op_neq, op_lt, op_le, op_gt, op_ge, op_or,
}
use hoblang_old.Parser.Parts.{Parts, ParseStopFunc}
use hoblang_old.Parser.Syntax.{AstExpr}

module _ {L : Type 0} ⦃S : TokenSource L⦄ where
  -- An operator ends the inner loop, goes to `PARSE_BINOP`, and is no `)`.
  pub operator-Operates :
      {type : TokenType} {op : AstBinopType} (n : ℕ) (parts : Parts L)
      (again : Option AstExpr → Bool → Parsing L Step) (stop : ParseStopFunc) (e : Option AstExpr)
      (token : Token)
      → IsOperator type op
      → (post_token n parts again true e type ≡ (do parser_skip_next; pure (going e false)))
        × (expr_token n parts stop false e token type ≡ parse_binop parts stop false e op)
        × (type_is type token_dot ≡ false)
        × (type_is type token_closing_circle_brace ≡ false)
  unfolding post_token expr_token
  operator-Operates n parts again stop e token op_bitand = (refl, refl, refl, refl)
  operator-Operates n parts again stop e token op_sub = (refl, refl, refl, refl)
  operator-Operates n parts again stop e token op_mod = (refl, refl, refl, refl)
  operator-Operates n parts again stop e token op_add = (refl, refl, refl, refl)
  operator-Operates n parts again stop e token op_and = (refl, refl, refl, refl)
  operator-Operates n parts again stop e token op_xor = (refl, refl, refl, refl)
  operator-Operates n parts again stop e token op_bitor = (refl, refl, refl, refl)
  operator-Operates n parts again stop e token op_shr = (refl, refl, refl, refl)
  operator-Operates n parts again stop e token op_shl = (refl, refl, refl, refl)
  operator-Operates n parts again stop e token op_mul = (refl, refl, refl, refl)
  operator-Operates n parts again stop e token op_div = (refl, refl, refl, refl)
  operator-Operates n parts again stop e token op_eq = (refl, refl, refl, refl)
  operator-Operates n parts again stop e token op_neq = (refl, refl, refl, refl)
  operator-Operates n parts again stop e token op_lt = (refl, refl, refl, refl)
  operator-Operates n parts again stop e token op_le = (refl, refl, refl, refl)
  operator-Operates n parts again stop e token op_gt = (refl, refl, refl, refl)
  operator-Operates n parts again stop e token op_ge = (refl, refl, refl, refl)
  operator-Operates n parts again stop e token op_or = (refl, refl, refl, refl)

  -- A token to stop at ends the loop, and stays.
  pub expr_loop-stop :
      (n : ℕ) (parts : Parts L) (stop : ParseStopFunc) (first : Bool) (e : AstExpr) (u : Token)
      (ts : List Token) (p : Parser L)
      → stop u.type ≡ true
      → Ahead (u ∷ ts) p
      → Reads (expr_loop (suc n) parts stop true first (some e) p) e p (IsAt u ts)
  unfolding expr_loop
  expr_loop-stop n parts stop first e u ts p h a =
      let (q, i, f, b) = parser_next-IsBehind u ts p a in
      let (r, j, g, c) = skip_next-IsAt u ts q b in (r, rw (i, h, j) refl, g ∙ f, c)

  pub post_loop-stop :
      (n : ℕ) (parts : Parts L) (stop : ParseStopFunc) (first : Bool) (e : Option AstExpr)
      (u : Token) (ts : List Token) (p : Parser L)
      → stop u.type ≡ true
      → Ahead (u ∷ ts) p
      → Reads (post_loop (suc n) parts stop true e first p) (going e first) p (IsAt u ts)
  unfolding post_loop
  post_loop-stop n parts stop first e u ts p h a =
      let (q, i, f, b) = parser_next-IsBehind u ts p a in
      let (r, j, g, c) = skip_next-IsAt u ts q b in (r, rw (i, h, j) refl, g ∙ f, c)

  -- So does an operator for the inner loop.
  pub post_loop-operator :
      (n : ℕ) (parts : Parts L) (stop : ParseStopFunc) (first : Bool) (e : Option AstExpr)
      (u : Token) (op : AstBinopType) (ts : List Token) (p : Parser L)
      → IsOperator u.type op
      → stop u.type ≡ false
      → Ahead (u ∷ ts) p
      → Reads (post_loop (suc n) parts stop true e first p) (going e false) p (IsAt u ts)
  unfolding post_loop
  post_loop-operator n parts stop first e u op ts p o h a =
      let (q, i, f, b) = parser_next-IsBehind u ts p a in
      let (r, j, g, c) = skip_next-IsAt u ts q b in
      (
        r,
        rw (i, h, (operator-Operates n parts (λ e. post_loop n parts stop true e) stop e u o).0, j)
            refl,
        g ∙ f,
        c,
      )
