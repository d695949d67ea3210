-- ===== src/Parser/Grammar/Terms.antt =====
-- `_parse_expr` on one operand of the grammar, and on an operator.
use hoblang_old.Base.{ℕ, suc, Bool, true, false, List, ◌∷◌, ◌≡◌, refl, ◌∙◌, Option, some, none}
use hoblang_old.Lexer.Token.{
  Token, type_is, token_ident, token_dot, token_opening_circle_brace, token_closing_circle_brace,
}
use hoblang_old.Parser.Ahead.{
  IsBehind, IsAt, Ahead, unread, Reads, parser_next-IsBehind, skip_next-IsAt, behind-Ahead,
  next_is_not-IsAt, expect_next-IsBehind,
}
use hoblang_old.Parser.Binop.{AstBinopType}
use hoblang_old.Parser.Cursor.{TokenSource, Parser, parsed, ident_of}
use hoblang_old.Parser.Expr.{going, returned, set_scoped}
use hoblang_old.Parser.Expr.Loop.{expr_token, parse_brace, parse_binop}
use hoblang_old.Parser.Grammar.{
  IsLiteral, is_true, is_false, is_char, is_str, is_integer, is_float, is_null,
}
use hoblang_old.Parser.Grammar.Whole.{IsWhole, IsWhole-push_down_crashes}
use hoblang_old.Parser.Parts.{Parts, ParseStopFunc, token_stop_closing_circle_brace}
use hoblang_old.Parser.PushDown.{expr_make_binop}
use hoblang_old.Parser.Syntax.{
  AstExpr, operand, AstNode, get_local, segment_then, seg_ident, no_segments,
}
use hoblang_old.Parser.Types.{parse_path, path_segment}

module _ {L : Type 0} ⦃S : TokenSource L⦄ where
  pub literal-going :
      (n : ℕ) (parts : Parts L) (stop : ParseStopFunc) (first : Bool) (e : Option AstExpr)
      (t : Token) (a : AstNode) (p : Parser L)
      → IsLiteral t a
      → expr_token n parts stop first e t t.type p ≡ parsed (going (some (operand a)) first) p
  unfolding expr_token
  literal-going n parts stop first e t _ p (is_true h) = rw h
  literal-going n parts stop first e t _ p (is_false h) = rw h
  literal-going n parts stop first e t _ p (is_char h) = rw h
  literal-going n parts stop first e t _ p (is_str h) = rw h
  literal-going n parts stop first e t _ p (is_integer h) = rw h
  literal-going n parts stop first e t _ p (is_float h) = rw h
  literal-going n parts stop first e t _ p (is_null h) = rw h

  -- A name that no dot follows.
  parse_path-name :
      (n : ℕ) (parts : Parts L) (t v : Token) (ts : List Token) (p : Parser L)
      → t.type ≡ token_ident
      → type_is v.type token_dot ≡ false
      → Ahead (t ∷ v ∷ ts) p
      → Reads
          (parse_path (suc n) parts p)
          (segment_then (seg_ident (ident_of t)) no_segments)
          p
          (IsAt v ts)
  unfolding parse_path
  parse_path-name n parts t v ts p h d a =
      let (q, i, f, b) = parser_next-IsBehind t (v ∷ ts) p a in
      let (r, j, g, c) = next_is_not-IsAt token_dot v ts q d (behind-Ahead t (v ∷ ts) q b) in
      (r, rw (i, h, path_segment, j) refl, g ∙ f, c)

  pub name-going :
      (n : ℕ) (parts : Parts L) (stop : ParseStopFunc) (first : Bool) (e : Option AstExpr)
      (t v : Token) (ts : List Token) (p : Parser L)
      → t.type ≡ token_ident
      → type_is v.type token_dot ≡ false
      → IsBehind t (v ∷ ts) p
      → Reads
          (expr_token (suc n) parts stop first e t t.type p)
          (going
            (some (operand (get_local (segment_then (seg_ident (ident_of t)) no_segments))))
            first)
          p
          (IsAt v ts)
  unfolding expr_token
  name-going n parts stop first e t v ts p h d b =
      let (q, i, f, c) = skip_next-IsAt t (v ∷ ts) p b in
      let (r, j, g, a) = parse_path-name n parts t v ts q h d (unread c) in
      (r, rw (h, i, j) refl, g ∙ f, a)

  -- An expression in parentheses, where what stands in them is read.
  pub parens-going :
      (n : ℕ) (parts : Parts L) (stop : ParseStopFunc) (first : Bool) (t close : Token)
      (inner : AstExpr) (ts : List Token) (p : Parser L)
      → t.type ≡ token_opening_circle_brace
      → close.type ≡ token_closing_circle_brace
      → Reads (parts.expr token_stop_closing_circle_brace true p) inner p (IsAt close ts)
      → Reads
          (expr_token n parts stop first none t t.type p)
          (going (some (set_scoped inner)) first)
          p
          (IsBehind close ts)
  unfolding expr_token parse_brace
  parens-going n parts stop first t close inner ts p h c (q, i, f, a) =
      let (r, j, g, b) =
        expect_next-IsBehind token_closing_circle_brace close ts q (rw c refl) (unread a) in
      (r, rw (h, i, j) refl, g ∙ f, b)

  -- An operator behind a tree, where its right side is read up to a token to stop at.
  pub parse_binop-returned :
      (parts : Parts L) (stop : ParseStopFunc) (e right : AstExpr) (op : AstBinopType) (u : Token)
      (ts : List Token) (p : Parser L)
      → stop u.type ≡ true
      → IsWhole right
      → Reads (parts.expr stop true p) right p (IsAt u ts)
      → Reads
          (parse_binop parts stop false (some e) op p)
          (returned (some (expr_make_binop op e right)))
          p
          (IsAt u ts)
  unfolding parse_binop
  parse_binop-returned parts stop e right op u ts p h w (q, i, f, a) =
      (q, rw (i, IsWhole-push_down_crashes right op w, a.held, h) refl, f, a)
