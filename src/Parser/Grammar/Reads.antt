-- ===== src/Parser/Grammar/Reads.antt =====
-- `_parse_expr` on the expressions of the grammar.
use hoblang_old.Base.{
  ℕ, zero, suc, ◌+◌, ◌≤◌, true, false, List, ◌∷◌, ◌≡◌, refl, ◌∙◌, ap, some, none, arith,
}
use hoblang_old.Lexer.Token.{Token, type_is, token_dot, token_closing_circle_brace}
use hoblang_old.Parser.Ahead.{
  IsBehind, IsAt, Ahead, unread, Reads, parser_next-IsBehind, behind-Ahead,
}
use hoblang_old.Parser.Binop.{AstBinopType}
use hoblang_old.Parser.Cursor.{TokenSource, Parser, parsed, pure}
use hoblang_old.Parser.Expr.{going}
use hoblang_old.Parser.Expr.Loop.{expr_token, expr_loop, parse_expr_post}
use hoblang_old.Parser.Grammar.{
  IsLiteral, is_true, is_false, is_char, is_str, is_integer, is_float, is_null, IsOperator, Term,
  literal, name, parens, Chain, chain, More, done, more, IsTerm, IsChain, IsMore, term_head,
  term_rest, chain_tokens, more_tokens, term_size, chain_size, more_size, Unstopped, UnstoppedChain,
  term_tree, chain_tree, more_operators,
}
use hoblang_old.Parser.Grammar.Loops.{
  operator-Operates, expr_loop-stop, post_loop-stop, post_loop-operator,
}
use hoblang_old.Parser.Grammar.Terms.{literal-going, name-going, parens-going, parse_binop-returned}
use hoblang_old.Parser.Grammar.Whole.{chain-IsWhole, parse_operators-chain_tree}
use hoblang_old.Parser.Module.{parts_at, parse_expr}
use hoblang_old.Parser.Parts.{
  Parts, ParseStopFunc, token_stop_closing_circle_brace, token_stop_semicolon,
}
use hoblang_old.Parser.PushDown.{parse_operators}
use hoblang_old.Parser.Syntax.{AstNode}

literal-not_closing :
    (t : Token) (a : AstNode) → IsLiteral t a → type_is t.type token_closing_circle_brace ≡ false
literal-not_closing t _ (is_true h) = rw h
literal-not_closing t _ (is_false h) = rw h
literal-not_closing t _ (is_char h) = rw h
literal-not_closing t _ (is_str h) = rw h
literal-not_closing t _ (is_integer h) = rw h
literal-not_closing t _ (is_float h) = rw h
literal-not_closing t _ (is_null h) = rw h

head-not_closing :
    (t : Term) → IsTerm t → type_is (term_head t).type token_closing_circle_brace ≡ false
head-not_closing (literal t a) h = literal-not_closing t a h
head-not_closing (name t) h = rw h
head-not_closing (parens o c e) (h, _, _) = rw h

term_size-positive : (t : Term) → 1 ≤ term_size t
term_size-positive (literal t a) = omega arith
term_size-positive (name t) = omega arith
term_size-positive (parens o c e) = omega arith

module _ (L : Type 0) ⦃S : TokenSource L⦄ where
  -- What stands in parentheses does not end before its `)`.
  more-Unstopped : (m : More) → IsMore m → Unstopped token_stop_closing_circle_brace m
  more-Unstopped done h = tt
  more-Unstopped (more o op t m) (x, y, z) = (
    (operator-Operates 0 (parts_at {L = L} 0) (λ e f. pure (going e f)) token_stop_semicolon none o
        x).3,
    head-not_closing t y,
    more-Unstopped m z,
  )

  -- The operand is read where it stands first, with so much fuel, and a token that is no dot behind it.
  abbrev TermReads : Term → Type 0
  TermReads t =
      (k : ℕ) (stop : ParseStopFunc) (v : Token) (ts : List Token) (p : Parser L)
      → term_size t ≤ suc (suc k)
      → type_is v.type token_dot ≡ false
      → IsBehind (term_head t) (term_rest t (v ∷ ts)) p
      → Reads
          (expr_token (suc k) (parts_at (suc (suc k))) stop true none (term_head t)
            (term_head t).type p)
          (going (some (term_tree t)) true) p (Ahead (v ∷ ts))

  -- The operand and what follows it are read up to the token to stop at.
  abbrev ChainReads : Term → More → Type 0
  ChainReads t m =
      (n : ℕ) (stop : ParseStopFunc) (u : Token) (ts : List Token) (p : Parser L)
      → term_size t + more_size m + 2 ≤ n
      → stop (term_head t).type ≡ false
      → Unstopped stop m
      → stop u.type ≡ true
      → type_is u.type token_dot ≡ false
      → Ahead (term_head t ∷ term_rest t (more_tokens m (u ∷ ts))) p
      → Reads ((parts_at n).expr stop true p) (parse_operators (term_tree t) (more_operators m)) p
          (IsAt u ts)

  done-ChainReads : (t : Term) → TermReads t → ChainReads t done
  unfolding parts_at parse_expr_post expr_loop parse_operators
  done-ChainReads t r zero stop u ts p z h hs x d a = absurd (omega arith)
  done-ChainReads t r (suc zero) stop u ts p z h hs x d a = absurd (omega arith)
  done-ChainReads t r (suc (suc zero)) stop u ts p z h hs x d a =
      absurd (omega (arith, term_size-positive t))
  done-ChainReads t r (suc (suc (suc k))) stop u ts p z h hs x d a =
      let parts : Parts L = parts_at (suc (suc k)) in
      let (q, i, f, b) = parser_next-IsBehind (term_head t) (term_rest t (u ∷ ts)) p a in
      let (q2, i2, f2, a2) = r k stop u ts q (omega arith) d b in
      let (q3, i3, f3, a3) = post_loop-stop k parts stop true (some (term_tree t)) u ts q2 x a2 in
      let (q4, i4, f4, a4) = expr_loop-stop k parts stop true (term_tree t) u ts q3 x (unread a3) in
      (q4, rw (i, h, i2, i3, i4) refl, f4 ∙ f3 ∙ f2 ∙ f, a4)

  more-ChainReads :
      (t t2 : Term) (o : Token) (op : AstBinopType) (m : More)
      → IsOperator o.type op
      → IsTerm t2
      → IsMore m
      → TermReads t
      → ChainReads t2 m
      → ChainReads t (more o op t2 m)
  unfolding parts_at parse_expr_post expr_loop parse_operators
  more-ChainReads t t2 o op m y y2 ym r c zero stop u ts p z h hs x d a = absurd (omega arith)
  more-ChainReads t t2 o op m y y2 ym r c (suc zero) stop u ts p z h hs x d a = absurd (omega arith)
  more-ChainReads t t2 o op m y y2 ym r c (suc (suc zero)) stop u ts p z h hs x d a =
      absurd (omega arith)
  more-ChainReads t t2 o op m y y2 ym r c (suc (suc (suc k))) stop u ts p z h (ho, ht, hm) x d a =
      let parts : Parts L = parts_at (suc (suc k)) in
      let rest = term_head t2 ∷ term_rest t2 (more_tokens m (u ∷ ts)) in
      let right = parse_operators (term_tree t2) (more_operators m) in
      let e = some (term_tree t) in
      let (dot, _, operates, _) =
        operator-Operates (suc k) parts (λ e f. pure (going e f)) stop e o y in
      let (q, i, f, b) = parser_next-IsBehind (term_head t) (term_rest t (o ∷ rest)) p a in
      let (q2, i2, f2, a2) = r k stop o rest q (omega arith) operates b in
      let (q3, i3, f3, a3) = post_loop-operator k parts stop true e o op rest q2 y ho a2 in
      let (q4, i4, f4, b4) = parser_next-IsBehind o rest q3 (unread a3) in
      let tail : Reads (parts.expr stop true q4) right q4 (IsAt u ts) =
        c (suc (suc k)) stop u ts q4 (omega arith) ht hm x d (behind-Ahead o rest q4 b4) in
      let (q5, i5, f5, a5) =
        parse_binop-returned parts stop (term_tree t) right op u ts q4 x (chain-IsWhole t2 m y2 ym)
          tail in
      let binop = (operator-Operates k parts (λ e f. pure (going e f)) stop e o y).1 in
      (q5, rw (i, h, i2, i3, i4, ho, binop, i5) refl, f5 ∙ f4 ∙ f3 ∙ f2 ∙ f, a5)

  mutual
    term-TermReads : (t : Term) → IsTerm t → TermReads t
    term-TermReads (literal t a) h k stop v ts p z d b = (
      p,
      literal-going (suc k) (parts_at (suc (suc k))) stop true none t a p h,
      refl,
      behind-Ahead t (v ∷ ts) p b,
    )
    term-TermReads (name t) h k stop v ts p z d b =
        let (q, i, f, a) = name-going k (parts_at (suc (suc k))) stop true none t v ts p h d b in
        (q, i, f, unread a)
    term-TermReads (parens o (chain t m) e) (x, y, (u, w)) k stop v ts p z d b =
        let parts : Parts L = parts_at (suc (suc k)) in
        let inner : Reads (parts.expr token_stop_closing_circle_brace true p)
            (parse_operators (term_tree t) (more_operators m)) p (IsAt e (v ∷ ts)) =
          more-TermReads m w t u (term-TermReads t u) (suc (suc k)) token_stop_closing_circle_brace
            e (v ∷ ts) p (omega arith) (head-not_closing t u) (more-Unstopped m w) (rw y refl)
            (rw y refl) (behind-Ahead o _ p b) in
        let (q, i, f, b2) = parens-going (suc k) parts stop true o e _ (v ∷ ts) p x y inner in
        (q, rw (parse_operators-chain_tree t m) at i, f, behind-Ahead e (v ∷ ts) q b2)

    more-TermReads : (m : More) → IsMore m → (t : Term) → IsTerm t → TermReads t → ChainReads t m
    more-TermReads done h t g r = done-ChainReads t r
    more-TermReads (more o op t2 m) (y, y2, ym) t g r =
        more-ChainReads t t2 o op m y y2 ym r (more-TermReads m ym t2 y2 (term-TermReads t2 y2))

  -- With fuel for two more than its tokens, `parse_expr` reads every expression of literals, names,
  -- binary operators and parentheses, however nested, up to the token to stop at, which it leaves, and
  -- returns the tree that the priorities ask for; no error is recorded. No token outside the
  -- parentheses is one to stop at, and the one behind the expression is not a dot.
  pub parse_expr-chain_tree :
      (c : Chain) (n : ℕ) (stop : ParseStopFunc) (u : Token) (ts : List Token) (p : Parser L)
      → IsChain c
      → UnstoppedChain stop c
      → stop u.type ≡ true
      → type_is u.type token_dot ≡ false
      → chain_size c + 2 ≤ n
      → Ahead (chain_tokens c (u ∷ ts)) p
      → (q : Parser L) × (parse_expr n stop p ≡ parsed (chain_tree c) q)
        × (q.failed ≡ p.failed)
        × IsAt u ts q
  unfolding parse_expr
  parse_expr-chain_tree (chain t m) n stop u ts p (x, y) (h, w) s d z a =
      let (q, i, f, b) = more-TermReads m y t x (term-TermReads t x) n stop u ts p z h w s d a in
      (q, i ∙ ap (λ e. parsed e q) (parse_operators-chain_tree t m), f, b)
