-- ===== src/Parser/Ahead.antt =====
-- The parser's place as a list of the tokens to come.
pub mod Queue
use hoblang_old.Base.{true, false, List, [], ◌∷◌, ◌≡◌, refl, ◌∙◌, some, if◌then◌else◌}
use hoblang_old.Lexer.Token.{Token, TokenType, type_is}
use hoblang_old.Parser.Cursor.{
  TokenSource, Parser, Outcome, Parsing, parsed, pure, ◌>>=◌, ◌>>◌, parser_step, parser_next,
  parser_skip_next, parser_next_is, parser_next_is_not, parser_expect_next, expect_next,
  current_token, refuse, continue_with,
}

module _ {L : Type 0} ⦃S : TokenSource L⦄ where
  -- The source gives these tokens, one with each step.
  abbrev pub Gives : List Token → L → Type 0
  Gives [] l = Unit {0}
  Gives (t ∷ ts) l = (m : L) × (S.next l ≡ some m) × (S.token m ≡ t) × Gives ts m

  -- The parser has just read the token, and these come next.
  pub record IsBehind (t : Token) (ts : List Token) (p : Parser L) : Type 0 where
    pub taken : p.skip_next ≡ false
    pub held : S.token p.lexer ≡ t
    pub coming : Gives ts p.lexer

  -- The parser will read the token, which it has in hand, and then these.
  pub record IsAt (t : Token) (ts : List Token) (p : Parser L) : Type 0 where
    pub given_back : p.skip_next ≡ true
    pub held : S.token p.lexer ≡ t
    pub coming : Gives ts p.lexer

  -- The parser will read these tokens.
  pub data Ahead : List Token → Parser L → Type 0 where
    fresh : {ts : List Token} {p : Parser L} → p.skip_next ≡ false → Gives ts p.lexer → Ahead ts p
    unread : {t : Token} {ts : List Token} {p : Parser L} → IsAt t ts p → Ahead (t ∷ ts) p

  -- A run of `x` from `p` that ends with the result in a state as `P` says, the error flag untouched.
  abbrev pub Reads : {A : Type 0} → Outcome L A → A → Parser L → (Parser L → Type 0) → Type 0
  Reads o a p P = (q : Parser L) × (o ≡ parsed a q) × (q.failed ≡ p.failed) × P q

  pub parser_next-IsBehind :
      (t : Token) (ts : List Token) (p : Parser L)
      → Ahead (t ∷ ts) p
      → Reads (parser_next p) t p (IsBehind t ts)
  unfolding parser_next parser_step
  parser_next-IsBehind t ts p (fresh e (m, n, h, g)) =
      (record p { lexer = m }, rw (e, n, h) refl, refl, record { taken = e; held = h; coming = g })
  parser_next-IsBehind t ts p (unread a) = (
    record p { skip_next = false },
    rw (a.given_back, a.held) refl,
    refl,
    record { taken = refl; held = a.held; coming = a.coming },
  )

  pub back-IsAt :
      {t : Token} {ts : List Token} {p : Parser L}
      → IsBehind t ts p
      → IsAt t ts (record p { skip_next = true })
  back-IsAt b = record { given_back = refl; held = b.held; coming = b.coming }

  pub skip_next-IsAt :
      (t : Token) (ts : List Token) (p : Parser L)
      → IsBehind t ts p
      → Reads (parser_skip_next p) tt p (IsAt t ts)
  unfolding parser_skip_next
  skip_next-IsAt t ts p b = (record p { skip_next = true }, refl, refl, back-IsAt b)

  pub behind-Ahead : (t : Token) (ts : List Token) (p : Parser L) → IsBehind t ts p → Ahead ts p
  behind-Ahead t ts p b = fresh b.taken b.coming

  pub next_is-IsBehind :
      (type : TokenType) (t : Token) (ts : List Token) (p : Parser L)
      → type_is t.type type ≡ true
      → Ahead (t ∷ ts) p
      → Reads (parser_next_is type p) true p (IsBehind t ts)
  unfolding parser_next_is
  next_is-IsBehind type t ts p e a =
      let (q, i, f, b) = parser_next-IsBehind t ts p a in (q, rw (i, e) refl, f, b)

  pub next_is-IsAt :
      (type : TokenType) (t : Token) (ts : List Token) (p : Parser L)
      → type_is t.type type ≡ false
      → Ahead (t ∷ ts) p
      → Reads (parser_next_is type p) false p (IsAt t ts)
  unfolding parser_next_is parser_skip_next
  next_is-IsAt type t ts p e a =
      let (q, i, f, b) = parser_next-IsBehind t ts p a in
      (record q { skip_next = true }, rw (i, e) refl, f, back-IsAt b)

  pub next_is_not-IsAt :
      (type : TokenType) (t : Token) (ts : List Token) (p : Parser L)
      → type_is t.type type ≡ false
      → Ahead (t ∷ ts) p
      → Reads (parser_next_is_not type p) true p (IsAt t ts)
  unfolding parser_next_is_not parser_skip_next
  next_is_not-IsAt type t ts p e a =
      let (q, i, f, b) = parser_next-IsBehind t ts p a in
      (record q { skip_next = true }, rw (i, e) refl, f, back-IsAt b)

  pub expect_next-IsBehind :
      (type : TokenType) (t : Token) (ts : List Token) (p : Parser L)
      → type_is t.type type ≡ true
      → Ahead (t ∷ ts) p
      → Reads (expect_next type p) t p (IsBehind t ts)
  unfolding expect_next parser_expect_next
  expect_next-IsBehind type t ts p e a =
      let (q, i, f, b) = next_is-IsBehind type t ts p e a in (q, rw (i, b.held) refl, f, b)
