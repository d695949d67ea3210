-- ===== src/Parser/Cursor.antt =====
-- The parser's place in the tokens and the steps that move it: src/parser/private.c, src/parser/api.c
-- and the macros of include/parser/impl.h. `parser->token` is always the lexer's only token, so that it
-- is read from the source here; what the errors print is left out.
use hoblang_old.Base.{
  ℕ, zero, suc, Bool, true, false, ◌&&◌, not, Option, none, some, if◌then◌else◌, Bytes, [],
}
use hoblang_old.Lexer.Token.{Token, TokenType, ident, token_eoi, type_is}

-- What the parser calls of the lexer: the token it has, and the step to the next one.
pub record TokenSource (L : Type 0) : Type 0 where
  pub next : L → Option L
  pub token : L → Token

pub record Parser (L : Type 0) : Type 0 where
  pub lexer : L
  pub skip_next : Bool
  pub failed : Bool

-- How a function of the parser ends: with a result, with NULL or `false`, by using a null pointer, or
-- not within the fuel.
pub data Outcome (L A : Type 0) : Type 0 where
  parsed : A → Parser L → Outcome L A
  null : Parser L → Outcome L A
  crashed spent : Outcome L A

abbrev pub Parsing : Type 0 → Type 0 → Type 0
Parsing L A = Parser L → Outcome L A

module _ {L A : Type 0} where
  abbrev pub pure : A → Parsing L A
  pure a p = parsed a p

  abbrev pub return_null : Parsing L A
  return_null p = null p

  abbrev pub crash : Parsing L A
  crash p = crashed

  abbrev pub out_of_fuel : Parsing L A
  out_of_fuel p = spent

  -- `PARSE_ERROR` and the return of NULL.
  abbrev pub refuse : Parsing L A
  refuse p = null (record p { failed = true })

  abbrev pub continue_with : {B : Type 0} → (A → Parsing L B) → Outcome L A → Outcome L B
  continue_with f (parsed a p) = f a p
  continue_with f (null p) = null p
  continue_with f crashed = crashed
  continue_with f spent = spent

  -- `if (!x) return NULL;` behind a call.
  infixl 1 ◌>>=◌ ◌>>◌
  abbrev pub ◌>>=◌ : {B : Type 0} → Parsing L A → (A → Parsing L B) → Parsing L B
  (x >>= f) p = continue_with f (x p)

  abbrev pub ◌>>◌ : {B : Type 0} → Parsing L A → Parsing L B → Parsing L B
  x >> y = x >>= λ _. y

  -- A call whose NULL the code goes on with.
  abbrev kept : Outcome L A → Outcome L (Option A)
  kept (parsed a p) = parsed (some a) p
  kept (null p) = parsed none p
  kept crashed = crashed
  kept spent = spent

  abbrev pub attempt : Parsing L A → Parsing L (Option A)
  attempt x p = kept (x p)

-- `parser_new`; the lexer comes from `lexer_new` or a test.
unfoldable pub parser_new : {L : Type 0} → L → Parser L
parser_new l = record { lexer = l; skip_next = false; failed = false }

-- `token->ident`, behind a test of the type: another member of the union has no meaning there.
abbrev pub ident_of : Token → Bytes
ident_of t = elim t.value [ ident b ↦ b | _ ↦ [] ]

module _ {L : Type 0} where
  -- `PARSE_ERROR` without a return.
  abbrev pub report : Parsing L (Unit {0})
  report p = parsed tt (record p { failed = true })

  unfoldable pub parser_skip_next : Parsing L (Unit {0})
  parser_skip_next p = parsed tt (record p { skip_next = true })

module _ {L : Type 0} ⦃S : TokenSource L⦄ where
  abbrev pub parser_token : Parser L → Token
  parser_token p = S.token p.lexer

  -- The token that the lexer holds now.
  abbrev pub current_token : Parsing L Token
  current_token p = parsed (parser_token p) p

  abbrev stepped : Parser L → Option L → Outcome L (Unit {0})
  stepped p none = spent
  stepped p (some l) = parsed tt (record p { lexer = l })

  unfoldable pub parser_step : Parsing L (Unit {0})
  parser_step p =
      if p.skip_next then parsed tt (record p { skip_next = false }) else stepped p (S.next p.lexer)

  unfoldable pub parser_next : Parsing L Token
  unfolding parser_step
  parser_next = do parser_step; current_token

  unfoldable pub parser_next_is : TokenType → Parsing L Bool
  unfolding parser_next parser_skip_next
  parser_next_is type = do
    token ← parser_next
    if type_is token.type type then pure true else (do parser_skip_next; pure false)

  unfoldable pub parser_next_is_not : TokenType → Parsing L Bool
  unfolding parser_next parser_skip_next
  parser_next_is_not type = do
    token ← parser_next
    if type_is token.type type then pure false else (do parser_skip_next; pure true)

  unfoldable pub parser_next_is_or : TokenType → Parsing L (Option Token)
  unfolding parser_next parser_skip_next
  parser_next_is_or type = do
    token ← parser_next
    if type_is token.type type then pure (some token) else (do parser_skip_next; pure none)

  unfoldable pub parser_next_is_not_or : TokenType → Parsing L (Option Token)
  unfolding parser_next parser_skip_next
  parser_next_is_not_or type = do
    token ← parser_next
    if type_is token.type type then pure none else (do parser_skip_next; pure (some token))

  unfoldable pub parser_expect_next : TokenType → Parsing L (Option Token)
  unfolding parser_next_is
  parser_expect_next type = do
    is ← parser_next_is type
    token ← current_token
    if is then pure (some token) else pure none

  -- `PARSER_EXPECT_NEXT`.
  unfoldable pub expect_next : TokenType → Parsing L Token
  unfolding parser_expect_next
  expect_next type = do
    found ← parser_expect_next type
    elim found [ none ↦ refuse | some token ↦ pure token ]

  -- The loop of `parse_skip_to`, so many times at most: it steps while the token is one to stop at.
  unfoldable pub parse_skip_to : ℕ → (TokenType → Bool) → Parsing L (Unit {0})
  unfolding parser_step
  parse_skip_to zero stop p = spent
  parse_skip_to (suc fuel) stop p =
      let rest = parser_step >>= (λ _. parse_skip_to fuel stop) in
      let type = (parser_token p).type in
      if stop type && not (type_is type token_eoi) then rest p else parsed tt p
