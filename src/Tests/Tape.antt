-- ===== src/Tests/Tape.antt =====
-- Lists of tokens as a source, and tokens to put in them.
use hoblang_old.Base.{ℕ, List, [], ◌∷◌, refl, some, Bytes}
use hoblang_old.Lexer.Token.{Token, TokenType, TokenValue, file_loc_new, token_integer, token_ident}
use hoblang_old.Parser.Ahead.{Gives}
use hoblang_old.Parser.Cursor.{TokenSource}

pub record Tape : Type 0 where
  pub current : Token
  pub rest : List Token

-- At its end the tape stays on the last token.
abbrev pub advance : Token → List Token → Tape
advance t [] = record { current = t; rest = [] }
advance t (x ∷ xs) = record { current = x; rest = xs }

instance abbrev pub tape_source : TokenSource Tape
tape_source = record { next = λ t. some (advance t.current t.rest); token = λ t. t.current }

abbrev pub tape : Token → List Token → Tape
tape t ts = record { current = t; rest = ts }

pub tape-Gives : (ts : List Token) (t : Token) → Gives ts (tape t ts)
tape-Gives [] t = tt
tape-Gives (x ∷ xs) t = (tape x xs, refl, refl, tape-Gives xs x)

abbrev pub sign : TokenType → Token
sign type = record { type = type; location = file_loc_new; value = TokenValue.unset }

abbrev pub number : ℕ → Token
number n = record { type = token_integer; location = file_loc_new; value = TokenValue.integer n }

abbrev pub word : Bytes → Token
word b = record { type = token_ident; location = file_loc_new; value = TokenValue.ident b }
