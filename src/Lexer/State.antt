-- ===== src/Lexer/State.antt =====
-- The state of the lexer and the operations that move it: include/lexer/impl.h, src/lexer/api.c and
-- the first half of src/lexer/private.c. `remain.str` points into the content: `before` is what lies
-- before it, last byte first, and `remain` what lies behind.
use hoblang_old.Base.{
  ℕ, zero, suc, ◌+◌, ◌-◌, ◌%◌, ◌^◌, Bool, true, false, [], ◌∷◌, ◌≡◌, refl, ap, ◌⊎◌, inl, inr, ◌==◌,
  if◌then◌else◌, Bytes,
}
use hoblang_old.Core.Chars.{eof}
use hoblang_old.Lexer.Token.{TokenType, FileLocation, file_loc_new, TokenValue, Token}

pub record Lexer : Type 0 where
  pub before : Bytes
  pub remain : Bytes
  pub location : FileLocation
  pub start_location : FileLocation
  pub line_offset : ℕ
  pub delta : ℕ
  pub token : Token
  pub failed : Bool

-- The fresh token is uninitialised memory in the source; its first value is a parameter.
abbrev pub lexer_new : Token → Bytes → Lexer
lexer_new garbage content = record {
  before = [];
  remain = content;
  location = file_loc_new;
  start_location = file_loc_new;
  line_offset = 0;
  delta = 0;
  token = garbage;
  failed = false;
}

abbrev pub lexer_finished : Lexer → Bool
lexer_finished l = elim l.remain [ [] ↦ true | _ ∷ _ ↦ false ]

abbrev pub lexer_fail : Lexer → Lexer
lexer_fail l = record l { failed = true }

abbrev pub lexer_begin : Lexer → Lexer
lexer_begin l = record l { delta = 0; start_location = l.location }

-- `n` bytes go back from `before` to `remain`.
abbrev pub unread : ℕ → Bytes → Bytes → Bytes × Bytes
unread zero before remain = (before, remain)
unread (suc n) [] remain = ([], remain)
unread (suc n) (c ∷ before) remain = unread n before (c ∷ remain)

-- `line_offset` is a `size_t`, and wraps where the bytes given back hold a newline.
unfoldable pub lexer_rollback : Lexer → Lexer
lexer_rollback l = record l {
  before = (unread l.delta l.before l.remain).0;
  remain = (unread l.delta l.before l.remain).1;
  line_offset = (l.line_offset + 2 ^ 64 - l.delta) % 2 ^ 64;
  delta = 0;
  location = l.start_location;
}

-- What one byte does to the location.
abbrev pub location_after : ℕ → FileLocation → FileLocation
location_after c at =
    if c == b'\n'
    then record { line = at.line + 1; column = 0 }
    else record { line = at.line; column = at.column + 1 }

-- The lexer behind the byte `c`, with `rest` left to read.
abbrev pub behind : ℕ → Bytes → Lexer → Lexer
behind c rest l = record l {
  before = c ∷ l.before;
  remain = rest;
  location = location_after c l.location;
  line_offset = if c == b'\n' then 0 else (l.line_offset + 1) % 2 ^ 64;
  delta = suc l.delta;
}

abbrev next_char_in : Bytes → Lexer → ℕ × Lexer
next_char_in [] l = (eof, l)
next_char_in (c ∷ rest) l = (c, behind c rest l)

unfoldable pub lexer_next_char : Lexer → ℕ × Lexer
lexer_next_char l = next_char_in l.remain l

abbrev pub first_or_eof : Bytes → ℕ
first_or_eof [] = eof
first_or_eof (c ∷ _) = c

unfoldable pub lexer_future_char : Lexer → ℕ
lexer_future_char l = first_or_eof l.remain

abbrev pub set_token : TokenType → TokenValue → Lexer → Lexer
set_token t v l = record l { token = record { type = t; location = l.token.location; value = v } }

abbrev pub set_token_type : TokenType → Lexer → Lexer
set_token_type t l = set_token t l.token.value l

-- At the end nothing moves; elsewhere the lexer passes the first byte.
pub next_char-cases :
    (l : Lexer)
    → ((l.remain ≡ []) × (lexer_next_char l ≡ (eof, l)))
      ⊎ ((c : ℕ) × (rest : Bytes) × (l.remain ≡ c ∷ rest)
          × (lexer_next_char l ≡ (c, behind c rest l)))
unfolding lexer_next_char
next_char-cases l = split l.remain refl
  where
    split :
        (r : Bytes)
        → l.remain ≡ r
        → ((l.remain ≡ []) × (next_char_in l.remain l ≡ (eof, l)))
          ⊎ ((c : ℕ) × (rest : Bytes) × (l.remain ≡ c ∷ rest)
              × (next_char_in l.remain l ≡ (c, behind c rest l)))
    split [] e = inl (e, ap (λ r. next_char_in r l) e)
    split (c ∷ rest) e = inr (c, rest, e, ap (λ r. next_char_in r l) e)
