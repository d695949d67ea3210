-- ===== src/Lexer/Text.antt =====
-- String literals: what `lex_str` reads back, and what it refuses.
use mathlib.Core.List.{append_assoc, append-nil}
use hoblang_old.Base.{
  ℕ, ◌≤◌, Bool, true, false, not, ◌&&◌, [], ◌∷◌, ◌++◌, ◌≡◌, refl, sym, ap, ◌∙◌, arith, ◌==◌, Bytes,
  length, if◌then◌else◌,
}
use hoblang_old.Core.Chars.{eof}
use hoblang_old.Lexer.Parts.{
  LexPartErr, lex_part_ok, escaped_char, lexer_next_escaped, read_str, lex_str,
}
use hoblang_old.Lexer.State.{
  Lexer, lexer_next_char, lexer_future_char, behind, set_token, first_or_eof,
}
use hoblang_old.Lexer.Token.{token_str, str}
use hoblang_old.Lexer.Words.{passed, all, and-true, next_char-concat, passed-remain}

-- How a byte is written inside a string literal.
abbrev pub escape_byte : ℕ → Bytes
escape_byte c =
    if c == 0
    then b'\\' ∷ b'0' ∷ []
    else if c == b'\r'
    then b'\\' ∷ b'r' ∷ []
    else if c == b'\n'
    then b'\\' ∷ b'n' ∷ []
    else if c == b'"'
    then b'\\' ∷ b'"' ∷ []
    else c ∷ []

abbrev pub escape : Bytes → Bytes
escape [] = []
escape (c ∷ cs) = escape_byte c ++ escape cs

-- Neither a backslash, for which there is no escape, nor the byte that reads as the end of the file.
abbrev pub is_plain : ℕ → Bool
is_plain c = not (c == b'\\') && not (c == eof)

next_escaped-escape_byte :
    (c : ℕ) (rest : Bytes) (l : Lexer)
    → l.remain ≡ escape_byte c ++ rest
    → is_plain c ≡ true
    → (lexer_next_escaped b'"' l ≡ (true, c, passed (escape_byte c) rest l))
      × ((first_or_eof l.remain == b'"') ≡ false)
      × ((first_or_eof l.remain == eof) ≡ false)
unfolding lexer_next_escaped escaped_char lexer_next_char
next_escaped-escape_byte c rest l e p = (ground arith, ground arith, ground arith)

passed-append :
    (xs bs rest : Bytes) (l : Lexer)
    → passed (xs ++ bs) rest l ≡ passed bs rest (passed xs (bs ++ rest) l)
passed-append [] bs rest l = refl
passed-append (a ∷ xs) bs rest l =
    passed-append xs bs rest (behind a ((xs ++ bs) ++ rest) l)
    ∙ ap (λ r. passed bs rest (passed xs (bs ++ rest) (behind a r l))) (append_assoc xs bs rest)

-- The loop of `lex_str` stops at the closing quote.
read_str-quote :
    (rounds result rest : Bytes) (l : Lexer)
    → l.remain ≡ b'"' ∷ rest
    → read_str rounds result l ≡ (true, result, l)
unfolding read_str lexer_future_char
read_str-quote [] result rest l e = refl
read_str-quote (_ ∷ rounds) result rest l e = ground arith

read_str-escape :
    (s rounds result rest : Bytes) (l : Lexer)
    → length s ≤ length rounds
    → l.remain ≡ escape s ++ b'"' ∷ rest
    → all is_plain s ≡ true
    → read_str rounds result l ≡ (true, result ++ s, passed (escape s) (b'"' ∷ rest) l)
unfolding read_str lexer_future_char
read_str-escape [] rounds result rest l h e a =
    rw append-nil (read_str-quote rounds result rest l e)
read_str-escape (c ∷ s) [] result rest l h e a = absurd (omega arith)
read_str-escape (c ∷ s) (_ ∷ rounds) result rest l h e a =
    let (p, t) = and-true (is_plain c) (all is_plain s) a in
    let tail = escape s ++ b'"' ∷ rest in
    let e' = e ∙ append_assoc (escape_byte c) (escape s) (b'"' ∷ rest) in
    let (n, q, f) = next_escaped-escape_byte c tail l e' p in
    rw (n, q, f, passed-append (escape_byte c) (escape s) (b'"' ∷ rest) l)
      (read_str-escape s rounds (result ++ c ∷ []) rest (passed (escape_byte c) tail l)
          (omega arith) (passed-remain (escape_byte c) tail l e') t
        ∙ rw append_assoc)

length-escape : (s rest : Bytes) → length s ≤ length (escape s ++ rest)
length-escape [] rest = omega arith
length-escape (c ∷ s) rest = ground (arith, length-escape s rest)

abbrev accepted : Bytes → Lexer → LexPartErr × Lexer
accepted s l = (lex_part_ok, set_token token_str (str s) l)

passed_quote :
    (s rest : Bytes) (l : Lexer)
    → passed (b'"' ∷ (escape s ++ b'"' ∷ [])) rest l
      ≡ behind b'"' rest (passed (escape s) (b'"' ∷ rest) (behind b'"' (escape s ++ b'"' ∷ rest) l))
passed_quote s rest l =
    passed-append (escape s) (b'"' ∷ []) rest (behind b'"' ((escape s ++ b'"' ∷ []) ++ rest) l)
    ∙ ap (λ r. behind b'"' rest (passed (escape s) (b'"' ∷ rest) (behind b'"' r l)))
        (append_assoc (escape s) (b'"' ∷ []) rest)

-- A string literal gives back the bytes that were written in it, for all bytes but the backslash and
-- 0xff, and the lexer stands behind its closing quote.
pub lex_str-escape :
    (s rest : Bytes) (l : Lexer)
    → l.remain ≡ b'"' ∷ (escape s ++ b'"' ∷ rest)
    → all is_plain s ≡ true
    → lex_str l
      ≡ (lex_part_ok, set_token token_str (str s) (passed (b'"' ∷ (escape s ++ b'"' ∷ [])) rest l))
unfolding lex_str
lex_str-escape s rest l e a =
    let body = escape s ++ b'"' ∷ rest in
    let l1 = behind b'"' body l in
    let inside = read_str-escape s body [] rest l1 (length-escape s (b'"' ∷ rest)) refl a in
    let end = passed (escape s) (b'"' ∷ rest) l1 in
    let close = next_char-concat end b'"' rest (passed-remain (escape s) (b'"' ∷ rest) l1 refl) in
    rw (next_char-concat l b'"' body e)
      (rw (inside, close) (ap (accepted s) (sym (passed_quote s rest l))))
