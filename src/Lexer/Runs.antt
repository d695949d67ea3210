-- ===== src/Lexer/Runs.antt =====
-- The steps of a recogniser on the lexer, as a relation: it reads a byte, writes the token or reports
-- a failure.
use hoblang_old.Base.{
  ℕ, zero, suc, length, ◌+◌, ◌*◌, ◌%◌, ◌^◌, Bool, List, [], ◌∷◌, ◌++◌, if_intro, Bytes, arith,
}
use hoblang_old.Core.Chars.{char_is_ident}
use hoblang_old.Lexer.Parts.{
  LexPartErr, LexSymbolAlt, Radix, decimal, hexadecimal, read_keyword, read_while, read_digits,
  escaped_char, lexer_next_escaped, read_str, lex_symbol, lex_symbol_second, lex_symbol_alt,
  lex_keyword, lex_char, lex_ident, lex_digits, lex_integer, lex_str,
}
use hoblang_old.Lexer.Rules.{
  Rule, symbol, symbol_alt, keyword, identifier, number, text, apply_rule,
}
use hoblang_old.Lexer.Trivia.{
  skip_whitespace_from, lexer_skip_whitespace, skip_multiline_from, skip_line_from,
  lexer_skip_comment, skip_trivia_on, skip_trivia,
}
use hoblang_old.Lexer.State.{Lexer, lexer_fail, lexer_next_char, set_token}
use hoblang_old.Lexer.Token.{
  TokenType, TokenValue, token_char, token_ident, token_integer, token_float, token_str, character,
  ident, str,
}

pub data Runs (s : Lexer) : Lexer → Type 0 where
  here : Runs s s
  read : {l : Lexer} → Runs s l → Runs s (lexer_next_char l).1
  mark : {l : Lexer} (t : TokenType) (v : TokenValue) → Runs s l → Runs s (set_token t v l)
  fails : {l : Lexer} → Runs s l → Runs s (lexer_fail l)

module _ {s : Lexer} where
  read_keyword-Runs : (k : Bytes) (l : Lexer) → Runs s l → Runs s (read_keyword k l).1
  unfolding read_keyword
  read_keyword-Runs [] l h = h
  read_keyword-Runs (c ∷ k) l h =
      if_intro (λ (r : Bool × Lexer). Runs s r.1) _ (read_keyword-Runs k _ (read h)) (read h)

  read_while-Runs :
      (test : ℕ → Bool) (rest done : Bytes) (l : Lexer)
      → Runs s l
      → Runs s (read_while test done rest l).1
  unfolding read_while
  read_while-Runs test [] done l h = h
  read_while-Runs test (c ∷ rest) done l h =
      if_intro (λ (r : Bytes × Lexer). Runs s r.1) _
        (read_while-Runs test rest (done ++ c ∷ []) (lexer_next_char l).1 (read h)) h

  read_digits-Runs :
      (r : Radix) (rest : Bytes) (acc count : ℕ) (l : Lexer)
      → Runs s l
      → Runs s (read_digits r acc count rest l).2
  unfolding read_digits
  read_digits-Runs r [] acc count l h = h
  read_digits-Runs r (c ∷ rest) acc count l h =
      if_intro (λ (x : ℕ × ℕ × Lexer). Runs s x.2) _
        (read_digits-Runs r rest ((acc * r.base + r.convert c) % 2 ^ 64) (count + 1)
          (lexer_next_char l).1 (read h))
        h

  escaped_char-Runs : (stop c : ℕ) (l : Lexer) → Runs s l → Runs s (escaped_char stop c l).2
  unfolding escaped_char
  escaped_char-Runs stop c l h = ground (arith, fails h)

  lexer_next_escaped-Runs : (stop : ℕ) (l : Lexer) → Runs s l → Runs s (lexer_next_escaped stop l).2
  unfolding lexer_next_escaped
  lexer_next_escaped-Runs stop l h = ground (
    arith,
    read h,
    fails (read h),
    escaped_char-Runs stop (lexer_next_char (lexer_next_char l).1).0 _ (read (read h)),
  )

  read_str-Runs :
      (rounds result : Bytes) (l : Lexer) → Runs s l → Runs s (read_str rounds result l).2
  unfolding read_str
  read_str-Runs [] result l h = h
  read_str-Runs (_ ∷ rounds) result l h =
      let after = lexer_next_escaped-Runs b'"' l h in
      ground (
        arith,
        h,
        after,
        read_str-Runs rounds (result ++ (lexer_next_escaped b'"' l).1 ∷ [])
            (lexer_next_escaped b'"' l).2 after,
      )

  lex_symbol-Runs : (c : ℕ) (t : TokenType) (l : Lexer) → Runs s l → Runs s (lex_symbol c t l).1
  unfolding lex_symbol
  lex_symbol-Runs c t l h =
      if_intro (λ (r : LexPartErr × Lexer). Runs s r.1) _ (mark t _ (read h)) (read h)

  lex_symbol_second-Runs :
      (t : TokenType) (alts : List LexSymbolAlt) (l : Lexer)
      → Runs s l
      → Runs s (lex_symbol_second t alts l).1
  unfolding lex_symbol_second
  lex_symbol_second-Runs t [] l h = mark t _ h
  lex_symbol_second-Runs t (alt ∷ alts) l h =
      if_intro (λ (r : LexPartErr × Lexer). Runs s r.1) _ (mark alt.type _ (read h))
        (lex_symbol_second-Runs t alts l h)

  lex_symbol_alt-Runs :
      (start : LexSymbolAlt) (alts : List LexSymbolAlt) (l : Lexer)
      → Runs s l
      → Runs s (lex_symbol_alt start alts l).1
  unfolding lex_symbol_alt
  lex_symbol_alt-Runs start alts l h =
      if_intro (λ (r : LexPartErr × Lexer). Runs s r.1) _
        (lex_symbol_second-Runs start.type alts _ (read h)) (read h)

  lex_keyword-Runs :
      (k : Bytes) (t : TokenType) (l : Lexer) → Runs s l → Runs s (lex_keyword k t l).1
  unfolding lex_keyword
  lex_keyword-Runs k t l h =
      let whole = read_keyword-Runs k l h in
      let marked = mark t (read_keyword k l).1.token.value whole in ground (arith, whole, marked)

  lex_char-Runs : (l : Lexer) → Runs s l → Runs s (lex_char l).1
  unfolding lex_char
  lex_char-Runs l h =
      let escaped = lexer_next_escaped-Runs b'\'' _ (read h) in
      ground (
        arith,
        read h,
        escaped,
        mark token_char (character (lexer_next_escaped b'\'' (lexer_next_char l).1).1)
            (read escaped),
        mark token_char (character (lexer_next_escaped b'\'' (lexer_next_char l).1).1)
            (fails (read escaped)),
      )

  lex_ident-Runs : (l : Lexer) → Runs s l → Runs s (lex_ident l).1
  unfolding lex_ident
  lex_ident-Runs l h =
      let (c, l1) = lexer_next_char l in
      let name = read_while-Runs char_is_ident l1.remain (c ∷ []) l1 (read h) in
      ground (
        arith,
        read h,
        mark token_ident (ident (read_while char_is_ident (c ∷ []) l1.remain l1).0) name,
      )

  lex_digits-Runs : (r : Radix) (c : ℕ) (l : Lexer) → Runs s l → Runs s (lex_digits r c l).1
  unfolding lex_digits
  lex_digits-Runs r c l h =
      let left = read_digits-Runs r l.remain (r.convert c) 0 l h in
      if_intro (λ (x : LexPartErr × Lexer). Runs s x.1) _ (mark token_integer _ left)
        (mark token_float _ (read_digits-Runs r _ 0 0 _ (read left)))

  lex_integer-Runs : (l : Lexer) → Runs s l → Runs s (lex_integer l).1
  unfolding lex_integer
  lex_integer-Runs l h =
      let l1 = (lexer_next_char l).1 in
      let (d, l3) = lexer_next_char (lexer_next_char l1).1 in
      ground (
        arith,
        read h,
        fails (read (read (read h))),
        lex_digits-Runs hexadecimal d l3 (read (read (read h))),
        lex_digits-Runs decimal (lexer_next_char l).0 l1 (read h),
      )

  lex_str-Runs : (l : Lexer) → Runs s l → Runs s (lex_str l).1
  unfolding lex_str
  lex_str-Runs l h =
      let l1 = (lexer_next_char l).1 in
      let inside = read_str-Runs l1.remain [] l1 (read h) in
      ground
        (arith, read h, inside, mark token_str (str (read_str l1.remain [] l1).1) (read inside))

  -- Every rule of the table only reads, writes the token and reports.
  pub apply_rule-Runs : (r : Rule) (l : Lexer) → Runs s l → Runs s (apply_rule r l).1
  unfolding apply_rule
  apply_rule-Runs (symbol c t) l h = lex_symbol-Runs c t l h
  apply_rule-Runs (symbol_alt start alts) l h = lex_symbol_alt-Runs start alts l h
  apply_rule-Runs (keyword k t) l h = lex_keyword-Runs k t l h
  apply_rule-Runs Rule.character l h = lex_char-Runs l h
  apply_rule-Runs identifier l h = lex_ident-Runs l h
  apply_rule-Runs number l h = lex_integer-Runs l h
  apply_rule-Runs text l h = lex_str-Runs l h

-- Runs compose.
pub Runs-trans : {s t u : Lexer} → Runs s t → Runs t u → Runs s u
Runs-trans h here = h
Runs-trans h (read k) = read (Runs-trans h k)
Runs-trans h (mark t v k) = mark t v (Runs-trans h k)
Runs-trans h (fails k) = fails (Runs-trans h k)

module _ {s : Lexer} where
  skip_whitespace_from-Runs :
      (rest : Bytes) (l : Lexer) → Runs s l → Runs s (skip_whitespace_from rest l)
  unfolding skip_whitespace_from
  skip_whitespace_from-Runs [] l h = h
  skip_whitespace_from-Runs (c ∷ rest) l h =
      ground (arith, h, skip_whitespace_from-Runs rest (lexer_next_char l).1 (read h))

  pub skip_multiline_from-Runs :
      (rest : Bytes) (l : Lexer) → Runs s l → Runs s (skip_multiline_from rest l)
  unfolding skip_multiline_from
  skip_multiline_from-Runs [] l h = fails h
  skip_multiline_from-Runs (c ∷ rest) l h =
      ground (
        arith,
        read h,
        fails (read h),
        skip_multiline_from-Runs rest (lexer_next_char l).1 (read h),
      )

  pub skip_line_from-Runs : (rest : Bytes) (l : Lexer) → Runs s l → Runs s (skip_line_from rest l)
  unfolding skip_line_from
  skip_line_from-Runs [] l h = h
  skip_line_from-Runs (c ∷ rest) l h =
      ground (arith, read h, skip_line_from-Runs rest (lexer_next_char l).1 (read h))

  pub lexer_skip_whitespace-Runs : (l : Lexer) → Runs s l → Runs s (lexer_skip_whitespace l)
  unfolding lexer_skip_whitespace
  lexer_skip_whitespace-Runs l h = skip_whitespace_from-Runs l.remain l h

  lexer_skip_comment-Runs : (l : Lexer) → Runs s l → Runs s (lexer_skip_comment l).1
  unfolding lexer_skip_comment
  lexer_skip_comment-Runs l h =
      let l' = (lexer_next_char l).1 in
      ground (
        arith,
        h,
        skip_multiline_from-Runs l'.remain l' (read h),
        skip_line_from-Runs l'.remain l' (read h),
      )

  skip_trivia_on-Runs : (fuel : ℕ) (l : Lexer) → Runs s l → Runs s (skip_trivia_on fuel l)
  unfolding skip_trivia_on
  skip_trivia_on-Runs zero l h = h
  skip_trivia_on-Runs (suc fuel) l h =
      let skipped = lexer_skip_comment-Runs _ (lexer_skip_whitespace-Runs l h) in
      ground (
        arith,
        skipped,
        skip_trivia_on-Runs fuel (lexer_skip_comment (lexer_skip_whitespace l)).1 skipped,
      )

-- Skipping whitespace and comments only reads and reports.
pub skip_trivia-Runs : (l : Lexer) → Runs l (skip_trivia l)
unfolding skip_trivia
skip_trivia-Runs l = skip_trivia_on-Runs (suc (length l.remain)) l here
