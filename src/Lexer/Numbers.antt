-- ===== src/Lexer/Numbers.antt =====
-- Number literals and keywords: `lex_integer` and `lex_keyword` on the bytes that they accept.
use hoblang_old.Base.{
  ℕ, ◌%◌, ◌^◌, ◌<◌, Bool, true, false, ◌↔◌, ◌≢◌, [], ◌∷◌, ◌++◌, ◌≡◌, refl, ap, ◌∙◌, arith, ◌==◌,
  ltb, Bytes, inl, inr, Bool-cases, ==_iff,
}
use hoblang_old.Core.Chars.{eof, char_is_digit, char_is_hex, char_is_ident}
use hoblang_old.Lexer.Parts.{
  LexPartErr, lex_part_ok, Radix, hexadecimal, read_digits, char_to_digit16, read_keyword,
  lex_keyword, lex_digits, lex_integer,
}
use hoblang_old.Lexer.State.{
  Lexer, lexer_next_char, next_char-cases, lexer_future_char, behind, first_or_eof, set_token,
}
use hoblang_old.Lexer.Token.{TokenType, token_integer, integer}
use hoblang_old.Lexer.Words.{
  passed, all, and-true, next_char-concat, passed-remain, digits_value, read_digits-passed,
}

-- Digits that no point follows make an integer token of their value, modulo 2^64.
lex_digits-passed :
    (r : Radix) (c : ℕ) (cs rest : Bytes) (l : Lexer)
    → r.convert c < 2 ^ 64
    → l.remain ≡ cs ++ rest
    → all r.is_right cs ≡ true
    → r.is_right (first_or_eof rest) ≡ false
    → first_or_eof rest ≢ b'.'
    → lex_digits r c l ≡ (
      lex_part_ok,
      set_token token_integer
          (integer (digits_value r (r.convert c) cs % 2 ^ 64))
          (passed cs rest l),
    )
unfolding lex_digits lexer_future_char
lex_digits-passed r c cs rest l b e a n p =
    let all_read = read_digits-passed r cs rest (r.convert c) 0 l b e a n in
    let here : (lexer_future_char (passed cs rest l) == b'.') ≡ false = not_point in
    ground (arith, all_read, here, ap (λ s. read_digits r (r.convert c) 0 s l) e)
  where
    not_point : (lexer_future_char (passed cs rest l) == b'.') ≡ false
    not_point =
        ground (arith, p, passed-remain cs rest l e, ap first_or_eof (passed-remain cs rest l e))

abbrev literal : ℕ → Lexer → LexPartErr × Lexer
literal n l = (lex_part_ok, set_token token_integer (integer n) l)

zero-IsDigit : char_is_digit b'0' ≡ true
unfolding char_is_digit
zero-IsDigit = refl

char_to_digit16-lt : (c : ℕ) → char_is_hex c ≡ true → char_to_digit16 c < 2 ^ 64
unfolding char_is_hex char_to_digit16
char_to_digit16-lt c h = ground arith

abbrev is_ascii : ℕ → Bool
is_ascii c = ltb c 128

eof_matches :
    (k : ℕ) (ks : Bytes) (l : Lexer)
    → lexer_next_char l ≡ (eof, l)
    → all is_ascii (k ∷ ks) ≡ true
    → (read_keyword (k ∷ ks) l).0 ≡ true
    → ⊥
unfolding read_keyword
eof_matches k ks l e a h =
    let small = (and-true (is_ascii k) (all is_ascii ks) a).0 in let h' = rw e at h in ground arith

-- A hexadecimal literal, `0x` and at least one digit, gives the integer token of its value modulo
-- 2^64, and the lexer stands behind its last digit, where no digit and no point follows.
lex_integer-hexadecimal :
    (d : ℕ) (cs rest : Bytes) (l : Lexer)
    → l.remain ≡ b'0' ∷ b'x' ∷ d ∷ (cs ++ rest)
    → all char_is_hex (d ∷ cs) ≡ true
    → char_is_hex (first_or_eof rest) ≡ false
    → first_or_eof rest ≢ b'.'
    → lex_integer l ≡ (
      lex_part_ok,
      set_token token_integer
          (integer (digits_value hexadecimal 0 (d ∷ cs) % 2 ^ 64))
          (passed (b'0' ∷ b'x' ∷ d ∷ cs) rest l),
    )
unfolding lex_integer lexer_future_char
lex_integer-hexadecimal d cs rest l e a n p =
    let (h, t) = and-true (char_is_hex d) (all char_is_hex cs) a in
    let l1 = behind b'0' (b'x' ∷ d ∷ (cs ++ rest)) l in
    let l2 = behind b'x' (d ∷ (cs ++ rest)) l1 in
    rw (next_char-concat l b'0' (b'x' ∷ d ∷ (cs ++ rest)) e) (
      rw (next_char-concat l1 b'x' (d ∷ (cs ++ rest)) refl) (
        rw (next_char-concat l2 d (cs ++ rest) refl, h, zero-IsDigit)
          (lex_digits-passed hexadecimal d cs rest (behind d (cs ++ rest) l2)
              (char_to_digit16-lt d h) refl t n p
            ∙ ap
                (λ (n : ℕ).
                  literal (digits_value hexadecimal n cs % 2 ^ 64)
                    (passed (b'0' ∷ b'x' ∷ d ∷ cs) rest l))
                (omega arith))))

read_keyword-passed :
    (k rest : Bytes) (l : Lexer) → l.remain ≡ k ++ rest → read_keyword k l ≡ (true, passed k rest l)
unfolding read_keyword
read_keyword-passed [] rest l e = refl
read_keyword-passed (k ∷ ks) rest l e =
    rw (next_char-concat l k (ks ++ rest) e)
      (ground (arith, read_keyword-passed ks rest (behind k (ks ++ rest) l) refl))

-- The bytes of a keyword were all read only where they stand in front.
read_on :
    (k : ℕ) (ks : Bytes) (c : ℕ) (l : Lexer) (rest : Bytes)
    → l.remain ≡ c ∷ rest
    → lexer_next_char l ≡ (c, behind c rest l)
    → all is_ascii ks ≡ true
    → (read_keyword (k ∷ ks) l).0 ≡ true
    → (all is_ascii ks ≡ true
        → (read_keyword ks (behind c rest l)).0 ≡ true
        → (end : Bytes) × (rest ≡ ks ++ end))
    → (end : Bytes) × (l.remain ≡ k ∷ (ks ++ end))
unfolding read_keyword
read_on k ks c l rest e p a h ih = elim (Bool-cases (c == k)) [
  | inl same ↦
      let (end, q) = ih a (rw (p, same) at h) in
      (end, e ∙ ap (λ r. c ∷ r) q ∙ ap (λ n. n ∷ (ks ++ end)) ((==_iff c k).0 same))
  | inr other ↦ absurd (stopped (rw (p, other) at h))
]
  where
    stopped : false ≡ true → ⊥
    stopped h = cc

read_keyword-true :
    (k : Bytes) (l : Lexer)
    → all is_ascii k ≡ true
    → (read_keyword k l).0 ≡ true
    → (rest : Bytes) × (l.remain ≡ k ++ rest)
unfolding read_keyword
read_keyword-true [] l a h = (l.remain, refl)
read_keyword-true (k ∷ ks) l a h = elim (next_char-cases l) [
  | inl (_, e) ↦ absurd (eof_matches k ks l e a h)
  | inr (c, rest, e, p) ↦
      read_on k ks c l rest e p (and-true (is_ascii k) (all is_ascii ks) a).1 h
        (read_keyword-true ks (behind c rest l))
]

-- For a keyword of ASCII bytes, `lex_keyword` accepts exactly the inputs that begin with the
-- keyword and go on with a byte that no identifier can hold, or end there.
pub lex_keyword_iff :
    (k : Bytes) (t : TokenType) (l : Lexer)
    → all is_ascii k ≡ true
    → ((lex_keyword k t l).0 ≡ lex_part_ok)
      ↔ ((rest : Bytes) × (l.remain ≡ k ++ rest) × (char_is_ident (first_or_eof rest) ≡ false))
unfolding lex_keyword lexer_future_char
lex_keyword_iff k t l a = (forth, back)
  where
    forth :
        (lex_keyword k t l).0 ≡ lex_part_ok
        → (rest : Bytes) × (l.remain ≡ k ++ rest) × (char_is_ident (first_or_eof rest) ≡ false)
    forth h =
        let (rest, e) = read_keyword-true k l a (ground arith) in
        (rest, e, ground (arith, read_keyword-passed k rest l e, passed-remain k rest l e))

    back :
        ((rest : Bytes) × (l.remain ≡ k ++ rest) × (char_is_ident (first_or_eof rest) ≡ false))
        → (lex_keyword k t l).0 ≡ lex_part_ok
    back (rest, e, n) = ground (arith, read_keyword-passed k rest l e, passed-remain k rest l e, n)
