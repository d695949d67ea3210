-- ===== src/Lexer/Words.antt =====
-- What the recognisers of words and numbers accept, and how far they read.
use mathlib.Core.List.{append_assoc, append-nil}
use native.Mathlib.Nat.{add-zero, mod-mod, mod-eq_of_lt, add-mul-mod_self_right, div-add-mod'}
use hoblang_old.Base.{
  ℕ, ◌/◌, ◌<◌, suc, ◌+◌, ◌*◌, ◌%◌, ◌^◌, Bool, true, false, ◌&&◌, [], ◌∷◌, ◌++◌, ◌≡◌, refl, sym, ap,
  ◌∙◌, arith, Bytes, length,
}
use hoblang_old.Core.Chars.{char_is_ident_start, char_is_ident}
use hoblang_old.Lexer.Parts.{lex_part_ok, Radix, read_while, read_digits, lex_ident}
use hoblang_old.Lexer.State.{Lexer, lexer_next_char, behind, first_or_eof, set_token}
use hoblang_old.Lexer.Token.{token_ident, ident}

-- The lexer behind the bytes `cs`, with `rest` left to read.
abbrev pub passed : Bytes → Bytes → Lexer → Lexer
passed [] rest l = l
passed (c ∷ cs) rest l = passed cs rest (behind c (cs ++ rest) l)

abbrev pub all : (ℕ → Bool) → Bytes → Bool
all test [] = true
all test (c ∷ cs) = test c && all test cs

pub next_char-concat :
    (l : Lexer) (c : ℕ) (rest : Bytes)
    → l.remain ≡ c ∷ rest
    → lexer_next_char l ≡ (c, behind c rest l)
unfolding lexer_next_char
next_char-concat l c rest e = rw e

pub passed-remain :
    (cs rest : Bytes) (l : Lexer) → l.remain ≡ cs ++ rest → (passed cs rest l).remain ≡ rest
passed-remain [] rest l e = e
passed-remain (c ∷ cs) rest l e = passed-remain cs rest _ refl

-- The facts that a test of a non-empty list gives.
pub and-true : (a b : Bool) → (a && b) ≡ true → (a ≡ true) × (b ≡ true)
and-true true b h = (refl, h)
and-true false b h = cc

pub read_while-passed :
    (test : ℕ → Bool) (cs done rest : Bytes) (l : Lexer)
    → l.remain ≡ cs ++ rest
    → all test cs ≡ true
    → test (first_or_eof rest) ≡ false
    → read_while test done (cs ++ rest) l ≡ (done ++ cs, passed cs rest l)
unfolding read_while
read_while-passed test [] done [] l e a n = rw append-nil
read_while-passed test [] done (c ∷ rest) l e a n = rw (append-nil, n)
read_while-passed test (c ∷ cs) done rest l e a n =
    let (h, t) = and-true (test c) (all test cs) a in
    rw (h, next_char-concat l c (cs ++ rest) e)
      (read_while-passed test cs (done ++ c ∷ []) rest (behind c (cs ++ rest) l) refl t n
        ∙ rw append_assoc)

-- An identifier is read whole: from a letter or `_`, all the letters, digits and `_` that follow, up
-- to the first byte that is none of these or the end of the file, and no byte further.
pub lex_ident-passed :
    (c : ℕ) (cs rest : Bytes) (l : Lexer)
    → l.remain ≡ c ∷ (cs ++ rest)
    → char_is_ident_start c ≡ true
    → all char_is_ident cs ≡ true
    → char_is_ident (first_or_eof rest) ≡ false
    → lex_ident l ≡ (lex_part_ok, set_token token_ident (ident (c ∷ cs)) (passed (c ∷ cs) rest l))
unfolding lex_ident
lex_ident-passed c cs rest l e s a n = rw (
  next_char-concat l c (cs ++ rest) e,
  s,
  read_while-passed char_is_ident cs (c ∷ []) rest (behind c (cs ++ rest) l) refl a n,
)

-- The value of digits in a number system, most significant first, behind a value `acc`.
abbrev pub digits_value : Radix → ℕ → Bytes → ℕ
digits_value r acc [] = acc
digits_value r acc (c ∷ cs) = digits_value r (acc * r.base + r.convert c) cs

-- Reducing early changes nothing modulo `m`.
mul-add-mod : (a b d m : ℕ) → (a % m * b + d) % m ≡ (a * b + d) % m
mul-add-mod a b d m =
    sym (add-mul-mod_self_right (a % m * b + d) (a / m * b) m)
    ∙ ap (λ t. t % m) (omega (arith, ap (λ (t : ℕ). t * b) (div-add-mod' a m)))

digits_value-mod :
    (r : Radix) (m : ℕ) (cs : Bytes) (acc : ℕ)
    → digits_value r (acc % m) cs % m ≡ digits_value r acc cs % m
digits_value-mod r m [] acc = mod-mod acc m
digits_value-mod r m (c ∷ cs) acc =
    sym (digits_value-mod r m cs (acc % m * r.base + r.convert c))
    ∙ ap (λ t. digits_value r t cs % m) (mul-add-mod acc r.base (r.convert c) m)
    ∙ digits_value-mod r m cs (acc * r.base + r.convert c)

add-one-suc : (a b : ℕ) → a + 1 + b ≡ a + suc b
add-one-suc a b = omega arith

pub read_digits-passed :
    (r : Radix) (cs rest : Bytes) (acc count : ℕ) (l : Lexer)
    → acc < 2 ^ 64
    → l.remain ≡ cs ++ rest
    → all r.is_right cs ≡ true
    → r.is_right (first_or_eof rest) ≡ false
    → read_digits r acc count (cs ++ rest) l
      ≡ (digits_value r acc cs % 2 ^ 64, count + length cs, passed cs rest l)
unfolding read_digits
read_digits-passed r [] [] acc count l b e a n = rw (mod-eq_of_lt b, add-zero)
read_digits-passed r [] (c ∷ rest) acc count l b e a n = rw (n, mod-eq_of_lt b, add-zero)
read_digits-passed r (c ∷ cs) rest acc count l b e a n =
    let (h, t) = and-true (r.is_right c) (all r.is_right cs) a in
    let acc' = acc * r.base + r.convert c in
    rw (h, next_char-concat l c (cs ++ rest) e)
      (rw (
        read_digits-passed r cs rest (acc' % 2 ^ 64) (count + 1) (behind c (cs ++ rest) l)
            (omega arith) refl t n,
        digits_value-mod r (2 ^ 64) cs acc',
        add-one-suc count (length cs),
      ))
