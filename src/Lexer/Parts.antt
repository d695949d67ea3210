-- ===== src/Lexer/Parts.antt =====
-- The recognisers of single tokens: src/lexer/parts/*.c and `lexer_next_escaped`.
use hoblang_old.Base.{
  ℕ, ◌+◌, ◌-◌, ◌*◌, ◌%◌, ◌^◌, Bool, true, false, not, ◌&&◌, List, [], ◌∷◌, ◌++◌, ◌==◌, leb,
  if◌then◌else◌, Bytes,
}
use hoblang_old.Core.Chars.{eof, char_is_digit, char_is_hex, char_is_ident_start, char_is_ident}
use hoblang_old.Lexer.State.{
  Lexer, lexer_fail, lexer_next_char, lexer_future_char, set_token, set_token_type,
}
use hoblang_old.Lexer.Token.{
  TokenType, token_char, token_integer, token_float, token_ident, token_str, ident, integer,
  float_value, character, str,
}

pub data LexPartErr : Type 0 where
  lex_part_ok lex_part_err lex_part_missmatch : LexPartErr

unfoldable pub lex_symbol : ℕ → TokenType → Lexer → LexPartErr × Lexer
lex_symbol symbol t l =
    let (c, l') = lexer_next_char l in
    if symbol == c then (lex_part_ok, set_token_type t l') else (lex_part_missmatch, l')

pub record LexSymbolAlt : Type 0 where
  pub symbol : ℕ
  pub type : TokenType

-- The alternatives behind the first symbol; `l` stands behind that symbol.
unfoldable pub lex_symbol_second : TokenType → List LexSymbolAlt → Lexer → LexPartErr × Lexer
lex_symbol_second start [] l = (lex_part_ok, set_token_type start l)
lex_symbol_second start (alt ∷ alts) l =
    if lexer_future_char l == alt.symbol
    then (lex_part_ok, set_token_type alt.type (lexer_next_char l).1)
    else lex_symbol_second start alts l

unfoldable pub lex_symbol_alt : LexSymbolAlt → List LexSymbolAlt → Lexer → LexPartErr × Lexer
lex_symbol_alt start alts l =
    let (c, l') = lexer_next_char l in
    if start.symbol == c then lex_symbol_second start.type alts l' else (lex_part_missmatch, l')

-- The loop of `lex_keyword`: whether every byte of the keyword was read.
unfoldable pub read_keyword : Bytes → Lexer → Bool × Lexer
read_keyword [] l = (true, l)
read_keyword (k ∷ ks) l =
    let (c, l') = lexer_next_char l in if c == k then read_keyword ks l' else (false, l')

unfoldable pub lex_keyword : Bytes → TokenType → Lexer → LexPartErr × Lexer
lex_keyword keyword t l =
    let (whole, l') = read_keyword keyword l in
    let l'' = set_token_type t l' in
    if not whole
    then (lex_part_missmatch, l')
    else if char_is_ident (lexer_future_char l'')
    then (lex_part_missmatch, l'')
    else (lex_part_ok, l'')

-- `switch` behind a backslash.
unfoldable pub escaped_char : ℕ → ℕ → Lexer → Bool × ℕ × Lexer
escaped_char stop c l =
    if c == b'0'
    then (true, 0, l)
    else if c == b'r'
    then (true, b'\r', l)
    else if c == b'n'
    then (true, b'\n', l)
    else if c == eof
    then (false, 0, lexer_fail l)
    else if c == stop
    then (true, stop, l)
    else (false, 0, lexer_fail l)

-- Whether a character was read, the character (0 where there is none), and the lexer.
unfoldable pub lexer_next_escaped : ℕ → Lexer → Bool × ℕ × Lexer
lexer_next_escaped stop l =
    let (c, l') = lexer_next_char l in
    let (d, l'') = lexer_next_char l' in
    if c == eof
    then (false, 0, lexer_fail l')
    else if c == b'\\'
    then escaped_char stop d l''
    else if c == stop
    then (false, 0, lexer_fail l')
    else (true, c, l')

-- A missing closing quote is reported, and the token is produced all the same.
unfoldable pub lex_char : Lexer → LexPartErr × Lexer
lex_char l =
    let (c, l1) = lexer_next_char l in
    let (ok, nextc, l2) = lexer_next_escaped b'\'' l1 in
    let (d, l3) = lexer_next_char l2 in
    let l4 = (if not (d == b'\'') then lexer_fail l3 else l3) in
    if not (c == b'\'')
    then (lex_part_missmatch, l1)
    else if not ok
    then (lex_part_err, l2)
    else (lex_part_ok, set_token token_char (character nextc) l4)

-- The bytes that pass the test, read from the front, behind those read so far.
unfoldable pub read_while : (ℕ → Bool) → Bytes → Bytes → Lexer → Bytes × Lexer
read_while test done [] l = (done, l)
read_while test done (c ∷ rest) l =
    let next = read_while test (done ++ c ∷ []) rest (lexer_next_char l).1 in
    if test c then next else (done, l)

unfoldable pub lex_ident : Lexer → LexPartErr × Lexer
lex_ident l =
    let (c, l1) = lexer_next_char l in
    let (name, l2) = read_while char_is_ident (c ∷ []) l1.remain l1 in
    if not (char_is_ident_start c)
    then (lex_part_missmatch, l1)
    else (lex_part_ok, set_token token_ident (ident name) l2)

-- What the source's `char_to_digit10` and `char_to_digit16` give on the digits that reach them.
abbrev pub char_to_digit10 : ℕ → ℕ
char_to_digit10 c = c - b'0'

unfoldable pub char_to_digit16 : ℕ → ℕ
char_to_digit16 c =
    if char_is_digit c
    then char_to_digit10 c
    else if leb b'a' c && leb c b'f'
    then c - b'a' + 10
    else c - b'A' + 10

-- A number system of `lex_integer`: its base and its two function pointers.
pub record Radix : Type 0 where
  pub base : ℕ
  pub convert : ℕ → ℕ
  pub is_right : ℕ → Bool

abbrev pub decimal : Radix
decimal = record { base = 10; convert = char_to_digit10; is_right = char_is_digit }

abbrev pub hexadecimal : Radix
hexadecimal = record { base = 16; convert = char_to_digit16; is_right = char_is_hex }

-- The loop over digits, on a `uint64_t`; the count of digits stands for `rdel = base ^ -count`.
unfoldable pub read_digits : Radix → ℕ → ℕ → Bytes → Lexer → ℕ × ℕ × Lexer
read_digits r acc count [] l = (acc, count, l)
read_digits r acc count (c ∷ rest) l =
    let acc' = (acc * r.base + r.convert c) % 2 ^ 64 in
    let next = read_digits r acc' (count + 1) rest (lexer_next_char l).1 in
    if r.is_right c then next else (acc, count, l)

-- From the first digit `c` on, with `l` behind it.
unfoldable pub lex_digits : Radix → ℕ → Lexer → LexPartErr × Lexer
lex_digits r c l =
    let (left, _, l1) = read_digits r (r.convert c) 0 l.remain l in
    let l2 = (lexer_next_char l1).1 in
    let (right, digits, l3) = read_digits r 0 0 l2.remain l2 in
    if not (lexer_future_char l1 == b'.')
    then (lex_part_ok, set_token token_integer (integer left) l1)
    else (lex_part_ok, set_token token_float (float_value left right r.base digits) l3)

unfoldable pub lex_integer : Lexer → LexPartErr × Lexer
lex_integer l =
    let (c, l1) = lexer_next_char l in
    let l2 = (lexer_next_char l1).1 in
    let (d, l3) = lexer_next_char l2 in
    if not (char_is_digit c)
    then (lex_part_missmatch, l1)
    else if c == b'0' && lexer_future_char l1 == b'x'
    then (if not (char_is_hex d)
        then (lex_part_err, lexer_fail l3)
        else lex_digits hexadecimal d l3)
    else lex_digits decimal c l1

-- The loop of `lex_str` over the bytes left: whether no character was refused, the string, and the
-- lexer. A round reads one byte or, at an escape, two; so the bytes left are enough rounds.
unfoldable pub read_str : Bytes → Bytes → Lexer → Bool × Bytes × Lexer
read_str [] result l = (true, result, l)
read_str (_ ∷ rounds) result l =
    let c = lexer_future_char l in
    let (ok, d, l') = lexer_next_escaped b'"' l in
    let next = read_str rounds (result ++ d ∷ []) l' in
    if not (c == b'"') && not (c == eof)
    then (if not ok then (false, result, l') else next)
    else (true, result, l)

unfoldable pub lex_str : Lexer → LexPartErr × Lexer
lex_str l =
    let (c, l1) = lexer_next_char l in
    let (ok, result, l2) = read_str l1.remain [] l1 in
    if not (c == b'"')
    then (lex_part_missmatch, l1)
    else if not ok
    then (lex_part_err, l2)
    else (lex_part_ok, set_token token_str (str result) (lexer_next_char l2).1)
