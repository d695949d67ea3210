-- ===== src/Lexer/Trivia.antt =====
-- What the lexer skips between tokens, whitespace and comments: the middle of src/lexer/private.c.
-- A loop that reads byte by byte recurs on the bytes that are left.
use hoblang_old.Base.{
  ℕ, zero, suc, Bool, true, false, not, ◌&&◌, ◌||◌, [], ◌∷◌, ◌==◌, if◌then◌else◌, Bytes, length,
}
use hoblang_old.Core.Chars.{char_is_whitespace}
use hoblang_old.Lexer.State.{Lexer, lexer_finished, lexer_fail, lexer_next_char, lexer_future_char}

unfoldable pub skip_whitespace_from : Bytes → Lexer → Lexer
skip_whitespace_from [] l = l
skip_whitespace_from (c ∷ rest) l =
    let next = skip_whitespace_from rest (lexer_next_char l).1 in
    if char_is_whitespace c then next else l

unfoldable pub lexer_skip_whitespace : Lexer → Lexer
lexer_skip_whitespace l = skip_whitespace_from l.remain l

-- The loop of a comment that ends with "`#".
unfoldable pub skip_multiline_from : Bytes → Lexer → Lexer
skip_multiline_from [] l = lexer_fail l
skip_multiline_from (c ∷ rest) l =
    let l' = (lexer_next_char l).1 in
    let next = skip_multiline_from rest l' in
    if not (c == b'`') || not (lexer_future_char l' == b'#')
    then (if lexer_finished l' then lexer_fail l' else next)
    else l'

-- The loop of a comment that ends with its line.
unfoldable pub skip_line_from : Bytes → Lexer → Lexer
skip_line_from [] l = l
skip_line_from (c ∷ rest) l =
    let l' = (lexer_next_char l).1 in
    let next = skip_line_from rest l' in
    if not (c == b'\n') && not (lexer_finished l') then next else l'

unfoldable pub lexer_skip_comment : Lexer → Bool × Lexer
lexer_skip_comment l =
    let l' = (lexer_next_char l).1 in
    if not (lexer_future_char l == b'#')
    then (false, l)
    else if lexer_future_char l' == b'`'
    then (true, skip_multiline_from l'.remain l')
    else (true, skip_line_from l'.remain l')

-- The `do … while` of `lexer_try_next`, on fuel: a round that goes on has read a `#`.
unfoldable pub skip_trivia_on : ℕ → Lexer → Lexer
skip_trivia_on zero l = l
skip_trivia_on (suc fuel) l =
    let (again, l') = lexer_skip_comment (lexer_skip_whitespace l) in
    let next = skip_trivia_on fuel l' in if again then next else l'

unfoldable pub skip_trivia : Lexer → Lexer
skip_trivia l = skip_trivia_on (suc (length l.remain)) l
