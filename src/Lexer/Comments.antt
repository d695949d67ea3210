-- ===== src/Lexer/Comments.antt =====
-- Comments and whitespace: what is skipped before a token.
use hoblang_old.Base.{
  ℕ, zero, suc, ◌<◌, Bool, true, false, not, [], ◌∷◌, ◌++◌, ◌≡◌, ◌≢◌, refl, ◌∙◌, arith, ◌==◌, Bytes,
  length, if◌then◌else◌, Bool-cases, inl, inr,
}
use hoblang_old.Core.Chars.{char_is_whitespace}
use hoblang_old.Lexer.Next.{Runs-length, next_char-length}
use hoblang_old.Lexer.Runs.{
  here, lexer_skip_whitespace-Runs, skip_multiline_from-Runs, skip_line_from-Runs,
}
use hoblang_old.Lexer.State.{
  Lexer, lexer_finished, lexer_next_char, lexer_future_char, first_or_eof, behind,
}
use hoblang_old.Lexer.Trivia.{
  skip_whitespace_from, lexer_skip_whitespace, skip_multiline_from, skip_line_from,
  lexer_skip_comment, skip_trivia_on, skip_trivia,
}
use hoblang_old.Lexer.Words.{all, and-true, next_char-concat}

abbrev not_newline : ℕ → Bool
not_newline c = not (c == b'\n')

abbrev not_backtick : ℕ → Bool
not_backtick c = not (c == b'`')

-- A comment to the end of its line.
skip_line_from-passed :
    (line rest : Bytes) (l : Lexer)
    → l.remain ≡ line ++ b'\n' ∷ rest
    → all not_newline line ≡ true
    → (skip_line_from (line ++ b'\n' ∷ rest) l).remain ≡ rest
unfolding skip_line_from
skip_line_from-passed [] rest l e a = rw (next_char-concat l b'\n' rest e)
skip_line_from-passed (c ∷ []) rest l e a =
    rw (next_char-concat l c (b'\n' ∷ rest) e)
      (ground (arith, a, next_char-concat (behind c (b'\n' ∷ rest) l) b'\n' rest refl))
skip_line_from-passed (c ∷ d ∷ line) rest l e a =
    let (h, t) = and-true (not_newline c) (all not_newline (d ∷ line)) a in
    rw (next_char-concat l c (d ∷ (line ++ b'\n' ∷ rest)) e) (
      ground (
        arith,
        h,
        skip_line_from-passed (d ∷ line) rest (behind c (d ∷ (line ++ b'\n' ∷ rest)) l) refl t,
      ))

-- A comment up to the `#` that ends it, which stays unread.
skip_multiline_from-remain :
    (body rest : Bytes) (l : Lexer)
    → l.remain ≡ body ++ b'`' ∷ b'#' ∷ rest
    → all not_backtick body ≡ true
    → (skip_multiline_from (body ++ b'`' ∷ b'#' ∷ rest) l).remain ≡ b'#' ∷ rest
unfolding skip_multiline_from lexer_future_char
skip_multiline_from-remain [] rest l e a = rw (next_char-concat l b'`' (b'#' ∷ rest) e)
skip_multiline_from-remain (c ∷ []) rest l e a = rw (next_char-concat l c (b'`' ∷ b'#' ∷ rest) e) (
    ground
      (arith, a, skip_multiline_from-remain [] rest (behind c (b'`' ∷ b'#' ∷ rest) l) refl refl))
skip_multiline_from-remain (c ∷ d ∷ body) rest l e a =
    let (h, t) = and-true (not_backtick c) (all not_backtick (d ∷ body)) a in
    rw (next_char-concat l c (d ∷ (body ++ b'`' ∷ b'#' ∷ rest)) e) (
      ground (
        arith,
        h,
        skip_multiline_from-remain (d ∷ body) rest (behind c (d ∷ (body ++ b'`' ∷ b'#' ∷ rest)) l)
            refl t,
      ))

skip_comment-multiline :
    (body rest : Bytes) (l : Lexer)
    → l.remain ≡ b'#' ∷ b'`' ∷ (body ++ b'`' ∷ b'#' ∷ rest)
    → all not_backtick body ≡ true
    → first_or_eof (body ++ b'`' ∷ b'#' ∷ rest) ≢ b'#'
    → ((lexer_skip_comment l).0 ≡ true) × ((lexer_skip_comment l).1.remain ≡ b'#' ∷ rest)
unfolding lexer_skip_comment skip_multiline_from lexer_future_char
skip_comment-multiline body rest l e a n =
    let inner = body ++ b'`' ∷ b'#' ∷ rest in
    let l1 = behind b'#' (b'`' ∷ inner) l in
    let l2 = behind b'`' inner l1 in
    let p = next_char-concat l b'#' (b'`' ∷ inner) e in
    let q = next_char-concat l1 b'`' inner refl in
    let done = skip_multiline_from-remain body rest l2 refl a in
    let more : lexer_finished l2 ≡ false = unfinished body rest l1 in
    (ground (arith, p), ground (arith, p, q, done, n, more))
  where
    unfinished :
        (body rest : Bytes) (m : Lexer)
        → lexer_finished (behind b'`' (body ++ b'`' ∷ b'#' ∷ rest) m) ≡ false
    unfinished [] rest m = refl
    unfinished (c ∷ body) rest m = refl

skip_comment_line :
    (line rest : Bytes) (l : Lexer)
    → l.remain ≡ b'#' ∷ (line ++ b'\n' ∷ rest)
    → all not_newline line ≡ true
    → first_or_eof (line ++ b'\n' ∷ rest) ≢ b'`'
    → ((lexer_skip_comment l).0 ≡ true) × ((lexer_skip_comment l).1.remain ≡ rest)
unfolding lexer_skip_comment lexer_future_char
skip_comment_line line rest l e a n =
    let p = next_char-concat l b'#' (line ++ b'\n' ∷ rest) e in
    let done = skip_line_from-passed line rest (behind b'#' (line ++ b'\n' ∷ rest) l) refl a in
    (ground (arith, p), ground (arith, p, done, n))

-- The `#` that ends a comment between "#`" and "`#", whose text has no backtick and does not begin
-- with `#`, is not read with it, and so it begins a comment of its own to the end of its line:
-- whatever follows the end of such a comment on that line is skipped too, unless a backtick stands
-- there first.
pub skip_comment_twice :
    (body line rest : Bytes) (l : Lexer)
    → l.remain ≡ b'#' ∷ b'`' ∷ (body ++ b'`' ∷ b'#' ∷ (line ++ b'\n' ∷ rest))
    → all not_backtick body ≡ true
    → first_or_eof (body ++ b'`' ∷ []) ≢ b'#'
    → all not_newline line ≡ true
    → first_or_eof (line ++ b'\n' ∷ []) ≢ b'`'
    → ((lexer_skip_comment l).1.remain ≡ b'#' ∷ (line ++ b'\n' ∷ rest))
      × ((lexer_skip_comment (lexer_skip_comment l).1).0 ≡ true)
      × ((lexer_skip_comment (lexer_skip_comment l).1).1.remain ≡ rest)
skip_comment_twice body line rest l e a n b m =
    let (_, first) =
      skip_comment-multiline body (line ++ b'\n' ∷ rest) l e a
        (λ p. n (same_first body b'`' (b'#' ∷ (line ++ b'\n' ∷ rest)) ∙ p)) in
    let (go_on, second) =
      skip_comment_line line rest (lexer_skip_comment l).1 first b
        (λ p. m (same_first line b'\n' rest ∙ p)) in
    (first, go_on, second)
  where
    same_first :
        (xs : Bytes) (c : ℕ) (rest : Bytes)
        → first_or_eof (xs ++ c ∷ []) ≡ first_or_eof (xs ++ c ∷ rest)
    same_first [] c rest = refl
    same_first (x ∷ xs) c rest = refl

end_is_no_whitespace : char_is_whitespace (first_or_eof []) ≡ false
unfolding char_is_whitespace
end_is_no_whitespace = refl

skip_whitespace_from-settles :
    (r : Bytes) (l : Lexer)
    → l.remain ≡ r
    → char_is_whitespace (lexer_future_char (skip_whitespace_from r l)) ≡ false
unfolding skip_whitespace_from lexer_future_char
skip_whitespace_from-settles [] l e = rw e end_is_no_whitespace
skip_whitespace_from-settles (c ∷ r) l e = elim (Bool-cases (char_is_whitespace c)) [
  | inl w ↦ rw (w, next_char-concat l c r e) (skip_whitespace_from-settles r (behind c r l) refl)
  | inr n ↦ rw n (rw e n)
]

skip_comment-false :
    (l : Lexer)
    → (lexer_skip_comment l).0 ≡ false
    → ((lexer_skip_comment l).1 ≡ l) × ((lexer_future_char l == b'#') ≡ false)
unfolding lexer_skip_comment
skip_comment-false l h = (ground arith, ground arith)

-- Where a byte other than the end-of-file value comes next, something is left.
future_char-pos : (l : Lexer) → lexer_future_char l ≡ b'#' → 0 < length l.remain
unfolding lexer_future_char
future_char-pos l e = split l.remain e
  where
    split : (r : Bytes) → first_or_eof r ≡ b'#' → 0 < length r
    split [] e = absurd (omega (arith, e))
    split (c ∷ r) e = omega arith

skip_comment-length :
    (l : Lexer)
    → (lexer_skip_comment l).0 ≡ true
    → length (lexer_skip_comment l).1.remain < length l.remain
unfolding lexer_skip_comment
skip_comment-length l h =
    let l' = (lexer_next_char l).1 in
    ground (
      arith,
      future_char-pos l,
      next_char-length l,
      Runs-length (skip_multiline_from-Runs l'.remain l' here),
      Runs-length (skip_line_from-Runs l'.remain l' here),
    )

skip_whitespace-settles :
    (l : Lexer) → char_is_whitespace (lexer_future_char (lexer_skip_whitespace l)) ≡ false
unfolding lexer_skip_whitespace
skip_whitespace-settles l = skip_whitespace_from-settles l.remain l refl

skip_trivia_on_lem :
    (fuel : ℕ) (l : Lexer)
    → skip_trivia_on (suc fuel) l ≡ (
        if (lexer_skip_comment (lexer_skip_whitespace l)).0
        then skip_trivia_on fuel (lexer_skip_comment (lexer_skip_whitespace l)).1
        else (lexer_skip_comment (lexer_skip_whitespace l)).1)
unfolding skip_trivia_on
skip_trivia_on_lem fuel l = refl

skip_trivia_on-settles :
    (fuel : ℕ) (l : Lexer)
    → length l.remain < fuel
    → (char_is_whitespace (lexer_future_char (skip_trivia_on fuel l)) ≡ false)
      × ((lexer_future_char (skip_trivia_on fuel l) == b'#') ≡ false)
skip_trivia_on-settles zero l h = absurd (omega arith)
skip_trivia_on-settles (suc fuel) l h =
    let m = lexer_skip_whitespace l in
    let w = Runs-length (lexer_skip_whitespace-Runs l here) in
    elim (Bool-cases (lexer_skip_comment m).0) [
      | inl again ↦
          rw (skip_trivia_on_lem, again)
            (skip_trivia_on-settles fuel (lexer_skip_comment m).1
              (omega (arith, w, skip_comment-length m again)))
      | inr stop ↦
          let (same, other) = skip_comment-false m stop in
          rw (skip_trivia_on_lem, stop) (rw same (skip_whitespace-settles l, other))
    ]

-- The trivia before a token are skipped to their end, however whitespace and comments alternate: what
-- comes next is neither whitespace nor the start of a comment. The rounds given suffice.
pub skip_trivia-settles :
    (l : Lexer)
    → (char_is_whitespace (lexer_future_char (skip_trivia l)) ≡ false)
      × ((lexer_future_char (skip_trivia l) == b'#') ≡ false)
unfolding skip_trivia
skip_trivia-settles l = skip_trivia_on-settles (suc (length l.remain)) l (omega arith)
