-- ===== src/Lexer/Stuck.antt =====
-- A string literal that is refused.
use hoblang_old.Base.{
  ℕ, zero, suc, Bool, true, false, ◌||◌, List, [], ◌∷◌, ◌++◌, ◌≡◌, refl, ap, ◌∙◌, arith, ◌==◌,
  Bytes, Option, none, some,
}
use hoblang_old.Core.Chars.{char_is_whitespace, char_is_ident_start, char_is_latin, char_is_digit}
use hoblang_old.Lexer.Dispatch.{all_start_other, try_rules-starts_other, skip_trivia-token}
use hoblang_old.Lexer.Next.{IsBegun, rollback-IsBegun, lexer_next_lem}
use hoblang_old.Lexer.Parts.{lex_part_err, escaped_char, lexer_next_escaped, read_str, lex_str}
use hoblang_old.Lexer.Rules.{
  Rule, character, identifier, number, text, apply_rule, try_rules, rules, symbol_rules,
  keyword_rules, recognise, locate_token, lexer_try_next, lexer_next,
}
use hoblang_old.Lexer.Runs.{here, apply_rule-Runs}
use hoblang_old.Lexer.State.{
  Lexer, lexer_begin, lexer_rollback, lexer_finished, lexer_future_char, first_or_eof, behind,
}
use hoblang_old.Lexer.Words.{next_char-concat}

-- The letters that may follow a backslash in a string.
abbrev pub is_escape : ℕ → Bool
is_escape c = c == b'0' || c == b'r' || c == b'n' || c == b'"'

-- Calling `lexer_next` so many times.
abbrev pub lexer_next_times : ℕ → Lexer → Option Lexer
lexer_next_times zero l = some l
lexer_next_times (suc n) l = elim (lexer_next l) [ none ↦ none | some l' ↦ lexer_next_times n l' ]

-- A string literal that begins with an escape that there is not.
abbrev bad_text : ℕ → Bytes → Bytes
bad_text c rest = b'"' ∷ b'\\' ∷ c ∷ rest

escaped_char-refused :
    (c : ℕ) (l : Lexer)
    → is_escape c ≡ false
    → ((escaped_char b'"' c l).0 ≡ false)
      × ((escaped_char b'"' c l).2.failed ≡ true)
      × ((escaped_char b'"' c l).2.token ≡ l.token)
unfolding escaped_char
escaped_char-refused c l h = ground arith

next_escaped-refused :
    (c : ℕ) (rest : Bytes) (l : Lexer)
    → l.remain ≡ b'\\' ∷ c ∷ rest
    → is_escape c ≡ false
    → ((lexer_next_escaped b'"' l).0 ≡ false)
      × ((lexer_next_escaped b'"' l).2.failed ≡ true)
      × ((lexer_next_escaped b'"' l).2.token ≡ l.token)
unfolding lexer_next_escaped
next_escaped-refused c rest l e h =
    let l1 = behind b'\\' (c ∷ rest) l in
    rw (next_char-concat l b'\\' (c ∷ rest) e)
      (rw (next_char-concat l1 c rest refl) (escaped_char-refused c (behind c rest l1) h))

read_str-refused :
    (c : ℕ) (rest rounds : Bytes) (l : Lexer)
    → l.remain ≡ b'\\' ∷ c ∷ rest
    → is_escape c ≡ false
    → ((read_str (0 ∷ rounds) [] l).0 ≡ false)
      × ((read_str (0 ∷ rounds) [] l).2.failed ≡ true)
      × ((read_str (0 ∷ rounds) [] l).2.token ≡ l.token)
unfolding read_str lexer_future_char
read_str-refused c rest rounds l e h =
    let (bad, failed, kept) = next_escaped-refused c rest l e h in
    let now : first_or_eof l.remain ≡ b'\\' = ap first_or_eof e in
    rw (now, bad) (refl, failed, kept)

lex_str-refused :
    (c : ℕ) (rest : Bytes) (l : Lexer)
    → l.remain ≡ bad_text c rest
    → is_escape c ≡ false
    → ((lex_str l).0 ≡ lex_part_err)
      × ((lex_str l).1.failed ≡ true)
      × ((lex_str l).1.token ≡ l.token)
unfolding lex_str read_str
lex_str-refused c rest l e h =
    let l1 = behind b'"' (b'\\' ∷ c ∷ rest) l in
    let (bad, failed, kept) = read_str-refused c rest (c ∷ rest) l1 refl h in
    rw (next_char-concat l b'"' (b'\\' ∷ c ∷ rest) e) (rw bad (refl, failed, kept))

rules_before_text : List Rule
unfolding symbol_rules keyword_rules
rules_before_text = symbol_rules ++ (keyword_rules ++ (character ∷ identifier ∷ number ∷ []))

rules-split : rules ≡ rules_before_text ++ text ∷ []
unfolding rules rules_before_text
rules-split = refl

quote_starts_other : all_start_other b'"' rules_before_text ≡ true
unfolding rules_before_text char_is_ident_start char_is_latin char_is_digit
quote_starts_other = refl

lexer_try_next-refused :
    (c : ℕ) (rest : Bytes) (l : Lexer)
    → l.remain ≡ bad_text c rest
    → is_escape c ≡ false
    → ((lexer_try_next l).0 ≡ true)
      × ((lexer_try_next l).1.remain ≡ bad_text c rest)
      × ((lexer_try_next l).1.failed ≡ true)
      × ((lexer_try_next l).1.token.type ≡ l.token.type)
unfolding lexer_try_next recognise
lexer_try_next-refused c rest l e h =
    let m = lexer_begin l in
    let s = locate_token m in
    let begun : IsBegun s s = record {
      place = (refl, refl, refl);
      delta_is = refl;
      start_is = refl;
    } in
    let (l', b, p, same) =
      try_rules-starts_other rules_before_text (text ∷ []) b'"' (b'\\' ∷ c ∷ rest) s s e begun
        quote_starts_other in
    let (bad, failed, kept) = lex_str-refused c rest l' (b.place.1 ∙ e) h in
    let b' = rollback-IsBegun b (apply_rule-Runs text l' here) in
    let p' : try_rules rules s ≡ (true, lexer_rollback (apply_rule text l').1) =
      ap (λ rs. try_rules rs s) rules-split ∙ p ∙ text_refused l' bad in
    rw (skip_trivia-token b'"' (b'\\' ∷ c ∷ rest) l e refl_ws refl, unfinished c rest l e)
      (rw p' (
        refl,
        b'.place.1 ∙ e,
        unfold lexer_rollback apply_rule in failed,
        unfold lexer_rollback apply_rule in ap (λ t. t.type) (kept ∙ same),
      ))
  where
    refl_ws : char_is_whitespace b'"' ≡ false
    refl_ws = unfold char_is_whitespace in refl

    text_refused :
        (l' : Lexer)
        → (lex_str l').0 ≡ lex_part_err
        → try_rules (text ∷ []) l' ≡ (true, lexer_rollback (apply_rule text l').1)
    text_refused l' bad = unfold try_rules apply_rule in rw (bad, try_rules, apply_rule)

    unfinished :
        (c : ℕ) (rest : Bytes) (l : Lexer) → l.remain ≡ bad_text c rest → lexer_finished l ≡ false
    unfinished c rest l e = rw e

once : (l : Lexer) → (lexer_try_next l).0 ≡ true → lexer_next l ≡ some (lexer_try_next l).1
once l t = lexer_next_lem l ∙ rw t

-- The type of the token is left as it was.
pub lexer_next-stuck :
    (c : ℕ) (rest : Bytes) (l : Lexer)
    → l.remain ≡ b'"' ∷ b'\\' ∷ c ∷ rest
    → is_escape c ≡ false
    → (l' : Lexer) × (lexer_next l ≡ some l')
      × (l'.remain ≡ b'"' ∷ b'\\' ∷ c ∷ rest)
      × (l'.token.type ≡ l.token.type)
lexer_next-stuck c rest l e h =
    let (t, r, _, k) = lexer_try_next-refused c rest l e h in ((lexer_try_next l).1, once l t, r, k)

-- A string literal that begins with an unknown escape, a backslash for one, holds the lexer up: however
-- often `lexer_next` is called, it returns, has reported a failure, and stands at the opening quote.
pub lexer_next_times-stuck :
    (n c : ℕ) (rest : Bytes) (l : Lexer)
    → l.remain ≡ b'"' ∷ b'\\' ∷ c ∷ rest
    → is_escape c ≡ false
    → (l' : Lexer) × (lexer_next_times (suc n) l ≡ some l')
      × (l'.remain ≡ b'"' ∷ b'\\' ∷ c ∷ rest)
      × (l'.failed ≡ true)
lexer_next_times-stuck zero c rest l e h =
    let (t, r, f, _) = lexer_try_next-refused c rest l e h in
    ((lexer_try_next l).1, rw (once l t, lexer_next_times), r, f)
lexer_next_times-stuck (suc n) c rest l e h =
    let (t, r, f, _) = lexer_try_next-refused c rest l e h in
    let (l', p, r', f') = lexer_next_times-stuck n c rest (lexer_try_next l).1 r h in
    (l', rw (once l t, lexer_next_times) p, r', f')
