-- ===== src/Lexer/Dispatch.antt =====
-- The first byte of a token and the rules of the table.
use mathlib.Core.List.{append-nil}
use hoblang_old.Base.{
  ℕ, Bool, true, false, not, ◌&&◌, List, [], ◌∷◌, ◌++◌, ◌≡◌, refl, sym, ap, ◌∙◌, arith, ◌==◌, Bytes,
}
use hoblang_old.Core.Chars.{char_is_whitespace, char_is_digit, char_is_ident_start}
use hoblang_old.Lexer.Next.{IsBegun, rollback-IsBegun}
use hoblang_old.Lexer.Parts.{
  lex_part_missmatch, lex_symbol, lex_symbol_alt, read_keyword, lex_keyword, lex_char, lex_ident,
  lex_integer, lex_str,
}
use hoblang_old.Lexer.Rules.{
  Rule, symbol, symbol_alt, keyword, character, identifier, number, text, apply_rule, try_rules,
  rules, recognise, lexer_try_next, locate_token,
}
use hoblang_old.Lexer.Runs.{here, apply_rule-Runs}
use hoblang_old.Lexer.State.{
  Lexer, lexer_begin, lexer_fail, lexer_rollback, lexer_future_char, lexer_finished,
}
use hoblang_old.Lexer.Trivia.{
  skip_whitespace_from, lexer_skip_whitespace, lexer_skip_comment, skip_trivia_on, skip_trivia,
}
use hoblang_old.Lexer.Words.{and-true, next_char-concat}

-- The rule wants another first byte than `c`.
abbrev pub starts_other : ℕ → Rule → Bool
starts_other c (symbol s t) = not (s == c)
starts_other c (symbol_alt start alts) = not (start.symbol == c)
starts_other c (keyword [] t) = false
starts_other c (keyword (k ∷ ks) t) = not (c == k)
starts_other c character = not (c == b'\'')
starts_other c identifier = not (char_is_ident_start c)
starts_other c number = not (char_is_digit c)
starts_other c text = not (c == b'"')

abbrev pub all_start_other : ℕ → List Rule → Bool
all_start_other c [] = true
all_start_other c (r ∷ rs) = starts_other c r && all_start_other c rs

apply_rule-starts_other :
    (r : Rule) (c : ℕ) (rest : Bytes) (l : Lexer)
    → l.remain ≡ c ∷ rest
    → starts_other c r ≡ true
    → ((apply_rule r l).0 ≡ lex_part_missmatch) × ((apply_rule r l).1.token ≡ l.token)
unfolding apply_rule lex_symbol lex_symbol_alt read_keyword lex_keyword lex_char lex_ident
    lex_integer lex_str
apply_rule-starts_other (symbol s t) c rest l e h = ground (arith, next_char-concat l c rest e)
apply_rule-starts_other (symbol_alt s a) c rest l e h = ground (arith, next_char-concat l c rest e)
apply_rule-starts_other (keyword [] t) c rest l e h = cc
apply_rule-starts_other (keyword (k ∷ ks) t) c rest l e h =
    ground (arith, next_char-concat l c rest e)
apply_rule-starts_other character c rest l e h = ground (arith, next_char-concat l c rest e)
apply_rule-starts_other identifier c rest l e h = ground (arith, next_char-concat l c rest e)
apply_rule-starts_other number c rest l e h = ground (arith, next_char-concat l c rest e)
apply_rule-starts_other text c rest l e h = ground (arith, next_char-concat l c rest e)

-- Rules that want another first byte are passed over, and the lexer stands where it stood, with the
-- token that it had.
pub try_rules-starts_other :
    (rs more : List Rule) (c : ℕ) (rest : Bytes) (s l : Lexer)
    → s.remain ≡ c ∷ rest
    → IsBegun s l
    → all_start_other c rs ≡ true
    → (l' : Lexer) × IsBegun s l'
      × (try_rules (rs ++ more) l ≡ try_rules more l')
      × (l'.token ≡ l.token)
unfolding try_rules lexer_rollback
try_rules-starts_other [] more c rest s l e b h = (l, b, refl, refl)
try_rules-starts_other (r ∷ rs) more c rest s l e b h =
    let (o, t) = and-true (starts_other c r) (all_start_other c rs) h in
    let m = (apply_rule r l).1 in
    let b' = rollback-IsBegun b (apply_rule-Runs r l here) in
    let (missed, kept) = apply_rule-starts_other r c rest l (b.place.1 ∙ e) o in
    let (l', b'', p, q) = try_rules-starts_other rs more c rest s (lexer_rollback m) e b' t in
    (l', b'', rw (missed, try_rules) p, q ∙ kept)

skip_whitespace-token :
    (c : ℕ) (rest : Bytes) (l : Lexer)
    → l.remain ≡ c ∷ rest
    → char_is_whitespace c ≡ false
    → lexer_skip_whitespace l ≡ l
unfolding lexer_skip_whitespace
skip_whitespace-token c rest l e w =
    ap (λ r. skip_whitespace_from r l) e ∙ unfold skip_whitespace_from in rw w

skip_comment-token :
    (c : ℕ) (rest : Bytes) (l : Lexer)
    → l.remain ≡ c ∷ rest
    → (c == b'#') ≡ false
    → lexer_skip_comment l ≡ (false, l)
unfolding lexer_skip_comment lexer_future_char
skip_comment-token c rest l e n = ground arith

-- Where a token can begin, nothing is skipped.
pub skip_trivia-token :
    (c : ℕ) (rest : Bytes) (l : Lexer)
    → l.remain ≡ c ∷ rest
    → char_is_whitespace c ≡ false
    → (c == b'#') ≡ false
    → skip_trivia l ≡ l
unfolding skip_trivia skip_trivia_on
skip_trivia-token c rest l e w n =
    rw (skip_whitespace-token c rest l e w, skip_comment-token c rest l e n)

-- At a byte with which no rule of the table begins, and which is no whitespace and no comment, nothing
-- is recognised: `lexer_try_next` answers `false`, has reported a failure, and stands at that byte.
pub lexer_try_next-unknown :
    (c : ℕ) (rest : Bytes) (l : Lexer)
    → l.remain ≡ c ∷ rest
    → char_is_whitespace c ≡ false
    → (c == b'#') ≡ false
    → all_start_other c rules ≡ true
    → ((lexer_try_next l).0 ≡ false)
      × ((lexer_try_next l).1.failed ≡ true)
      × ((lexer_try_next l).1.remain ≡ c ∷ rest)
unfolding lexer_try_next recognise
lexer_try_next-unknown c rest l e w n o =
    let m = lexer_begin l in
    let s = locate_token m in
    let begun : IsBegun s s = record {
      place = (refl, refl, refl);
      delta_is = refl;
      start_is = refl;
    } in
    let (l', b, p, _) = try_rules-starts_other rules [] c rest s s e begun o in
    let p' : try_rules rules s ≡ (false, lexer_fail l') =
      ap (λ rs. try_rules rs s) (sym (append-nil rules)) ∙ p ∙ unfold try_rules in refl in
    rw (skip_trivia-token c rest l e w n, unfinished c rest l e) (rw p' (refl, refl, b.place.1 ∙ e))
  where
    unfinished : (c : ℕ) (rest : Bytes) (l : Lexer) → l.remain ≡ c ∷ rest → lexer_finished l ≡ false
    unfinished c rest l e = rw e
