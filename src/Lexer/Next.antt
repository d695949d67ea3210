-- ===== src/Lexer/Next.antt =====
-- `lexer_try_next` and `lexer_next` as wholes.
use hoblang_old.Base.{
  ℕ, zero, suc, ◌≤◌, ◌<◌, Bool, true, false, List, [], ◌∷◌, ◌≡◌, refl, ap, ◌∙◌, arith, Bytes,
  length, none, some, inl, inr, Bool-cases, if◌then◌else◌,
}
use hoblang_old.Lexer.Parts.{LexPartErr, lex_part_ok, lex_part_err, lex_part_missmatch}
use hoblang_old.Lexer.Position.{
  IsPlaced, SamePlace, Runs-Since, rollback-Since, Runs-IsPlaced, SamePlace-IsPlaced,
}
use hoblang_old.Lexer.Rules.{
  Rule, apply_rule, try_rules, outcome, locate_token, recognise, lexer_try_next, lexer_next_on,
  lexer_next, rules,
}
use hoblang_old.Lexer.Runs.{Runs, here, read, mark, fails, apply_rule-Runs, skip_trivia-Runs}
use hoblang_old.Lexer.State.{
  Lexer, lexer_begin, lexer_rollback, lexer_next_char, next_char-cases, lexer_finished,
}
use hoblang_old.Lexer.Trivia.{skip_trivia}

-- `l` has just begun a token where `s` stands.
pub record IsBegun (s l : Lexer) : Type 0 where
  pub place : SamePlace s l
  pub delta_is : l.delta ≡ 0
  pub start_is : l.start_location ≡ l.location

-- What the table may do at `s`: accept a token, behind bytes that a rule has read; refuse one with an
-- error, or recognise nothing, and then stand where it stood.
pub data Tried (s : Lexer) : Bool × Lexer → Type 0 where
  accepted : {m l : Lexer} → SamePlace s m → Runs m l → Tried s (true, l)
  refused : {l : Lexer} → SamePlace s l → Tried s (true, l)
  unknown : {l : Lexer} → SamePlace s l → Tried s (false, l)

module _ {s : Lexer} where
  pub rollback-IsBegun : {l m : Lexer} → IsBegun s l → Runs l m → IsBegun s (lexer_rollback m)
  unfolding lexer_rollback
  rollback-IsBegun b h =
      let (x, y, z) = rollback-Since (Runs-Since b.delta_is b.start_is h) in
      let (x', y', z') = b.place in
      record { place = (x ∙ x', y ∙ y', z ∙ z'); delta_is = refl; start_is = refl }

  outcome-Tried :
      (e : LexPartErr) (m : Lexer) (next : Bool × Lexer) {l : Lexer}
      → IsBegun s l
      → Runs l m
      → Tried s next
      → Tried s (elim (outcome e m) [ some result ↦ result | none ↦ next ])
  outcome-Tried lex_part_ok m next b h k = accepted b.place h
  outcome-Tried lex_part_err m next b h k = refused (rollback-IsBegun b h).place
  outcome-Tried lex_part_missmatch m next b h k = k

  pub try_rules-Tried : (rs : List Rule) (l : Lexer) → IsBegun s l → Tried s (try_rules rs l)
  unfolding try_rules
  try_rules-Tried [] l b = unknown b.place
  try_rules-Tried (r ∷ rs) l b =
      let h = apply_rule-Runs r l here in
      outcome-Tried (apply_rule r l).0 (apply_rule r l).1 _ b h
        (try_rules-Tried rs (lexer_rollback (apply_rule r l).1) (rollback-IsBegun b h))

-- Reading never gives bytes back.
pub Runs-length : {s l : Lexer} → Runs s l → length l.remain ≤ length s.remain
Runs-length here = omega arith
Runs-length (read {l} h) = elim (next_char-cases l) [
  | inl (_, e) ↦ rw e (Runs-length h)
  | inr (c, rest, e, p) ↦ rw p (omega (arith, ap length e, Runs-length h))
]
Runs-length (mark t v h) = Runs-length h
Runs-length (fails h) = Runs-length h

not_finished : (l : Lexer) → lexer_finished l ≡ false → 0 < length l.remain
not_finished l e = split l.remain e
  where
    split : (r : Bytes) → elim r [ [] ↦ true | _ ∷ _ ↦ false ] ≡ false → 0 < length r
    split [] e = cc
    split (c ∷ r) e = omega arith

pub next_char-length :
    (l : Lexer) → 0 < length l.remain → length (lexer_next_char l).1.remain < length l.remain
next_char-length l h = elim (next_char-cases l) [
  | inl (e, _) ↦ absurd (omega (arith, ap length e))
  | inr (c, rest, e, p) ↦ rw p (omega (arith, ap length e))
]

lexer_try_next_lem : (l : Lexer) → lexer_try_next l ≡ recognise (lexer_begin (skip_trivia l))
unfolding lexer_try_next
lexer_try_next_lem l = refl

lexer_next_on_lem :
    (fuel : ℕ) (l : Lexer)
    → lexer_next_on (suc fuel) l ≡ (
        if (lexer_try_next l).0
        then some (lexer_try_next l).1
        else lexer_next_on fuel (lexer_next_char (lexer_try_next l).1).1)
unfolding lexer_next_on
lexer_next_on_lem fuel l = refl

-- What one call keeps: the content and the location; it gives no byte back, and answers `false` only
-- where a byte is left to skip.
record Advances (full : Bytes) (left : ℕ) (r : Bool × Lexer) : Type 0 where
  placed : IsPlaced full r.1
  shorter : length r.1.remain ≤ left
  left_over : r.0 ≡ false → 0 < length r.1.remain

module _ {full : Bytes} where
  Tried-Advances :
      {s : Lexer} {r : Bool × Lexer}
      → IsPlaced full s
      → 0 < length s.remain
      → Tried s r
      → Advances full (length s.remain) r
  Tried-Advances i pos (accepted p h) = record {
    placed = Runs-IsPlaced (SamePlace-IsPlaced i p) h;
    shorter = omega (arith, Runs-length h, ap length p.1);
    left_over = λ e. cc;
  }
  Tried-Advances i pos (refused p) = record {
    placed = SamePlace-IsPlaced i p;
    shorter = omega (arith, ap length p.1);
    left_over = λ e. cc;
  }
  Tried-Advances i pos (unknown p) = record {
    placed = SamePlace-IsPlaced i p;
    shorter = omega (arith, ap length p.1);
    left_over = λ e. omega (arith, ap length p.1);
  }

  begin-IsPlaced : (l : Lexer) → IsPlaced full l → IsPlaced full (lexer_begin l)
  begin-IsPlaced l i = record { full_is = i.full_is; line_is = i.line_is; column_is = i.column_is }

  recognise-Advances :
      (l : Lexer)
      → IsPlaced full l
      → l.delta ≡ 0
      → l.start_location ≡ l.location
      → Advances full (length l.remain) (recognise l)
  unfolding recognise
  recognise-Advances l i d b = elim (Bool-cases (lexer_finished l)) [
    | inl e ↦ rw e (record {
      placed = record { full_is = i.full_is; line_is = i.line_is; column_is = i.column_is };
      shorter = omega arith;
      left_over = λ x. cc;
    })
    | inr e ↦ rw e (
        Tried-Advances {s = locate_token l}
          (record { full_is = i.full_is; line_is = i.line_is; column_is = i.column_is })
          (not_finished l e)
          (try_rules-Tried rules (locate_token l)
            (record { place = (refl, refl, refl); delta_is = d; start_is = b })))
  ]

  lexer_try_next-Advances :
      (l : Lexer) → IsPlaced full l → Advances full (length l.remain) (lexer_try_next l)
  lexer_try_next-Advances l i =
      let m = lexer_begin (skip_trivia l) in
      let a =
        recognise-Advances m (begin-IsPlaced (skip_trivia l) (Runs-IsPlaced i (skip_trivia-Runs l)))
          refl refl in
      rw lexer_try_next_lem (record {
        placed = a.placed;
        shorter = omega (arith, a.shorter, Runs-length (skip_trivia-Runs l));
        left_over = a.left_over;
      })

  lexer_next_on-IsPlaced :
      (fuel : ℕ) (l : Lexer)
      → length l.remain < fuel
      → IsPlaced full l
      → (l' : Lexer) × (lexer_next_on fuel l ≡ some l')
        × IsPlaced full l'
        × (length l'.remain ≤ length l.remain)
  lexer_next_on-IsPlaced zero l h i = absurd (omega arith)
  lexer_next_on-IsPlaced (suc fuel) l h i = elim (Bool-cases (lexer_try_next l).0) [
    | inl e ↦ ((lexer_try_next l).1, rw (lexer_next_on_lem, e), a.placed, a.shorter)
    | inr e ↦
        let m = (lexer_next_char (lexer_try_next l).1).1 in
        let fewer : length m.remain < length (lexer_try_next l).1.remain =
          next_char-length _ (a.left_over e) in
        let (l', p, i', s) =
          lexer_next_on-IsPlaced fuel m (omega (arith, a.shorter, fewer))
            (Runs-IsPlaced a.placed (read here)) in
        (l', rw (lexer_next_on_lem, e) p, i', omega (arith, a.shorter, fewer, s))
  ]
    where
      a : Advances full (length l.remain) (lexer_try_next l)
      a = lexer_try_next-Advances l i

pub lexer_next_lem :
    (l : Lexer)
    → lexer_next l ≡ (
        if (lexer_try_next l).0
        then some (lexer_try_next l).1
        else lexer_next_on (length l.remain) (lexer_next_char (lexer_try_next l).1).1)
unfolding lexer_next
lexer_next_lem l = refl

-- From a lexer whose bytes, read and left, are those of the file and whose location is that of the
-- bytes read, `lexer_next` always returns, whatever the bytes; the lexer is again such a one for
-- the same file, and no byte is given back.
pub lexer_next-IsPlaced :
    (full : Bytes) (l : Lexer)
    → IsPlaced full l
    → (l' : Lexer) × (lexer_next l ≡ some l')
      × IsPlaced full l'
      × (length l'.remain ≤ length l.remain)
unfolding lexer_next
lexer_next-IsPlaced full l i = lexer_next_on-IsPlaced (suc (length l.remain)) l (omega arith) i
