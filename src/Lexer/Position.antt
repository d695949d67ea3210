-- ===== src/Lexer/Position.antt =====
-- Where the lexer stands while it reads: the content, the location, and what a rollback gives back.
use hoblang_old.Base.{
  ℕ, suc, ◌+◌, [], ◌∷◌, ◌≡◌, refl, ap, arith, ◌==◌, if◌then◌else◌, Bytes, inl, inr,
}
use hoblang_old.Lexer.Rules.{Rule, apply_rule}
use hoblang_old.Lexer.Runs.{Runs, here, read, mark, fails, apply_rule-Runs}
use hoblang_old.Lexer.State.{
  Lexer, lexer_begin, lexer_rollback, lexer_next_char, next_char-cases, unread,
}

-- The bytes of the file, from what was read and what was not.
abbrev pub content : Bytes → Bytes → Bytes
content [] remain = remain
content (c ∷ before) remain = content before (c ∷ remain)

abbrev pub newlines : Bytes → ℕ
newlines [] = 0
newlines (c ∷ before) = (if c == b'\n' then 1 else 0) + newlines before

-- How many bytes stand behind the last newline; the list has the last byte first.
abbrev pub since_newline : Bytes → ℕ
since_newline [] = 0
since_newline (c ∷ before) = if c == b'\n' then 0 else suc (since_newline before)

-- The lexer of the file `full`, with the location that the bytes read have.
pub record IsPlaced (full : Bytes) (l : Lexer) : Type 0 where
  pub full_is : content l.before l.remain ≡ full
  pub line_is : l.location.line ≡ newlines l.before
  pub column_is : l.location.column ≡ since_newline l.before

-- `l` came from `s`, which had just begun a token, by reading `l.delta` bytes.
pub record Since (s l : Lexer) : Type 0 where
  pub given_back : unread l.delta l.before l.remain ≡ (s.before, s.remain)
  pub start_is : l.start_location ≡ s.location

module _ {s : Lexer} where
  next_char-Since : (l : Lexer) → Since s l → Since s (lexer_next_char l).1
  next_char-Since l h = elim (next_char-cases l) [
    | inl (_, e) ↦ rw e h
    | inr (c, rest, e, p) ↦
        rw p (record { given_back = rw e at h.given_back; start_is = h.start_is })
  ]

  -- Whatever was read since the token began can be given back.
  pub Runs-Since : {l : Lexer} → s.delta ≡ 0 → s.start_location ≡ s.location → Runs s l → Since s l
  Runs-Since d b here = record { given_back = rw d; start_is = b }
  Runs-Since d b (read {l} h) = next_char-Since l (Runs-Since d b h)
  Runs-Since d b (mark t v h) =
      let k = Runs-Since d b h in record { given_back = k.given_back; start_is = k.start_is }
  Runs-Since d b (fails h) =
      let k = Runs-Since d b h in record { given_back = k.given_back; start_is = k.start_is }

-- The place of a lexer: what it has read, what is left, and the location.
abbrev pub SamePlace : Lexer → Lexer → Type 0
SamePlace s l = (l.before ≡ s.before) × (l.remain ≡ s.remain) × (l.location ≡ s.location)

pub rollback-Since : {s l : Lexer} → Since s l → SamePlace s (lexer_rollback l)
unfolding lexer_rollback
rollback-Since h = (ap (λ p. p.0) h.given_back, ap (λ p. p.1) h.given_back, h.start_is)

-- A refused alternative leaves no trace on the place: rolling back what any rule has read, from
-- the start of a token, gives back the bytes and the location at which the token began.
pub rollback-apply_rule :
    (r : Rule) (l : Lexer) → SamePlace l (lexer_rollback (apply_rule r (lexer_begin l)).1)
rollback-apply_rule r l =
    rollback-Since
      (Runs-Since {s = lexer_begin l} refl refl (apply_rule-Runs r (lexer_begin l) here))

module _ {full : Bytes} where
  next_char-IsPlaced : (l : Lexer) → IsPlaced full l → IsPlaced full (lexer_next_char l).1
  next_char-IsPlaced l h = elim (next_char-cases l) [
    | inl (_, e) ↦ rw e h
    | inr (c, rest, e, p) ↦ rw p (record {
      full_is = rw e at h.full_is;
      line_is = ground (arith, h.line_is);
      column_is = ground (arith, h.column_is);
    })
  ]

  -- Reading keeps the content and the location true.
  pub Runs-IsPlaced : {s l : Lexer} → IsPlaced full s → Runs s l → IsPlaced full l
  Runs-IsPlaced i here = i
  Runs-IsPlaced i (read {l} h) = next_char-IsPlaced l (Runs-IsPlaced i h)
  Runs-IsPlaced i (mark t v h) =
      let k = Runs-IsPlaced i h in
      record { full_is = k.full_is; line_is = k.line_is; column_is = k.column_is }
  Runs-IsPlaced i (fails h) =
      let k = Runs-IsPlaced i h in
      record { full_is = k.full_is; line_is = k.line_is; column_is = k.column_is }

  pub SamePlace-IsPlaced : {s l : Lexer} → IsPlaced full s → SamePlace s l → IsPlaced full l
  SamePlace-IsPlaced i (b, r, p) = record {
    full_is = rw (b, r) i.full_is;
    line_is = rw (b, p) i.line_is;
    column_is = rw (b, p) i.column_is;
  }
