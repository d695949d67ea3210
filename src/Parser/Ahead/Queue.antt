-- ===== src/Parser/Ahead/Queue.antt =====
-- The steps of src/parser/private.c beside a list of tokens whose first may be looked at.
use mathlib.Core.Path.{subst}
use hoblang_old.Base.{
  Bool, true, false, List, [], ◌∷◌, ◌≡◌, refl, ◌∙◌, Option, none, some, if◌then◌else◌, inl, inr,
  Bool-cases,
}
use hoblang_old.Lexer.Token.{Token, TokenType, type_is}
use hoblang_old.Parser.Ahead.{
  IsBehind, Ahead, unread, Reads, parser_next-IsBehind, behind-Ahead, back-IsAt,
}
use hoblang_old.Parser.Cursor.{
  TokenSource, Parser, Outcome, Parsing, parsed, pure, ◌>>=◌, ◌>>◌, parser_next, parser_skip_next,
  parser_next_is, parser_next_is_not, parser_next_is_or, parser_next_is_not_or, parser_expect_next,
  continue_with,
}

-- A call of src/parser/private.c, and what it returns.
pub data CursorCall : Type 0 where
  call_next call_skip_next : CursorCall
  call_next_is call_next_is_not call_next_is_or call_next_is_not_or : TokenType → CursorCall
  call_expect_next : TokenType → CursorCall

pub data Answer : Type 0 where
  said : Bool → Answer
  gave : Option Token → Answer
  no_answer : Answer

-- The specification: the token read last, where it may still be given back, and those to come.
pub record Queue : Type 0 where
  pub held : Option Token
  pub coming : List Token

-- A test of the first token: it goes where it is of the type, and stays where it is not.
abbrev test_first :
    TokenType → (Token → Answer) → (Token → Answer) → Queue → Option (Answer × Queue)
test_first type hit miss q = elim q.coming [
  | [] ↦ none
  | t ∷ ts ↦
      if type_is t.type type
      then some (hit t, record { held = some t; coming = ts })
      else some (miss t, record { held = none; coming = t ∷ ts })
]

abbrev take_first : Queue → Option (Answer × Queue)
take_first q = elim q.coming [
  | [] ↦ none
  | t ∷ ts ↦ some (gave (some t), record { held = some t; coming = ts })
]

abbrev give_back : Queue → Option (Answer × Queue)
give_back q = elim q.held [
  | none ↦ none
  | some t ↦ some (no_answer, record { held = none; coming = t ∷ q.coming })
]

-- Nothing is specified where no token is left, nor where none can be given back.
abbrev pub queue_call : CursorCall → Queue → Option (Answer × Queue)
queue_call call_next q = take_first q
queue_call call_skip_next q = give_back q
queue_call (call_next_is type) q = test_first type (λ t. said true) (λ t. said false) q
queue_call (call_next_is_not type) q = test_first type (λ t. said false) (λ t. said true) q
queue_call (call_next_is_or type) q = test_first type (λ t. gave (some t)) (λ t. gave none) q
queue_call (call_next_is_not_or type) q = test_first type (λ t. gave none) (λ t. gave (some t)) q
queue_call (call_expect_next type) q = test_first type (λ t. gave (some t)) (λ t. gave none) q

abbrev answered : Answer → Option (List Answer × Queue) → Option (List Answer × Queue)
answered a none = none
answered a (some (more, q)) = some (a ∷ more, q)

abbrev then_calls :
    (Queue → Option (List Answer × Queue)) → Option (Answer × Queue) → Option (List Answer × Queue)
then_calls rest none = none
then_calls rest (some (a, q)) = answered a (rest q)

abbrev pub queue_calls : List CursorCall → Queue → Option (List Answer × Queue)
queue_calls [] q = some ([], q)
queue_calls (c ∷ cs) q = then_calls (queue_calls cs) (queue_call c q)

module _ {L : Type 0} ⦃S : TokenSource L⦄ where
  abbrev pub cursor_call : CursorCall → Parsing L Answer
  cursor_call call_next = do token ← parser_next; pure (gave (some token))
  cursor_call call_skip_next = do parser_skip_next; pure no_answer
  cursor_call (call_next_is type) = do b ← parser_next_is type; pure (said b)
  cursor_call (call_next_is_not type) = do b ← parser_next_is_not type; pure (said b)
  cursor_call (call_next_is_or type) = do token ← parser_next_is_or type; pure (gave token)
  cursor_call (call_next_is_not_or type) = do token ← parser_next_is_not_or type; pure (gave token)
  cursor_call (call_expect_next type) = do token ← parser_expect_next type; pure (gave token)

  abbrev pub cursor_calls : List CursorCall → Parsing L (List Answer)
  cursor_calls [] = pure []
  cursor_calls (c ∷ cs) = do a ← cursor_call c; more ← cursor_calls cs; pure (a ∷ more)

  -- The parser stands for the list.
  abbrev pub Shows : Queue → Parser L → Type 0
  Shows q p = elim q.held [ none ↦ Ahead q.coming p | some t ↦ IsBehind t q.coming p ]

  Shows-Ahead :
      (held : Option Token) (ts : List Token) (p : Parser L)
      → Shows (record { held = held; coming = ts }) p
      → Ahead ts p
  Shows-Ahead none ts p s = s
  Shows-Ahead (some t) ts p s = behind-Ahead t ts p s

  -- What is specified of a run happens.
  abbrev Kept : {A : Type 0} → Option (A × Queue) → Outcome L A → Parser L → Type 0
  Kept none o p = Unit {0}
  Kept (some (a, w)) o p = Reads o a p (Shows w)

  test-Kept :
      (type : TokenType) (hit miss : Token → Answer) (held : Option Token) (t : Token)
      (ts : List Token) (p q : Parser L) (o : Outcome L Answer)
      → IsBehind t ts q
      → q.failed ≡ p.failed
      → (type_is t.type type ≡ true → o ≡ parsed (hit t) q)
      → (type_is t.type type ≡ false → o ≡ parsed (miss t) (record q { skip_next = true }))
      → Kept (test_first type hit miss (record { held = held; coming = t ∷ ts })) o p
  test-Kept type hit miss held t ts p q o b s y n = elim (Bool-cases (type_is t.type type)) [
    | inl m ↦ rw m (q, y m, s, b)
    | inr m ↦ rw m (record q { skip_next = true }, n m, s, unread (back-IsAt b))
  ]

  call-Kept :
      (c : CursorCall) (held : Option Token) (coming : List Token) (p : Parser L)
      → Shows (record { held = held; coming = coming }) p
      → Kept (queue_call c (record { held = held; coming = coming })) (cursor_call c p) p
  unfolding parser_next_is parser_next_is_not parser_next_is_or parser_next_is_not_or
      parser_expect_next parser_skip_next
  call-Kept call_skip_next none coming p x = tt
  call-Kept call_skip_next (some t) coming p x =
      (record p { skip_next = true }, refl, refl, unread (back-IsAt x))
  call-Kept call_next held [] p x = tt
  call-Kept call_next held (t ∷ ts) p x =
      let (q, e, s, b) = parser_next-IsBehind t ts p (Shows-Ahead held (t ∷ ts) p x) in
      (q, rw e, s, b)
  call-Kept (call_next_is type) held [] p x = tt
  call-Kept (call_next_is type) held (t ∷ ts) p x =
      let (q, e, s, b) = parser_next-IsBehind t ts p (Shows-Ahead held (t ∷ ts) p x) in
      test-Kept type (λ t. said true) (λ t. said false) held t ts p q
        (cursor_call (call_next_is type) p) b s (λ m. rw (e, m)) (λ m. rw (e, m))
  call-Kept (call_next_is_not type) held [] p x = tt
  call-Kept (call_next_is_not type) held (t ∷ ts) p x =
      let (q, e, s, b) = parser_next-IsBehind t ts p (Shows-Ahead held (t ∷ ts) p x) in
      test-Kept type (λ t. said false) (λ t. said true) held t ts p q
        (cursor_call (call_next_is_not type) p) b s (λ m. rw (e, m)) (λ m. rw (e, m))
  call-Kept (call_next_is_or type) held [] p x = tt
  call-Kept (call_next_is_or type) held (t ∷ ts) p x =
      let (q, e, s, b) = parser_next-IsBehind t ts p (Shows-Ahead held (t ∷ ts) p x) in
      test-Kept type (λ t. gave (some t)) (λ t. gave none) held t ts p q
        (cursor_call (call_next_is_or type) p) b s (λ m. rw (e, m)) (λ m. rw (e, m))
  call-Kept (call_next_is_not_or type) held [] p x = tt
  call-Kept (call_next_is_not_or type) held (t ∷ ts) p x =
      let (q, e, s, b) = parser_next-IsBehind t ts p (Shows-Ahead held (t ∷ ts) p x) in
      test-Kept type (λ t. gave none) (λ t. gave (some t)) held t ts p q
        (cursor_call (call_next_is_not_or type) p) b s (λ m. rw (e, m)) (λ m. rw (e, m))
  call-Kept (call_expect_next type) held [] p x = tt
  call-Kept (call_expect_next type) held (t ∷ ts) p x =
      let (q, e, s, b) = parser_next-IsBehind t ts p (Shows-Ahead held (t ∷ ts) p x) in
      test-Kept type (λ t. gave (some t)) (λ t. gave none) held t ts p q
        (cursor_call (call_expect_next type) p) b s (λ m. rw (e, m, b.held)) (λ m. rw (e, m))

  answered-Kept :
      (a : Answer) (r : Option (List Answer × Queue)) (o : Outcome L (List Answer)) (p q : Parser L)
      → p.failed ≡ q.failed
      → Kept r o p
      → Kept (answered a r) (continue_with (λ more. pure (a ∷ more)) o) q
  answered-Kept a none o p q s k = tt
  answered-Kept a (some (more, w)) o p q s (p', e, s', x) = (p', rw e refl, s' ∙ s, x)

  then-Kept :
      (cs : List CursorCall) (r : Option (Answer × Queue)) (o : Outcome L Answer) (p : Parser L)
      → ((w : Queue) (q : Parser L) → Shows w q → Kept (queue_calls cs w) (cursor_calls cs q) q)
      → Kept r o p
      → Kept
          (then_calls (queue_calls cs) r)
          (continue_with (λ a. cursor_calls cs >>= (λ more. pure (a ∷ more))) o)
          p
  then-Kept cs none o p h k = tt
  then-Kept cs (some (a, w)) o p h (q, e, s, x) =
      rw e (answered-Kept a (queue_calls cs w) (cursor_calls cs q) q p s (h w q x))

  calls-Kept :
      (cs : List CursorCall) (v : Queue) (p : Parser L)
      → Shows v p
      → Kept (queue_calls cs v) (cursor_calls cs p) p
  calls-Kept [] v p x = (p, refl, refl, x)
  calls-Kept (c ∷ cs) v p x =
      then-Kept cs (queue_call c v) (cursor_call c p) p (calls-Kept cs)
        (call-Kept c v.held v.coming p x)

  -- Any sequence of the parser's steps, tests and returns of a token does to the source and the flag
  -- what it does to a list of tokens whose first can be looked at, as far as that is specified: the
  -- answers are the same, no error is recorded, and the parser stands for the list that is left.
  pub cursor_calls-queue_calls :
      (calls : List CursorCall) (v w : Queue) (answers : List Answer) (p : Parser L)
      → Shows v p
      → queue_calls calls v ≡ some (answers, w)
      → (q : Parser L) × (cursor_calls calls p ≡ parsed answers q)
        × (q.failed ≡ p.failed)
        × Shows w q
  cursor_calls-queue_calls calls v w answers p x e =
      subst (λ r. Kept r (cursor_calls calls p) p) e (calls-Kept calls v p x)
