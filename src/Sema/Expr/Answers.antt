-- ===== src/Sema/Expr/Answers.antt =====
-- What holds of every answer of an analysis.
use hoblang_old.Base.{◌≡◌, Option, none, some, arith}
use hoblang_old.Sema.Analysis.{World, Analysis, continue_with}
use hoblang_old.Sema.Expr.{SemaExpr, sema_value_expr_type}
use hoblang_old.Sema.Types.{Ref}
use hoblang_old.Sema.Value.{SemaValue, value_final, value_var, sema_value_typeof}

-- A value that the program computes when it runs.
abbrev pub IsRuntime : {F : Type 0} → SemaValue F → Type 0
IsRuntime (value_final t) = Unit
IsRuntime (value_var t) = Unit
IsRuntime _ = ⊥

-- What holds of NULL, and of every answer of the second part, holds of both parts together.
pub holds_behind :
    {A B : Type 0} (P : Option (Option B × World) → Type 0)
    → P none
    → ((w : World) → P (some (none, w)))
    → (x : Option (Option A × World)) {f : A → Analysis B} → ((a : A) (w : World) → P (f a w))
    → P (continue_with f x)
holds_behind P n m none h = n
holds_behind P n m (some (none, w)) h = m w
holds_behind P n m (some (some a, w)) h = h a w

-- Every answer satisfies `Q`.
abbrev pub Answers : {A : Type 0} → (A → World → Type 0) → Option (Option A × World) → Type 0
Answers Q none = Unit
Answers Q (some (none, w)) = Unit
Answers Q (some (some a, w)) = Q a w

pub Answers-behind :
    {A B : Type 0} (Q : A → World → Type 0) (P : B → World → Type 0)
    → (x : Option (Option A × World)) (f : A → Analysis B) → Answers Q x
    → ((a : A) (w : World) → Q a w → Answers P (f a w))
    → Answers P (continue_with f x)
Answers-behind Q P none f q h = tt
Answers-behind Q P (some (none, w)) f q h = tt
Answers-behind Q P (some (some a, w)) f q h = h a w q

-- What follows from what holds of every answer.
pub Answers-mono :
    {A : Type 0} (Q P : A → World → Type 0) (x : Option (Option A × World))
    → ((a : A) (w : World) → Q a w → P a w)
    → Answers Q x
    → Answers P x
Answers-mono Q P none h q = tt
Answers-mono Q P (some (none, w)) h q = tt
Answers-mono Q P (some (some a, w)) h q = h a w q

module _ {F : Type 0} where
  -- An expression whose values are runtime values gives such a value, and its type.
  pub value_type-Answers :
      (e : SemaExpr F) (expect : Option Ref) (w : World)
      → Answers (λ v _. IsRuntime v) (e expect w)
      → Answers
          (λ r _. IsRuntime r.0 × (sema_value_typeof r.0 ≡ some r.1))
          (sema_value_expr_type e expect w)
  unfolding sema_value_expr_type
  value_type-Answers e expect w q =
      Answers-behind (λ v _. IsRuntime v)
        (λ r _. IsRuntime r.0 × (sema_value_typeof r.0 ≡ some r.1)) (e expect w) _ q
        (λ v w' r. ground arith)

  -- An expression whose values have the type `t` gives that type with them.
  pub value_type-is :
      (Q : SemaValue F → World → Type 0) (t : Ref) (e : SemaExpr F) (expect : Option Ref)
      (w : World)
      → Answers (λ v w'. Q v w' × (sema_value_typeof v ≡ some t)) (e expect w)
      → Answers (λ p w'. Q p.0 w' × (p.1 ≡ t)) (sema_value_expr_type e expect w)
  unfolding sema_value_expr_type
  value_type-is Q t e expect w q =
      Answers-behind (λ v w'. Q v w' × (sema_value_typeof v ≡ some t))
        (λ p w'. Q p.0 w' × (p.1 ≡ t)) (e expect w) _ q (λ v w' r. ground arith)
