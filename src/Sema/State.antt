-- ===== src/Sema/State.antt =====
-- The state of the analysis of one module: include/sema/module/impl.h and the headers of scopes,
-- declarations and loops. A pointer to a body, a defer or a value is an index.
use hoblang_old.Base.{ℕ, zero, suc, Bool, List, [], ◌∷◌, Option, Bytes, get_elem?}
use hoblang_old.Sema.Types.{Ref}

-- A declaration; it declares `name` of a type where `in_type` is not NULL. `value` is a pointer.
pub record SemaDecl : Type 0 where
  pub name : Bytes
  pub in_type : Option Ref
  pub value : ℕ

pub record SemaScope : Type 0 where
  pub decls : List SemaDecl
  pub body : Option ℕ

-- `name` is set where `is_named` is.
pub record SemaLoop : Type 0 where
  pub name : Option Bytes
  pub body : ℕ

-- The vectors `scopes` and `loops` are stacks: their top, which is their last element, stands first.
pub record SemaScopeStack : Type 0 where
  pub scopes : List SemaScope
  pub loops : List SemaLoop
  pub returning : Ref

-- What the analysis keeps in an `AstBody`.
pub record AstBody : Type 0 where
  pub parent : Option ℕ
  pub defers : List ℕ

-- `bodies` is the memory of the bodies of the syntax tree.
pub record SemaModule : Type 0 where
  pub public_decls : List SemaDecl
  pub private_decls : List SemaDecl
  pub current_ss : Option SemaScopeStack
  pub failed : Bool
  pub bodies : List AstBody

abbrev pub sema_module_fail : SemaModule → SemaModule
sema_module_fail m = record m { failed = Bool.true }

abbrev pub body_at : SemaModule → ℕ → Option AstBody
body_at m b = get_elem? m.bodies b

-- A write to one cell of a memory; outside the memory nothing is written.
abbrev pub update {ℓ} : {A : Type ℓ} → ℕ → (A → A) → List A → List A
update i f [] = []
update zero f (x ∷ xs) = f x ∷ xs
update (suc i) f (x ∷ xs) = x ∷ update i f xs

abbrev pub sema_ss_new : Ref → SemaScopeStack
sema_ss_new returns = record { scopes = []; loops = []; returning = returns }

-- The answer is the stack that was current.
abbrev pub sema_module_ss_swap :
    Option SemaScopeStack → SemaModule → Option SemaScopeStack × SemaModule
sema_module_ss_swap ss m = (m.current_ss, record m { current_ss = ss })
