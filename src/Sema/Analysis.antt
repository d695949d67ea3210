-- ===== src/Sema/Analysis.antt =====
-- How the functions of src/sema/module/parts/ answer: they read and change the module and the types,
-- report errors, and return a result or NULL.
use hoblang_old.Base.{ℕ, Bool, List, Option, none, some}
use hoblang_old.Sema.Behaviours.{SemaBehaviourTable}
use hoblang_old.Sema.State.{SemaModule, sema_module_fail}
use hoblang_old.Sema.Types.{Ref, SemaType, Heap, type_at, sema_type_new}
use hoblang_old.Sema.Types.Equals.{sema_types_equals}
use hoblang_old.Sema.Value.{SemaArchInfo}

-- The module under analysis, the types, the target, and the tables of each generic of the syntax tree.
pub record World : Type 0 where
  pub sema : SemaModule
  pub heap : Heap
  pub arch : SemaArchInfo
  pub tables : List (List SemaBehaviourTable)

-- The inner `none` is NULL; the outer one a failed assertion, undefined behaviour, or an equality of
-- types that does not return.
abbrev pub Analysis : Type 0 → Type 0
Analysis A = World → Option (Option A × World)

module _ {A : Type 0} where
  abbrev pub answer : A → Analysis A
  answer a w = some (some a, w)

  abbrev pub null : Analysis A
  null w = some (none, w)

  abbrev pub abort : Analysis A
  abort w = none

  -- `SEMA_ERROR` and the return of NULL.
  abbrev pub refuse : Analysis A
  refuse w = some (none, record w { sema = sema_module_fail w.sema })

  abbrev pub continue_with :
      {B : Type 0} → (A → Analysis B) → Option (Option A × World) → Option (Option B × World)
  continue_with f none = none
  continue_with f (some (none, w)) = some (none, w)
  continue_with f (some (some a, w)) = f a w

  -- `if (!x) return NULL;` behind a call.
  infixl 5 ◌>>=◌
  abbrev pub ◌>>=◌ : {B : Type 0} → Analysis A → (A → Analysis B) → Analysis B
  (x >>= f) w = continue_with f (x w)

  abbrev kept_null : Option (Option A × World) → Option (Option (Option A) × World)
  kept_null none = none
  kept_null (some (o, w)) = some (some o, w)

  -- A call whose NULL is not returned.
  abbrev pub attempt : Analysis A → Analysis (Option A)
  attempt a w = kept_null (a w)

  abbrev pub or_abort : Option A → Analysis A
  or_abort none w = none
  or_abort (some a) w = some (some a, w)

-- `SEMA_ERROR` without a return.
abbrev pub report : Analysis Unit
report w = some (some tt, record w { sema = sema_module_fail w.sema })

abbrev pub the_world : Analysis World
the_world w = some (some w, w)

abbrev pub node_of : Ref → Analysis SemaType
node_of t w = or_abort (type_at w.heap t) w

unfoldable pub same_type : ℕ → Ref → Ref → Analysis Bool
unfolding sema_types_equals
same_type fuel a b w = or_abort (sema_types_equals fuel w.heap a b) w

unfoldable pub new_type : SemaType → Analysis Ref
unfolding sema_type_new
new_type t w =
    some (some (sema_type_new t w.heap).1, record w { heap = (sema_type_new t w.heap).0 })
