-- ===== src/Sema/Build.antt =====
-- How the analysis of modules answers: it also adds to the memory that the analysis of expressions reads,
-- and to the modules of the project. NULL ends a chain of steps, as in Sema.Analysis.
use hoblang_old.Base.{ℕ, List, [], ◌∷◌, ◌++◌, Option, none, some, length}
use hoblang_old.Sema.Analysis.{World, Analysis}
use hoblang_old.Sema.Behaviours.{SemaBehaviour}
use hoblang_old.Sema.Program.{Program}
use hoblang_old.Sema.Types.{StructMember}
use hoblang_old.Sema.Value.{SemaValue}

pub record Store (F : Type 0) : Type 0 where
  pub program : Program F
  pub world : World

-- A result or NULL; a failed assertion, undefined behaviour or an equality of types that does not
-- return; or no result within so many imports inside each other.
pub data Run (F A : Type 0) : Type 0 where
  done : Option A → Store F → Run F A
  crashed : Run F A
  spent : Run F A

abbrev pub Build : Type 0 → Type 0 → Type 0
Build F A = Store F → Run F A

module _ {F : Type 0} where
  unfoldable pub give : {A : Type 0} → A → Build F A
  give a s = done (some a) s

  unfoldable pub give_null : {A : Type 0} → Build F A
  give_null s = done none s

  unfoldable pub out_of_depth : {A : Type 0} → Build F A
  out_of_depth s = spent

  abbrev pub go_on : {A B : Type 0} → (A → Build F B) → Run F A → Run F B
  go_on f (done (some a) s) = f a s
  go_on f (done none s) = done none s
  go_on f crashed = crashed
  go_on f spent = spent

  infixl 5 ◌>>=◌
  unfoldable pub ◌>>=◌ : {A B : Type 0} → Build F A → (A → Build F B) → Build F B
  (x >>= f) s = go_on f (x s)

  abbrev pub kept_null : {A : Type 0} → Run F A → Run F (Option A)
  kept_null (done o s) = done (some o) s
  kept_null crashed = crashed
  kept_null spent = spent

  -- A step whose NULL is not returned.
  unfoldable pub attempted : {A : Type 0} → Build F A → Build F (Option A)
  attempted x s = kept_null (x s)

  abbrev pub of_result : {A : Type 0} → Program F → Option (Option A × World) → Run F A
  of_result P none = crashed
  of_result P (some (o, w)) = done o (record { program = P; world = w })

  -- A step of the analysis of expressions.
  unfoldable pub analysed : {A : Type 0} → (Program F → Analysis A) → Build F A
  analysed f s = of_result s.program (f s.program s.world)

  -- `sema_value_…` allocates.
  unfoldable pub new_value : SemaValue F → Build F ℕ
  new_value v s =
      done (some (length s.program.values))
        (record s { program = record s.program { values = s.program.values ++ v ∷ [] } })

  unfoldable pub new_behaviour : SemaBehaviour → Build F ℕ
  new_behaviour b s =
      done (some (length s.program.behaviours))
        (record s { program = record s.program { behaviours = s.program.behaviours ++ b ∷ [] } })

  -- The tables of a new generic.
  unfoldable pub new_tables : Build F ℕ
  new_tables s =
      done (some (length s.world.tables))
        (record s { world = record s.world { tables = s.world.tables ++ [] ∷ [] } })

  -- A struct of the module under analysis.
  unfoldable pub new_struct : List StructMember → Build F ℕ
  new_struct ms s = done (some (length s.world.heap.structs)) (record s {
    program = record s.program { struct_modules = s.program.struct_modules ++ s.program.here ∷ [] };
    world = record s.world {
      heap = record s.world.heap { structs = s.world.heap.structs ++ ms ∷ [] };
    };
  })
