-- ===== src/Sema/Program.antt =====
-- What the analysis of one module reads of the rest of the program: the values of declarations, the other
-- modules, behaviours, and the definitions and constants of structs.
use hoblang_old.Base.{
  ℕ, Bool, not, ◌&&◌, ◌==◌, List, [], ◌∷◌, Option, none, some, if◌then◌else◌, Bytes, suc,
}
use hoblang_old.Core.Slice.{slice_eq}
use hoblang_old.Sema.Behaviours.{SemaBehaviour}
use hoblang_old.Sema.State.{SemaModule}
use hoblang_old.Sema.Types.{Ref, StructMember}
use hoblang_old.Sema.Value.{SemaConst, SemaValue}

-- A field of a constant struct; `idx` is the number of the member.
pub record SemaConstStructField (F : Type 0) : Type 0 where
  pub value : SemaConst F
  pub type : Ref
  pub is_undefined : Bool
  pub idx : ℕ

-- `here` is the module under analysis, whose state is not read from `modules`; `struct_modules` is the
-- module of each struct, and `project` the modules of the project with their paths.
pub record Program (F : Type 0) : Type 0 where
  pub values : List (SemaValue F)
  pub modules : List SemaModule
  pub here : ℕ
  pub behaviours : List SemaBehaviour
  pub struct_modules : List ℕ
  pub const_structs : List (List (SemaConstStructField F))
  pub project : List (Bytes × ℕ)

-- The loop of `sema_get_struct_member_id` from the member `i` on; `none` is -1. Of another module only
-- public members are found.
unfoldable pub member_id : Bool → Bytes → ℕ → List StructMember → Option ℕ
member_id is_own name i [] = none
member_id is_own name i (m ∷ ms) =
    let rest = member_id is_own name (suc i) ms in
    let found = if not m.is_public && not is_own then none else some i in
    if slice_eq m.name name then found else rest

abbrev pub sema_get_struct_member_id : ℕ → ℕ → Bytes → List StructMember → Option ℕ
sema_get_struct_member_id here owner name ms = member_id (here == owner) name 0 ms

-- The field of a constant struct that is the member `i`.
unfoldable pub field_of :
    {F : Type 0} → ℕ → List (SemaConstStructField F) → Option (SemaConstStructField F)
field_of i [] = none
field_of i (f ∷ fs) = let rest = field_of i fs in if f.idx == i then some f else rest
