-- ===== src/Llvm/Tables.antt =====
-- The walk of generated code through the table of a behaviour: the case SEMA_PATH_BTABLE_PATH of
-- src/llvm/parts/path.c, up to the function that is called.
pub mod Functions
pub mod Found
use hoblang_old.Base.{ℕ, zero, suc, [], ◌∷◌, Option, none, some, ◌>>=◌, get_elem?}
use hoblang_old.Sema.Behaviours.{
  SemaBehaviourTable, table_decl, table_list, SemaBehaviourTables, no_tables, table_then, TablePath,
  SemaBehaviourTablePathElement, in_list, in_decl, replaced,
}
use hoblang_old.Sema.State.{SemaDecl, update}
use hoblang_old.Sema.Types.{Ref, Heap}

abbrev pub table_at : SemaBehaviourTables → ℕ → Option SemaBehaviourTable
table_at no_tables i = none
table_at (table_then t ts) zero = some t
table_at (table_then t ts) (suc i) = table_at ts i

-- A step into a table of the other kind fails an assertion. A function replaces the type that stands
-- for `type` in its rule.
unfoldable pub btable_walk :
    Ref → TablePath → SemaBehaviourTable → Option SemaDecl → Heap → Option (Option SemaDecl × Heap)
btable_walk type [] table value h = some (value, h)
btable_walk type (in_decl i self ∷ path) (table_decl (some ds) of) value h = do
  d ← get_elem? ds i
  btable_walk type path (table_decl (some ds) of) (some d)
      (record h { types = update self (replaced type) h.types })
btable_walk type (in_list i ∷ path) (table_list ts of) value h = do
  table ← table_at ts i
  btable_walk type path table value h
btable_walk type (e ∷ path) table value h = none
