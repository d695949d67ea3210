-- ===== src/Sema/Behaviours/Tables.antt =====
-- The tables of behaviours: src/sema/module/behaviour/table.c, and the search for extension functions of
-- src/sema/module/private.c. `values` is the memory of the values of declarations.
use hoblang_old.Base.{
  ℕ, Bool, true, false, not, List, [], ◌∷◌, Option, none, some, if◌then◌else◌, Bytes, get_elem?,
}
use hoblang_old.Sema.Analysis.{
  Analysis, answer, null, abort, refuse, attempt, ◌>>=◌, or_abort, node_of, same_type, the_world,
}
use hoblang_old.Sema.Behaviours.{
  SemaBehaviourRule, SemaBehaviour, behaviour_decl, behaviour_list, SemaBehaviours, no_behaviours,
  behaviour_then, SemaBehaviourTable, table_decl, table_list, table_of, SemaBehaviourTables,
  no_tables, table_then, replaced,
}
use hoblang_old.Sema.Decls.{sema_module_resolve_module_decl_in_type}
use hoblang_old.Sema.State.{SemaDecl, update}
use hoblang_old.Sema.Types.{Ref, SemaType, function}
use hoblang_old.Sema.Types.Equals.{sema_types_equals}
use hoblang_old.Sema.Value.{SemaValue, value_type, sema_value_typeof}

-- `self->generic.replace = type`
abbrev pub set_replace : Ref → Ref → Analysis (Unit {0})
set_replace self t w =
    some
      (some tt, record w { heap = record w.heap { types = update self (replaced t) w.heap.types } })

abbrev pub is_function : SemaType → Bool
is_function (function args returning) = true
is_function _ = false

-- The tables of a list, which are NULL where one of them is.
abbrev pub joined :
    Option SemaBehaviourTable → Option SemaBehaviourTables → Option SemaBehaviourTables
joined (some t) (some ts) = some (table_then t ts)
joined _ _ = none

abbrev pub listed : Ref → Option SemaBehaviourTables → Analysis SemaBehaviourTable
listed t none = null
listed t (some ts) = answer (table_list ts t)

module _ {F : Type 0} (fuel : ℕ) (values : List (SemaValue F)) where
  unfoldable pub sema_value_is_type_of_function : SemaValue F → Analysis Bool
  sema_value_is_type_of_function (value_type t) = do n ← node_of t; answer (is_function n)
  sema_value_is_type_of_function _ = answer false

  -- A function type where a function should be declared fails an assertion.
  unfoldable pub ext_func_found : Option SemaDecl → Analysis SemaDecl
  unfolding sema_value_is_type_of_function
  ext_func_found none = null
  ext_func_found (some d) = do
    v ← or_abort (get_elem? values d.value)
    is_type ← sema_value_is_type_of_function v
    if is_type then abort else answer d

  unfoldable pub sema_module_resolve_ext_func : Bytes → Ref → Analysis SemaDecl
  unfolding ext_func_found sema_types_equals
  sema_module_resolve_ext_func name t = do
    w ← the_world
    found ← or_abort (
        sema_module_resolve_module_decl_in_type (sema_types_equals fuel w.heap) (some t) name
          w.sema)
    ext_func_found found

  -- What is done with the function found for a rule.
  unfoldable pub rule_function : SemaBehaviourRule → Ref → Ref → Option SemaDecl → Analysis SemaDecl
  unfolding same_type
  rule_function rule self t none = refuse
  rule_function rule self t (some d) = do
    _ ← set_replace self t
    v ← or_abort (get_elem? values d.value)
    found ← or_abort (sema_value_typeof v)
    same ← same_type fuel found rule.type
    if not same then refuse else answer d

  unfoldable pub sema_type_behaves_as_decl :
      Ref → Ref → List SemaBehaviourRule → Analysis (List SemaDecl)
  unfolding sema_module_resolve_ext_func rule_function
  sema_type_behaves_as_decl t self [] = answer []
  sema_type_behaves_as_decl t self (rule ∷ rules) = do
    found ← attempt (sema_module_resolve_ext_func rule.name t)
    d ← rule_function rule self t found
    ds ← sema_type_behaves_as_decl t self rules
    answer (d ∷ ds)

  -- `type_behaves_as_list` is the loop over a list, which goes on behind a NULL.
  unfoldable mutual
    unfolding sema_type_behaves_as_decl

    pub build_behaviour_table : Ref → SemaBehaviour → Analysis SemaBehaviourTable
    build_behaviour_table t (behaviour_decl rules self) = do
      ds ← attempt (sema_type_behaves_as_decl t self rules)
      answer (table_decl ds t)
    build_behaviour_table t (behaviour_list bs) = do list ← type_behaves_as_list t bs; listed t list

    pub type_behaves_as_list : Ref → SemaBehaviours → Analysis (Option SemaBehaviourTables)
    type_behaves_as_list t no_behaviours = answer (some no_tables)
    type_behaves_as_list t (behaviour_then b bs) = do
      table ← attempt (build_behaviour_table t b)
      list ← type_behaves_as_list t bs
      answer (joined table list)

  unfoldable pub sema_type_build_behaviour_table :
      Ref → Option SemaBehaviour → Analysis SemaBehaviourTable
  unfolding build_behaviour_table
  sema_type_build_behaviour_table t none = answer (table_of t)
  sema_type_build_behaviour_table t (some b) = build_behaviour_table t b
