-- ===== src/Tests/TableTheorems.antt =====
-- The theorem on tables of behaviours, at a list in a list.
use hoblang_old.Base.{ℕ, false, List, [], ◌∷◌, ◌++◌, ◌≡◌, refl, Option, none, some, Bytes}
use hoblang_old.Core.Slice.{slice_eq}
use hoblang_old.Llvm.Tables.{btable_walk}
use hoblang_old.Llvm.Tables.Found.{btable_walk-resolve}
use hoblang_old.Llvm.Tables.Functions.{IsFunction}
use hoblang_old.Sema.Analysis.{World}
use hoblang_old.Sema.Behaviours.{
  SemaBehaviourRule, SemaBehaviour, behaviour_decl, behaviour_list, no_behaviours, behaviour_then,
  SemaBehaviourTable, table_decl, table_list, no_tables, table_then, in_list, in_decl,
  sema_behaviour_resolve,
}
use hoblang_old.Sema.Behaviours.Tables.{sema_type_build_behaviour_table}
use hoblang_old.Sema.Decls.{resolve_in_type}
use hoblang_old.Sema.State.{SemaDecl}
use hoblang_old.Sema.Types.{Ref, SemaType, function, generic, Heap}
use hoblang_old.Sema.Types.Equals.{sema_types_equals}
use hoblang_old.Sema.Value.{SemaValue, value_final, static_types}

-- A rule of the type 12, which is the function from Self, the type 13, to void.
abbrev rule_named : Bytes → SemaBehaviourRule
rule_named b = record { name = b; in_type = 13; args = 13 ∷ []; returning = 11; type = 12 }

-- The rules `a`, and in a list inside `b` and `c`.
abbrev demanded : SemaBehaviour
demanded = behaviour_list (
    behaviour_then (behaviour_decl (rule_named (b'a' ∷ []) ∷ []) 13) (
      behaviour_then
        (behaviour_list (
          behaviour_then (behaviour_decl (rule_named (b'b' ∷ []) ∷ rule_named (b'c' ∷ []) ∷ []) 13)
            no_behaviours))
        no_behaviours))

-- An extension function of u32, the second type, whose value has the type 14.
abbrev ext : Bytes → SemaDecl
ext b = record { name = b; in_type = some 2; value = 0 }

abbrev functions : List SemaDecl
functions = ext (b'c' ∷ []) ∷ ext (b'a' ∷ []) ∷ ext (b'b' ∷ []) ∷ []

abbrev values : List (SemaValue ℕ)
values = value_final 14 ∷ []

abbrev types_with : Option Ref → List SemaType
types_with o =
    static_types
    ++ function (13 ∷ []) 11
      ∷ generic (record { behaviour = none; replace = o; table = none })
      ∷ function (2 ∷ []) 11
      ∷ []

abbrev before : Option Ref → World
before o = record {
  sema = record {
    public_decls = [];
    private_decls = functions;
    current_ss = none;
    failed = false;
    bodies = [];
  };
  heap = record { types = types_with o; structs = [] };
  arch = record { ints = 15; floats = 3 };
  tables = [];
}

abbrev built : SemaBehaviourTable
built =
    table_list
      (table_then (table_decl (some (ext (b'a' ∷ []) ∷ [])) 2) (
        table_then
          (table_list
            (table_then (table_decl (some (ext (b'b' ∷ []) ∷ ext (b'c' ∷ []) ∷ [])) 2) no_tables) 2)
          no_tables))
      2

builds :
    sema_type_build_behaviour_table 9 values 2 (some demanded) (before none)
    ≡ some (some built, before (some 2))
unfolding sema_type_build_behaviour_table sema_types_equals slice_eq resolve_in_type
builds = refl

resolves :
    sema_behaviour_resolve (some demanded) (b'c' ∷ [])
    ≡ some (in_list 1 ∷ in_list 0 ∷ in_decl 1 13 ∷ [], rule_named (b'c' ∷ []))
unfolding sema_behaviour_resolve slice_eq
resolves = refl

btable_walk-resolve_example :
    (table : SemaBehaviourTable) × (d : SemaDecl) × (h' : Heap) × (some built ≡ some table)
    × (btable_walk 2 (in_list 1 ∷ in_list 0 ∷ in_decl 1 13 ∷ []) table none (before none).heap
        ≡ some (some d, h'))
    × IsFunction functions (b'c' ∷ []) d
btable_walk-resolve_example =
    btable_walk-resolve 9 values demanded (b'c' ∷ []) 2 (before none) (before (some 2)) (some built)
      (in_list 1 ∷ in_list 0 ∷ in_decl 1 13 ∷ []) (rule_named (b'c' ∷ [])) resolves builds refl 2
      none (before none).heap
