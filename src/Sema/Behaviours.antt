-- ===== src/Sema/Behaviours.antt =====
-- Behaviours: src/sema/module/behaviour/api.c and private.c. The `replace` of a generic is in the heap.
pub mod Paths
pub mod Tables
use hoblang_old.Base.{
  ℕ, zero, suc, ◌+◌, List, [], ◌∷◌, ◌++◌, Option, none, some, reverse, if◌then◌else◌, Bytes, ◌>>=◌,
  get_elem?,
}
use hoblang_old.Core.Slice.{slice_eq}
use hoblang_old.Sema.State.{SemaDecl, update}
use hoblang_old.Sema.Types.{Ref, SemaType, generic, Heap, sema_type_new_func}

-- A function that a type has to have: `type` is the function type of its arguments, which begin with
-- `in_type`, and of what it returns.
pub record SemaBehaviourRule : Type 0 where
  pub name : Bytes
  pub in_type : Ref
  pub args : List Ref
  pub returning : Ref
  pub type : Ref

mutual
  -- The functions and the type that stands for the one that has them, or all of a list.
  pub data SemaBehaviour : Type 0 where
    behaviour_decl : List SemaBehaviourRule → Ref → SemaBehaviour
    behaviour_list : SemaBehaviours → SemaBehaviour

  pub data SemaBehaviours : Type 0 where
    no_behaviours : SemaBehaviours
    behaviour_then : SemaBehaviour → SemaBehaviours → SemaBehaviours

-- One step into a behaviour: into a list, or to a function, with the type that stands for the one that
-- has it.
pub data SemaBehaviourTablePathElement : Type 0 where
  in_list : ℕ → SemaBehaviourTablePathElement
  in_decl : ℕ → Ref → SemaBehaviourTablePathElement

mutual
  -- The functions with which the type `of` has a behaviour. The functions are NULL where one is
  -- missing, and a table without a behaviour has neither functions nor a list.
  pub data SemaBehaviourTable : Type 0 where
    table_decl : Option (List SemaDecl) → Ref → SemaBehaviourTable
    table_list : SemaBehaviourTables → Ref → SemaBehaviourTable
    table_of : Ref → SemaBehaviourTable

  pub data SemaBehaviourTables : Type 0 where
    no_tables : SemaBehaviourTables
    table_then : SemaBehaviourTable → SemaBehaviourTables → SemaBehaviourTables

abbrev pub TablePath : Type 0
TablePath = List SemaBehaviourTablePathElement

-- The loop of `sema_behaviour_decl_resolve` from the rule `i` on: the path and the rule, from which
-- the source makes a function type.
unfoldable pub sema_behaviour_decl_resolve :
    Bytes → Ref → ℕ → List SemaBehaviourRule → Option (TablePath × SemaBehaviourRule)
sema_behaviour_decl_resolve name self i [] = none
sema_behaviour_decl_resolve name self i (rule ∷ rules) =
    let rest = sema_behaviour_decl_resolve name self (suc i) rules in
    if slice_eq rule.name name then some (in_decl i self ∷ [], rule) else rest

-- A step is pushed behind those that the inner call has pushed.
abbrev pub pushed : ℕ → TablePath × SemaBehaviourRule → TablePath × SemaBehaviourRule
pushed i (path, rule) = (path ++ in_list i ∷ [], rule)

-- The first answer of the two.
abbrev pub first_of :
    ℕ
    → Option (TablePath × SemaBehaviourRule)
    → Option (TablePath × SemaBehaviourRule)
    → Option (TablePath × SemaBehaviourRule)
first_of i none rest = rest
first_of i (some r) rest = some (pushed i r)

-- `_sema_behaviour_resolve`, and the loop of `sema_behaviour_list_resolve` from the element `i` on.
unfoldable mutual
  unfolding sema_behaviour_decl_resolve

  pub behaviour_resolve : Bytes → SemaBehaviour → Option (TablePath × SemaBehaviourRule)
  behaviour_resolve name (behaviour_decl rules self) = sema_behaviour_decl_resolve name self 0 rules
  behaviour_resolve name (behaviour_list bs) = sema_behaviour_list_resolve name 0 bs

  pub sema_behaviour_list_resolve :
      Bytes → ℕ → SemaBehaviours → Option (TablePath × SemaBehaviourRule)
  sema_behaviour_list_resolve name i no_behaviours = none
  sema_behaviour_list_resolve name i (behaviour_then b bs) =
      let rest = sema_behaviour_list_resolve name (suc i) bs in
      first_of i (behaviour_resolve name b) rest

-- The steps turned round: the loop swaps them in pairs.
abbrev pub turned : Option (TablePath × SemaBehaviourRule) → Option (TablePath × SemaBehaviourRule)
turned none = none
turned (some (path, rule)) = some (reverse path, rule)

unfoldable pub sema_behaviour_resolve :
    Option SemaBehaviour → Bytes → Option (TablePath × SemaBehaviourRule)
unfolding behaviour_resolve
sema_behaviour_resolve none name = none
sema_behaviour_resolve (some b) name = turned (behaviour_resolve name b)

abbrev pub replaced : Ref → SemaType → SemaType
replaced new (generic g) = generic (record g { replace = some new })
replaced new t = t

-- Each type that stands for the one that has the behaviour is replaced by `new`; the answer is the one
-- of them that was met last.
unfoldable mutual
  pub swap_self_type : Ref → SemaBehaviour → Heap → Option Ref × Heap
  swap_self_type new (behaviour_decl rules self) h =
      (some self, record h { types = update self (replaced new) h.types })
  swap_self_type new (behaviour_list bs) h = swap_self_types new none bs h

  pub swap_self_types : Ref → Option Ref → SemaBehaviours → Heap → Option Ref × Heap
  swap_self_types new old no_behaviours h = (old, h)
  swap_self_types new old (behaviour_then b bs) h =
      let (old', h') = swap_self_type new b h in swap_self_types new old' bs h'

unfoldable pub sema_behaviour_swap_self_type : Option SemaBehaviour → Ref → Heap → Option Ref × Heap
unfolding swap_self_type
sema_behaviour_swap_self_type none new h = (none, h)
sema_behaviour_swap_self_type (some b) new h = swap_self_type new b h
