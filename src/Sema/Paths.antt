-- ===== src/Sema/Paths.antt =====
-- What a segment of a path is resolved to behind a value: sema_resolve_inner_value_path of
-- src/sema/module/parts/path.c.
pub mod Resolve
pub mod Modules
pub mod Shown
pub mod Members
use hoblang_old.Base.{
  ℕ, zero, suc, Bool, true, false, not, ◌==◌, List, [], ◌∷◌, ◌++◌, Option, none, some, length,
  if◌then◌else◌, Bytes, get_elem?,
}
use hoblang_old.Core.Slice.{slice_eq}
use hoblang_old.Lexer.Rules.{codes}
use hoblang_old.Parser.Syntax.{
  AstPath, no_segments, segment_then, AstPathSegment, seg_ident, seg_deref, seg_sizeof, seg_null,
  seg_generic, AstType, AstTypes, no_types, type_then,
}
use hoblang_old.Sema.Analysis.{
  Analysis, answer, null, abort, refuse, report, attempt, ◌>>=◌, or_abort, node_of, new_type,
  the_world,
}
use hoblang_old.Sema.Behaviours.{
  SemaBehaviour, SemaBehaviourRule, SemaBehaviourTable, TablePath, sema_behaviour_resolve,
  sema_behaviour_swap_self_type,
}
use hoblang_old.Sema.Behaviours.Tables.{
  set_replace, sema_module_resolve_ext_func, sema_type_build_behaviour_table,
}
use hoblang_old.Sema.Decls.{sema_module_resolve_public_decl, sema_module_resolve_scope_decl}
use hoblang_old.Sema.Expr.Compound.{is_optional, sema_value_with_type}
use hoblang_old.Sema.Program.{SemaConstStructField, Program, sema_get_struct_member_id, field_of}
use hoblang_old.Sema.State.{SemaDecl, SemaModule, update}
use hoblang_old.Sema.Types.{
  Ref, SemaType, SemaTypeGeneric, optional, pointer, structure, slice, array, generic, function,
  bool, StructMember, struct_at,
}
use hoblang_old.Sema.Types.Equals.{sema_types_equals}
use hoblang_old.Sema.Value.{
  SemaConst, const_struct, SemaValue, value_const, value_final, value_var, value_type,
  value_ext_func_handle, value_behaviour, value_generic, value_module, sema_value_typeof,
  sema_value_is_var, sema_type_primitive, sema_arch_usize,
}

-- What a segment of a path does; `path_unset` where it is not said.
pub data SemaPathType : Type 0 where
  path_deref path_slice_len path_slice_raw path_is_null : Ref → SemaPathType
  path_array_len : ℕ → SemaPathType
  path_struct_member : ℕ → Ref → SemaPathType
  path_decl path_ext_func_direct path_ext_func_ref : SemaDecl → SemaPathType
  path_build_generic : SemaBehaviourTable → Ref → SemaPathType
  path_btable_path : TablePath → Ref → SemaPathType
  path_sizeof : Ref → Ref → SemaPathType
  path_unset : SemaPathType

-- What the analysis leaves in a segment: `value` is what it is a segment of, or what it gives.
pub record SemaPath (F : Type 0) : Type 0 where
  pub value : SemaValue F
  pub type : SemaPathType

-- The value of a segment with what is left in it.
abbrev pub Resolved : Type 0 → Type 0
Resolved F = SemaValue F × SemaPath F

abbrev pointed : SemaType → Analysis Ref
pointed (pointer t) = answer t
pointed _ = refuse

abbrev pub or_refuse : {A : Type 0} → Option A → Analysis A
or_refuse none = refuse
or_refuse (some a) = answer a

abbrev pub behaviour_of : List SemaBehaviour → Option ℕ → Analysis (Option SemaBehaviour)
behaviour_of bs none = answer none
behaviour_of bs (some b) = do x ← or_abort (get_elem? bs b); answer (some x)

abbrev pub swapped_self : Option SemaBehaviour → Ref → Analysis (Unit {0})
swapped_self b new w =
    some (some tt, record w { heap = (sema_behaviour_swap_self_type b new w.heap).1 })

module _ {F : Type 0} (fuel : ℕ) (P : Program F) where
  abbrev pub resolved : SemaPathType → SemaValue F → SemaValue F → Analysis (Resolved F)
  resolved type from v = answer (v, record { value = from; type = type })

  -- The function with the value on which it is called.
  unfoldable pub ext_func_handle :
      SemaValue F → (SemaDecl → SemaPathType) → SemaDecl → Analysis (Resolved F)
  ext_func_handle from type d = do
    v ← or_abort (get_elem? P.values d.value)
    u ← or_abort (sema_value_typeof v)
    resolved (type d) from (value_ext_func_handle u)

  abbrev pub or_handle :
      SemaValue F
      → (SemaDecl → SemaPathType)
      → Analysis (Resolved F)
      → Option SemaDecl
      → Analysis (Resolved F)
  or_handle from type otherwise none = otherwise
  or_handle from type otherwise (some d) = ext_func_handle from type d

  -- Behind the parts of a value: an extension function of its type, or of pointers to it where it is a
  -- variable.
  unfoldable pub ref_segment : SemaValue F → Ref → Bytes → Analysis (Resolved F)
  unfolding sema_module_resolve_ext_func new_type ext_func_handle
  ref_segment from t ident = do
    u ← new_type (pointer t)
    found ← attempt (sema_module_resolve_ext_func fuel P.values ident u)
    or_handle from path_ext_func_ref refuse found

  unfoldable pub ext_func_segment : SemaValue F → Ref → Bytes → Analysis (Resolved F)
  unfolding sema_module_resolve_ext_func ext_func_handle ref_segment
  ext_func_segment from t ident = do
    found ← attempt (sema_module_resolve_ext_func fuel P.values ident t)
    or_handle from path_ext_func_direct
        (if sema_value_is_var from then ref_segment from t ident else refuse) found

  -- The type is written over that of the value.
  abbrev pub retyped : SemaPathType → SemaValue F → Ref → Analysis (Resolved F)
  retyped type from t = do v ← or_abort (sema_value_with_type from t); resolved type from v

  -- The fields of a constant.
  abbrev pub const_fields : SemaConst F → Analysis (List (SemaConstStructField F))
  const_fields (const_struct t fields) = or_abort (get_elem? P.const_structs fields)
  const_fields c = abort

  -- A member of a constant, or else an extension function.
  abbrev pub const_member :
      SemaValue F → Ref → Bytes → ℕ → Option (SemaConstStructField F) → Analysis (Resolved F)
  const_member from t ident i none = ext_func_segment from t ident
  const_member from t ident i (some field) =
      if field.is_undefined
      then refuse
      else resolved (path_struct_member i t) from (value_const field.value)

  abbrev pub member_of : SemaValue F → Ref → Bytes → ℕ → List StructMember → Analysis (Resolved F)
  member_of (value_const c) t ident i ms = do
    fields ← const_fields c
    const_member (value_const c) t ident i (field_of i fields)
  member_of from t ident i ms = do
    m ← or_abort (get_elem? ms i)
    retyped (path_struct_member i t) from m.type

  abbrev pub or_member :
      SemaValue F → Ref → Bytes → List StructMember → Option ℕ → Analysis (Resolved F)
  or_member from t ident ms none = ext_func_segment from t ident
  or_member from t ident ms (some i) = member_of from t ident i ms

  unfoldable pub struct_segment : SemaValue F → Ref → Bytes → ℕ → Analysis (Resolved F)
  unfolding ext_func_segment
  struct_segment from t ident def = do
    w ← the_world
    ms ← or_abort (struct_at w.heap def)
    owner ← or_abort (get_elem? P.struct_modules def)
    or_member from t ident ms (sema_get_struct_member_id P.here owner ident ms)

  unfoldable pub slice_segment : SemaValue F → Ref → Bytes → Ref → Analysis (Resolved F)
  unfolding ext_func_segment new_type
  slice_segment from t ident of =
      if slice_eq (codes "raw") ident
      then (do u ← new_type (pointer of); retyped (path_slice_raw t) from u)
      else if slice_eq (codes "length") ident
      then (do w ← the_world; retyped (path_slice_len t) from (sema_arch_usize w.arch))
      else ext_func_segment from t ident

  -- The length of an array is left in the segment as what it gives.
  unfoldable pub array_segment : SemaValue F → Ref → Bytes → ℕ → Analysis (Resolved F)
  unfolding ext_func_segment
  array_segment from t ident n =
      if slice_eq (codes "length") ident
      then (do
        w ← the_world
        resolved (path_array_len n) (value_final (sema_arch_usize w.arch))
            (value_final (sema_arch_usize w.arch)))
      else ext_func_segment from t ident

  -- A function that the behaviours of a generic demand.
  unfoldable pub behaviour_segment : Ref → Bytes → Option ℕ → Analysis (Resolved F)
  unfolding new_type sema_behaviour_resolve sema_behaviour_swap_self_type
  behaviour_segment t ident behaviour = do
    b ← behaviour_of P.behaviours behaviour
    _ ← swapped_self b t
    (path, rule) ← or_refuse (sema_behaviour_resolve b ident)
    u ← new_type (function rule.args rule.returning)
    resolved (path_btable_path path t) (value_final u) (value_ext_func_handle u)

  abbrev pub generic_segment :
      (SemaValue F → Analysis (Resolved F))
      → SemaValue F
      → Ref
      → Bytes
      → Option ℕ
      → Option Ref
      → Analysis (Resolved F)
  generic_segment again from t ident behaviour (some r) =
      or_abort (sema_value_with_type from r) >>= again
  generic_segment again from t ident behaviour none = behaviour_segment t ident behaviour

  -- The case of a name in `sema_resolve_inner_value_path`, by the type of the value. Where a generic
  -- is replaced, `again` is the call on the type that replaces it. A constant of a generic type is
  -- read as a type, which it is not.
  abbrev pub ident_segment :
      (SemaValue F → Analysis (Resolved F))
      → SemaValue F
      → Ref
      → Bytes
      → SemaType
      → Analysis (Resolved F)
  ident_segment again from t ident (structure def) = struct_segment from t ident def
  ident_segment again from t ident (slice of) = slice_segment from t ident of
  ident_segment again from t ident (array n of) = array_segment from t ident n
  ident_segment again (value_const c) t ident (generic g) = abort
  ident_segment again from t ident (generic g) =
      generic_segment again from t ident g.behaviour g.replace
  ident_segment again from t ident n = ext_func_segment from t ident

  -- The number bounds the generics that replace each other.
  unfoldable pub sema_resolve_inner_value_path :
      ℕ → SemaValue F → AstPathSegment → Analysis (Resolved F)
  unfolding struct_segment slice_segment array_segment behaviour_segment ext_func_segment
  sema_resolve_inner_value_path zero from segment = abort
  sema_resolve_inner_value_path (suc k) from (seg_generic params) = refuse
  sema_resolve_inner_value_path (suc k) from seg_null = do
    t ← or_abort (sema_value_typeof from)
    n ← node_of t
    if not (is_optional n) then refuse else retyped (path_is_null t) from (sema_type_primitive bool)
  sema_resolve_inner_value_path (suc k) from seg_sizeof = do
    t ← or_abort (sema_value_typeof from)
    w ← the_world
    resolved (path_sizeof t (sema_arch_usize w.arch)) from (value_final (sema_arch_usize w.arch))
  sema_resolve_inner_value_path (suc k) from seg_deref = do
    t ← or_abort (sema_value_typeof from)
    n ← node_of t
    to ← pointed n
    resolved (path_deref to) from (value_var to)
  sema_resolve_inner_value_path (suc k) from (seg_ident ident) = do
    t ← or_abort (sema_value_typeof from)
    n ← node_of t
    ident_segment (λ v. sema_resolve_inner_value_path k v (seg_ident ident)) from t ident n
