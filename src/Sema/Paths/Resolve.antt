-- ===== src/Sema/Paths/Resolve.antt =====
-- The resolution of paths: src/sema/module/parts/path.c. `type` is the analysis of a type as written, from
-- which a generic is built.
use hoblang_old.Base.{
  ℕ, suc, not, ◌==◌, List, [], ◌∷◌, ◌++◌, Option, none, some, length, if◌then◌else◌, Bytes,
  get_elem?,
}
use hoblang_old.Parser.Syntax.{
  AstPath, no_segments, segment_then, AstPathSegment, seg_ident, seg_sizeof, seg_generic, AstType,
  AstTypes, no_types, type_then,
}
use hoblang_old.Sema.Analysis.{
  Analysis, answer, abort, refuse, report, ◌>>=◌, or_abort, node_of, the_world,
}
use hoblang_old.Sema.Behaviours.{SemaBehaviourTable}
use hoblang_old.Sema.Behaviours.Tables.{set_replace, sema_type_build_behaviour_table}
use hoblang_old.Sema.Decls.{sema_module_resolve_public_decl, sema_module_resolve_scope_decl}
use hoblang_old.Sema.Program.{Program}
use hoblang_old.Sema.State.{SemaDecl, update}
use hoblang_old.Sema.Types.{Ref, SemaType, generic}
use hoblang_old.Sema.Types.Equals.{sema_types_equals}
use hoblang_old.Sema.Value.{
  SemaValue, value_const, value_final, value_var, value_type, value_behaviour, value_generic,
  value_module, sema_value_typeof, sema_arch_usize,
}
use hoblang_old.Sema.Paths.{
  SemaPathType, SemaPath, Resolved, or_refuse, behaviour_of, resolved, path_sizeof,
  path_build_generic, path_decl, path_unset, sema_resolve_inner_value_path,
}

-- `generic->sema.tables = vec_push(…)`
abbrev pub push_table : ℕ → SemaBehaviourTable → Analysis (Unit {0})
push_table g table w =
    some (some tt, record w { tables = update g (λ ts. ts ++ table ∷ []) w.tables })

abbrev pub behaviour_of_type : SemaType → Analysis (Option ℕ)
behaviour_of_type (generic g) = answer g.behaviour
behaviour_of_type _ = abort

abbrev pub ast_types_len : AstTypes → ℕ
ast_types_len no_types = 0
ast_types_len (type_then t ts) = suc (ast_types_len ts)

abbrev pub next_module : {F : Type 0} → ℕ → SemaValue F → ℕ
next_module from (value_module m) = m
next_module from v = from

module _ {F : Type 0} (fuel : ℕ) (P : Program F) where
  abbrev pub only_module : SemaValue F → Analysis (Unit {0})
  only_module (value_module m) = answer tt
  only_module v = refuse

  -- A declaration that is passed through has to be a module.
  abbrev pub through : Option SemaDecl → Analysis (Unit {0})
  through none = answer tt
  through (some e) = do v ← or_abort (get_elem? P.values e.value); only_module v

  -- The search in a module: in its own scopes for the module under analysis, and in what is public for
  -- another.
  unfoldable pub module_search : ℕ → Bytes → Analysis (Option SemaDecl)
  unfolding sema_module_resolve_scope_decl sema_types_equals
  module_search from ident w =
      if not (P.here == from)
      then (do
        m ← or_abort (get_elem? P.modules from)
        answer (sema_module_resolve_public_decl ident m))
          w
      else (or_abort (sema_module_resolve_scope_decl (sema_types_equals fuel w.heap) ident w.sema))
          w

  -- Any other segment is reported, and then fails an assertion.
  unfoldable pub sema_resolve_inner_module_path : ℕ → AstPathSegment → Analysis SemaDecl
  unfolding module_search
  sema_resolve_inner_module_path from (seg_ident ident) = do
    found ← module_search from ident
    or_refuse found
  sema_resolve_inner_module_path from segment = abort

  unfoldable pub sema_resolve_inner_type_path : Ref → AstPathSegment → Analysis (Resolved F)
  sema_resolve_inner_type_path t seg_sizeof = do
    w ← the_world
    resolved fuel P (path_sizeof t (sema_arch_usize w.arch)) (value_type t)
        (value_final (sema_arch_usize w.arch))
  sema_resolve_inner_type_path t segment = refuse

  -- The loop of `sema_resolve_decl_path`, from the module and the declaration found so far.
  unfoldable pub decl_path_from : ℕ → Option SemaDecl → AstPath → Analysis (Option SemaDecl)
  unfolding sema_resolve_inner_module_path
  decl_path_from from decl no_segments = answer decl
  decl_path_from from decl (segment_then s path) = do
    _ ← through decl
    d ← sema_resolve_inner_module_path from s
    v ← or_abort (get_elem? P.values d.value)
    decl_path_from (next_module from v) (some d) path

  unfoldable pub sema_resolve_decl_path : AstPath → Analysis (Option SemaDecl)
  unfolding decl_path_from
  sema_resolve_decl_path path = decl_path_from P.here none path

  module _ (type : AstType → Analysis Ref) where
    -- One parameter of a generic: its table, its type, and the type that replaces it.
    abbrev generic_param : ℕ → Ref → AstType → Analysis SemaPathType
    generic_param g param ast_type = do
      t ← type ast_type
      n ← node_of param
      behaviour ← behaviour_of_type n
      b ← behaviour_of P.behaviours behaviour
      table ← sema_type_build_behaviour_table fuel P.values t b
      _ ← push_table g table
      _ ← set_replace param t
      answer (path_build_generic table t)

    -- The segment keeps what the last parameter leaves in it.
    unfoldable pub built_params : ℕ → SemaPathType → List Ref → AstTypes → Analysis SemaPathType
    unfolding sema_type_build_behaviour_table
    built_params g last (param ∷ params) (type_then t ts) = do
      kind ← generic_param g param t
      built_params g kind params ts
    built_params g last _ _ = answer last

    unfoldable pub sema_resolve_inner_generic_path :
        List Ref → ℕ → Ref → AstPathSegment → Analysis (Resolved F)
    unfolding built_params
    sema_resolve_inner_generic_path types g target (seg_generic params) =
        if not (ast_types_len params == length types) then refuse else (do
          kind ← built_params g path_unset types params
          resolved fuel P kind (value_generic types g target) (value_final target))
    sema_resolve_inner_generic_path types g target segment = refuse

    -- One turn of the loop of `sema_resolve_path`. A path goes on behind a behaviour, which is reported.
    unfoldable pub resolve_segment : SemaValue F → AstPathSegment → Analysis (Resolved F)
    unfolding sema_resolve_inner_type_path sema_resolve_inner_generic_path
        sema_resolve_inner_value_path sema_resolve_inner_module_path
    resolve_segment (value_type t) s = sema_resolve_inner_type_path t s
    resolve_segment (value_generic types g target) s =
        sema_resolve_inner_generic_path types g target s
    resolve_segment (value_behaviour b) s = do
      _ ← report
      resolved fuel P path_unset (value_behaviour b) (value_behaviour b)
    resolve_segment (value_module m) s = do
      d ← sema_resolve_inner_module_path m s
      v ← or_abort (get_elem? P.values d.value)
      resolved fuel P (path_decl d) (value_module m) v
    resolve_segment from s = sema_resolve_inner_value_path fuel P fuel from s

    -- The value at the end, and what is left in the segments.
    unfoldable pub resolve_segments :
        SemaValue F → AstPath → Analysis (SemaValue F × List (SemaPath F))
    unfolding resolve_segment
    resolve_segments from no_segments = answer (from, [])
    resolve_segments from (segment_then s path) = do
      (v, left) ← resolve_segment from s
      (end, more) ← resolve_segments v path
      answer (end, left ∷ more)

    unfoldable pub sema_resolve_path :
        Option (SemaValue F) → AstPath → Analysis (SemaValue F × List (SemaPath F))
    unfolding resolve_segments
    sema_resolve_path none path = resolve_segments (value_module P.here) path
    sema_resolve_path (some from) path = resolve_segments from path

    abbrev of_type : SemaValue F → Analysis Ref
    of_type (value_type t) = answer t
    of_type v = refuse

    unfoldable pub sema_resolve_type_path : Option (SemaValue F) → AstPath → Analysis Ref
    unfolding sema_resolve_path
    sema_resolve_type_path from path = do (v, left) ← sema_resolve_path from path; of_type v

    abbrev of_value : SemaValue F → Analysis Ref
    of_value (value_var t) = answer t
    of_value (value_final t) = answer t
    of_value (value_const c) = or_abort (sema_value_typeof (value_const c))
    of_value v = refuse

    unfoldable pub sema_resolve_value_path : Option (SemaValue F) → AstPath → Analysis Ref
    unfolding sema_resolve_path
    sema_resolve_value_path from path = do (v, left) ← sema_resolve_path from path; of_value v
