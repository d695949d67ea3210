-- ===== src/Sema/Nodes/Push.antt =====
-- The first pass over the nodes of a module: src/sema/module/parts/module.c.
use hoblang_old.Base.{
  ℕ, Bool, not, ◌==◌, List, [], ◌∷◌, ◌++◌, Option, none, some, if◌then◌else◌, Bytes, get_elem?,
}
use hoblang_old.Core.Slice.{slice_eq}
use hoblang_old.Parser.Nodes.{
  AstStructMember, AstFromUseListItem, AstModuleDecl, node_import, node_struct_def,
  node_from_use_all, node_from_use_list, node_behaviour_decl, node_use, node_val_decl,
  node_type_alias, node_func, node_external_func, node_external_var, AstModuleNode,
}
use hoblang_old.Parser.Syntax.{AstValDecl, val_decl}
use hoblang_old.Sema.Analysis.{or_abort, new_type}
use hoblang_old.Sema.Build.{Build, give, give_null, analysed, attempted, new_struct, ◌>>=◌}
use hoblang_old.Sema.Decls.{
  sema_module_resolve_public_decl, sema_module_append_all_from, sema_module_append_ext_funcs_from,
}
use hoblang_old.Sema.Expr.Compound.{null_ref}
use hoblang_old.Sema.Expr.Simple.{on_module}
use hoblang_old.Sema.Primitives.{push_module_decl, push_new_decl, sema_module_push_primitives}
use hoblang_old.Sema.State.{SemaDecl, SemaModule, sema_ss_new}
use hoblang_old.Sema.Types.{StructMember, structure}
use hoblang_old.Sema.Types.Equals.{sema_types_equals}
use hoblang_old.Sema.Value.{SemaValue, value_var, value_type, value_behaviour, value_module}
use hoblang_old.Sema.Nodes.{Parts, FuncSema, swap_ss, reported, type_or_null}
use hoblang_old.Sema.Nodes.Rules.{sema_analyze_behaviour_decl}
use hoblang_old.Sema.Nodes.Functions.{push_func, sema_get_ast_func_type, declare_external}

module _ {F : Type 0} (fuel : ℕ) (parts : Parts F) (import : Bytes → Build F ℕ) where
  -- `sema` or another module of the program.
  unfoldable pub module_at : ℕ → Build F SemaModule
  module_at m = analysed (λ P w.
      if not (P.here == m) then or_abort (get_elem? P.modules m) w else some (some w.sema, w))

  abbrev pub value_at : SemaDecl → Build F (SemaValue F)
  value_at d = analysed (λ P. or_abort (get_elem? P.values d.value))

  -- The search of equal types is on the types as they are.
  abbrev pub import_all : Bool → SemaModule → Build F (Unit {0})
  import_all public from =
      analysed (λ P w.
        on_module (sema_module_append_all_from (sema_types_equals fuel w.heap) public from) w)

  abbrev pub import_ext_funcs : SemaModule → Build F (Unit {0})
  import_ext_funcs from =
      analysed (λ P w.
        on_module (sema_module_append_ext_funcs_from (sema_types_equals fuel w.heap) from) w)

  -- The loop over the items of a `from … use`; an item that is not there is reported.
  abbrev pub use_item : Bool → Option SemaDecl → Build F (Unit {0})
  use_item public none = reported
  use_item public (some d) = do _ ← analysed (λ P. push_module_decl fuel public d); give tt

  unfoldable pub use_items : Bool → SemaModule → List AstFromUseListItem → Build F (Unit {0})
  unfolding push_module_decl
  use_items public from [] = give tt
  use_items public from (item ∷ items) = do
    _ ← use_item public (sema_module_resolve_public_decl item.what from)
    use_items public from items

  abbrev pub module_of_value : SemaValue F → Build F SemaModule
  module_of_value (value_module m) = module_at m
  module_of_value v = do _ ← reported; give_null

  abbrev pub found_decl : Option SemaDecl → Build F SemaDecl
  found_decl none = give_null
  found_decl (some d) = give d

  -- The extension functions of what is used, where it is a module.
  abbrev pub use_ext_funcs : SemaValue F → Build F (Unit {0})
  use_ext_funcs (value_module m) = do from ← module_at m; import_ext_funcs from
  use_ext_funcs v = give tt

  -- A field of a name that stands before.
  unfoldable pub report_same : Bytes → List AstStructMember → Build F (Unit {0})
  report_same name [] = give tt
  report_same name (m ∷ ms) = do
    _ ← (if slice_eq name m.name then reported else give tt)
    report_same name ms

  unfoldable pub analysed_members :
      List AstStructMember → List AstStructMember → Build F (List StructMember)
  unfolding report_same
  analysed_members before [] = give []
  analysed_members before (m ∷ ms) = do
    _ ← report_same m.name before
    t ← type_or_null parts m.type
    more ← analysed_members (before ++ m ∷ []) ms
    give (record { is_public = m.is_public; name = m.name; type = t } ∷ more)

  abbrev pub name_of_val : AstValDecl → Bytes
  name_of_val (val_decl kind name type value) = name

  -- The first pass over a node. NULL is a node that is left.
  unfoldable pub sema_push_ast_module_node : Bool → AstModuleDecl → Build F (Option FuncSema)
  unfolding sema_analyze_behaviour_decl push_new_decl analysed_members push_func use_items module_at
      new_type push_module_decl sema_get_ast_func_type
  sema_push_ast_module_node public (node_behaviour_decl decl) = do
    ss ← swap_ss (some (sema_ss_new null_ref))
    b ← sema_analyze_behaviour_decl fuel parts decl
    _ ← swap_ss ss
    _ ← push_new_decl fuel public decl.name (value_behaviour b)
    give none
  sema_push_ast_module_node public (node_external_var decl) = do
    t ← parts.ast_type decl.type
    _ ← push_new_decl fuel public decl.ext_name (value_var t)
    give none
  sema_push_ast_module_node public (node_type_alias alias type) = do
    t ← parts.ast_type type
    _ ← push_new_decl fuel public alias (value_type t)
    give none
  sema_push_ast_module_node public (node_struct_def def) = do
    ms ← analysed_members [] def.members
    d ← new_struct ms
    t ← analysed (λ P. new_type (structure d))
    _ ← push_new_decl fuel public def.name (value_type t)
    give none
  sema_push_ast_module_node public (node_val_decl decl) = do
    v ← parts.val_decl decl
    _ ← push_new_decl fuel public (name_of_val decl) v
    give none
  sema_push_ast_module_node public (node_from_use_all path) = do
    o ← parts.decl_path path
    d ← found_decl o
    v ← value_at d
    from ← module_of_value v
    _ ← import_all public from
    give none
  sema_push_ast_module_node public (node_from_use_list path items) = do
    o ← parts.decl_path path
    d ← found_decl o
    v ← value_at d
    from ← module_of_value v
    _ ← use_items public from items
    give none
  sema_push_ast_module_node public (node_use path alias) = do
    o ← parts.decl_path path
    d ← found_decl o
    _ ← analysed (λ P. push_module_decl fuel public d)
    v ← value_at d
    _ ← use_ext_funcs v
    give none
  sema_push_ast_module_node public (node_import path name) = do
    m ← import path
    _ ← push_new_decl fuel public name (value_module m)
    from ← module_at m
    _ ← import_ext_funcs from
    give none
  sema_push_ast_module_node public (node_func f) = do
    fs ← push_func fuel parts public f f.generics
    give (some fs)
  sema_push_ast_module_node public (node_external_func f) = do
    fs ← sema_get_ast_func_type fuel parts f.info f.type
    _ ← declare_external fuel parts public f.info.name fs fs.func_type
    give (some fs)

  -- The nodes, with what is left in each.
  unfoldable pub push_nodes : List AstModuleNode → Build F (List (Option FuncSema))
  unfolding sema_push_ast_module_node
  push_nodes [] = give []
  push_nodes (node ∷ nodes) = do
    left ← attempted (sema_push_ast_module_node node.is_public node.decl)
    more ← push_nodes nodes
    give ((elim left [ some fs ↦ fs | none ↦ none ]) ∷ more)

  unfoldable pub sema_module_read_decls : List AstModuleNode → Build F (List (Option FuncSema))
  unfolding sema_module_push_primitives push_nodes
  sema_module_read_decls nodes = do
    _ ← attempted (sema_module_push_primitives fuel)
    push_nodes nodes
