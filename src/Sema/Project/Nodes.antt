-- ===== src/Sema/Project/Nodes.antt =====
-- No node but an import changes the project.
use hoblang_old.Base.{ℕ, Bool, List, [], ◌∷◌, ◌++◌, Option, none, some, Bytes}
use hoblang_old.Parser.Nodes.{
  AstBehaviourRule, AstDeclBehaviour, AstFuncDecl, AstFuncInfo, AstGenericParam, AstStructMember,
  AstFromUseListItem, AstModuleDecl, node_import, node_struct_def, node_from_use_all,
  node_from_use_list, node_behaviour_decl, node_use, node_val_decl, node_type_alias, node_func,
  node_external_func, node_external_var, AstModuleNode,
}
use hoblang_old.Parser.Syntax.{
  no_args, arg_then, func_type_info, AstBody, AstFuncTypeInfo, AstFuncArgs, AstPath, AstType,
  AstValDecl,
}
use hoblang_old.Sema.Build.{Build}
use hoblang_old.Sema.State.{SemaDecl, SemaModule}
use hoblang_old.Sema.Types.{Ref}
use hoblang_old.Sema.Value.{SemaValue, value_behaviour, value_module}
use hoblang_old.Sema.Nodes.{Parts, FuncSema, type_or_null}
use hoblang_old.Sema.Nodes.Rules.{sema_analyze_behaviour_decl}
use hoblang_old.Sema.Nodes.Functions.{push_func, sema_get_ast_func_type, declare_external}
use hoblang_old.Sema.Build.{Build}
use hoblang_old.Sema.Behaviours.{SemaBehaviours}
use hoblang_old.Sema.Nodes.{type_or_null}
use hoblang_old.Sema.Nodes.Rules.{
  arg_types, is_in_self, behaviour_rule, analysed_rules, with_behaviour, generic_rules,
  sema_analyze_generic_param, push_generic_params,
}
use hoblang_old.Sema.Nodes.Functions.{ext_type, func_type_of, declare_generic, declare_in_type}
use hoblang_old.Sema.Nodes.Push.{
  use_item, use_items, module_at, module_of_value, found_decl, use_ext_funcs, report_same,
  analysed_members, sema_push_ast_module_node, push_nodes, sema_module_read_decls,
}
use hoblang_old.Sema.Project.Stays.{Stays, stays_rules, push_new_decl-Stays, push_primitives-Stays}

module _ {F : Type 0} (S : List (Bytes × ℕ) → Type 0) (parts : Parts F) where
  -- The analyses inside a node leave the project as it is.
  pub record PartsStay : Type 0 where
    pub ast_type : (t : AstType) → Stays S (parts.ast_type t)
    pub val_decl : (d : AstValDecl) → Stays S (parts.val_decl d)
    pub resolve : (p : AstPath) → Stays S (parts.resolve p)
    pub decl_path : (p : AstPath) → Stays S (parts.decl_path p)
    pub func : (e : Option Ref) (args : AstFuncArgs) (t : AstType) → Stays S (parts.func e args t)
    pub body : (b : AstBody) → Stays S (parts.body b)

module _ {F : Type 0} (S : List (Bytes × ℕ) → Type 0) (fuel : ℕ) (parts : Parts F)
    (ps : PartsStay S parts) where
  type_or_null-Stays : (t : AstType) → Stays S (type_or_null parts t)
  type_or_null-Stays t = search (stays_rules, ps.ast_type)

  arg_types-Stays : (args : AstFuncArgs) → Stays S (arg_types fuel parts args)
  unfolding arg_types
  arg_types-Stays no_args = search stays_rules
  arg_types-Stays (arg_then name t args) =
      search (stays_rules, type_or_null-Stays, arg_types-Stays args) depth 20

  is_in_self-Stays : (t self : Ref) → Stays S (is_in_self fuel parts t self)
  unfolding is_in_self
  is_in_self-Stays t self = search stays_rules depth 20

  behaviour_rule-Stays :
      (self : Ref) (rule : AstBehaviourRule) (info : AstFuncTypeInfo)
      → Stays S (behaviour_rule fuel parts self rule info)
  unfolding behaviour_rule
  behaviour_rule-Stays self rule (func_type_info args returning) =
      search (stays_rules, type_or_null-Stays, is_in_self-Stays, arg_types-Stays) depth 20

  analysed_rules-Stays :
      (self : Ref) (rules : List AstBehaviourRule) → Stays S (analysed_rules fuel parts self rules)
  unfolding analysed_rules
  analysed_rules-Stays self [] = search stays_rules
  analysed_rules-Stays self (rule ∷ rules) =
      search (stays_rules, behaviour_rule-Stays, analysed_rules-Stays self rules) depth 20

  behaviour_decl-Stays :
      (decl : AstDeclBehaviour) → Stays S (sema_analyze_behaviour_decl fuel parts decl)
  unfolding sema_analyze_behaviour_decl
  behaviour_decl-Stays decl = search (stays_rules, analysed_rules-Stays) depth 30

  with_behaviour-Stays :
      (v : SemaValue F) (rest : Build F SemaBehaviours)
      → Stays S rest
      → Stays S (with_behaviour fuel parts v rest)
  with_behaviour-Stays (value_behaviour b) rest h = search (stays_rules, h) depth 20
  with_behaviour-Stays v rest h = search (stays_rules, h) depth 20

  generic_rules-Stays : (paths : List AstPath) → Stays S (generic_rules fuel parts paths)
  unfolding generic_rules
  generic_rules-Stays [] = search stays_rules
  generic_rules-Stays (path ∷ paths) =
      search (stays_rules, ps.resolve, with_behaviour-Stays, generic_rules-Stays paths) depth 20

  generic_param-Stays :
      (param : AstGenericParam) → Stays S (sema_analyze_generic_param fuel parts param)
  unfolding sema_analyze_generic_param
  generic_param-Stays param = search (stays_rules, generic_rules-Stays) depth 20

  generic_params-Stays :
      (params : List AstGenericParam) → Stays S (push_generic_params fuel parts params)
  unfolding push_generic_params
  generic_params-Stays [] = search stays_rules
  generic_params-Stays (param ∷ params) =
      search (stays_rules, generic_param-Stays, generic_params-Stays params) depth 20

  ext_type-Stays : (o : Option AstType) → Stays S (ext_type fuel parts o)
  ext_type-Stays none = search stays_rules
  ext_type-Stays (some t) = search (stays_rules, ps.ast_type)

  func_type_of-Stays :
      (e : Option (Option Ref)) (info : AstFuncTypeInfo) → Stays S (func_type_of fuel parts e info)
  func_type_of-Stays none info = search stays_rules
  func_type_of-Stays (some e) (func_type_info args returning) =
      search (stays_rules, ps.func) depth 20

  ast_func_type-Stays :
      (info : AstFuncInfo) (type : AstFuncTypeInfo)
      → Stays S (sema_get_ast_func_type fuel parts info type)
  unfolding sema_get_ast_func_type
  ast_func_type-Stays info type = search (stays_rules, ext_type-Stays, func_type_of-Stays) depth 20

  declare_in_type-Stays :
      (public : Bool) (name : Bytes) (t : Option Ref) (v : SemaValue F)
      → Stays S (declare_in_type fuel parts public name t v)
  declare_in_type-Stays public name t v = search stays_rules depth 20

  declare_generic-Stays :
      (public : Bool) (name : Bytes) (types : List Ref) (g : ℕ) (fs : FuncSema) (o : Option Ref)
      → Stays S (declare_generic fuel parts public name types g fs o)
  declare_generic-Stays public name types g fs none = search stays_rules
  declare_generic-Stays public name types g fs (some t) = search stays_rules depth 20

  declare_external-Stays :
      (public : Bool) (name : Bytes) (fs : FuncSema) (o : Option Ref)
      → Stays S (declare_external fuel parts public name fs o)
  declare_external-Stays public name fs none = search stays_rules
  declare_external-Stays public name fs (some t) = search stays_rules depth 20

  push_func-Stays :
      (public : Bool) (f : AstFuncDecl) (params : Option (List AstGenericParam))
      → Stays S (push_func fuel parts public f params)
  unfolding push_func
  push_func-Stays public f none =
      search (stays_rules, ast_func_type-Stays, declare_in_type-Stays) depth 20
  push_func-Stays public f (some params) =
      search (stays_rules, ast_func_type-Stays, generic_params-Stays, declare_generic-Stays) depth
        40

  module _ (import : Bytes → Build F ℕ) where
    module_at-Stays : (m : ℕ) → Stays S (module_at fuel parts import m)
    unfolding module_at
    module_at-Stays m = search stays_rules

    module_of_value-Stays : (v : SemaValue F) → Stays S (module_of_value fuel parts import v)
    module_of_value-Stays (value_module m) = search (module_at-Stays)
    module_of_value-Stays v = search stays_rules depth 20

    found_decl-Stays : (o : Option SemaDecl) → Stays S (found_decl fuel parts import o)
    found_decl-Stays none = search stays_rules
    found_decl-Stays (some d) = search stays_rules

    use_ext_funcs-Stays : (v : SemaValue F) → Stays S (use_ext_funcs fuel parts import v)
    use_ext_funcs-Stays (value_module m) = search (stays_rules, module_at-Stays)
    use_ext_funcs-Stays v = search stays_rules

    use_item-Stays :
        (public : Bool) (o : Option SemaDecl) → Stays S (use_item fuel parts import public o)
    use_item-Stays public none = search stays_rules
    use_item-Stays public (some d) = search stays_rules

    use_items-Stays :
        (public : Bool) (from : SemaModule) (items : List AstFromUseListItem)
        → Stays S (use_items fuel parts import public from items)
    unfolding use_items
    use_items-Stays public from [] = search stays_rules
    use_items-Stays public from (item ∷ items) =
        search (stays_rules, use_item-Stays, use_items-Stays public from items)

    report_same-Stays :
        (name : Bytes) (ms : List AstStructMember) → Stays S (report_same fuel parts import name ms)
    unfolding report_same
    report_same-Stays name [] = search stays_rules
    report_same-Stays name (m ∷ ms) = search (stays_rules, report_same-Stays name ms) depth 20

    analysed_members-Stays :
        (before ms : List AstStructMember) → Stays S (analysed_members fuel parts import before ms)
    unfolding analysed_members
    analysed_members-Stays before [] = search stays_rules
    analysed_members-Stays before (m ∷ ms) =
        search
          (
            stays_rules,
            report_same-Stays,
            type_or_null-Stays,
            analysed_members-Stays (before ++ m ∷ []) ms,
          )
          depth 20

    -- A node, where each import does.
    pub node-Stays :
        ((path : Bytes) → Stays S (import path))
        → (public : Bool) (node : AstModuleDecl)
        → Stays S (sema_push_ast_module_node fuel parts import public node)
    unfolding sema_push_ast_module_node
    node-Stays h public (node_behaviour_decl decl) =
        search (stays_rules, behaviour_decl-Stays, push_new_decl-Stays) depth 20
    node-Stays h public (node_external_var decl) =
        search (stays_rules, ps.ast_type, push_new_decl-Stays) depth 20
    node-Stays h public (node_type_alias alias type) =
        search (stays_rules, ps.ast_type, push_new_decl-Stays) depth 20
    node-Stays h public (node_struct_def def) =
        search (stays_rules, analysed_members-Stays, push_new_decl-Stays) depth 20
    node-Stays h public (node_val_decl decl) =
        search (stays_rules, ps.val_decl, push_new_decl-Stays) depth 20
    node-Stays h public (node_from_use_all path) =
        search (stays_rules, ps.decl_path, found_decl-Stays, module_of_value-Stays) depth 20
    node-Stays h public (node_from_use_list path items) =
        search (stays_rules, ps.decl_path, found_decl-Stays, module_of_value-Stays, use_items-Stays)
          depth 20
    node-Stays h public (node_use path alias) =
        search (stays_rules, ps.decl_path, found_decl-Stays, use_ext_funcs-Stays) depth 20
    node-Stays h public (node_import path name) =
        search (stays_rules, h, push_new_decl-Stays) depth 20
    node-Stays h public (node_func f) = search (stays_rules, push_func-Stays) depth 20
    node-Stays h public (node_external_func f) =
        search (stays_rules, ast_func_type-Stays, declare_external-Stays) depth 20

    pub nodes-Stays :
        ((path : Bytes) → Stays S (import path))
        → (nodes : List AstModuleNode) → Stays S (push_nodes fuel parts import nodes)
    unfolding push_nodes
    nodes-Stays h [] = search stays_rules
    nodes-Stays h (node ∷ nodes) = search (stays_rules, node-Stays h, nodes-Stays h nodes) depth 20

    pub read_decls-Stays :
        ((path : Bytes) → Stays S (import path))
        → (nodes : List AstModuleNode) → Stays S (sema_module_read_decls fuel parts import nodes)
    unfolding sema_module_read_decls
    read_decls-Stays h nodes = search (stays_rules, push_primitives-Stays, nodes-Stays h) depth 20
