-- ===== src/Sema/Nodes/Rules.antt =====
-- Behaviours and generics: src/sema/module/parts/decls/behaviour.c and generic.c.
use hoblang_old.Base.{
  ℕ, Bool, true, false, not, List, [], ◌∷◌, none, some, if◌then◌else◌, get_elem?,
}
use hoblang_old.Lexer.Rules.{codes}
use hoblang_old.Parser.Nodes.{AstGenericParam, AstBehaviourRule, AstDeclBehaviour}
use hoblang_old.Parser.Syntax.{
  AstPath, AstFuncTypeInfo, func_type_info, AstFuncArgs, no_args, arg_then,
}
use hoblang_old.Sema.Analysis.{Analysis, answer, or_abort, node_of, new_type, same_type}
use hoblang_old.Sema.Behaviours.{
  SemaBehaviourRule, SemaBehaviours, no_behaviours, behaviour_then, behaviour_decl, behaviour_list,
}
use hoblang_old.Sema.Build.{Build, give, analysed, new_behaviour, ◌>>=◌}
use hoblang_old.Sema.Scopes.{
  sema_module_push_scope, sema_module_pop_scope, sema_module_push_scope_decl,
}
use hoblang_old.Sema.Types.{Ref, SemaType, generic, pointer, function}
use hoblang_old.Sema.Value.{SemaValue, value_type, value_behaviour}
use hoblang_old.Sema.Nodes.{Parts, scoped, reported, push_scope_decl, type_or_null}

module _ {F : Type 0} (fuel : ℕ) (parts : Parts F) where
  unfoldable pub arg_types : AstFuncArgs → Build F (List Ref)
  arg_types no_args = give []
  arg_types (arg_then name t args) = do
    a ← type_or_null parts t
    more ← arg_types args
    give (a ∷ more)

  abbrev points_to_self : Ref → SemaType → Analysis Bool
  points_to_self self (pointer to) = same_type fuel to self
  points_to_self self n = answer false

  -- Whether the type of a rule is Self or *Self. NULL is read.
  unfoldable pub is_in_self : Ref → Ref → Build F Bool
  unfolding same_type
  is_in_self in_type self = do
    same ← analysed (λ P. same_type fuel in_type self)
    if same
        then give true
        else (do n ← analysed (λ P. node_of in_type); analysed (λ P. points_to_self self n))

  unfoldable pub behaviour_rule :
      Ref → AstBehaviourRule → AstFuncTypeInfo → Build F SemaBehaviourRule
  unfolding is_in_self arg_types new_type
  behaviour_rule self rule (func_type_info args returning) = do
    in_type ← type_or_null parts rule.in_type
    in_self ← is_in_self in_type self
    _ ← (if not in_self then reported else give tt)
    ts ← arg_types args
    r ← type_or_null parts returning
    t ← analysed (λ P. new_type (function (in_type ∷ ts) r))
    give (record {
      name = rule.name;
      in_type = in_type;
      args = in_type ∷ ts;
      returning = r;
      type = t;
    })

  unfoldable pub analysed_rules : Ref → List AstBehaviourRule → Build F (List SemaBehaviourRule)
  unfolding behaviour_rule
  analysed_rules self [] = give []
  analysed_rules self (rule ∷ rules) = do
    r ← behaviour_rule self rule rule.info
    more ← analysed_rules self rules
    give (r ∷ more)

  unfoldable pub sema_analyze_behaviour_decl : AstDeclBehaviour → Build F ℕ
  unfolding analysed_rules new_type sema_module_push_scope sema_module_pop_scope
  sema_analyze_behaviour_decl decl = do
    _ ← scoped sema_module_push_scope
    self ←
        analysed
          (λ P. new_type (generic (record { behaviour = none; replace = none; table = none })))
    _ ← push_scope_decl (codes "Self") (value_type self)
    rules ← analysed_rules self decl.rules
    b ← new_behaviour (behaviour_decl rules self)
    _ ← scoped sema_module_pop_scope
    give b

  -- What is no behaviour is reported and left out.
  abbrev pub with_behaviour : SemaValue F → Build F SemaBehaviours → Build F SemaBehaviours
  with_behaviour (value_behaviour b) rest = do
    x ← analysed (λ P. or_abort (get_elem? P.behaviours b))
    more ← rest
    give (behaviour_then x more)
  with_behaviour v rest = do _ ← reported; rest

  unfoldable pub generic_rules : List AstPath → Build F SemaBehaviours
  generic_rules [] = give no_behaviours
  generic_rules (path ∷ paths) = do v ← parts.resolve path; with_behaviour v (generic_rules paths)

  unfoldable pub sema_analyze_generic_param : AstGenericParam → Build F Ref
  unfolding generic_rules new_type
  sema_analyze_generic_param param = do
    bs ← generic_rules param.behaviours
    b ← new_behaviour (behaviour_list bs)
    analysed (λ P. new_type (generic (record { behaviour = some b; replace = none; table = none })))

  unfoldable pub push_generic_params : List AstGenericParam → Build F (List Ref)
  unfolding sema_analyze_generic_param sema_module_push_scope_decl
  push_generic_params [] = give []
  push_generic_params (param ∷ params) = do
    t ← sema_analyze_generic_param param
    _ ← push_scope_decl param.name (value_type t)
    more ← push_generic_params params
    give (t ∷ more)
