-- ===== src/Sema/Scopes.antt =====
-- Scopes: src/sema/module/scopes/ and the functions of src/sema/module/private.c that call it. `none`
-- is the failed assertion that a scope stack is current, or a read of a scope that is not there.
pub mod Resolve
use hoblang_old.Base.{
  ℕ, Bool, true, false, ◌&&◌, List, [], ◌∷◌, ◌++◌, Option, none, some, ◌==◌, if◌then◌else◌, Bytes,
}
use hoblang_old.Core.Slice.{slice_eq}
use hoblang_old.Sema.Types.{Ref}
use hoblang_old.Sema.State.{
  SemaDecl, SemaScope, SemaLoop, SemaScopeStack, AstBody, SemaModule, update,
}

-- Equality of two pointers to types.
abbrev pub same_ref : Option Ref → Option Ref → Bool
same_ref none none = true
same_ref (some a) (some b) = a == b
same_ref _ _ = false

-- The loop over the declarations of one scope: the first that matches.
unfoldable pub scope_resolve : Option Ref → Bytes → List SemaDecl → Option SemaDecl
scope_resolve t name [] = none
scope_resolve t name (d ∷ ds) =
    let rest = scope_resolve t name ds in
    if same_ref d.in_type t && slice_eq d.name name then some d else rest

-- The loop over the scopes, from the top.
unfoldable pub scopes_resolve : Option Ref → Bytes → List SemaScope → Option SemaDecl
unfolding scope_resolve
scopes_resolve t name [] = none
scopes_resolve t name (s ∷ ss) =
    let rest = scopes_resolve t name ss in
    elim (scope_resolve t name s.decls) [ some d ↦ some d | none ↦ rest ]

abbrev pub sema_ss_resolve_decl : Option Ref → Bytes → SemaScopeStack → Option SemaDecl
sema_ss_resolve_decl t name stack = scopes_resolve t name stack.scopes

abbrev pub current_body_of : List SemaScope → Option ℕ
current_body_of [] = none
current_body_of (s ∷ _) = s.body

abbrev pub sema_ss_current_body : SemaScopeStack → Option ℕ
sema_ss_current_body stack = current_body_of stack.scopes

-- The body of the new scope: that of the top scope where none is given.
abbrev pub or_current : Option ℕ → Option ℕ → Option ℕ
or_current none current = current
or_current (some b) current = some b

-- `body->parent = current_body`
abbrev pub set_parent : Option ℕ → Option ℕ → List AstBody → List AstBody
set_parent none current bodies = bodies
set_parent (some b) current bodies = update b (λ x. record x { parent = current }) bodies

abbrev pub sema_ss_push_body_scope :
    Option ℕ → SemaScopeStack → List AstBody → SemaScopeStack × List AstBody
sema_ss_push_body_scope body stack bodies =
    let current = sema_ss_current_body stack in
    let scope : SemaScope = record { decls = []; body = or_current body current } in
    (record stack { scopes = scope ∷ stack.scopes }, set_parent body current bodies)

abbrev pub sema_ss_push_scope : SemaScopeStack → List AstBody → SemaScopeStack × List AstBody
sema_ss_push_scope stack bodies = sema_ss_push_body_scope none stack bodies

-- `vec_pop` asserts that a scope is there.
abbrev pub pop_scope : List SemaScope → Option (List SemaScope)
pop_scope [] = none
pop_scope (s ∷ ss) = some ss

abbrev pub sema_ss_pop_scope : SemaScopeStack → Option SemaScopeStack
sema_ss_pop_scope stack = elim (pop_scope stack.scopes) [
  | none ↦ none
  | some ss ↦ some (record stack { scopes = ss })
]

abbrev pub push_decl : SemaDecl → List SemaScope → Option (List SemaScope)
push_decl d [] = none
push_decl d (s ∷ ss) = some (record s { decls = s.decls ++ d ∷ [] } ∷ ss)

abbrev pub sema_ss_push_decl : SemaDecl → SemaScopeStack → Option SemaScopeStack
sema_ss_push_decl d stack = elim (push_decl d stack.scopes) [
  | none ↦ none
  | some ss ↦ some (record stack { scopes = ss })
]

-- The functions of the module act on its current stack.
abbrev pub on_ss : (SemaScopeStack → Option SemaScopeStack) → SemaModule → Option SemaModule
on_ss f m = elim m.current_ss [
  | none ↦ none
  | some ss ↦ elim (f ss) [ none ↦ none | some ss' ↦ some (record m { current_ss = some ss' }) ]
]

unfoldable pub sema_module_push_body_scope : Option ℕ → SemaModule → Option SemaModule
sema_module_push_body_scope body m = elim m.current_ss [
  | none ↦ none
  | some ss ↦
      let (ss', bodies) = sema_ss_push_body_scope body ss m.bodies in
      some (record m { current_ss = some ss'; bodies = bodies })
]

unfoldable pub sema_module_push_scope : SemaModule → Option SemaModule
unfolding sema_module_push_body_scope
sema_module_push_scope m = sema_module_push_body_scope none m

unfoldable pub sema_module_pop_scope : SemaModule → Option SemaModule
sema_module_pop_scope m = on_ss sema_ss_pop_scope m

unfoldable pub sema_module_push_scope_decl : SemaDecl → SemaModule → Option SemaModule
sema_module_push_scope_decl d m = on_ss (sema_ss_push_decl d) m

abbrev pub sema_module_current_body : SemaModule → Option ℕ
sema_module_current_body m = elim m.current_ss [ none ↦ none | some ss ↦ sema_ss_current_body ss ]

abbrev pub sema_module_returns : SemaModule → Option Ref
sema_module_returns m = elim m.current_ss [ none ↦ none | some ss ↦ some ss.returning ]
