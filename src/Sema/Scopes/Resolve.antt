-- ===== src/Sema/Scopes/Resolve.antt =====
-- What a name means inside nested scopes.
use hoblang_old.Base.{
  ℕ, ◌&&◌, List, [], ◌∷◌, ◌++◌, ◌≡◌, refl, Option, none, some, if◌then◌else◌, Bytes, arith,
  Bool-cases, Option-cases, ◌>>=◌, inl, inr,
}
use hoblang_old.Core.Slice.{slice_eq}
use hoblang_old.Sema.Types.{Ref}
use hoblang_old.Sema.State.{SemaDecl, SemaScope, SemaScopeStack, SemaModule}
use hoblang_old.Sema.Scopes.{
  same_ref, set_parent, or_current, sema_ss_current_body, scope_resolve, scopes_resolve, push_decl,
  sema_module_push_scope_decl, sema_module_push_body_scope, sema_module_pop_scope,
}

scope_resolve-append :
    (t : Option Ref) (name : Bytes) (ds : List SemaDecl) (d : SemaDecl)
    → scope_resolve t name (ds ++ d ∷ []) ≡ elim (scope_resolve t name ds) [
      | some e ↦ some e
      | none ↦ if same_ref d.in_type t && slice_eq d.name name then some d else none
    ]
unfolding scope_resolve
scope_resolve-append t name [] d = refl
scope_resolve-append t name (e ∷ ds) d =
    elim (Bool-cases (same_ref e.in_type t && slice_eq e.name name)) [
      | inl h ↦ rw h refl
      | inr h ↦ rw h (scope_resolve-append t name ds d)
    ]

-- A new declaration of a scope hides those of the scopes around it, but not an earlier declaration
-- of the same name in the scope itself, which still wins.
pub resolve-push_decl :
    (t : Option Ref) (name : Bytes) (d : SemaDecl) (s : SemaScope) (ss : List SemaScope)
    → elim (push_decl d (s ∷ ss)) [ none ↦ none | some ss' ↦ scopes_resolve t name ss' ]
      ≡ elim (scope_resolve t name s.decls) [
        | some e ↦ some e
        | none ↦
            if same_ref d.in_type t && slice_eq d.name name
            then some d
            else scopes_resolve t name ss
      ]
unfolding scopes_resolve
resolve-push_decl t name d s ss =
    rw (scopes_resolve, scope_resolve-append t name s.decls d)
      (elim (Option-cases (scope_resolve t name s.decls)) [
        | inl e ↦ rw e (ground arith)
        | inr (x, e) ↦ rw e refl
      ])

-- Declarations pushed one after the other.
abbrev pub push_all : List SemaDecl → SemaModule → Option SemaModule
push_all [] m = some m
push_all (d ∷ ds) m = sema_module_push_scope_decl d m >>= push_all ds

-- The module `m` whose stack of scopes is `ss`.
abbrev with_scopes : SemaModule → SemaScopeStack → List SemaScope → SemaModule
with_scopes m st ss = record m { current_ss = some (record st { scopes = ss }) }

push_all-with_scopes :
    (ds : List SemaDecl) (m : SemaModule) (st : SemaScopeStack) (s : SemaScope)
    (ss : List SemaScope)
    → (ds' : List SemaDecl) × (push_all ds (with_scopes m st (s ∷ ss))
        ≡ some (with_scopes m st (record { decls = ds'; body = s.body } ∷ ss)))
unfolding sema_module_push_scope_decl
push_all-with_scopes [] m st s ss = (s.decls, refl)
push_all-with_scopes (d ∷ ds) m st s ss =
    push_all-with_scopes ds m st (record { decls = s.decls ++ d ∷ []; body = s.body }) ss

-- Scopes are balanced: after a scope is pushed, any declarations are pushed and the scope is popped,
-- the module is as before; only the body of the scope, if one was given, has its parent set.
pub pop_scope-push_body_scope :
    (body : Option ℕ) (ds : List SemaDecl) (m : SemaModule) (st : SemaScopeStack)
    → m.current_ss ≡ some st
    → (sema_module_push_body_scope body m >>= push_all ds >>= sema_module_pop_scope)
      ≡ some (record m { bodies = set_parent body (sema_ss_current_body st) m.bodies })
unfolding sema_module_push_body_scope sema_module_pop_scope
pop_scope-push_body_scope body ds m st e =
    let bodies = set_parent body (sema_ss_current_body st) m.bodies in
    let scope : SemaScope = record {
      decls = [];
      body = or_current body (sema_ss_current_body st);
    } in
    let (ds', p) = push_all-with_scopes ds (record m { bodies = bodies }) st scope st.scopes in
    rw (e, p) refl
