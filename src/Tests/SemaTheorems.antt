-- ===== src/Tests/SemaTheorems.antt =====
-- The theorems on scopes, loops, declarations and defers, on concrete modules.
use hoblang_old.Base.{
  ◌⊎◌, Bool, true, false, List, [], ◌∷◌, ◌≡◌, refl, Option, some, none, arith, ◌>>=◌, inl, inr,
}
use hoblang_old.Core.Slice.{slice_eq, same_bytes}
use hoblang_old.Lexer.Rules.{codes}
use hoblang_old.Sema.Decls.{
  sema_module_push_module_decl, sema_module_resolve_module_decl_in_type, append_all,
  resolve_in_type, is_in_type,
}
use hoblang_old.Sema.Decls.Unique.{
  IsUnique, none_yet, Keeps, HasNames, push_module_decl-IsUnique, append_all-HasNames,
}
use hoblang_old.Sema.Defers.{sema_module_push_defer, defers_from, sema_module_defers_up_to}
use hoblang_old.Sema.Defers.Order.{
  Chain, outermost, inside, defers_from-unwound, push_defer-unwound,
}
use hoblang_old.Sema.Loops.{
  sema_module_push_loop, sema_module_named_loop, sema_loop_new_named, sema_loop_new, try_named_loop,
}
use hoblang_old.Sema.Loops.Named.{
  IsTaken, IsUnique as HasUniqueNames, named_loop-IsOpen, push_loop-IsUnique,
}
use hoblang_old.Sema.Scopes.{
  scope_resolve, scopes_resolve, push_decl, sema_module_push_body_scope, sema_module_pop_scope,
  set_parent,
}
use hoblang_old.Sema.Scopes.Resolve.{resolve-push_decl, pop_scope-push_body_scope, push_all}
use hoblang_old.Sema.State.{AstBody, SemaDecl, SemaScope, SemaScopeStack, SemaModule}
use hoblang_old.Sema.Types.{Ref}
use hoblang_old.Sema.Types.Equals.{sema_types_equals}
use hoblang_old.Tests.TypeTheorems.{sample}

-- A local name, and a name declared in a type.
abbrev local : SemaDecl
local = record { name = codes "x"; in_type = none; value = 0 }

abbrev method : SemaDecl
method = record { name = codes "len"; in_type = some 1; value = 1 }

-- Two bodies, the second inside the first.
abbrev bodies : List AstBody
bodies =
    record { parent = none; defers = 10 ∷ 11 ∷ [] }
    ∷ record { parent = some 0; defers = 12 ∷ [] }
    ∷ record { parent = none; defers = [] }
    ∷ []

abbrev pub inner : SemaScope
inner = record { decls = local ∷ []; body = some 1 }

abbrev pub stack : SemaScopeStack
stack = record {
  scopes = inner ∷ record { decls = []; body = some 0 } ∷ [];
  loops = sema_loop_new 1 ∷ sema_loop_new_named (codes "outer") 0 ∷ [];
  returning = 0;
}

abbrev pub module_at_work : SemaModule
module_at_work = record {
  public_decls = [];
  private_decls = [];
  current_ss = some stack;
  failed = false;
  bodies = bodies;
}

abbrev same_types : Ref → Ref → Option Bool
same_types a b = sema_types_equals 3 sample a b

push_module_decl-IsUnique_example :
    (m' : SemaModule) × (sema_module_push_module_decl same_types true method module_at_work
      ≡ some (true, m'))
    × IsUnique same_types m'.private_decls
    × Keeps same_types module_at_work m'
    × (sema_module_resolve_module_decl_in_type same_types (some 1) (codes "len") m'
        ≡ some (some method))
unfolding sema_types_equals resolve_in_type is_in_type
push_module_decl-IsUnique_example =
    push_module_decl-IsUnique same_types true method module_at_work none refl refl none_yet

append_all-HasNames_example :
    (m' : SemaModule) × (append_all same_types false (local ∷ method ∷ []) module_at_work ≡ some m')
    × IsUnique same_types m'.private_decls
    × Keeps same_types module_at_work m'
    × HasNames same_types (local ∷ method ∷ []) m'
append_all-HasNames_example =
    append_all-HasNames same_types false (local ∷ method ∷ []) module_at_work none_yet

bodies-Chain : Chain bodies (some 0) (0 ∷ [])
bodies-Chain = inside 0 (record { parent = none; defers = 10 ∷ 11 ∷ [] }) refl outermost

defers_from-unwound_example : defers_from 2 bodies none (some 1) ≡ some (12 ∷ 11 ∷ 10 ∷ [])
defers_from-unwound_example =
    defers_from-unwound bodies none (some 1) (1 ∷ 0 ∷ []) 2
      (inside 1 (record { parent = some 0; defers = 12 ∷ [] }) refl bodies-Chain) (omega arith)

push_defer-unwound_example :
    (m' : SemaModule) × (sema_module_push_defer 13 module_at_work ≡ some m')
    × (sema_module_defers_up_to 2 (some 1) module_at_work ≡ some (12 ∷ []))
    × (sema_module_defers_up_to 2 (some 1) m' ≡ some (13 ∷ 12 ∷ []))
push_defer-unwound_example =
    push_defer-unwound 13 module_at_work 1 (record { parent = some 0; defers = 12 ∷ [] }) (0 ∷ [])
      (some 1) 2 refl refl bodies-Chain (refl, tt) (omega arith)

abbrev shadowing : SemaDecl
shadowing = record { name = codes "x"; in_type = none; value = 7 }

resolve-push_decl_example :
    elim (push_decl shadowing (record { decls = []; body = none } ∷ inner ∷ [])) [
      | none ↦ none
      | some ss ↦ scopes_resolve none (codes "x") ss
    ]
    ≡ some shadowing
unfolding scope_resolve slice_eq same_bytes
resolve-push_decl_example =
    resolve-push_decl none (codes "x") shadowing (record { decls = []; body = none }) (inner ∷ [])

pop_scope-push_body_scope_example :
    (sema_module_push_body_scope (some 2) module_at_work
      >>= push_all (local ∷ shadowing ∷ [])
      >>= sema_module_pop_scope)
    ≡ some (record module_at_work { bodies = set_parent (some 2) (some 1) bodies })
pop_scope-push_body_scope_example =
    pop_scope-push_body_scope (some 2) (local ∷ shadowing ∷ []) module_at_work stack refl

stack-HasUniqueNames : HasUniqueNames stack.loops
stack-HasUniqueNames = ((λ (name, n, h). cc), ((λ (name, n, h). h), tt))

named_loop-IsOpen_example :
    sema_module_named_loop (codes "outer") module_at_work
    ≡ some (some (sema_loop_new_named (codes "outer") 0), module_at_work)
unfolding try_named_loop
named_loop-IsOpen_example =
    named_loop-IsOpen module_at_work stack (sema_loop_new_named (codes "outer") 0) (codes "outer")
      refl stack-HasUniqueNames (inr (inl refl)) refl

push_loop-IsUnique_example :
    (IsTaken (sema_loop_new_named (codes "outer") 2) stack.loops
      × (sema_module_push_loop (sema_loop_new_named (codes "outer") 2) module_at_work
          ≡ some (false, record module_at_work { failed = true })))
    ⊎ ((¬ IsTaken (sema_loop_new_named (codes "outer") 2) stack.loops)
        × (sema_module_push_loop (sema_loop_new_named (codes "outer") 2) module_at_work
            ≡ some (
              true,
              record module_at_work {
                current_ss =
                    some (record stack {
                      loops = sema_loop_new_named (codes "outer") 2 ∷ stack.loops;
                    });
              },
            ))
        × HasUniqueNames (sema_loop_new_named (codes "outer") 2 ∷ stack.loops))
push_loop-IsUnique_example =
    push_loop-IsUnique (sema_loop_new_named (codes "outer") 2) module_at_work stack refl
      stack-HasUniqueNames
