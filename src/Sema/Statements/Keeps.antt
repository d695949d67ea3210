-- ===== src/Sema/Statements/Keeps.antt =====
-- What statements and bodies leave of the scope stack: src/sema/module/parts/body.c.
use mathlib.Core.Path.{subst}
use hoblang_old.Sema.Value.{SemaValue}
use hoblang_old.Base.{sym, ◌++◌, ap, ℕ, List, [], ◌∷◌, ◌≡◌, refl, ◌∙◌, Option, none, some, Bytes}
use hoblang_old.Sema.Statements.{ended}
use hoblang_old.Sema.Decls.{sema_decl_new}
use hoblang_old.Sema.Analysis.{continue_with, answer, ◌>>=◌, World, Analysis}
use hoblang_old.Sema.Statements.Body.{
  declares, performs, BodyStmt, body_stmt, body_stmts_then, sema_ast_body, clear_defers,
}
use hoblang_old.Sema.Expr.Simple.{on_module}
use hoblang_old.Sema.Scopes.{
  sema_module_push_scope_decl, sema_module_push_body_scope, sema_module_push_scope_decl,
  sema_module_pop_scope, or_current, set_parent, sema_ss_current_body,
}
use hoblang_old.Sema.State.{SemaLoop, SemaScope, SemaScopeStack, update}
use hoblang_old.Sema.Types.{Heap}

-- It is answered, and leaves types that are `Ok` and the stack `ss` as it was but for the top scope,
-- below which the scopes `below` are, and with the open loops `loops`.
abbrev pub Leaves :
    (Heap → Type 0)
    → SemaScopeStack
    → List SemaScope
    → List SemaLoop
    → Option (Option (Unit {0}) × World)
    → Type 0
Leaves Ok ss below loops x =
    (w : World) × (d : SemaScope) × (x ≡ some (some tt, w))
    × Ok w.heap
    × (w.sema.current_ss ≡ some (record ss { scopes = d ∷ below; loops = loops }))

-- Where the types are `Ok`, a scope is open and the open loops are `loops`, the analysis keeps the stack
-- so.
abbrev pub KeepsStack : (Heap → Type 0) → List SemaLoop → Analysis (Unit {0}) → Type 0
KeepsStack Ok loops s =
    (w : World) (ss : SemaScopeStack) (top : SemaScope) (below : List SemaScope)
    → Ok w.heap
    → ss.loops ≡ loops
    → w.sema.current_ss ≡ some ss
    → ss.scopes ≡ top ∷ below
    → Leaves Ok ss below ss.loops (s w)

with_scopes :
    (ss : SemaScopeStack) {xs : List SemaScope}
    → ss.scopes ≡ xs
    → some ss ≡ some (record ss { scopes = xs })
with_scopes ss p = ap (λ xs. some (record ss { scopes = xs })) p

pop_scope-top :
    (w : World) (ss : SemaScopeStack) (d : SemaScope)
    → w.sema.current_ss ≡ some (record ss { scopes = d ∷ ss.scopes })
    → on_module sema_module_pop_scope w
      ≡ some (some tt, record w { sema = record w.sema { current_ss = some ss } })
unfolding sema_module_pop_scope
pop_scope-top w ss d e = rw e refl

abbrev answered : World → Option (Option (Unit {0}) × World)
answered w = some (some tt, w)

answer_world : (w1 w2 : World) → answered w1 ≡ answered w2 → w1 ≡ w2
answer_world w1 w2 q = cc

pub performs-KeepsStack :
    (F : Type 0) (Ok : Heap → Type 0) (loops : List SemaLoop) (s : Analysis (Unit {0}))
    → KeepsStack Ok loops s
    → KeepsStack Ok loops (body_stmt {F = F} (performs s))
unfolding body_stmt
performs-KeepsStack F Ok loops s k w ss top below o l e p =
    let (w1, d, q, o1, e1) = k w ss top below o l e p in (w1, d, rw q refl, o1, e1)

module _ {F : Type 0} (Ok : Heap → Type 0) (loops : List SemaLoop) where
  -- Each statement of a body keeps the stack.
  abbrev pub AllKeep : List (BodyStmt F) → Type 0
  AllKeep [] = Unit
  AllKeep (s ∷ stmts) = KeepsStack Ok loops (body_stmt s) × AllKeep stmts

  stmts-Leaves :
      (stmts : List (BodyStmt F)) (last : Analysis (Unit {0})) (w : World) (ss : SemaScopeStack)
      (top : SemaScope) (below : List SemaScope)
      → AllKeep stmts
      → Ok w.heap
      → ss.loops ≡ loops
      → w.sema.current_ss ≡ some ss
      → ss.scopes ≡ top ∷ below
      → (w1 : World) × (d : SemaScope) × (body_stmts_then stmts last w ≡ last w1)
        × Ok w1.heap
        × (w1.sema.current_ss ≡ some (record ss { scopes = d ∷ below }))
  unfolding body_stmts_then
  stmts-Leaves [] last w ss top below k o l e p = (w, top, refl, o, e ∙ with_scopes ss p)
  stmts-Leaves (s ∷ stmts) last w ss top below (k, ks) o l e p =
      let (w1, d, q, o1, e1) = k w ss top below o l e p in
      let (w2, d2, q2, o2, e2) =
        stmts-Leaves stmts last w1 (record ss { scopes = d ∷ below }) d below ks o1 l e1 refl in
      (w2, d2, rw q q2, o2, e2)

  -- A body keeps the stack, where its statements do.
  pub ast_body-KeepsStack :
      (b : ℕ) (stmts : List (BodyStmt F))
      → AllKeep stmts
      → KeepsStack Ok loops (sema_ast_body b stmts)
  unfolding sema_ast_body sema_module_push_body_scope sema_module_pop_scope
  ast_body-KeepsStack b stmts ks w ss top below o l e p =
      let scope : SemaScope = record {
        decls = [];
        body = or_current (some b) (sema_ss_current_body ss);
      } in
      let ss1 = record ss { scopes = scope ∷ ss.scopes } in
      let bodies =
        set_parent (some b) (sema_ss_current_body ss) (update b clear_defers w.sema.bodies) in
      let w1 = record w { sema = record w.sema { current_ss = some ss1; bodies = bodies } } in
      let (w2, d, q, o2, e2) =
        stmts-Leaves stmts (on_module sema_module_pop_scope) w1 ss1 scope ss.scopes ks o l refl
          refl in
      (
        record w2 { sema = record w2.sema { current_ss = some ss } },
        top,
        rw e (q ∙ pop_scope-top w2 ss d e2),
        o2,
        with_scopes ss p,
      )

  -- A declaration in a body, whose value is analysed with the stack kept.
  pub declares-KeepsStack :
      (name : Bytes) (value : ℕ) (a : Analysis (SemaValue F))
      → KeepsStack Ok loops (a >>= (λ _. answer tt))
      → KeepsStack Ok loops (body_stmt (declares name value a))
  unfolding body_stmt sema_module_push_scope_decl
  declares-KeepsStack name value a k w ss top below o l e p =
      behind (a w) (k w ss top below o l e p)
    where
      at_end :
          (w1 w2 : World) (d : SemaScope)
          → answered w1 ≡ answered w2
          → w2.sema.current_ss ≡ some (record ss { scopes = d ∷ below })
          → w1.sema.current_ss ≡ some (record ss { scopes = d ∷ below })
      at_end w1 w2 d q e2 = rw (answer_world w1 w2 q) e2

      behind :
          (x : Option (Option (SemaValue F) × World))
          → Leaves Ok ss below ss.loops (continue_with (λ _. answer tt) x)
          → Leaves Ok ss below ss.loops (
              ended (
                continue_with
                  (λ _. on_module (sema_module_push_scope_decl (sema_decl_new name value)))
                  x))
      behind none (w2, d, q, o2, e2) = cc
      behind (some (none, w1)) (w2, d, q, o2, e2) = cc
      behind (some (some v, w1)) (w2, d, q, o2, e2) =
          let ss1 = record ss {
            scopes = record d { decls = d.decls ++ sema_decl_new name value ∷ [] } ∷ below;
          } in
          (
            record w1 { sema = record w1.sema { current_ss = some ss1 } },
            record d { decls = d.decls ++ sema_decl_new name value ∷ [] },
            rw (at_end w1 w2 d q e2) refl,
            subst (λ x. Ok x.heap) (sym (answer_world w1 w2 q)) o2,
            refl,
          )
