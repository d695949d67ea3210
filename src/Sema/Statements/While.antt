-- ===== src/Sema/Statements/While.antt =====
-- What a `while` leaves of the open loops: src/sema/module/parts/stmts/while.c.
use mathlib.Core.Path.{subst}
use hoblang_old.Base.{sym, ℕ, List, [], ◌∷◌, ◌≡◌, refl, ◌⊎◌, inl, inr, some}
use hoblang_old.Sema.Analysis.{continue_with, World}
use hoblang_old.Sema.Expr.{SemaExpr}
use hoblang_old.Sema.Loops.Named.{push_loop-cases, IsTaken}
use hoblang_old.Sema.Loops.{sema_module_pop_loop}
use hoblang_old.Sema.State.{SemaLoop, SemaScope, SemaScopeStack, sema_module_fail}
use hoblang_old.Sema.Statements.{ended, condition, sema_stmt_while_loop}
use hoblang_old.Sema.Statements.Body.{BodyStmt, sema_ast_body}
use hoblang_old.Sema.Statements.Keeps.{Leaves, KeepsStack, AllKeep, ast_body-KeepsStack}
use hoblang_old.Sema.Types.{Heap}
use hoblang_old.Sema.Expr.Simple.{on_module}

-- What a `while` over the loop `l` leaves of the loops: all, unless `l` has the name of one of them;
-- then the innermost is gone.
abbrev pub LoopsBehind : SemaLoop → List SemaLoop → List SemaLoop → Type 0
LoopsBehind l loops behind =
    ((¬ IsTaken l loops) × (behind ≡ loops))
    ⊎ (IsTaken l loops × ((k : SemaLoop) × (loops ≡ k ∷ behind)))

pop_loop-top :
    (w : World) (ss : SemaScopeStack) (k : SemaLoop) (ks : List SemaLoop)
    → w.sema.current_ss ≡ some ss
    → ss.loops ≡ k ∷ ks
    → on_module sema_module_pop_loop w
      ≡ some (
        some tt,
        record w { sema = record w.sema { current_ss = some (record ss { loops = ks }) } },
      )
unfolding sema_module_pop_loop
pop_loop-top w ss k ks e p = rw (e, p) refl

taken-top :
    (l : SemaLoop) (ls : List SemaLoop)
    → IsTaken l ls
    → (k : SemaLoop) × ((ks : List SemaLoop) × (ls ≡ k ∷ ks))
taken-top l [] (name, n, h) = elim h [ ]
taken-top l (k ∷ ks) t = (k, (ks, refl))

module _ {F : Type 0} (fuel : ℕ) (Ok : Heap → Type 0) (l : SemaLoop)
    (stmts : List (BodyStmt F)) where
  -- The body and the end of the loop, on the stack that the push has left.
  body-Leaves :
      (w : World) (ss : SemaScopeStack) (top : SemaScope) (below : List SemaScope) (k : SemaLoop)
      (ks : List SemaLoop)
      → AllKeep Ok ss.loops stmts
      → Ok w.heap
      → w.sema.current_ss ≡ some ss
      → ss.scopes ≡ top ∷ below
      → ss.loops ≡ k ∷ ks
      → Leaves Ok ss below ks (
          continue_with
            (λ _. on_module sema_module_pop_loop)
            (ended (sema_ast_body l.body stmts w)))
  body-Leaves w ss top below k ks keep o e p q =
      let (w1, d, b, o1, e1) =
        ast_body-KeepsStack Ok ss.loops l.body stmts keep w ss top below o refl e p in
      (
        record w1 {
          sema = record w1.sema {
            current_ss = some (record ss { scopes = d ∷ below; loops = ks });
          };
        },
        d,
        rw b (pop_loop-top w1 (record ss { scopes = d ∷ below }) k ks e1 q),
        o1,
        refl,
      )

  -- A `while` over the loop `l`, where its condition and the statements of its body are answered and
  -- keep the loops and the scopes around them, is answered and keeps the scopes below the top one. The
  -- open loops are as before, unless one of them has the name of `l`: then the innermost is closed.
  -- The types are to be `Ok` at the start, and the condition and the statements are to keep them so.
  pub while_loop-open_loops :
      (e : SemaExpr F) (w : World) (ss : SemaScopeStack) (top : SemaScope) (below : List SemaScope)
      → KeepsStack Ok ss.loops (condition fuel e)
      → AllKeep Ok ss.loops stmts
      → AllKeep Ok (l ∷ ss.loops) stmts
      → Ok w.heap
      → w.sema.current_ss ≡ some ss
      → ss.scopes ≡ top ∷ below
      → (loops : List SemaLoop) × LoopsBehind l ss.loops loops
        × Leaves Ok ss below loops (sema_stmt_while_loop fuel e l (sema_ast_body l.body stmts) w)
  unfolding sema_stmt_while_loop
  while_loop-open_loops e w ss top below c in_taken in_new o s p =
      let (w1, d, q, o1, e1) = c w ss top below o refl s p in
      elim (push_loop-cases l w1.sema (record ss { scopes = d ∷ below }) e1) [
        | inl (t, r) ↦
            let (k, (ks, h)) = taken-top l ss.loops t in
            let (w3, d3, q3, o3, e3) =
              body-Leaves (record w1 { sema = sema_module_fail w1.sema })
                (record ss { scopes = d ∷ below }) d below k ks in_taken o1 e1 refl h in
            (ks, inr (t, (k, h)), (w3, d3, rw (q, r) q3, o3, e3))
        | inr (free, r) ↦
            let ss2 = record ss { scopes = d ∷ below; loops = l ∷ ss.loops } in
            let (w3, d3, q3, o3, e3) =
              body-Leaves (record w1 { sema = record w1.sema { current_ss = some ss2 } }) ss2 d
                below l ss.loops in_new o1 refl refl refl in
            (ss.loops, inl (free, refl), (w3, d3, rw (q, r) q3, o3, e3))
      ]

  -- So a `while` of another name is itself a statement that keeps the stack.
  pub while_loop-KeepsStack :
      (e : SemaExpr F) (loops : List SemaLoop)
      → ¬ IsTaken l loops
      → KeepsStack Ok loops (condition fuel e)
      → AllKeep Ok loops stmts
      → AllKeep Ok (l ∷ loops) stmts
      → KeepsStack Ok loops (sema_stmt_while_loop fuel e l (sema_ast_body l.body stmts))
  while_loop-KeepsStack e loops free c in_taken in_new w ss top below o h s p =
      let same = sym h in
      let (left, behind, kept) =
        while_loop-open_loops e w ss top below
          (subst (λ x. KeepsStack Ok x (condition fuel e)) same c)
          (subst (λ x. AllKeep Ok x stmts) same in_taken)
          (subst (λ x. AllKeep Ok (l ∷ x) stmts) same in_new) o s p in
      elim behind [
        | inl (_, q) ↦
            subst
              (λ x.
                Leaves Ok ss below x (sema_stmt_while_loop fuel e l (sema_ast_body l.body stmts) w))
              q kept
        | inr (t, _) ↦ absurd (free (subst (IsTaken l) h t))
      ]
