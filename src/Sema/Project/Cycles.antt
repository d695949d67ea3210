-- ===== src/Sema/Project/Cycles.antt =====
-- Modules that import each other in a circle.
use mathlib.Core.Path.{subst}
use hoblang_old.Base.{
  get_elem?, ℕ, zero, suc, Bool, true, false, List, [], ◌∷◌, ◌++◌, ◌≡◌, ◌≢◌, inl, inr, refl, sym,
  Option, none, some, Bool-cases, Bytes,
}
use hoblang_old.Core.Slice.{slice_eq, slice_eq_iff}
use hoblang_old.Parser.Nodes.{AstModuleNode, AstModuleDecl, node_import}
use hoblang_old.Sema.Build.{
  Store, Run, done, crashed, spent, Build, go_on, kept_null, attempted, ◌>>=◌, out_of_depth,
}
use hoblang_old.Sema.Nodes.{Parts}
use hoblang_old.Sema.Nodes.Push.{sema_push_ast_module_node, push_nodes, sema_module_read_decls}
use hoblang_old.Sema.Project.{
  resumed, SemaModule, Files, module_of_path, begin_module, end_module, add_to_project,
  found_module, failed_now, read_module, or_read, at_full_path, sema_project_add_module_at,
}
use hoblang_old.Sema.Project.Nodes.{PartsStay, node-Stays, read_decls-Stays}
use hoblang_old.Sema.Primitives.{sema_module_push_primitives}
use hoblang_old.Sema.Project.Stays.{
  give-Stays, give_null-Stays, if-Stays, attempted-Stays, RunStays, Stays, stays, run, bind-Stays,
  push_primitives-Stays,
}

-- The node imports the path.
pub data Imports (path : Bytes) : List AstModuleNode → Type 0 where
  here :
      {node : AstModuleNode} {nodes : List AstModuleNode} {name : Bytes}
      → node.decl ≡ node_import path name
      → Imports path (node ∷ nodes)
  later :
      {node : AstModuleNode} {nodes : List AstModuleNode}
      → Imports path nodes
      → Imports path (node ∷ nodes)

-- Every file of the set imports a file of the set.
abbrev pub IsCircle : (Bytes → Bool) → Files → Type 0
IsCircle S files =
    (dir : files.Directory) (path full : Bytes)
    → files.realpath dir path ≡ some full
    → S full ≡ true
    → (nodes : List AstModuleNode) × (next : Bytes) × (full' : Bytes) × (files.parse full
        ≡ some nodes)
      × Imports next nodes
      × (files.realpath (files.enter dir path) next ≡ some full')
      × (S full' ≡ true)

-- A result or NULL: the run returns.
abbrev pub Returns : {F A : Type 0} → Run F A → Type 0
Returns (done o s) = Unit {0}
Returns crashed = ⊥
Returns spent = ⊥

-- None of the modules has a path of the set.
abbrev pub Outside : (Bytes → Bool) → List (Bytes × ℕ) → Type 0
Outside S [] = Unit {0}
Outside S ((path, m) ∷ ms) = (S path ≡ false) × Outside S ms

Outside-append :
    (S : Bytes → Bool) (ms : List (Bytes × ℕ)) (path : Bytes) (m : ℕ)
    → Outside S ms
    → S path ≡ false
    → Outside S (ms ++ (path, m) ∷ [])
Outside-append S [] path m o e = (e, tt)
Outside-append S ((p, k) ∷ ms) path m o e = (o.0, Outside-append S ms path m o.1 e)

-- A path of the set is not found.
Outside-none :
    (S : Bytes → Bool) (path : Bytes) (ms : List (Bytes × ℕ))
    → S path ≡ true
    → Outside S ms
    → module_of_path path ms ≡ none
unfolding module_of_path
Outside-none S path [] e o = refl
Outside-none S path ((p, m) ∷ ms) e o = elim (Bool-cases (slice_eq path p)) [
  | inl h ↦ absurd (apart (subst (λ x. S x ≡ false) (sym ((slice_eq_iff path p).0 h)) o.0))
  | inr h ↦ rw h (Outside-none S path ms e o.1)
]
  where
    apart : S path ≡ false → ⊥
    apart f = cc

-- What does not return in its first part, does not return.
go_on-Returns :
    {F A B : Type 0} (r : Run F A) (f : A → Build F B) → (Returns r → ⊥) → Returns (go_on f r) → ⊥
go_on-Returns (done o s) f h k = h tt
go_on-Returns crashed f h k = k
go_on-Returns spent f h k = k

kept-Returns : {F A : Type 0} (r : Run F A) → (Returns r → ⊥) → Returns (kept_null r) → ⊥
kept-Returns (done o s) h k = h tt
kept-Returns crashed h k = k
kept-Returns spent h k = k

module _ {F : Type 0} (S : Bytes → Bool) where
  -- Nor does what does not return in its second part, where the first keeps the modules outside.
  go_on-Returns_second :
      {A B : Type 0} (r : Run F A) (f : A → Build F B)
      → RunStays (Outside S) r
      → ((s : Store F) → r ≢ done none s)
      → ((a : A) (s : Store F) → Outside S s.program.project → Returns (f a s) → ⊥)
      → Returns (go_on f r)
      → ⊥
  go_on-Returns_second (done (some a) s) f o n h k = h a s o k
  go_on-Returns_second (done none s) f o n h k = n s refl
  go_on-Returns_second crashed f o n h k = k
  go_on-Returns_second spent f o n h k = k

  kept_null-ne-none : {A : Type 0} (r : Run F A) (s : Store F) → kept_null r ≢ done none s
  kept_null-ne-none (done o t) s e = cc
  kept_null-ne-none crashed s e = cc
  kept_null-ne-none spent s e = cc

  module _ (fuel : ℕ) (parts : Parts F) (ps : PartsStay (Outside S) parts)
      (import : Bytes → Build F ℕ) (h : (path : Bytes) → Stays (Outside S) (import path))
      (path : Bytes)
      (never : (s : Store F) → Outside S s.program.project → Returns (import path s) → ⊥) where
    import-Returns :
        (public : Bool) (node : AstModuleDecl) (name : Bytes) (s : Store F)
        → node ≡ node_import path name
        → Outside S s.program.project
        → Returns (sema_push_ast_module_node fuel parts import public node s)
        → ⊥
    unfolding sema_push_ast_module_node ◌>>=◌
    import-Returns public node name s e o k =
        go_on-Returns (import path s) _ (never s o) (rw e at k)

    nodes-Returns :
        (nodes : List AstModuleNode)
        → Imports path nodes
        → (s : Store F) → Outside S s.program.project
        → Returns (push_nodes fuel parts import nodes s)
        → ⊥
    unfolding push_nodes ◌>>=◌ attempted
    nodes-Returns _ (here {node = node} {name = name} e) s o k =
        go_on-Returns _ _ (kept-Returns _ (import-Returns node.is_public node.decl name s e o)) k
    nodes-Returns _ (later {node = node} {nodes = nodes} i) s o k =
        go_on-Returns_second
          (attempted (sema_push_ast_module_node fuel parts import node.is_public node.decl) s) _
          (run (Outside S)
            (attempted-Stays (Outside S)
              (node-Stays (Outside S) fuel parts ps import h node.is_public node.decl))
            s o)
          (λ s'. kept_null-ne-none _ s')
          (λ left s' o'.
            go_on-Returns (push_nodes fuel parts import nodes s') _ (nodes-Returns nodes i s' o'))
          k

    read_decls-Returns :
        (nodes : List AstModuleNode)
        → Imports path nodes
        → (s : Store F) → Outside S s.program.project
        → Returns (sema_module_read_decls fuel parts import nodes s)
        → ⊥
    unfolding sema_module_read_decls ◌>>=◌ attempted
    read_decls-Returns nodes i s o k =
        go_on-Returns_second (attempted (sema_module_push_primitives fuel) s) _
          (run (Outside S) (attempted-Stays (Outside S) (push_primitives-Stays (Outside S) fuel)) s
            o)
          (λ s'. kept_null-ne-none _ s') (λ _ s' o'. nodes-Returns nodes i s' o') k

  begin_module-Stays : Stays {F = F} (Outside S) begin_module
  unfolding begin_module
  begin_module-Stays = stays (λ s o. o)

  end_module-Stays : (back : ℕ) → Stays {F = F} (Outside S) (end_module back)
  unfolding end_module
  end_module-Stays back = stays (λ s o. ended s o (get_elem? s.program.modules back))
    where
      ended :
          (s : Store F)
          → Outside S s.program.project
          → (m : Option SemaModule) → RunStays (Outside S) (resumed back s m)
      ended s o none = tt
      ended s o (some m) = o

  failed_now-Stays : Stays {F = F} (Outside S) failed_now
  unfolding failed_now
  failed_now-Stays = stays (λ s o. o)

  add_to_project-Stays :
      (path : Bytes) (m : ℕ) → S path ≡ false → Stays {F = F} (Outside S) (add_to_project path m)
  unfolding add_to_project
  add_to_project-Stays path m e = stays (λ s o. Outside-append S s.program.project path m o e)

  module _ (files : Files) (fuel : ℕ) (parts : Parts F) (ps : PartsStay (Outside S) parts) where
    open files use {Directory, realpath, enter, parse}

    -- The reading of a module keeps the modules outside, where its own path is outside.
    read_module-Stays :
        (import : Bytes → Build F ℕ)
        → ((path : Bytes) → Stays (Outside S) (import path))
        → (full : Bytes) (nodes : List AstModuleNode) → S full ≡ false
        → Stays (Outside S) (read_module files fuel parts import full nodes)
    read_module-Stays import h full nodes e = bind-Stays (Outside S) begin_module-Stays (λ back.
        bind-Stays (Outside S) (read_decls-Stays (Outside S) fuel parts ps import h nodes) (λ _.
          bind-Stays (Outside S) failed_now-Stays (λ failed.
            bind-Stays (Outside S) (end_module-Stays back) (λ m.
              if-Stays (Outside S) failed (give_null-Stays (Outside S)) (
                bind-Stays (Outside S) (add_to_project-Stays full m e)
                  (λ _. give-Stays (Outside S) m))))))

    -- Where its path is in the set, and it imports one whose import does not return, neither returns.
    read_module-Returns :
        (import : Bytes → Build F ℕ)
        → ((path : Bytes) → Stays (Outside S) (import path))
        → (full path : Bytes) (nodes : List AstModuleNode) → Imports path nodes
        → ((s : Store F) → Outside S s.program.project → Returns (import path s) → ⊥)
        → (s : Store F) → Outside S s.program.project
        → Returns (read_module files fuel parts import full nodes s)
        → ⊥
    unfolding begin_module ◌>>=◌
    read_module-Returns import h full path nodes i never s o k =
        go_on-Returns _ _ (read_decls-Returns fuel parts ps import h path never nodes i _ o) k

    found_module-Stays : (full : Bytes) → Stays {F = F} (Outside S) (found_module full)
    unfolding found_module
    found_module-Stays full = stays (λ s o. o)

    or_read-Stays :
        (import : Bytes → Build F ℕ)
        → ((path : Bytes) → Stays (Outside S) (import path))
        → (full : Bytes) → S full ≡ false
        → (parsed : Option (List AstModuleNode)) (found : Option ℕ)
        → Stays (Outside S) (or_read files fuel parts import full parsed found)
    or_read-Stays import h full e parsed (some m) = give-Stays (Outside S) m
    or_read-Stays import h full e none none = give_null-Stays (Outside S)
    or_read-Stays import h full e (some nodes) none = read_module-Stays import h full nodes e

    -- A path of the set is not in the project: it is read, and what it imports as well.
    at_full_path-Returns :
        (import : Bytes → Build F ℕ)
        → ((path : Bytes) → Stays (Outside S) (import path))
        → (full next : Bytes) (nodes : List AstModuleNode) → S full ≡ true
        → parse full ≡ some nodes
        → Imports next nodes
        → ((s : Store F) → Outside S s.program.project → Returns (import next s) → ⊥)
        → (s : Store F) → Outside S s.program.project
        → Returns (at_full_path files fuel parts import (some full) s)
        → ⊥
    unfolding ◌>>=◌ found_module
    at_full_path-Returns import h full next nodes e p i never s o k =
        read_module-Returns import h full next nodes i never s o
          (rw (Outside-none S full s.program.project e o, p) at k)

    not_returned : {A : Type 0} (r : Run F A) → (Returns r → ⊥) → RunStays (Outside S) r
    not_returned (done o s) h = absurd (h tt)
    not_returned crashed h = tt
    not_returned spent h = tt

    at_full_path-Stays :
        (import : Bytes → Build F ℕ)
        → ((path : Bytes) → Stays (Outside S) (import path))
        → (full : Bytes)
        → (S full ≡ true
            → (s : Store F) → Outside S s.program.project
            → Returns (at_full_path files fuel parts import (some full) s)
            → ⊥)
        → Stays (Outside S) (at_full_path files fuel parts import (some full))
    at_full_path-Stays import h full never = elim (Bool-cases (S full)) [
      | inl e ↦ stays (λ s o. not_returned _ (never e s o))
      | inr e ↦
          bind-Stays (Outside S) (found_module-Stays full)
            (λ found. or_read-Stays import h full e (parse full) found)
    ]

    Never : (Store F → Run F ℕ) → Type 0
    Never x = (s : Store F) → Outside S s.program.project → Returns (x s) → ⊥

    circle_step :
        (c : IsCircle S files) (import : Bytes → Build F ℕ)
        → ((path : Bytes) → Stays (Outside S) (import path))
        → (dir : Directory) (path full : Bytes)
        → ((next full' : Bytes)
            → realpath (enter dir path) next ≡ some full'
            → S full' ≡ true
            → Never (import next))
        → realpath dir path ≡ some full
        → S full ≡ true
        → Never (at_full_path files fuel parts import (some full))
    unfolding Never
    circle_step c import h dir path full again p e =
        let (nodes, next, full', parsed, i, q, e') = c dir path full p e in
        at_full_path-Returns import h full next nodes e parsed i (again next full' q e')

    one_more :
        (import : Bytes → Build F ℕ)
        → ((path : Bytes) → Stays (Outside S) (import path))
        → (o : Option Bytes)
        → ((full : Bytes)
            → o ≡ some full
            → S full ≡ true
            → Never (at_full_path files fuel parts import (some full)))
        → Stays (Outside S) (at_full_path files fuel parts import o)
          × ((full : Bytes)
              → o ≡ some full
              → S full ≡ true
              → Never (at_full_path files fuel parts import o))
    unfolding Never
    one_more import h none never = (give_null-Stays (Outside S), (λ full p. absurd (apart p)))
      where
        apart : {A : Type 0} {x : A} → none ≡ some x → ⊥
        apart e = cc
    one_more import h (some full) never = (
      at_full_path-Stays import h full (never full refl),
      (λ full' p e. never full refl (subst (λ x. S x ≡ true) (sym (same p)) e)),
    )
      where
        same : {x y : Bytes} → some x ≡ some y → x ≡ y
        same h = cc

    add_module-Never :
        (c : IsCircle S files) (n : ℕ) (dir : Directory) (path : Bytes)
        → Stays (Outside S) (sema_project_add_module_at files fuel parts n dir path)
          × ((full : Bytes)
              → realpath dir path ≡ some full
              → S full ≡ true
              → Never (sema_project_add_module_at files fuel parts n dir path))
    unfolding sema_project_add_module_at Never out_of_depth
    add_module-Never c zero dir path = (stays (λ s o. tt), (λ full p e s o k. k))
    add_module-Never c (suc n) dir path =
        one_more (sema_project_add_module_at files fuel parts n (enter dir path))
          (λ q. (add_module-Never c n (enter dir path) q).0) (realpath dir path)
          (λ full p e.
            circle_step c (sema_project_add_module_at files fuel parts n (enter dir path))
              (λ q. (add_module-Never c n (enter dir path) q).0) dir path full
              (λ next full' q e'. (add_module-Never c n (enter dir path) next).1 full' q e') p e)

-- A circle of imports is never read: where each file of a set imports a file of the set, no import of such
-- a file returns, neither with a module nor with NULL, however deep the imports may lie inside each
-- other and whatever else the files hold. The project has no module of the set yet, and the analyses of
-- the nodes do not add to it. And no import of any other file adds a module of the set.
pub add_module-circle :
    {F : Type 0} (S : Bytes → Bool) (files : Files) (fuel : ℕ) (parts : Parts F)
    → PartsStay (Outside S) parts
    → IsCircle S files
    → (n : ℕ) (dir : files.Directory) (path : Bytes) (s : Store F) → Outside S s.program.project
    → RunStays (Outside S) (sema_project_add_module_at files fuel parts n dir path s)
      × ((full : Bytes)
          → files.realpath dir path ≡ some full
          → S full ≡ true
          → ¬ Returns (sema_project_add_module_at files fuel parts n dir path s))
unfolding Never
add_module-circle S files fuel parts ps c n dir path s o =
    let (h, never) = add_module-Never S files fuel parts ps c n dir path in
    (run (Outside S) h s o, (λ full p e. never full p e s o))
