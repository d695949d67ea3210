-- ===== src/Sema/Loops/Named.antt =====
-- The names of the loops that are open.
use hoblang_old.Base.{
  Option, true, false, List, [], ◌∷◌, ◌≡◌, refl, sym, ap, ◌∙◌, none, some, Bytes, Bool-cases,
  Option-cases, ◌⊎◌, inl, inr,
}
use mathlib.Core.Bool.{true≢false}
use mathlib.Core.Path.{subst}
use hoblang_old.Core.Slice.{slice_eq_iff}
use hoblang_old.Sema.State.{SemaLoop, SemaScopeStack, SemaModule}
use hoblang_old.Sema.Loops.{
  is_named, try_named_loop, is_refused, sema_module_push_loop, sema_module_named_loop,
}

-- A loop with the name is on the stack.
abbrev pub HasOpenName : Bytes → List SemaLoop → Type 0
HasOpenName name [] = ⊥
HasOpenName name (k ∷ ks) = (k.name ≡ some name) ⊎ HasOpenName name ks

-- The loop has the name of a loop on the stack.
abbrev pub IsTaken : SemaLoop → List SemaLoop → Type 0
IsTaken l ls = (name : Bytes) × (l.name ≡ some name) × HasOpenName name ls

-- No loop has the name of a loop around it.
abbrev pub IsUnique : List SemaLoop → Type 0
IsUnique [] = Unit
IsUnique (l ∷ ls) = (¬ IsTaken l ls) × IsUnique ls

-- The loop is on the stack.
abbrev pub IsOpen : SemaLoop → List SemaLoop → Type 0
IsOpen l [] = ⊥
IsOpen l (k ∷ ks) = (l ≡ k) ⊎ IsOpen l ks

is_named-own : (l : SemaLoop) (name : Bytes) → l.name ≡ some name → is_named name l ≡ true
is_named-own l name n = rw n ((slice_eq_iff name name).1 refl)

is_named-name : (l : SemaLoop) (name : Bytes) → is_named name l ≡ true → l.name ≡ some name
is_named-name l name h = elim (Option-cases l.name) [
  | inl e ↦ absurd (true≢false (sym (rw e at h)))
  | inr (n, e) ↦ e ∙ ap some (sym ((slice_eq_iff name n).0 (rw e at h)))
]

-- The search finds a loop exactly where one has the name.
try_named_loop-cases :
    (name : Bytes) (ls : List SemaLoop)
    → (HasOpenName name ls × ((k : SemaLoop) × (try_named_loop name ls ≡ some k)))
      ⊎ ((¬ HasOpenName name ls) × (try_named_loop name ls ≡ none))
unfolding try_named_loop
try_named_loop-cases name [] = inr ((λ h. h), refl)
try_named_loop-cases name (l ∷ ls) = elim (try_named_loop-cases name ls) [
  | inl (h, (k, e)) ↦ inl (inr h, (k, rw e refl))
  | inr (free, e) ↦ elim (Bool-cases (is_named name l)) [
    | inl i ↦ inl (inl (is_named-name l name i), (l, rw (e, i) refl))
    | inr i ↦ inr (
      (λ h. elim h [ inl n ↦ true≢false (sym (is_named-own l name n) ∙ i) | inr h' ↦ free h' ]),
      rw (e, i) refl,
    )
  ]
]

not_taken :
    (l : SemaLoop) (ls : List SemaLoop) (name : Bytes)
    → l.name ≡ some name
    → ¬ IsTaken l ls
    → try_named_loop name ls ≡ none
not_taken l ls name n r = elim (try_named_loop-cases name ls) [
  | inl (h, _) ↦ absurd (r (name, n, h))
  | inr (_, e) ↦ e
]

same_name : {o : Option Bytes} {x y : Bytes} → o ≡ some x → o ≡ some y → x ≡ y
same_name p q = cc

is_refused-cases :
    (l : SemaLoop) (ls : List SemaLoop)
    → (IsTaken l ls × (is_refused l ls ≡ true)) ⊎ ((¬ IsTaken l ls) × (is_refused l ls ≡ false))
is_refused-cases l ls = elim (Option-cases l.name) [
  | inl e ↦ inr ((λ (name, n, h). cc), rw e refl)
  | inr (name, e) ↦ elim (try_named_loop-cases name ls) [
    | inl (h, (k, t)) ↦ inl ((name, e, h), rw (is_refused, e, t) refl)
    | inr (free, t) ↦ inr (
      (λ (other, n, h). free (subst (λ x. HasOpenName x ls) (same_name n e) h)),
      rw (is_refused, e, t) refl,
    )
  ]
]

try_named_loop-IsOpen :
    (ls : List SemaLoop) (l : SemaLoop) (name : Bytes)
    → IsUnique ls
    → IsOpen l ls
    → l.name ≡ some name
    → try_named_loop name ls ≡ some l
unfolding try_named_loop
try_named_loop-IsOpen [] l name u o n = elim o [ ]
try_named_loop-IsOpen (k ∷ ks) l name (r, u) (inl e) n =
    let n' = ap (λ (x : SemaLoop). x.name) (sym e) ∙ n in
    rw (not_taken k ks name n' r, is_named-own k name n') (ap some (sym e))
try_named_loop-IsOpen (k ∷ ks) l name (r, u) (inr o) n =
    rw (try_named_loop-IsOpen ks l name u o n) refl

-- Where no loop has the name of a loop around it, every open loop that has a name is the one that its
-- name finds, and the search reports nothing.
pub named_loop-IsOpen :
    (m : SemaModule) (ss : SemaScopeStack) (l : SemaLoop) (name : Bytes)
    → m.current_ss ≡ some ss
    → IsUnique ss.loops
    → IsOpen l ss.loops
    → l.name ≡ some name
    → sema_module_named_loop name m ≡ some (some l, m)
unfolding sema_module_named_loop
named_loop-IsOpen m ss l name e u o n = rw (e, try_named_loop-IsOpen ss.loops l name u o n) refl

-- Where an open loop has the name, the module fails and nothing else changes; or else the loop is put
-- on top.
pub push_loop-cases :
    (l : SemaLoop) (m : SemaModule) (ss : SemaScopeStack)
    → m.current_ss ≡ some ss
    → (IsTaken l ss.loops × (sema_module_push_loop l m ≡ some (false, record m { failed = true })))
      ⊎ ((¬ IsTaken l ss.loops)
          × (sema_module_push_loop l m
              ≡ some (true, record m { current_ss = some (record ss { loops = l ∷ ss.loops }) })))
unfolding sema_module_push_loop
push_loop-cases l m ss e = elim (is_refused-cases l ss.loops) [
  | inl (t, r) ↦ inl (t, rw (e, r) refl)
  | inr (free, r) ↦ inr (free, rw (e, r) refl)
]

-- Where no loop has the name of a loop around it, a loop that has the name of an open loop is refused:
-- the module has failed, and is otherwise as it was. Any other loop is put on top of the open loops,
-- which keeps the names unique, and nothing else changes.
pub push_loop-IsUnique :
    (l : SemaLoop) (m : SemaModule) (ss : SemaScopeStack)
    → m.current_ss ≡ some ss
    → IsUnique ss.loops
    → (IsTaken l ss.loops × (sema_module_push_loop l m ≡ some (false, record m { failed = true })))
      ⊎ ((¬ IsTaken l ss.loops)
          × (sema_module_push_loop l m
              ≡ some (true, record m { current_ss = some (record ss { loops = l ∷ ss.loops }) }))
          × IsUnique (l ∷ ss.loops))
push_loop-IsUnique l m ss e u = elim (push_loop-cases l m ss e) [
  | inl t ↦ inl t
  | inr (free, p) ↦ inr (free, p, (free, u))
]
