-- ===== src/Sema/Loops.antt =====
-- Loops: src/sema/module/loop/api.c. `none` is the failed assertion that a scope stack is current or
-- that a loop is there to pop.
pub mod Named
use hoblang_old.Base.{
  ℕ, Bool, true, false, List, [], ◌∷◌, Option, none, some, ◌>>=◌, if◌then◌else◌, Bytes,
}
use hoblang_old.Core.Slice.{slice_eq}
use hoblang_old.Sema.State.{SemaLoop, SemaScopeStack, SemaModule, sema_module_fail}

abbrev pub sema_loop_new : ℕ → SemaLoop
sema_loop_new body = record { name = none; body = body }

abbrev pub sema_loop_new_named : Bytes → ℕ → SemaLoop
sema_loop_new_named name body = record { name = some name; body = body }

-- `loop->is_named && slice_eq(name, &loop->name)`
abbrev pub is_named : Bytes → SemaLoop → Bool
is_named name l = elim l.name [ none ↦ false | some n ↦ slice_eq name n ]

-- The search starts at the bottom of the stack, its first element; the list has the top first.
unfoldable pub try_named_loop : Bytes → List SemaLoop → Option SemaLoop
try_named_loop name [] = none
try_named_loop name (l ∷ ls) =
    let found = if is_named name l then some l else none in
    elim (try_named_loop name ls) [ some k ↦ some k | none ↦ found ]

abbrev pub with_loops : List SemaLoop → SemaScopeStack → SemaModule → SemaModule
with_loops ls ss m = record m { current_ss = some (record ss { loops = ls }) }

-- A loop without a name is never refused.
abbrev pub is_refused : SemaLoop → List SemaLoop → Bool
is_refused l ls = elim l.name [
  | none ↦ false
  | some name ↦ elim (try_named_loop name ls) [ none ↦ false | some k ↦ true ]
]

unfoldable pub sema_module_push_loop : SemaLoop → SemaModule → Option (Bool × SemaModule)
unfolding try_named_loop
sema_module_push_loop l m = elim m.current_ss [
  | none ↦ none
  | some ss ↦
      if is_refused l ss.loops
      then some (false, sema_module_fail m)
      else some (true, with_loops (l ∷ ss.loops) ss m)
]

abbrev pub pop_loop : List SemaLoop → Option (List SemaLoop)
pop_loop [] = none
pop_loop (l ∷ ls) = some ls

unfoldable pub sema_module_pop_loop : SemaModule → Option SemaModule
sema_module_pop_loop m = elim m.current_ss [
  | none ↦ none
  | some ss ↦ elim (pop_loop ss.loops) [ none ↦ none | some ls ↦ some (with_loops ls ss m) ]
]

-- The answer is NULL, with an error, where there is no loop.
abbrev or_fail : Option SemaLoop → SemaModule → Option SemaLoop × SemaModule
or_fail none m = (none, sema_module_fail m)
or_fail (some l) m = (some l, m)

abbrev pub top_loop : List SemaLoop → Option SemaLoop
top_loop [] = none
top_loop (l ∷ ls) = some l

unfoldable pub sema_module_top_loop : SemaModule → Option (Option SemaLoop × SemaModule)
sema_module_top_loop m = elim m.current_ss [
  | none ↦ none
  | some ss ↦ some (or_fail (top_loop ss.loops) m)
]

unfoldable pub sema_module_named_loop : Bytes → SemaModule → Option (Option SemaLoop × SemaModule)
unfolding try_named_loop
sema_module_named_loop name m = elim m.current_ss [
  | none ↦ none
  | some ss ↦ some (or_fail (try_named_loop name ss.loops) m)
]
