-- ===== src/Sema/Defers.antt =====
-- Defers: `sema_module_push_defer` and `sema_module_defers_up_to` of src/sema/module/private.c. The
-- chain of parents is followed on fuel; `none` is fuel run out, a body that cannot be read, or the
-- failed assertion that a body is current.
pub mod Order
use hoblang_old.Base.{
  ℕ, zero, suc, Bool, true, false, List, [], ◌∷◌, ◌++◌, Option, none, some, ◌>>=◌, ◌==◌,
  if◌then◌else◌, reverse, get_elem?,
}
use hoblang_old.Sema.State.{AstBody, SemaModule, update}
use hoblang_old.Sema.Scopes.{sema_module_current_body}

abbrev pub add_defer : ℕ → AstBody → AstBody
add_defer d x = record x { defers = x.defers ++ d ∷ [] }

unfoldable pub sema_module_push_defer : ℕ → SemaModule → Option SemaModule
sema_module_push_defer d m =
    sema_module_current_body m
    >>= (λ b. some (record m { bodies = update b (add_defer d) m.bodies }))

-- `body == to`, where `to` may be NULL.
abbrev pub is_last : Option ℕ → ℕ → Bool
is_last none b = false
is_last (some a) b = b == a

-- The loop from the body `b` on: its defers, the last pushed first, and those of its parents.
unfoldable pub defers_from : ℕ → List AstBody → Option ℕ → Option ℕ → Option (List ℕ)
defers_from fuel bodies to none = some []
defers_from zero bodies to (some b) = none
defers_from (suc fuel) bodies to (some b) = get_elem? bodies b >>= (λ x.
    let outer = defers_from fuel bodies to x.parent in
    let rest = if is_last to b then some [] else outer in
    rest >>= (λ ds. some (reverse x.defers ++ ds)))

unfoldable pub sema_module_defers_up_to : ℕ → Option ℕ → SemaModule → Option (List ℕ)
unfolding defers_from
sema_module_defers_up_to fuel to m =
    sema_module_current_body m >>= (λ b. defers_from fuel m.bodies to (some b))
