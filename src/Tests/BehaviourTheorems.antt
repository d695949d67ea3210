-- ===== src/Tests/BehaviourTheorems.antt =====
-- The theorem on behaviours, at a list in a list.
use hoblang_old.Base.{false, true, [], ◌∷◌, ◌≡◌, ◌⊎◌, refl, none, some, Bytes}
use hoblang_old.Core.Slice.{slice_eq}
use hoblang_old.Sema.Behaviours.{
  SemaBehaviourRule, SemaBehaviour, behaviour_decl, behaviour_list, no_behaviours, behaviour_then,
  TablePath, in_list, in_decl, sema_behaviour_resolve,
}
use hoblang_old.Sema.Behaviours.Paths.{Leads, behaviour_resolve-Leads}

abbrev rule_of : Bytes → SemaBehaviourRule
rule_of b = record { name = b; in_type = 20; args = []; returning = 11; type = 12 }

-- The rules `a`, and in a list inside `b` and `c`.
abbrev nested : SemaBehaviour
nested = behaviour_list (
    behaviour_then (behaviour_decl (rule_of (b'a' ∷ []) ∷ []) 20) (
      behaviour_then
        (behaviour_list (
          behaviour_then (behaviour_decl (rule_of (b'b' ∷ []) ∷ rule_of (b'c' ∷ []) ∷ []) 21)
            no_behaviours))
        no_behaviours))

finds_nested :
    sema_behaviour_resolve (some nested) (b'c' ∷ [])
    ≡ some (in_list 1 ∷ in_list 0 ∷ in_decl 1 21 ∷ [], rule_of (b'c' ∷ []))
unfolding sema_behaviour_resolve slice_eq
finds_nested = refl

behaviour_resolve-Leads_example :
    ((path : TablePath) × (rule : SemaBehaviourRule) × (sema_behaviour_resolve
          (some nested)
          (b'c' ∷ [])
        ≡ some (path, rule))
      × (slice_eq rule.name (b'c' ∷ []) ≡ true)
      × Leads path nested rule)
    ⊎ ((sema_behaviour_resolve (some nested) (b'c' ∷ []) ≡ none)
        × ((path : TablePath) (rule : SemaBehaviourRule)
            → Leads path nested rule
            → slice_eq rule.name (b'c' ∷ []) ≡ false))
behaviour_resolve-Leads_example = behaviour_resolve-Leads nested (b'c' ∷ [])
