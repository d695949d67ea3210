-- ===== src/Sema/Behaviours/Paths.antt =====
-- The path that the search in a behaviour returns, beside a walk along it.
use mathlib.Core.Path.{subst}
use hoblang_old.Base.{
  ℕ, zero, suc, ◌+◌, true, false, List, [], ◌∷◌, ◌++◌, ◌≡◌, ◌⊎◌, refl, sym, ap, ◌∙◌, Option, none,
  some, reverse, reverse_aux, arith, inl, inr, Bool-cases, Bytes, get_elem?, Option-cases,
}
use hoblang_old.Core.Slice.{slice_eq}
use hoblang_old.Sema.Behaviours.{
  SemaBehaviourRule, SemaBehaviour, behaviour_decl, behaviour_list, SemaBehaviours, no_behaviours,
  behaviour_then, SemaBehaviourTablePathElement, in_list, in_decl, TablePath,
  sema_behaviour_decl_resolve, behaviour_resolve, sema_behaviour_list_resolve, first_of,
  sema_behaviour_resolve,
}

-- An element of a list of behaviours.
abbrev pub behaviour_at : SemaBehaviours → ℕ → Option SemaBehaviour
behaviour_at no_behaviours i = none
behaviour_at (behaviour_then b bs) zero = some b
behaviour_at (behaviour_then b bs) (suc i) = behaviour_at bs i

-- The path leads from the behaviour to the rule, and names the type that stands for the one that has it.
pub data Leads : TablePath → SemaBehaviour → SemaBehaviourRule → Type 0 where
  here :
      {rules : List SemaBehaviourRule} {self : _} {i : ℕ} {rule : SemaBehaviourRule}
      → get_elem? rules i ≡ some rule
      → Leads (in_decl i self ∷ []) (behaviour_decl rules self) rule
  deeper :
      {bs : SemaBehaviours} {b : SemaBehaviour} {i : ℕ} {path : TablePath}
      {rule : SemaBehaviourRule}
      → behaviour_at bs i ≡ some b
      → Leads path b rule
      → Leads (in_list i ∷ path) (behaviour_list bs) rule

-- What is found is a rule of the name at the end of the path turned round.
abbrev Found : Bytes → SemaBehaviour → Option (TablePath × SemaBehaviourRule) → Type 0
Found name b none = Unit {0}
Found name b (some (path, rule)) = (slice_eq rule.name name ≡ true) × Leads (reverse path) b rule

decl_resolve-Found :
    (name : Bytes) (self i : ℕ) (all rules : List SemaBehaviourRule)
    → ((k : ℕ) → get_elem? all (i + k) ≡ get_elem? rules k)
    → Found name (behaviour_decl all self) (sema_behaviour_decl_resolve name self i rules)
unfolding sema_behaviour_decl_resolve
decl_resolve-Found name self i all [] h = tt
decl_resolve-Found name self i all (rule ∷ rules) h = elim (Bool-cases (slice_eq rule.name name)) [
  | inl e ↦ rw e (e, here (ap (get_elem? all) (omega arith) ∙ h 0))
  | inr e ↦ rw e (
      decl_resolve-Found name self (suc i) all rules
        (λ k. ap (get_elem? all) (omega arith) ∙ h (suc k)))
]

reverse-push :
    (path : TablePath) (e : SemaBehaviourTablePathElement)
    → reverse (path ++ e ∷ []) ≡ e ∷ reverse path
reverse-push path e = push path []
  where
    push : (p a : TablePath) → reverse_aux (p ++ e ∷ []) a ≡ e ∷ reverse_aux p a
    push [] a = refl
    push (x ∷ p) a = push p (x ∷ a)

first_of-Found :
    (name : Bytes) (i : ℕ) (all : SemaBehaviours) (b : SemaBehaviour)
    (o rest : Option (TablePath × SemaBehaviourRule))
    → behaviour_at all i ≡ some b
    → Found name b o
    → Found name (behaviour_list all) rest
    → Found name (behaviour_list all) (first_of i o rest)
first_of-Found name i all b none rest e f r = r
first_of-Found name i all b (some (path, rule)) rest e (n, l) r =
    (n, rw (reverse-push path (in_list i)) (deeper e l))

mutual
  unfolding behaviour_resolve

  resolve-Found : (name : Bytes) (b : SemaBehaviour) → Found name b (behaviour_resolve name b)
  resolve-Found name (behaviour_decl rules self) =
      decl_resolve-Found name self 0 rules rules (λ k. ap (get_elem? rules) (omega arith))
  resolve-Found name (behaviour_list bs) =
      list_resolve-Found name 0 bs bs (λ k. ap (behaviour_at bs) (omega arith))

  list_resolve-Found :
      (name : Bytes) (i : ℕ) (all bs : SemaBehaviours)
      → ((k : ℕ) → behaviour_at all (i + k) ≡ behaviour_at bs k)
      → Found name (behaviour_list all) (sema_behaviour_list_resolve name i bs)
  list_resolve-Found name i all no_behaviours h = tt
  list_resolve-Found name i all (behaviour_then b bs) h =
      first_of-Found name i all b (behaviour_resolve name b)
        (sema_behaviour_list_resolve name (suc i) bs) (ap (behaviour_at all) (omega arith) ∙ h 0)
        (resolve-Found name b)
        (list_resolve-Found name (suc i) all bs
          (λ k. ap (behaviour_at all) (omega arith) ∙ h (suc k)))

decl_resolve-absent :
    (name : Bytes) (self i : ℕ) (rules : List SemaBehaviourRule)
    → sema_behaviour_decl_resolve name self i rules ≡ none
    → (k : ℕ) (rule : SemaBehaviourRule) → get_elem? rules k ≡ some rule
    → slice_eq rule.name name ≡ false
unfolding sema_behaviour_decl_resolve
decl_resolve-absent name self i [] e k rule g = cc
decl_resolve-absent name self i (r ∷ rules) e k rule g = elim (Bool-cases (slice_eq r.name name)) [
  | inl m ↦ not_none (rw m at e)
  | inr m ↦ not_head m (decl_resolve-absent name self (suc i) rules (rw m at e)) k g
]
  where
    not_none : {A : Type 0} {x : A} → some x ≡ none → slice_eq rule.name name ≡ false
    not_none h = cc

    not_head :
        slice_eq r.name name ≡ false
        → ((k : ℕ) (rule : SemaBehaviourRule)
            → get_elem? rules k ≡ some rule
            → slice_eq rule.name name ≡ false)
        → (k : ℕ) → get_elem? (r ∷ rules) k ≡ some rule
        → slice_eq rule.name name ≡ false
    not_head m h zero g = cc
    not_head m h (suc k) g = h k rule g

same : {A : Type 0} {x y : A} → some x ≡ some y → x ≡ y
same e = cc

first_of-none :
    (i : ℕ) (o rest : Option (TablePath × SemaBehaviourRule))
    → first_of i o rest ≡ none
    → (o ≡ none) × (rest ≡ none)
first_of-none i none rest e = (refl, e)
first_of-none i (some r) rest e = cc

mutual
  unfolding behaviour_resolve

  resolve-absent :
      (name : Bytes) (b : SemaBehaviour)
      → behaviour_resolve name b ≡ none
      → (path : TablePath) (rule : SemaBehaviourRule) → Leads path b rule
      → slice_eq rule.name name ≡ false
  resolve-absent name (behaviour_decl rules self) e _ rule (here {i = i} g) =
      decl_resolve-absent name self 0 rules e i rule g
  resolve-absent name (behaviour_list bs) e _ rule (deeper {b = b} {i = i} {path = path} at l) =
      list_resolve-absent name 0 bs e i b at path rule l

  list_resolve-absent :
      (name : Bytes) (i : ℕ) (bs : SemaBehaviours)
      → sema_behaviour_list_resolve name i bs ≡ none
      → (k : ℕ) (b : SemaBehaviour) → behaviour_at bs k ≡ some b
      → (path : TablePath) (rule : SemaBehaviourRule) → Leads path b rule
      → slice_eq rule.name name ≡ false
  list_resolve-absent name i no_behaviours e k b at path rule l = cc
  list_resolve-absent name i (behaviour_then c bs) e zero b at path rule l =
      resolve-absent name c
        (first_of-none i (behaviour_resolve name c) (sema_behaviour_list_resolve name (suc i) bs)
          e).0
        path rule (subst (λ x. Leads path x rule) (sym (same at)) l)
  list_resolve-absent name i (behaviour_then c bs) e (suc k) b at path rule l =
      list_resolve-absent name (suc i) bs
        (first_of-none i (behaviour_resolve name c) (sema_behaviour_list_resolve name (suc i) bs)
          e).1
        k b at path rule l

-- The search for a name in a behaviour answers with a path and a rule, where the path leads from the
-- behaviour to the rule, however deep in lists it stands, names the type that stands for the one that
-- has it, and the rule has the name; or with nothing, where no path leads to a rule of the name.
pub behaviour_resolve-Leads :
    (b : SemaBehaviour) (name : Bytes)
    → ((path : TablePath) × (rule : SemaBehaviourRule) × (sema_behaviour_resolve (some b) name
          ≡ some (path, rule))
        × (slice_eq rule.name name ≡ true)
        × Leads path b rule)
      ⊎ ((sema_behaviour_resolve (some b) name ≡ none)
          × ((path : TablePath) (rule : SemaBehaviourRule)
              → Leads path b rule
              → slice_eq rule.name name ≡ false))
unfolding sema_behaviour_resolve
behaviour_resolve-Leads b name = elim (Option-cases (behaviour_resolve name b)) [
  | inl e ↦ inr (rw e refl, resolve-absent name b e)
  | inr ((path, rule), e) ↦
      let (n, l) = subst (Found name b) e (resolve-Found name b) in
      inl (reverse path, rule, rw e refl, n, l)
]
