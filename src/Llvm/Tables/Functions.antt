-- ===== src/Llvm/Tables/Functions.antt =====
-- The functions that sema_type_behaves_as_decl finds: one for each rule, of its name.
use mathlib.Core.Path.{subst}
use hoblang_old.Base.{
  ◌≢◌, ◌>>=◌, not, ℕ, zero, suc, Bool, true, false, List, [], ◌∷◌, ◌≡◌, ◌⊎◌, inl, inr, refl, sym,
  Option, none, some, Option-cases, Bytes, get_elem?, if◌then◌else◌,
}
use hoblang_old.Core.Slice.{slice_eq}
use hoblang_old.Sema.Analysis.{World, Analysis, attempt, answer, refuse, continue_with, or_abort}
use hoblang_old.Sema.Behaviours.{SemaBehaviourRule, replaced}
use hoblang_old.Sema.Behaviours.Tables.{
  sema_value_is_type_of_function, is_function, ext_func_found, sema_module_resolve_ext_func,
  rule_function, sema_type_behaves_as_decl,
}
use hoblang_old.Sema.Decls.{is_in_type, resolve_in_type, is_ext}
use hoblang_old.Sema.State.{SemaDecl, update}
use hoblang_old.Sema.Types.{Ref, type_at}
use hoblang_old.Sema.Types.Equals.{sema_types_equals}
use hoblang_old.Sema.Value.{
  SemaValue, sema_value_typeof, value_const, value_final, value_var, value_type,
  value_ext_func_handle, value_behaviour, value_generic, value_module,
}

-- An extension function of the name that stands among the declarations.
abbrev pub IsFunction : List SemaDecl → Bytes → SemaDecl → Type 0
IsFunction decls name d =
    (slice_eq d.name name ≡ true) × (is_ext d ≡ true) × ((i : ℕ) × (get_elem? decls i ≡ some d))

-- The declarations are still `decls`, and an error that was reported stays so.
abbrev pub Keeps : List SemaDecl → World → World → Type 0
Keeps decls w w' = (w'.sema.private_decls ≡ decls) × (w.sema.failed ≡ true → w'.sema.failed ≡ true)

-- Every result keeps the module; NULL is reported, and `Q` holds of an answer.
abbrev pub Post :
    {A : Type 0} → List SemaDecl → World → (A → World → Type 0) → Option (Option A × World) → Type 0
Post decls w Q none = Unit
Post decls w Q (some (none, w')) = Keeps decls w w' × (w'.sema.failed ≡ true)
Post decls w Q (some (some a, w')) = Keeps decls w w' × Q a w'

module _ (decls : List SemaDecl) {A B : Type 0} (Q : A → World → Type 0)
    (R : B → World → Type 0) where
  pub Post-from :
      (w w' : World)
      → Keeps decls w w'
      → (y : Option (Option B × World)) → Post decls w' R y
      → Post decls w R y
  Post-from w w' k none p = tt
  Post-from w w' k (some (none, v)) p = ((p.0.0, λ f. p.0.1 (k.1 f)), p.1)
  Post-from w w' k (some (some b, v)) p = ((p.0.0, λ f. p.0.1 (k.1 f)), p.1)

  pub Post-behind :
      (w : World) (x : Option (Option A × World)) (f : A → Analysis B)
      → Post decls w Q x
      → ((a : A) (w' : World) → Keeps decls w w' → Q a w' → Post decls w' R (f a w'))
      → Post decls w R (continue_with f x)
  Post-behind w none f p h = tt
  Post-behind w (some (none, w')) f p h = p
  Post-behind w (some (some a, w')) f p h = Post-from w w' p.0 (f a w') (h a w' p.0 p.1)

abbrev pub FoundFor : List SemaDecl → Bytes → Option SemaDecl → World → Type 0
FoundFor decls name none w = Unit {0}
FoundFor decls name (some d) w = IsFunction decls name d

-- A declaration for each rule, in their order.
abbrev pub Functions : List SemaDecl → List SemaBehaviourRule → List SemaDecl → Type 0
Functions decls [] ds = Unit {0}
Functions decls (rule ∷ rules) [] = ⊥
Functions decls (rule ∷ rules) (d ∷ ds) = IsFunction decls rule.name d × Functions decls rules ds

pub Functions-at :
    (decls : List SemaDecl) (rules : List SemaBehaviourRule) (ds : List SemaDecl) (i : ℕ)
    (rule : SemaBehaviourRule)
    → Functions decls rules ds
    → get_elem? rules i ≡ some rule
    → (d : SemaDecl) × (get_elem? ds i ≡ some d) × IsFunction decls rule.name d
Functions-at decls [] ds i rule f e = absurd (impossible e)
  where
    impossible : {A : Type 0} {x : A} → none ≡ some x → ⊥
    impossible h = cc
Functions-at decls (r ∷ rules) [] i rule f e = absurd f
Functions-at decls (r ∷ rules) (d ∷ ds) zero rule f e =
    (d, refl, subst (λ x. IsFunction decls x.name d) (same e) f.0)
  where
    same : {x y : SemaBehaviourRule} → some x ≡ some y → x ≡ y
    same h = cc
Functions-at decls (r ∷ rules) (d ∷ ds) (suc i) rule f e = Functions-at decls rules ds i rule f.1 e

module _ (equals : Ref → Ref → Option Bool) (t : Ref) (name : Bytes) (d : SemaDecl) where
  head_or_later :
      (c : SemaDecl) (same : Bool) (a : Option Ref) (rest : Option (Option SemaDecl))
      → (if same
          then (is_in_type equals a (some t) >>= (λ found. if found then some (some c) else rest))
          else rest)
        ≡ some (some d)
      → ((same ≡ true) × (a ≢ none) × (c ≡ d)) ⊎ (rest ≡ some (some d))
  unfolding is_in_type
  head_or_later c false a rest e = inr e
  head_or_later c true none rest e = inr e
  head_or_later c true (some a) rest e = elim (Option-cases (equals a t)) [
    | inl n ↦ absurd (impossible (rw n at e))
    | inr (true, s) ↦ inl (refl, (λ n. impossible (sym n)), one (rw s at e))
    | inr (false, s) ↦ inr (rw s at e)
  ]
    where
      impossible : {A : Type 0} {x : A} → none ≡ some x → ⊥
      impossible h = cc

      one : some (some c) ≡ some (some d) → c ≡ d
      one h = cc

  resolve_in_type-IsFunction :
      (ds : List SemaDecl)
      → resolve_in_type equals (some t) name ds ≡ some (some d)
      → IsFunction ds name d
  unfolding resolve_in_type
  resolve_in_type-IsFunction [] e = absurd (impossible e)
    where
      impossible : some none ≡ some (some d) → ⊥
      impossible h = cc
  resolve_in_type-IsFunction (c ∷ ds) e =
      elim (head_or_later c (slice_eq c.name name) c.in_type
        (resolve_in_type equals (some t) name ds) e) [
          | inl (s, n, i) ↦ subst (λ x. IsFunction (c ∷ ds) name x) i (s, ext c n, (0, refl))
          | inr r ↦ later (resolve_in_type-IsFunction ds r)
        ]
    where
      ext : (x : SemaDecl) → x.in_type ≢ none → is_ext x ≡ true
      ext x n = is_some x.in_type n
        where
          is_some : (a : Option Ref) → a ≢ none → (elim a [ none ↦ false | some r ↦ true ]) ≡ true
          is_some none m = absurd (m refl)
          is_some (some r) m = refl

      later : IsFunction ds name d → IsFunction (c ∷ ds) name d
      later (s, x, p) = (s, x, (suc p.0, p.1))

Post-or_abort :
    {A B : Type 0} (decls : List SemaDecl) (R : B → World → Type 0) (w : World) (o : Option A)
    (f : A → Analysis B)
    → ((a : A) → Post decls w R (f a w))
    → Post decls w R (continue_with f (or_abort o w))
Post-or_abort decls R w none f h = tt
Post-or_abort decls R w (some a) f h = h a

abbrev pub unchanged :
    (decls : List SemaDecl) (w : World) → w.sema.private_decls ≡ decls → Keeps decls w w
unchanged decls w e = (e, λ f. f)

module _ {F : Type 0} (fuel : ℕ) (values : List (SemaValue F)) (decls : List SemaDecl)
    (t : Ref) where
  is_type-cases :
      (v : SemaValue F) (w : World)
      → (sema_value_is_type_of_function fuel values v w ≡ none)
        ⊎ ((b : Bool) × (sema_value_is_type_of_function fuel values v w ≡ some (some b, w)))
  unfolding sema_value_is_type_of_function
  is_type-cases (value_type t) w = elim (Option-cases (type_at w.heap t)) [
    | inl e ↦ inl (rw e refl)
    | inr (n, e) ↦ inr (is_function n, rw e refl)
  ]
  is_type-cases (value_const c) w = inr (false, refl)
  is_type-cases (value_final t) w = inr (false, refl)
  is_type-cases (value_var t) w = inr (false, refl)
  is_type-cases (value_ext_func_handle t) w = inr (false, refl)
  is_type-cases (value_behaviour b) w = inr (false, refl)
  is_type-cases (value_generic ts g t) w = inr (false, refl)
  is_type-cases (value_module m) w = inr (false, refl)

  func_found-cases :
      (d : SemaDecl) (w : World)
      → (ext_func_found fuel values (some d) w ≡ none)
        ⊎ (ext_func_found fuel values (some d) w ≡ some (some d, w))
  unfolding ext_func_found
  func_found-cases d w = elim (Option-cases (get_elem? values d.value)) [
    | inl e ↦ inl (rw e refl)
    | inr (v, e) ↦ elim (is_type-cases v w) [
      | inl n ↦ inl (rw (e, n) refl)
      | inr (true, b) ↦ inl (rw (e, b) refl)
      | inr (false, b) ↦ inr (rw (e, b) refl)
    ]
  ]

  func_found-Post :
      (name : Bytes) (w : World)
      → w.sema.private_decls ≡ decls
      → (o : Option (Option SemaDecl))
      → ((d : SemaDecl) → o ≡ some (some d) → IsFunction decls name d)
      → Post decls w
          (FoundFor decls name)
          (attempt (λ v. continue_with (ext_func_found fuel values) (or_abort o v)) w)
  unfolding ext_func_found
  func_found-Post name w e none h = tt
  func_found-Post name w e (some none) h = (unchanged decls w e, tt)
  func_found-Post name w e (some (some d)) h = elim (func_found-cases d w) [
    | inl n ↦ rw n tt
    | inr s ↦ rw s (unchanged decls w e, h d refl)
  ]

  ext_func-Post :
      (name : Bytes) (w : World)
      → w.sema.private_decls ≡ decls
      → Post decls w
          (FoundFor decls name)
          (attempt (sema_module_resolve_ext_func fuel values name t) w)
  unfolding sema_module_resolve_ext_func
  ext_func-Post name w e =
      func_found-Post name w e
        (resolve_in_type (sema_types_equals fuel w.heap) (some t) name w.sema.private_decls)
        (λ d s.
          subst (λ ds. IsFunction ds name d) e
            (resolve_in_type-IsFunction (sema_types_equals fuel w.heap) t name d
              w.sema.private_decls s))

  rule_function-Post :
      (rule : SemaBehaviourRule) (self : Ref) (o : Option SemaDecl) (w : World)
      → w.sema.private_decls ≡ decls
      → FoundFor decls rule.name o w
      → Post decls w
          (λ d _. IsFunction decls rule.name d)
          (rule_function fuel values rule self t o w)
  unfolding rule_function
  rule_function-Post rule self none w e f = ((e, λ h. refl), refl)
  rule_function-Post rule self (some d) w e f = Post-from decls Q Q w w1 (unchanged decls w e) _ (
      Post-or_abort decls Q w1 (get_elem? values d.value) _ (λ v.
        Post-or_abort decls Q w1 (sema_value_typeof v) _ (λ found.
          Post-or_abort decls Q w1 (sema_types_equals fuel w1.heap found rule.type) _
            (λ same. compared same))))
    where
      Q : SemaDecl → World → Type 0
      Q x v = IsFunction decls rule.name x

      w1 : World
      w1 = record w { heap = record w.heap { types = update self (replaced t) w.heap.types } }

      compared : (same : Bool) → Post decls w1 Q ((if not same then refuse else answer d) w1)
      compared true = (unchanged decls w1 e, f)
      compared false = ((e, λ h. refl), refl)

  pub behaves_as-Post :
      (self : Ref) (rules : List SemaBehaviourRule) (w : World)
      → w.sema.private_decls ≡ decls
      → Post decls w
          (λ ds _. Functions decls rules ds)
          (sema_type_behaves_as_decl fuel values t self rules w)
  unfolding sema_type_behaves_as_decl
  behaves_as-Post self [] w e = (unchanged decls w e, tt)
  behaves_as-Post self (rule ∷ rules) w e =
      Post-behind decls (FoundFor decls rule.name) Q w
        (attempt (sema_module_resolve_ext_func fuel values rule.name t) w) _
        (ext_func-Post rule.name w e)
        (λ o w1 k1 f.
          Post-behind decls (λ d _. IsFunction decls rule.name d) Q w1
            (rule_function fuel values rule self t o w1) _
            (rule_function-Post rule self o w1 k1.0 f)
            (λ d w2 k2 g.
              Post-behind decls (λ ds _. Functions decls rules ds) Q w2
                (sema_type_behaves_as_decl fuel values t self rules w2) _
                (behaves_as-Post self rules w2 k2.0)
                (λ ds w3 k3 h. (unchanged decls w3 k3.0, (g, h)))))
    where
      Q : List SemaDecl → World → Type 0
      Q ds v = Functions decls (rule ∷ rules) ds
