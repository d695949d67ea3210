-- ===== src/Sema/Paths/Shown.antt =====
-- What is shown of the members of a struct, and the segments of path.c of src/sema/module/parts/ that
-- are of no member: extension functions, and parts whose type is replaced.
use mathlib.Core.Path.{subst}
use hoblang_old.Base.{
  ℕ, suc, ◌+◌, Bool, true, false, not, ◌&&◌, List, [], ◌∷◌, ◌≡◌, ◌≢◌, ◌⊎◌, inl, inr, refl, Option,
  none, some, Bool-cases, Bytes, get_elem?, if◌then◌else◌, arith,
}
use hoblang_old.Core.Slice.{slice_eq, slice_eq_iff}
use hoblang_old.Sema.Analysis.{World, Analysis, attempt, continue_with, or_abort, new_type, refuse}
use hoblang_old.Sema.Behaviours.Tables.{sema_module_resolve_ext_func}
use hoblang_old.Sema.Expr.Answers.{Answers}
use hoblang_old.Sema.Expr.Compound.{sema_value_with_type}
use hoblang_old.Sema.Paths.{
  SemaPathType, path_struct_member, path_ext_func_direct, path_ext_func_ref, Resolved,
  ext_func_handle, ref_segment, ext_func_segment, retyped, or_handle, resolved,
}
use hoblang_old.Sema.Program.{Program, member_id}
use hoblang_old.Sema.State.{SemaDecl}
use hoblang_old.Sema.Types.{Ref, StructMember, pointer, structure, type_at, struct_at}
use hoblang_old.Sema.Value.{SemaValue, value_ext_func_handle, sema_value_typeof, sema_value_is_var}

-- The member that is found has the name, and is public or of the own module.
pub member_id-found :
    (is_own : Bool) (name : Bytes) (k : ℕ) (ms : List StructMember) (i : ℕ)
    → member_id is_own name k ms ≡ some i
    → (j : ℕ) × (i ≡ k + j)
      × ((m : StructMember) × (get_elem? ms j ≡ some m)
          × (m.name ≡ name)
          × ((m.is_public ≡ true) ⊎ (is_own ≡ true)))
unfolding member_id
member_id-found is_own name k [] i e = cc
member_id-found is_own name k (m ∷ ms) i e = elim (Bool-cases (slice_eq m.name name)) [
  | inl s ↦ at_head s m.is_public is_own refl refl (rw s at e)
  | inr s ↦
      let (j, p, found) = member_id-found is_own name (suc k) ms i (rw s at e) in
      (suc j, omega arith, found)
]
  where
    Wanted : Type 0
    Wanted =
        (j : ℕ) × (i ≡ k + j)
        × ((x : StructMember) × (get_elem? (m ∷ ms) j ≡ some x)
            × (x.name ≡ name)
            × ((x.is_public ≡ true) ⊎ (is_own ≡ true)))

    number : some k ≡ some i → i ≡ k + 0
    number h = ground arith

    at_head :
        slice_eq m.name name ≡ true
        → (public own : Bool) → m.is_public ≡ public
        → is_own ≡ own
        → (if not public && not own then none else some k) ≡ some i
        → Wanted
    at_head s true own p q h = (0, number h, (m, refl, (slice_eq_iff m.name name).0 s, inl p))
    at_head s false true p q h = (0, number h, (m, refl, (slice_eq_iff m.name name).0 s, inr q))
    at_head s false false p q h = cc

-- Every answer satisfies `Q`; it is unfolded in the lemmas below only.
unfoldable pub Kept : {A : Type 0} → (A → Type 0) → Option (Option A × World) → Type 0
Kept Q x = Answers (λ a _. Q a) x

module _ {A B : Type 0} (Q : B → Type 0) where
  pub Kept-behind :
      (x : Option (Option A × World)) (f : A → Analysis B)
      → ((a : A) (w : World) → Kept Q (f a w))
      → Kept Q (continue_with f x)
  unfolding Kept
  Kept-behind none f h = tt
  Kept-behind (some (none, w)) f h = tt
  Kept-behind (some (some a, w)) f h = h a w

  pub Kept-given :
      (o : Option A) (w : World) (f : A → Analysis B)
      → ((a : A) → o ≡ some a → Kept Q (f a w))
      → Kept Q (continue_with f (or_abort o w))
  unfolding Kept
  Kept-given none w f h = tt
  Kept-given (some a) w f h = h a refl

-- A member of the struct of the type `t` that `name` shows to the module under analysis.
abbrev pub Shown : {F : Type 0} → Program F → World → Bytes → Ref → ℕ → Type 0
Shown P w name t i =
    (def : ℕ) × ((ms : List StructMember) × ((owner : ℕ) × ((m : StructMember) × (type_at w.heap t
            ≡ some (structure def))
          × (struct_at w.heap def ≡ some ms)
          × (get_elem? P.struct_modules def ≡ some owner)
          × (get_elem? ms i ≡ some m)
          × (m.name ≡ name)
          × ((m.is_public ≡ true) ⊎ (P.here ≡ owner)))))

module _ {F : Type 0} (fuel : ℕ) (P : Program F) (world : World) (ident : Bytes) where
  -- A segment of a member is one of a member that is shown.
  unfoldable pub IsShown : Resolved F → Type 0
  IsShown r = (i : ℕ) (t : Ref) → r.1.type ≡ path_struct_member i t → Shown P world ident t i

  abbrev pub KeepsShown : Option (Option (Resolved F) × World) → Type 0
  KeepsShown = Kept IsShown

  pub refused : (w : World) → KeepsShown (refuse w)
  unfolding Kept
  refused w = tt

  pub resolved-KeepsShown :
      (type : SemaPathType) (from v : SemaValue F) (w : World)
      → ((i : ℕ) (t : Ref) → type ≡ path_struct_member i t → Shown P world ident t i)
      → KeepsShown (resolved fuel P type from v w)
  unfolding Kept IsShown
  resolved-KeepsShown type from v w o = o

  pub aborted : KeepsShown none
  unfolding Kept
  aborted = tt

  pub if-KeepsShown :
      (b : Bool) (x y : Analysis (Resolved F)) (w : World)
      → KeepsShown (x w)
      → KeepsShown (y w)
      → KeepsShown ((if b then x else y) w)
  if-KeepsShown true x y w h k = h
  if-KeepsShown false x y w h k = k

  -- The segment of a member that is shown.
  pub is_member :
      (i : ℕ) (t : Ref)
      → Shown P world ident t i
      → (j : ℕ) (u : Ref) → path_struct_member i t ≡ path_struct_member j u
      → Shown P world ident u j
  is_member i t o j u e =
      subst (λ x. Shown P world ident x j) same_type
        (subst (λ x. Shown P world ident t x) same_number o)
    where
      same_number : i ≡ j
      same_number = cc

      same_type : t ≡ u
      same_type = cc

  pub handle-KeepsShown :
      (from : SemaValue F) (type : SemaDecl → SemaPathType) (d : SemaDecl) (w : World)
      → ((i : ℕ) (t : Ref) → type d ≢ path_struct_member i t)
      → KeepsShown (ext_func_handle fuel P from type d w)
  unfolding ext_func_handle
  handle-KeepsShown from type d w o =
      Kept-behind IsShown (or_abort (get_elem? P.values d.value) w) _ (λ v w1.
        Kept-behind IsShown (or_abort (sema_value_typeof v) w1) _ (λ u w2.
          resolved-KeepsShown (type d) from (value_ext_func_handle u) w2
            (λ i t e. absurd (o i t e))))

  pub or_handle-KeepsShown :
      (from : SemaValue F) (type : SemaDecl → SemaPathType) (otherwise : Analysis (Resolved F))
      (o : Option SemaDecl) (w : World)
      → ((d : SemaDecl) (i : ℕ) (t : Ref) → type d ≢ path_struct_member i t)
      → ((v : World) → KeepsShown (otherwise v))
      → KeepsShown (or_handle fuel P from type otherwise o w)
  or_handle-KeepsShown from type otherwise none w h k = k w
  or_handle-KeepsShown from type otherwise (some d) w h k = handle-KeepsShown from type d w (h d)

  pub ref_segment-KeepsShown :
      (from : SemaValue F) (t : Ref) (w : World) → KeepsShown (ref_segment fuel P from t ident w)
  unfolding ref_segment
  ref_segment-KeepsShown from t w = Kept-behind IsShown (new_type (pointer t) w) _ (λ u w1.
      Kept-behind IsShown (attempt (sema_module_resolve_ext_func fuel P.values ident u) w1) _
        (λ o w2. or_handle-KeepsShown from path_ext_func_ref refuse o w2 (λ d i v e. cc) refused))

  pub ext_func_segment-KeepsShown :
      (from : SemaValue F) (t : Ref) (w : World)
      → KeepsShown (ext_func_segment fuel P from t ident w)
  unfolding ext_func_segment
  ext_func_segment-KeepsShown from t w =
      Kept-behind IsShown (attempt (sema_module_resolve_ext_func fuel P.values ident t) w) _
        (λ o w1.
          or_handle-KeepsShown from path_ext_func_direct
            (if sema_value_is_var from then ref_segment fuel P from t ident else refuse) o w1
            (λ d i v e. cc)
            (λ v.
              if-KeepsShown (sema_value_is_var from) (ref_segment fuel P from t ident) refuse v
                (ref_segment-KeepsShown from t v) (refused v)))

  pub retyped-KeepsShown :
      (type : SemaPathType) (from : SemaValue F) (u : Ref) (w : World)
      → ((i : ℕ) (t : Ref) → type ≡ path_struct_member i t → Shown P world ident t i)
      → KeepsShown (retyped fuel P type from u w)
  retyped-KeepsShown type from u w o =
      Kept-behind IsShown (or_abort (sema_value_with_type from u) w) _
        (λ v w1. resolved-KeepsShown type from v w1 o)
