-- ===== src/Sema/Paths/Members.antt =====
-- Members of structs behind a value: the case of a name in sema_resolve_inner_value_path of
-- src/sema/module/parts/path.c.
use mathlib.Core.Path.{subst}
use hoblang_old.Base.{
  ℕ, zero, suc, ◌+◌, Bool, true, ◌==◌, ==_iff, List, ◌≡◌, ◌⊎◌, inl, inr, refl, Option, none, some,
  Bytes, get_elem?, arith,
}
use hoblang_old.Core.Slice.{slice_eq}
use hoblang_old.Lexer.Rules.{codes}
use hoblang_old.Parser.Syntax.{seg_ident}
use hoblang_old.Sema.Analysis.{World, Analysis, continue_with, or_abort, new_type, refuse}
use hoblang_old.Sema.Behaviours.{sema_behaviour_resolve}
use hoblang_old.Sema.Expr.Compound.{sema_value_with_type}
use hoblang_old.Sema.Paths.{
  or_refuse, swapped_self, behaviour_of, path_slice_len, path_slice_raw, path_array_len,
  path_struct_member, path_btable_path, SemaPath, Resolved, retyped, const_fields, const_member,
  member_of, struct_segment, slice_segment, array_segment, behaviour_segment, ident_segment,
  or_member, generic_segment, sema_resolve_inner_value_path, resolved,
}
use hoblang_old.Sema.Program.{Program, sema_get_struct_member_id, SemaConstStructField, field_of}
use hoblang_old.Sema.Types.{
  primitive, Ref, SemaType, StructMember, optional, pointer, structure, slice, array, generic,
  function, type_at, struct_at,
}
use hoblang_old.Sema.Value.{
  sema_arch_usize, SemaValue, value_const, value_final, value_var, value_type,
  value_ext_func_handle, value_behaviour, value_generic, value_module, sema_value_typeof,
}
use hoblang_old.Sema.Paths.Shown.{
  member_id-found, Kept, Kept-behind, Kept-given, Shown, IsShown, refused, aborted,
  resolved-KeepsShown, if-KeepsShown, is_member, ext_func_segment-KeepsShown, retyped-KeepsShown,
}

module _ {F : Type 0} (fuel : ℕ) (P : Program F) (world : World) (ident : Bytes) where
  abbrev IsSeen : Resolved F → Type 0
  IsSeen = IsShown fuel P world ident

  abbrev Keeps : Option (Option (Resolved F) × World) → Type 0
  Keeps = Kept IsSeen

  const_member-KeepsShown :
      (from : SemaValue F) (t : Ref) (i : ℕ) (field : Option (SemaConstStructField F)) (w : World)
      → Shown P world ident t i
      → Keeps (const_member fuel P from t ident i field w)
  const_member-KeepsShown from t i none w o =
      ext_func_segment-KeepsShown fuel P world ident from t w
  const_member-KeepsShown from t i (some field) w o =
      if-KeepsShown fuel P world ident field.is_undefined refuse
        (resolved fuel P (path_struct_member i t) from (value_const field.value)) w
        (refused fuel P world ident w)
        (resolved-KeepsShown fuel P world ident (path_struct_member i t) from
          (value_const field.value) w (is_member fuel P world ident i t o))

  member_of-KeepsShown :
      (from : SemaValue F) (t : Ref) (i : ℕ) (ms : List StructMember) (w : World)
      → Shown P world ident t i
      → Keeps (member_of fuel P from t ident i ms w)
  member_of-KeepsShown from t i ms w o = by_value from
    where
      by_type :
          (v : SemaValue F)
          → Keeps (
              continue_with
                (λ m. retyped fuel P (path_struct_member i t) v m.type)
                (or_abort (get_elem? ms i) w))
      by_type v = Kept-behind IsSeen (or_abort (get_elem? ms i) w) _ (λ m w1.
          retyped-KeepsShown fuel P world ident (path_struct_member i t) v m.type w1
            (is_member fuel P world ident i t o))

      by_value : (v : SemaValue F) → Keeps (member_of fuel P v t ident i ms w)
      by_value (value_const c) =
          Kept-behind IsSeen (const_fields fuel P c w) _
            (λ fields w1. const_member-KeepsShown (value_const c) t i (field_of i fields) w1 o)
      by_value (value_final u) = by_type (value_final u)
      by_value (value_var u) = by_type (value_var u)
      by_value (value_type u) = by_type (value_type u)
      by_value (value_ext_func_handle u) = by_type (value_ext_func_handle u)
      by_value (value_behaviour b) = by_type (value_behaviour b)
      by_value (value_generic rs d u) = by_type (value_generic rs d u)
      by_value (value_module m) = by_type (value_module m)

  struct_segment-KeepsShown :
      (from : SemaValue F) (t : Ref) (def : ℕ)
      → type_at world.heap t ≡ some (structure def)
      → Keeps (struct_segment fuel P from t ident def world)
  unfolding struct_segment
  struct_segment-KeepsShown from t def n =
      Kept-given IsSeen (struct_at world.heap def) world _ (λ ms h.
        Kept-given IsSeen (get_elem? P.struct_modules def) world _
          (λ owner k. by_id ms owner h k (sema_get_struct_member_id P.here owner ident ms) refl))
    where
      by_id :
          (ms : List StructMember) (owner : ℕ)
          → struct_at world.heap def ≡ some ms
          → get_elem? P.struct_modules def ≡ some owner
          → (o : Option ℕ) → sema_get_struct_member_id P.here owner ident ms ≡ o
          → Keeps (or_member fuel P from t ident ms o world)
      by_id ms owner h k none e = ext_func_segment-KeepsShown fuel P world ident from t world
      by_id ms owner h k (some i) e =
          member_of-KeepsShown from t i ms world
            (shown (member_id-found (P.here == owner) ident 0 ms i e))
        where
          own :
              (x : Bool) → ((x ≡ true) ⊎ (P.here == owner ≡ true)) → ((x ≡ true) ⊎ (P.here ≡ owner))
          own x (inl p) = inl p
          own x (inr q) = inr ((==_iff P.here owner).0 q)

          number : (j : ℕ) → i ≡ 0 + j → j ≡ i
          number j p = omega arith

          shown :
              (j : ℕ) × (i ≡ 0 + j)
                × ((m : StructMember) × (get_elem? ms j ≡ some m)
                    × (m.name ≡ ident)
                    × ((m.is_public ≡ true) ⊎ (P.here == owner ≡ true)))
              → Shown P world ident t i
          shown (j, p, (m, at, name, x)) = (
            def,
            (
              ms,
              (
                owner,
                (
                  m,
                  n,
                  h,
                  k,
                  subst (λ z. get_elem? ms z ≡ some m) (number j p) at,
                  name,
                  own m.is_public x,
                ),
              ),
            ),
          )

  slice_segment-KeepsShown :
      (from : SemaValue F) (t of : Ref) (w : World) → Keeps (slice_segment fuel P from t ident of w)
  unfolding slice_segment
  slice_segment-KeepsShown from t of w =
      if-KeepsShown fuel P world ident (slice_eq (codes "raw") ident) _ _ w
        (Kept-behind IsSeen (new_type (pointer of) w) _ (λ u w1.
          retyped-KeepsShown fuel P world ident (path_slice_raw t) from u w1 (λ i v e. cc)))
        (if-KeepsShown fuel P world ident (slice_eq (codes "length") ident) _ _ w
          (retyped-KeepsShown fuel P world ident (path_slice_len t) from (sema_arch_usize w.arch) w
            (λ i v e. cc))
          (ext_func_segment-KeepsShown fuel P world ident from t w))

  array_segment-KeepsShown :
      (from : SemaValue F) (t : Ref) (n : ℕ) (w : World)
      → Keeps (array_segment fuel P from t ident n w)
  unfolding array_segment
  array_segment-KeepsShown from t n w =
      if-KeepsShown fuel P world ident (slice_eq (codes "length") ident) _ _ w
        (resolved-KeepsShown fuel P world ident (path_array_len n)
          (value_final (sema_arch_usize w.arch)) (value_final (sema_arch_usize w.arch)) w
          (λ i v e. cc))
        (ext_func_segment-KeepsShown fuel P world ident from t w)

  behaviour_segment-KeepsShown :
      (t : Ref) (behaviour : Option ℕ) (w : World)
      → Keeps (behaviour_segment fuel P t ident behaviour w)
  unfolding behaviour_segment
  behaviour_segment-KeepsShown t behaviour w =
      Kept-behind IsSeen (behaviour_of P.behaviours behaviour w) _ (λ b w1.
        Kept-behind IsSeen (swapped_self b t w1) _ (λ u w2.
          Kept-behind IsSeen (or_refuse (sema_behaviour_resolve b ident) w2) _ (λ p w3.
            Kept-behind IsSeen (new_type (function p.1.args p.1.returning) w3) _ (λ u w4.
              resolved-KeepsShown fuel P world ident (path_btable_path p.0 t) (value_final u)
                (value_ext_func_handle u) w4 (λ i v e. cc)))))

  -- The case of a name, where the number bounds the generics that replace each other.
  ident_segment-KeepsShown :
      (again : SemaValue F → Analysis (Resolved F)) (from : SemaValue F) (t : Ref) (n : SemaType)
      → type_at world.heap t ≡ some n
      → ((v : SemaValue F) → Keeps (again v world))
      → Keeps (ident_segment fuel P again from t ident n world)
  ident_segment-KeepsShown again from t (primitive p) at h =
      ext_func_segment-KeepsShown fuel P world ident from t world
  ident_segment-KeepsShown again from t (optional u) at h =
      ext_func_segment-KeepsShown fuel P world ident from t world
  ident_segment-KeepsShown again from t (pointer u) at h =
      ext_func_segment-KeepsShown fuel P world ident from t world
  ident_segment-KeepsShown again from t (function us u) at h =
      ext_func_segment-KeepsShown fuel P world ident from t world
  ident_segment-KeepsShown again from t (structure def) at h =
      struct_segment-KeepsShown from t def at
  ident_segment-KeepsShown again from t (slice u) at h = slice_segment-KeepsShown from t u world
  ident_segment-KeepsShown again from t (array n u) at h = array_segment-KeepsShown from t n world
  ident_segment-KeepsShown again from t (generic g) at h = by_value from
    where
      by_replace :
          (v : SemaValue F) (o : Option Ref)
          → Keeps (generic_segment fuel P again v t ident g.behaviour o world)
      by_replace v none = behaviour_segment-KeepsShown t g.behaviour world
      by_replace v (some r) = Kept-given IsSeen (sema_value_with_type v r) world _ (λ u e. h u)

      by_value : (v : SemaValue F) → Keeps (ident_segment fuel P again v t ident (generic g) world)
      by_value (value_const c) = aborted fuel P world ident
      by_value (value_final u) = by_replace (value_final u) g.replace
      by_value (value_var u) = by_replace (value_var u) g.replace
      by_value (value_type u) = by_replace (value_type u) g.replace
      by_value (value_ext_func_handle u) = by_replace (value_ext_func_handle u) g.replace
      by_value (value_behaviour b) = by_replace (value_behaviour b) g.replace
      by_value (value_generic rs d u) = by_replace (value_generic rs d u) g.replace
      by_value (value_module m) = by_replace (value_module m) g.replace

  inner_value_path-KeepsShown :
      (k : ℕ) (from : SemaValue F)
      → Keeps (sema_resolve_inner_value_path fuel P k from (seg_ident ident) world)
  unfolding sema_resolve_inner_value_path
  inner_value_path-KeepsShown zero from = aborted fuel P world ident
  inner_value_path-KeepsShown (suc k) from =
      Kept-given IsSeen (sema_value_typeof from) world _ (λ t e.
        Kept-given IsSeen (type_at world.heap t) world _ (λ n at.
          ident_segment-KeepsShown (λ v. sema_resolve_inner_value_path fuel P k v (seg_ident ident))
            from t n at (inner_value_path-KeepsShown k)))

  -- Where `sema_resolve_inner_value_path` resolves a name behind a value to the member `i` of a
  -- type `t`, the type is a struct, whose member `i` has that name and is public, or the struct is
  -- of the module under analysis.
  pub inner_value_path-Shown :
      (k : ℕ) (from v : SemaValue F) (left : SemaPath F) (after : World) (i : ℕ) (t : Ref)
      → sema_resolve_inner_value_path fuel P k from (seg_ident ident) world
        ≡ some (some (v, left), after)
      → left.type ≡ path_struct_member i t
      → Shown P world ident t i
  unfolding Kept IsShown
  inner_value_path-Shown k from v left after i t e type =
      subst Keeps e (inner_value_path-KeepsShown k from) i t type
