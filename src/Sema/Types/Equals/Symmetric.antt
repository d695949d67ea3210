-- ===== src/Sema/Types/Equals/Symmetric.antt =====
-- The equality of types and the order of its arguments.
use hoblang_old.Base.{
  ℕ, zero, suc, Bool, true, false, not, List, [], ◌∷◌, ◌≡◌, refl, ap, Option, none, some, ◌>>=◌,
  arith, ◌==◌, if◌then◌else◌, length, Bytes,
}
use hoblang_old.Core.Slice.{slice_eq, slice_eq_iff}
use hoblang_old.Sema.Types.{
  SemaPrimitive, int, bool, float, void, Ref, SemaType, primitive, optional, pointer, function,
  structure, slice, array, generic, StructMember, Heap, type_at, struct_at,
}
use hoblang_old.Sema.Types.Equals.{
  int_code, float_code, primitives_equal, args_equal, members_equal, structs_equal, generics_equal,
  nodes_equal, sema_types_equals,
}

==_comm : (a b : ℕ) → (a == b) ≡ (b == a)
==_comm a b = ground arith

slice_eq_comm : (a b : Bytes) → slice_eq a b ≡ slice_eq b a
slice_eq_comm a b = ground (arith, slice_eq_iff a b, slice_eq_iff b a)

primitives_equal_comm : (p q : SemaPrimitive) → primitives_equal p q ≡ primitives_equal q p
unfolding primitives_equal
primitives_equal_comm (int a) (int b) = ==_comm (int_code a) (int_code b)
primitives_equal_comm (float a) (float b) = ==_comm (float_code a) (float_code b)
primitives_equal_comm bool bool = refl
primitives_equal_comm void void = refl
primitives_equal_comm _ _ = refl

module _ (eq : Ref → Ref → Option Bool) (comm : (a b : Ref) → eq a b ≡ eq b a) where
  args_equal_comm : (xs ys : List Ref) → args_equal eq xs ys ≡ args_equal eq ys xs
  unfolding args_equal
  args_equal_comm (x ∷ xs) (y ∷ ys) = rw (comm x y, args_equal_comm xs ys)
  args_equal_comm [] (y ∷ ys) = refl
  args_equal_comm (x ∷ xs) [] = refl
  args_equal_comm [] [] = refl

  members_equal_comm : (xs ys : List StructMember) → members_equal eq xs ys ≡ members_equal eq ys xs
  unfolding members_equal
  members_equal_comm (x ∷ xs) (y ∷ ys) =
      rw (comm x.type y.type, slice_eq_comm x.name y.name, members_equal_comm xs ys)
  members_equal_comm [] (y ∷ ys) = refl
  members_equal_comm (x ∷ xs) [] = refl
  members_equal_comm [] [] = refl

  structs_equal_comm : (h : Heap) (d e : ℕ) → structs_equal eq h d e ≡ structs_equal eq h e d
  unfolding structs_equal
  structs_equal_comm h d e = both (struct_at h d) (struct_at h e)
    where
      both :
          (o p : Option (List StructMember))
          → (o >>= (λ ms. p >>= (λ ns.
              if not (length ms == length ns) then some false else members_equal eq ms ns)))
            ≡ (p >>= (λ ms. o >>= (λ ns.
                if not (length ms == length ns) then some false else members_equal eq ms ns)))
      both none none = refl
      both none (some _) = refl
      both (some _) none = refl
      both (some ms) (some ns) = rw (==_comm (length ms) (length ns), members_equal_comm ms ns)

  nodes_equal_comm :
      (h : Heap) (a b : Ref) (x y : SemaType) → nodes_equal eq h a b x y ≡ nodes_equal eq h b a y x
  unfolding nodes_equal
  nodes_equal_comm h a b (primitive p) (primitive q) = ap some (primitives_equal_comm p q)
  nodes_equal_comm h a b (optional t) (optional u) = comm t u
  nodes_equal_comm h a b (pointer t) (pointer u) = comm t u
  nodes_equal_comm h a b (slice t) (slice u) = comm t u
  nodes_equal_comm h a b (array n t) (array m u) = rw (==_comm n m, comm t u)
  nodes_equal_comm h a b (function xs r) (function ys s) =
      rw (==_comm (length xs) (length ys), comm r s, args_equal_comm xs ys)
  nodes_equal_comm h a b (structure d) (structure e) = structs_equal_comm h d e
  nodes_equal_comm h a b (generic g) (generic k) = generics g.replace k.replace
    where
      generics : (o p : Option Ref) → generics_equal eq a b o p ≡ generics_equal eq b a p o
      generics none none = refl
      generics none (some s) = refl
      generics (some r) none = refl
      generics (some r) (some s) = comm r s
  nodes_equal_comm h a b (generic g) y = refl
  nodes_equal_comm h a b x (generic k) = refl
  nodes_equal_comm h a b _ _ = refl

-- Comparing two types gives the same answer in both orders, on every heap, with replaced generics and
-- cyclic structs, and with every amount of fuel; where one order cannot answer, neither can the other.
pub sema_types_equals_comm :
    (fuel : ℕ) (h : Heap) (a b : Ref) → sema_types_equals fuel h a b ≡ sema_types_equals fuel h b a
unfolding sema_types_equals
sema_types_equals_comm zero h a b = refl
sema_types_equals_comm (suc fuel) h a b =
    let eq = sema_types_equals fuel h in
    rw (==_comm a b) (
      ap (λ o. if b == a then some true else o)
        (follow eq (nodes_equal_comm eq (sema_types_equals_comm fuel h) h a b) (type_at h a)
          (type_at h b)))
  where
    follow :
        (eq : Ref → Ref → Option Bool)
        → ((x y : SemaType) → nodes_equal eq h a b x y ≡ nodes_equal eq h b a y x)
        → (o p : Option SemaType)
        → (o >>= (λ x. p >>= (λ y. nodes_equal eq h a b x y)))
          ≡ (p >>= (λ x. o >>= (λ y. nodes_equal eq h b a x y)))
    follow eq law none none = refl
    follow eq law none (some y) = refl
    follow eq law (some x) none = refl
    follow eq law (some x) (some y) = law x y
