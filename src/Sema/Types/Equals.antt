-- ===== src/Sema/Types/Equals.antt =====
-- `sema_types_equals` of src/sema/module/type/api.c. It follows pointers, through replaced generics
-- and struct definitions too, so it runs on fuel; `none` is fuel run out or a pointer that cannot be
-- read.
pub mod Symmetric
pub mod Total
use hoblang_old.Base.{
  ℕ, zero, suc, Bool, true, false, not, ◌&&◌, ◌||◌, List, [], ◌∷◌, Option, none, some, ◌>>=◌, ◌==◌,
  if◌then◌else◌, length,
}
use hoblang_old.Core.Slice.{slice_eq}
use hoblang_old.Sema.Types.{
  SemaPrimitiveIntType, int8, int16, int32, int64, uint8, uint16, uint32, uint64,
  SemaPrimitiveFloatType, float32, float64, SemaPrimitive, int, bool, float, void, Ref, SemaType,
  primitive, optional, pointer, function, structure, slice, array, generic, StructMember, Heap,
  type_at, struct_at,
}

-- The value of the enumeration.
abbrev pub int_code : SemaPrimitiveIntType → ℕ
int_code int8 = 0
int_code int16 = 1
int_code int32 = 2
int_code int64 = 3
int_code uint8 = 4
int_code uint16 = 5
int_code uint32 = 6
int_code uint64 = 7

abbrev pub float_code : SemaPrimitiveFloatType → ℕ
float_code float32 = 0
float_code float64 = 1

unfoldable pub primitives_equal : SemaPrimitive → SemaPrimitive → Bool
primitives_equal (int a) (int b) = int_code a == int_code b
primitives_equal (float a) (float b) = float_code a == float_code b
primitives_equal bool bool = true
primitives_equal void void = true
primitives_equal _ _ = false

-- The comparison of the pointers that two types hold is the argument `equals`.
module _ (equals : Ref → Ref → Option Bool) where
  -- The loop over two argument lists of one length.
  unfoldable pub args_equal : List Ref → List Ref → Option Bool
  args_equal (a ∷ xs) (b ∷ ys) = do
    same ← equals a b
    let rest = args_equal xs ys
    if not same then some false else rest
  args_equal _ _ = some true

  -- The loop over the members of two structs of one length.
  unfoldable pub members_equal : List StructMember → List StructMember → Option Bool
  members_equal (a ∷ xs) (b ∷ ys) =
      let rest = members_equal xs ys in
      let types = equals a.type b.type >>= (λ same. if not same then some false else rest) in
      if not (slice_eq a.name b.name) then some false else types
  members_equal _ _ = some true

  unfoldable pub functions_equal : List Ref → Ref → List Ref → Ref → Option Bool
  functions_equal args returning args' returning' =
      let rest =
        equals returning returning'
        >>= (λ same. if not same then some false else args_equal args args') in
      if not (length args == length args') then some false else rest

  unfoldable pub structs_equal : Heap → ℕ → ℕ → Option Bool
  structs_equal h d d' = do
    ms ← struct_at h d
    ns ← struct_at h d'
    if not (length ms == length ns) then some false else members_equal ms ns

  -- Two generics: the pointers are compared where one of them is not replaced.
  unfoldable pub generics_equal : Ref → Ref → Option Ref → Option Ref → Option Bool
  generics_equal a b none none = some false
  generics_equal a b none (some s) = some (s == a)
  generics_equal a b (some r) none = some (r == b)
  generics_equal a b (some r) (some s) = equals r s

  -- A generic beside a type of another kind.
  unfoldable pub replaced_equal : Option Ref → Ref → Option Bool
  replaced_equal none b = some false
  replaced_equal (some r) b = equals r b

  -- What follows the comparison of the pointers `a` and `b` themselves.
  unfoldable pub nodes_equal : Heap → Ref → Ref → SemaType → SemaType → Option Bool
  unfolding primitives_equal functions_equal structs_equal generics_equal replaced_equal
  nodes_equal h a b (primitive p) (primitive q) = some (primitives_equal p q)
  nodes_equal h a b (optional t) (optional u) = equals t u
  nodes_equal h a b (pointer t) (pointer u) = equals t u
  nodes_equal h a b (slice t) (slice u) = equals t u
  nodes_equal h a b (array n t) (array m u) =
      let inner = equals t u in if n == m then inner else some false
  nodes_equal h a b (function xs r) (function ys s) = functions_equal xs r ys s
  nodes_equal h a b (structure d) (structure d') = structs_equal h d d'
  nodes_equal h a b (generic g) (generic k) = generics_equal a b g.replace k.replace
  nodes_equal h a b (generic g) y = replaced_equal g.replace b
  nodes_equal h a b x (generic k) = replaced_equal k.replace a
  nodes_equal h a b _ _ = some false

unfoldable pub sema_types_equals : ℕ → Heap → Ref → Ref → Option Bool
unfolding nodes_equal args_equal members_equal slice_eq
sema_types_equals zero h a b = none
sema_types_equals (suc fuel) h a b =
    let follow =
      type_at h a
      >>= (λ x. type_at h b >>= (λ y. nodes_equal (sema_types_equals fuel h) h a b x y)) in
    if a == b then some true else follow
