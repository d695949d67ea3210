-- ===== src/Sema/Types.antt =====
-- Types: include/sema/type/private.h and src/sema/module/type/. A `SemaType *` is an index into the
-- heap of types; an index outside the heap is a pointer that cannot be read, NULL among them.
pub mod Equals
use hoblang_old.Base.{
  ℕ, ◌+◌, Bool, true, false, List, [], ◌∷◌, ◌++◌, Option, none, some, Bytes, length, get_elem?,
}

pub data SemaPrimitiveIntType : Type 0 where
  int8 int16 int32 int64 uint8 uint16 uint32 uint64 : SemaPrimitiveIntType

pub data SemaPrimitiveFloatType : Type 0 where
  float32 float64 : SemaPrimitiveFloatType

pub data SemaPrimitive : Type 0 where
  int : SemaPrimitiveIntType → SemaPrimitive
  bool : SemaPrimitive
  float : SemaPrimitiveFloatType → SemaPrimitive
  void : SemaPrimitive

-- A pointer to a type.
abbrev pub Ref : Type 0
Ref = ℕ

-- `behaviour` and `table` point to what the equality of types does not read.
pub record SemaTypeGeneric : Type 0 where
  pub behaviour : Option ℕ
  pub replace : Option Ref
  pub table : Option ℕ

-- What a pointer points to. A struct type points to its definition in the syntax tree.
pub data SemaType : Type 0 where
  primitive : SemaPrimitive → SemaType
  optional : Ref → SemaType
  pointer : Ref → SemaType
  function : List Ref → Ref → SemaType
  structure : ℕ → SemaType
  slice : Ref → SemaType
  array : ℕ → Ref → SemaType
  generic : SemaTypeGeneric → SemaType

-- `AstStructMember`, with the type that was analysed for it.
pub record StructMember : Type 0 where
  pub is_public : Bool
  pub name : Bytes
  pub type : Ref

pub record Heap : Type 0 where
  pub types : List SemaType
  pub structs : List (List StructMember)

abbrev pub type_at : Heap → Ref → Option SemaType
type_at h a = get_elem? h.types a

abbrev pub struct_at : Heap → ℕ → Option (List StructMember)
struct_at h d = get_elem? h.structs d

-- The constructors `sema_type_new_…` allocate: the new heap, and the pointer to the new type.
unfoldable pub sema_type_new : SemaType → Heap → Heap × Ref
sema_type_new t h = (record h { types = h.types ++ t ∷ [] }, length h.types)

abbrev pub sema_type_new_generic : Option ℕ → Heap → Heap × Ref
sema_type_new_generic b =
    sema_type_new (generic (record { behaviour = b; replace = none; table = none }))

abbrev pub sema_type_new_array : ℕ → Ref → Heap → Heap × Ref
sema_type_new_array n t = sema_type_new (array n t)

abbrev pub sema_type_new_slice : Ref → Heap → Heap × Ref
sema_type_new_slice t = sema_type_new (slice t)

abbrev pub sema_type_new_optional : Ref → Heap → Heap × Ref
sema_type_new_optional t = sema_type_new (optional t)

abbrev pub sema_type_new_pointer : Ref → Heap → Heap × Ref
sema_type_new_pointer t = sema_type_new (pointer t)

abbrev pub sema_type_new_func : Ref → List Ref → Heap → Heap × Ref
sema_type_new_func returning args = sema_type_new (function args returning)

abbrev pub sema_type_new_struct : ℕ → Heap → Heap × Ref
sema_type_new_struct def = sema_type_new (structure def)

unfoldable pub sema_type_is_int : SemaType → Bool
sema_type_is_int (primitive (int k)) = true
sema_type_is_int _ = false

unfoldable pub sema_type_is_float : SemaType → Bool
sema_type_is_float (primitive (float k)) = true
sema_type_is_float _ = false
