-- ===== src/Sema/Types/Equals/Total.antt =====
-- Heaps without cycles, and the equality of their types.
use hoblang_old.Base.{
  ℕ, zero, suc, ◌+◌, ◌<◌, Bool, true, false, not, List, [], ◌∷◌, ◌≡◌, refl, Option, none, some,
  ◌>>=◌, arith, ◌==◌, if◌then◌else◌, length, Bool-cases, inl, inr,
}
use hoblang_old.Core.Slice.{slice_eq}
use hoblang_old.Sema.Types.{
  Ref, SemaType, primitive, optional, pointer, function, structure, slice, array, generic,
  StructMember, Heap, type_at, struct_at,
}
use hoblang_old.Sema.Types.Equals.{
  args_equal, members_equal, generics_equal, replaced_equal, primitives_equal, nodes_equal,
  sema_types_equals,
}

abbrev pub Decides : Option Bool → Type 0
Decides o = (r : Bool) × (o ≡ some r)

abbrev AllRefs : (Ref → Type 0) → List Ref → Type 0
AllRefs P [] = Unit
AllRefs P (t ∷ ts) = P t × AllRefs P ts

abbrev AllMembers : (Ref → Type 0) → List StructMember → Type 0
AllMembers P [] = Unit
AllMembers P (m ∷ ms) = P m.type × AllMembers P ms

abbrev OnReplace : (Ref → Type 0) → Option Ref → Type 0
OnReplace P none = Unit
OnReplace P (some r) = P r

-- Every pointer that a type holds satisfies `P`, those in the members of its struct too.
abbrev pub Holds : (Ref → Type 0) → Heap → SemaType → Type 0
Holds P h (primitive p) = Unit
Holds P h (optional t) = P t
Holds P h (pointer t) = P t
Holds P h (slice t) = P t
Holds P h (array n t) = P t
Holds P h (function xs r) = AllRefs P xs × P r
Holds P h (structure d) = (ms : List StructMember) × (struct_at h d ≡ some ms) × AllMembers P ms
Holds P h (generic g) = OnReplace P g.replace

-- The pointer can be read, and what it points to has a lower rank than `n`.
abbrev pub Lower : Heap → (Ref → ℕ) → ℕ → Ref → Type 0
Lower h rank n t = (rank t < n) × (t < length h.types)

-- Every type of the heap holds pointers of lower rank only.
abbrev pub IsAcyclic : Heap → (Ref → ℕ) → Type 0
IsAcyclic h rank =
    (a : Ref)
    → a < length h.types
    → (x : SemaType) × (type_at h a ≡ some x) × Holds (Lower h rank (rank a)) h x

guard-Decides : (b : Bool) (o : Option Bool) → Decides o → Decides (if b then some false else o)
guard-Decides true o d = (false, refl)
guard-Decides false o d = d

replaced_equal-Decides :
    (eq : Ref → Ref → Option Bool) (P : Ref → Type 0) (b : Ref) (o : Option Ref)
    → ((t : Ref) → P t → Decides (eq t b))
    → OnReplace P o
    → Decides (replaced_equal eq o b)
unfolding replaced_equal
replaced_equal-Decides eq P b none d h = (false, refl)
replaced_equal-Decides eq P b (some r) d h = d r h

module _ (eq : Ref → Ref → Option Bool) (P Q : Ref → Type 0)
    (decides : (t u : Ref) → P t → Q u → Decides (eq t u)) where
  bind-Decides :
      (t u : Ref) (f : Bool → Option Bool)
      → P t
      → Q u
      → ((b : Bool) → Decides (f b))
      → Decides (eq t u >>= f)
  bind-Decides t u f p q d = let (r, e) = decides t u p q in rw e (d r)

  args_equal-Decides :
      (xs ys : List Ref) → AllRefs P xs → AllRefs Q ys → Decides (args_equal eq xs ys)
  unfolding args_equal
  args_equal-Decides [] ys h k = (true, refl)
  args_equal-Decides (x ∷ xs) [] h k = (true, refl)
  args_equal-Decides (x ∷ xs) (y ∷ ys) (p, h) (q, k) =
      bind-Decides x y _ p q (λ b. guard-Decides (not b) _ (args_equal-Decides xs ys h k))

  members_equal-Decides :
      (xs ys : List StructMember)
      → AllMembers P xs
      → AllMembers Q ys
      → Decides (members_equal eq xs ys)
  unfolding members_equal
  members_equal-Decides [] ys h k = (true, refl)
  members_equal-Decides (x ∷ xs) [] h k = (true, refl)
  members_equal-Decides (x ∷ xs) (y ∷ ys) (p, h) (q, k) =
      guard-Decides (not (slice_eq x.name y.name)) _ (
        bind-Decides x.type y.type _ p q
          (λ b. guard-Decides (not b) _ (members_equal-Decides xs ys h k)))

  generics_equal-Decides :
      (a b : Ref) (o p : Option Ref)
      → OnReplace P o
      → OnReplace Q p
      → Decides (generics_equal eq a b o p)
  unfolding generics_equal
  generics_equal-Decides a b none none h k = (false, refl)
  generics_equal-Decides a b none (some s) h k = (_, refl)
  generics_equal-Decides a b (some r) none h k = (_, refl)
  generics_equal-Decides a b (some r) (some s) h k = decides r s h k

  nodes_equal-Decides :
      (h : Heap) (a b : Ref) (x y : SemaType)
      → ((t : Ref) → P t → Decides (eq t b))
      → ((u : Ref) → Q u → Decides (eq u a))
      → Holds P h x
      → Holds Q h y
      → Decides (nodes_equal eq h a b x y)
  unfolding nodes_equal
  nodes_equal-Decides h a b (primitive p) (primitive q) l r hx hy = (primitives_equal p q, refl)
  nodes_equal-Decides h a b (optional t) (optional u) l r hx hy = decides t u hx hy
  nodes_equal-Decides h a b (pointer t) (pointer u) l r hx hy = decides t u hx hy
  nodes_equal-Decides h a b (slice t) (slice u) l r hx hy = decides t u hx hy
  nodes_equal-Decides h a b (array n t) (array m u) l r hx hy = elim (Bool-cases (n == m)) [
    | inl e ↦ rw e (decides t u hx hy)
    | inr e ↦ rw e (false, refl)
  ]
  nodes_equal-Decides h a b (function xs s) (function ys t) l r (hx, ps) (hy, qt) =
      guard-Decides (not (length xs == length ys)) _
        (bind-Decides s t _ ps qt (λ c. guard-Decides (not c) _ (args_equal-Decides xs ys hx hy)))
  nodes_equal-Decides h a b (structure d) (structure e) l r (ms, p, hx) (ns, q, hy) =
      rw (p, q) (guard-Decides (not (length ms == length ns)) _ (members_equal-Decides ms ns hx hy))
  nodes_equal-Decides h a b (generic g) (generic k) l r hx hy =
      generics_equal-Decides a b g.replace k.replace hx hy
  nodes_equal-Decides h a b (generic g) y l r hx hy = replaced_equal-Decides eq P b g.replace l hx
  nodes_equal-Decides h a b x (generic k) l r hx hy = replaced_equal-Decides eq Q a k.replace r hy
  nodes_equal-Decides h a b _ _ l r hx hy = (false, refl)

-- On a heap without cycles, through pointers, struct members and replaced generics, the comparison of
-- any two types returns, with more fuel than the sum of their ranks.
pub sema_types_equals-total :
    (fuel : ℕ) (h : Heap) (rank : Ref → ℕ) (a b : Ref)
    → IsAcyclic h rank
    → a < length h.types
    → b < length h.types
    → rank a + rank b < fuel
    → Decides (sema_types_equals fuel h a b)
unfolding sema_types_equals
sema_types_equals-total zero h rank a b ac va vb lt = absurd (omega arith)
sema_types_equals-total (suc fuel) h rank a b ac va vb lt =
    let (x, ex, hx) = ac a va in
    let (y, ey, hy) = ac b vb in
    let rec = sema_types_equals-total fuel h rank in
    let eq = sema_types_equals fuel h in
    let d =
      nodes_equal-Decides eq (Lower h rank (rank a)) (Lower h rank (rank b))
        (λ t u p q. rec t u ac p.1 q.1 (omega (arith, p.0, q.0))) h a b x y
        (λ t p. rec t b ac p.1 vb (omega (arith, p.0)))
        (λ u q. rec u a ac q.1 va (omega (arith, q.0))) hx hy in
    if-Decides (a == b) _ (follow eq (type_at h a) (type_at h b) x y ex ey d)
  where
    if-Decides : (c : Bool) (o : Option Bool) → Decides o → Decides (if c then some true else o)
    if-Decides true o d' = (true, refl)
    if-Decides false o d' = d'

    follow :
        (eq : Ref → Ref → Option Bool) (o p : Option SemaType) (x y : SemaType)
        → o ≡ some x
        → p ≡ some y
        → Decides (nodes_equal eq h a b x y)
        → Decides (o >>= (λ x'. p >>= (λ y'. nodes_equal eq h a b x' y')))
    follow eq o p x y ex ey d = rw (ex, ey) d
