-- ===== src/Tests/TypeTheorems.antt =====
-- The theorems on the equality of types, on a concrete heap.
use hoblang_old.Base.{ℕ, zero, suc, true, false, [], ◌∷◌, ◌≡◌, refl, some, arith}
use hoblang_old.Lexer.Rules.{codes}
use hoblang_old.Sema.Types.{Heap, Ref, primitive, pointer, slice, structure, int, bool, int32}
use hoblang_old.Sema.Types.Equals.{sema_types_equals}
use hoblang_old.Sema.Types.Equals.Symmetric.{sema_types_equals_comm}
use hoblang_old.Sema.Types.Equals.Total.{sema_types_equals-total, IsAcyclic, Decides}

-- i32, `*i32` twice, a struct with a `*i32`, and a slice of it.
abbrev pub sample : Heap
sample = record {
  types =
      primitive (int int32) ∷ pointer 0 ∷ pointer 0 ∷ structure 0 ∷ slice 3 ∷ primitive bool ∷ [];
  structs = (record { is_public = true; name = codes "p"; type = 1 } ∷ []) ∷ [];
}

abbrev sample_rank : Ref → ℕ
sample_rank (suc zero) = 1
sample_rank (suc (suc zero)) = 1
sample_rank (suc (suc (suc zero))) = 2
sample_rank (suc (suc (suc (suc zero)))) = 3
sample_rank _ = 0

compares_pointers : sema_types_equals 3 sample 1 2 ≡ some true
unfolding sema_types_equals
compares_pointers = refl

compares_other : sema_types_equals 3 sample 4 1 ≡ some false
unfolding sema_types_equals
compares_other = refl

sample-IsAcyclic : IsAcyclic sample sample_rank
sample-IsAcyclic zero v = (primitive (int int32), refl, tt)
sample-IsAcyclic (suc zero) v = (pointer 0, refl, (omega arith, omega arith))
sample-IsAcyclic (suc (suc zero)) v = (pointer 0, refl, (omega arith, omega arith))
sample-IsAcyclic (suc (suc (suc zero))) v = (
  structure 0,
  refl,
  (
    record { is_public = true; name = codes "p"; type = 1 } ∷ [],
    refl,
    ((omega arith, omega arith), tt),
  ),
)
sample-IsAcyclic (suc (suc (suc (suc zero)))) v = (slice 3, refl, (omega arith, omega arith))
sample-IsAcyclic (suc (suc (suc (suc (suc zero))))) v = (primitive bool, refl, tt)
sample-IsAcyclic (suc (suc (suc (suc (suc (suc n)))))) v = absurd (omega (arith, v))

sema_types_equals_comm_example : sema_types_equals 4 sample 4 1 ≡ sema_types_equals 4 sample 1 4
sema_types_equals_comm_example = sema_types_equals_comm 4 sample 4 1

sema_types_equals-total_example : Decides (sema_types_equals 5 sample 4 2)
sema_types_equals-total_example =
    sema_types_equals-total 5 sample sample_rank 4 2 sample-IsAcyclic (omega arith) (omega arith)
      (omega arith)
