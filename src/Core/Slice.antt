-- ===== src/Core/Slice.antt =====
-- src/core/slice/api.c: byte slices. A slice is the list of its bytes.
use hoblang_old.Base.{
  Bool, true, false, not, ◌&&◌, [], ◌∷◌, ◌≡◌, ◌↔◌, arith, ◌==◌, if◌then◌else◌, Bytes, length,
}

-- `!memcmp(a, b, len)` over two slices of one length.
unfoldable pub same_bytes : Bytes → Bytes → Bool
same_bytes [] _ = true
same_bytes (x ∷ xs) [] = true
same_bytes (x ∷ xs) (y ∷ ys) = x == y && same_bytes xs ys

unfoldable pub slice_eq : Bytes → Bytes → Bool
unfolding same_bytes
slice_eq a b = if not (length a == length b) then false else same_bytes a b

pub slice_eq_iff : (a b : Bytes) → (slice_eq a b ≡ true) ↔ (a ≡ b)
unfolding slice_eq
slice_eq_iff [] [] = ground arith
slice_eq_iff [] (y ∷ ys) = ground arith
slice_eq_iff (x ∷ xs) [] = ground arith
slice_eq_iff (x ∷ xs) (y ∷ ys) = ground (arith, slice_eq_iff xs ys)
