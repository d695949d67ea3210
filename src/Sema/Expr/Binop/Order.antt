-- ===== src/Sema/Expr/Binop/Order.antt =====
-- What the comparison of two integer constants gives.
use hoblang_old.Base.{ℕ, ◌+◌, ◌%◌, ◌<◌, Bool, not, ◌≡◌, ltb, refl, Option, some, arith}
use hoblang_old.Parser.Binop.{binop_gt, binop_ge, binop_lt, binop_le}
use hoblang_old.Sema.Analysis.{World}
use hoblang_old.Sema.Expr.{sema_const_int}
use hoblang_old.Sema.Expr.Binop.{bit, int_operator, sema_expr_binop_eval}
use hoblang_old.Sema.Types.{Ref, SemaPrimitiveIntType, primitive, int, type_at, sema_type_is_int}
use hoblang_old.Sema.Value.{Floats, const_int, SemaValue, value_const}
use hoblang_old.Sema.Word.{half, whole, less_int}

-- The order of two bit patterns as signed numbers: adding 2^63 turns it into that of the patterns.
abbrev pub signed_below : ℕ → ℕ → Bool
signed_below x y = ltb ((x + half) % whole) ((y + half) % whole)

less_int-signed_below : (x y : ℕ) → x < whole → y < whole → less_int x y ≡ signed_below x y
less_int-signed_below x y a b = ground arith

-- On integer constants, 64 bits each and the left one of an integer type, the four comparisons of
-- order are not what their names say: `>` gives whether the left one is at least the right one,
-- `>=` whether it is at most, `<` whether it is greater, and `<=` whether it is less. The result
-- has the type of the left operand.
pub binop_eval-order :
    {F : Type 0} (floats : Floats F) (t u : Ref) (k : SemaPrimitiveIntType) (x y : ℕ) (w : World)
    → type_at w.heap t ≡ some (primitive (int k))
    → x < whole
    → y < whole
    → let result : Bool → Option (Option (SemaValue F) × World) =
        λ b. some (some (value_const (const_int t (bit b))), w) in
      (sema_expr_binop_eval floats binop_gt (const_int t x) (const_int u y) w
        ≡ result (not (signed_below x y)))
      × (sema_expr_binop_eval floats binop_ge (const_int t x) (const_int u y) w
          ≡ result (not (signed_below y x)))
      × (sema_expr_binop_eval floats binop_lt (const_int t x) (const_int u y) w
          ≡ result (signed_below y x))
      × (sema_expr_binop_eval floats binop_le (const_int t x) (const_int u y) w
          ≡ result (signed_below x y))
unfolding sema_expr_binop_eval int_operator sema_const_int sema_type_is_int
binop_eval-order floats t u k x y w e a b =
    let p = less_int-signed_below x y a b in
    let q = less_int-signed_below y x b a in
    (rw (e, p) refl, rw (e, q) refl, rw (e, q) refl, rw (e, p) refl)
