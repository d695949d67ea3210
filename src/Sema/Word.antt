-- ===== src/Sema/Word.antt =====
-- The C operators on `int64_t`, on the bit patterns 0 … 2^64 - 1 of two's complement. `none` is
-- undefined behaviour: a division by zero or one that overflows, and a shift count out of range. Sums,
-- products and left shifts wrap.
use hoblang_old.Base.{
  ℕ, zero, suc, ◌+◌, ◌-◌, ◌*◌, ◌/◌, ◌%◌, ◌^◌, Bool, not, ◌&&◌, ◌||◌, ltb, leb, ◌==◌, Option, none,
  some, if◌then◌else◌,
}

-- 2^63 and 2^64.
abbrev pub half : ℕ
half = 9223372036854775808

abbrev pub whole : ℕ
whole = 18446744073709551616

abbrev pub is_negative : ℕ → Bool
is_negative x = leb half x

abbrev pub negate : ℕ → ℕ
negate x = (whole - x) % whole

abbrev pub magnitude : ℕ → ℕ
magnitude x = if is_negative x then whole - x else x

abbrev pub add_int : ℕ → ℕ → ℕ
add_int x y = (x + y) % whole

abbrev pub sub_int : ℕ → ℕ → ℕ
sub_int x y = (x + (whole - y)) % whole

abbrev pub mul_int : ℕ → ℕ → ℕ
mul_int x y = x * y % whole

abbrev same_sign : ℕ → ℕ → Bool
same_sign x y = if is_negative x then is_negative y else not (is_negative y)

-- The smallest number divided by -1, or anything divided by 0.
abbrev pub cannot_divide : ℕ → ℕ → Bool
cannot_divide x y = y == 0 || (x == half && y == whole - 1)

abbrev pub quotient : ℕ → ℕ → ℕ
quotient x y = let q = magnitude x / magnitude y in if same_sign x y then q else negate q

abbrev pub remainder : ℕ → ℕ → ℕ
remainder x y = let r = magnitude x % magnitude y in if is_negative x then negate r else r

abbrev pub div_int : ℕ → ℕ → Option ℕ
div_int x y = if cannot_divide x y then none else some (quotient x y)

abbrev pub mod_int : ℕ → ℕ → Option ℕ
mod_int x y = if cannot_divide x y then none else some (remainder x y)

-- An operator on the lowest `n` bits, one by one.
unfoldable pub bitwise : ℕ → (Bool → Bool → Bool) → ℕ → ℕ → ℕ
bitwise zero f x y = 0
bitwise (suc n) f x y =
    let bit = if f (x % 2 == 1) (y % 2 == 1) then 1 else 0 in bit + 2 * bitwise n f (x / 2) (y / 2)

abbrev pub shift_left : ℕ → ℕ → Option ℕ
shift_left x n = if ltb n 64 then some (x * 2 ^ n % whole) else none

-- The shift to the right keeps the sign.
abbrev pub shift_right : ℕ → ℕ → Option ℕ
shift_right x n =
    let kept = if is_negative x then whole - 1 - (whole - 1 - x) / 2 ^ n else x / 2 ^ n in
    if ltb n 64 then some kept else none

-- The order of the signed numbers.
abbrev pub less_int : ℕ → ℕ → Bool
less_int x y = if same_sign x y then ltb x y else is_negative x
