-- ===== src/Tests/VecTheorems.antt =====
-- The theorems on vectors, at concrete ones.
use hoblang_old.Base.{ℕ, ◌+◌, ◌*◌, ◌≤◌, List, [], ◌∷◌, ◌≡◌, refl, some, arith}
use hoblang_old.Core.Vec.{Vec, header_size, vec_new, vec_push, vec_pop, vec_append_raw}
use hoblang_old.Core.Vec.Items.{items, IsVec, vec_append_raw-items, vec_pop-vec_push}

abbrev numbers : List ℕ
numbers = 5 ∷ 6 ∷ 7 ∷ []

vec_append_raw-items_example :
    (v : Vec ℕ) × (vec_append_raw numbers (vec_new 8) ≡ some v)
    × (items v ≡ numbers)
    × (v.len ≡ 3)
    × (v.len ≤ v.cap)
    × (v.cap ≤ 6)
    × (v.bytes ≡ header_size + v.cap * v.esize)
vec_append_raw-items_example = vec_append_raw-items numbers 8 (omega arith) (omega arith)

-- A full vector of two numbers.
abbrev full : Vec ℕ
full = record { esize = 8; len = 2; cap = 2; bytes = 40; slots = 5 ∷ 6 ∷ [] }

full-IsVec : IsVec full
full-IsVec = record {
  sized = omega arith;
  fits = refl;
  inside = omega arith;
  written = omega arith;
}

vec_pop-vec_push_example :
    (w u : Vec ℕ) × (vec_push 7 full ≡ some w)
    × (vec_pop w ≡ some (7, u))
    × IsVec u
    × (items u ≡ 5 ∷ 6 ∷ [])
vec_pop-vec_push_example = vec_pop-vec_push 7 full full-IsVec (omega arith)
