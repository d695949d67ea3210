-- ===== src/Core/Vec.antt =====
-- src/core/vec.c and the macros of include/core/vec.h: vectors behind a header. A failed assertion and a
-- write outside the block that `malloc` or `realloc` gave are `none`; both are taken to find memory.
pub mod Items
use hoblang_old.Base.{
  ℕ, zero, suc, ◌+◌, ◌-◌, ◌*◌, ◌%◌, ◌^◌, Bool, List, [], ◌∷◌, Option, none, some, ltb, leb, ◌==◌,
  if◌then◌else◌, get_elem?, ◌>>=◌,
}

-- The header, the bytes of the block with the header's own, and the elements that stand behind it.
pub record Vec {ℓ} (A : Type ℓ) : Type ℓ where
  pub esize : ℕ
  pub len : ℕ
  pub cap : ℕ
  pub bytes : ℕ
  pub slots : List A

-- `sizeof(VecHeader)`: three `size_t`.
abbrev pub header_size : ℕ
header_size = 24

-- The capacity that a full vector asks for.
abbrev pub grown_cap : ℕ → ℕ
grown_cap cap = if cap == 0 then 1 else (cap * 2) % 2 ^ 64

module _ {ℓ} {A : Type ℓ} where
  abbrev pub vec_new : ℕ → Vec A
  vec_new esize = record { esize = esize; len = 0; cap = 0; bytes = header_size; slots = [] }

  -- The assertion of `vec_header`, which every function calls.
  abbrev pub vec_header : Vec A → Option (Vec A)
  vec_header v = if v.esize == 0 then none else some v

  unfoldable pub vec_reserve : ℕ → Vec A → Option (Vec A)
  vec_reserve cap vec = do
    v ← vec_header vec
    if leb cap v.cap
        then some v
        else some (record v { cap = cap; bytes = (header_size + cap * v.esize) % 2 ^ 64 })

  -- The memory with an element written at an index.
  abbrev pub write_at : ℕ → A → List A → List A
  write_at n x [] = x ∷ []
  write_at zero x (y ∷ ys) = x ∷ ys
  write_at (suc n) x (y ∷ ys) = y ∷ write_at n x ys

  -- `memcpy` of one element behind the last.
  abbrev pub store : A → Vec A → Option (Vec A)
  store x v =
      if ltb v.bytes (header_size + v.esize * v.len + v.esize)
      then none
      else some (record v { slots = write_at v.len x v.slots; len = (v.len + 1) % 2 ^ 64 })

  unfoldable pub vec_push : A → Vec A → Option (Vec A)
  unfolding vec_reserve
  vec_push x vec = do
    v ← vec_header vec
    w ← (if leb v.cap v.len then vec_reserve (grown_cap v.cap) v else some v)
    store x w

  -- The last element; nothing specified where there is none.
  unfoldable pub vec_top : Vec A → Option A
  vec_top vec = do v ← vec_header vec; get_elem? v.slots ((v.len + 2 ^ 64 - 1) % 2 ^ 64)

  unfoldable pub vec_pop : Vec A → Option (A × Vec A)
  unfolding vec_top
  vec_pop vec = do
    v ← vec_header vec
    if ltb 0 v.len then (do x ← vec_top v; some (x, record v { len = v.len - 1 })) else none

  -- The macro `vec_append_raw`: one push after the other.
  unfoldable pub vec_append_raw : List A → Vec A → Option (Vec A)
  unfolding vec_push
  vec_append_raw [] v = some v
  vec_append_raw (x ∷ xs) v = do w ← vec_push x v; vec_append_raw xs w

  unfoldable pub vec_len : Vec A → Option ℕ
  vec_len vec = do v ← vec_header vec; some v.len
