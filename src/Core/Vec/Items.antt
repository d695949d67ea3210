-- ===== src/Core/Vec/Items.antt =====
-- A vector beside the list of its elements.
use mathlib.Core.List.{append-nil, append_assoc}
use native.Mathlib.Nat.{mul-le-mul_left, mul-le-mul_right}
use hoblang_old.Base.{
  ℕ, zero, suc, ◌+◌, ◌-◌, ◌*◌, ◌%◌, ◌^◌, ◌≤◌, ◌<◌, true, false, List, [], ◌∷◌, ◌++◌, ◌≡◌, refl, ap,
  sym, ◌∙◌, some, arith, length, get_elem?, inl, inr, Bool-cases, leb, ltb, ◌==◌,
}
use hoblang_old.Core.Vec.{
  Vec, header_size, grown_cap, vec_new, write_at, store, vec_push, vec_top, vec_pop, vec_append_raw,
}

-- A full vector grows, and is no longer full.
grown_cap-bounds :
    (c : ℕ)
    → 2 * c < 2 ^ 64
    → (c < grown_cap c) × (grown_cap c ≤ 2 * c + 1) × (grown_cap c ≤ 2 * suc c)
grown_cap-bounds c h = ground arith

module _ {ℓ} {A : Type ℓ} where
  abbrev take : ℕ → List A → List A
  take zero xs = []
  take (suc n) [] = []
  take (suc n) (x ∷ xs) = x ∷ take n xs

  -- The elements that the header counts.
  abbrev pub items : Vec A → List A
  items v = take v.len v.slots

  -- The block is as large as the header says, and holds the elements.
  pub record IsVec (v : Vec A) : Type 0 where
    pub sized : 0 < v.esize
    pub fits : v.bytes ≡ header_size + v.cap * v.esize
    pub inside : v.len ≤ v.cap
    pub written : v.len ≤ length v.slots

  take-write_at :
      (n : ℕ) (x : A) (xs : List A)
      → n ≤ length xs
      → take (suc n) (write_at n x xs) ≡ take n xs ++ (x ∷ [])
  take-write_at zero x [] h = refl
  take-write_at (suc n) x [] h = absurd (omega arith)
  take-write_at zero x (y ∷ ys) h = refl
  take-write_at (suc n) x (y ∷ ys) h = ap (λ r. y ∷ r) (take-write_at n x ys (omega arith))

  write_at-length : (n : ℕ) (x : A) (xs : List A) → n ≤ length xs → suc n ≤ length (write_at n x xs)
  write_at-length zero x [] h = omega arith
  write_at-length (suc n) x [] h = absurd (omega arith)
  write_at-length zero x (y ∷ ys) h = omega arith
  write_at-length (suc n) x (y ∷ ys) h = omega (arith, write_at-length n x ys (omega arith))

  write_at-before :
      (n : ℕ) (x : A) (xs : List A)
      → n ≤ length xs
      → (get_elem? (write_at n x xs) n ≡ some x) × (take n (write_at n x xs) ≡ take n xs)
  write_at-before zero x [] h = (refl, refl)
  write_at-before (suc n) x [] h = absurd (omega arith)
  write_at-before zero x (y ∷ ys) h = (refl, refl)
  write_at-before (suc n) x (y ∷ ys) h =
      let (e, t) = write_at-before n x ys (omega arith) in (e, ap (λ r. y ∷ r) t)

  -- A push in detail: the element comes last, and the capacity is kept, or doubled.
  pub record Pushed (x : A) (v w : Vec A) : Type ℓ where
    pub well : IsVec w
    pub added : items w ≡ items v ++ (x ∷ [])
    pub last : get_elem? w.slots v.len ≡ some x
    pub before : take v.len w.slots ≡ items v
    pub counted : w.len ≡ suc v.len
    pub same : w.esize ≡ v.esize
    pub grown : v.cap ≤ 2 * v.len → w.cap ≤ 2 * w.len

  store-Pushed :
      (x : A) (v w : Vec A)
      → IsVec w
      → w.len < w.cap
      → w.slots ≡ v.slots
      → w.len ≡ v.len
      → w.esize ≡ v.esize
      → suc w.len < 2 ^ 64
      → (v.cap ≤ 2 * v.len → w.cap ≤ 2 * suc v.len)
      → (u : Vec A) × (store x w ≡ some u) × Pushed x v u
  store-Pushed x v w i l s n z b g =
      let room : suc w.len * w.esize ≤ w.cap * w.esize = mul-le-mul_right w.esize l in
      let inside : ltb w.bytes (header_size + w.esize * w.len + w.esize) ≡ false =
        ground (arith, room, i.fits) in
      let counted : (w.len + 1) % 2 ^ 64 ≡ suc w.len = omega arith in
      (
        record w { slots = write_at w.len x w.slots; len = suc w.len },
        rw (inside, counted) refl,
        record {
          well = record {
            sized = i.sized;
            fits = i.fits;
            inside = l;
            written = write_at-length w.len x w.slots i.written;
          };
          added = rw (take-write_at w.len x w.slots i.written, s, n) refl;
          last = rw (← n) (write_at-before w.len x w.slots i.written).0;
          before = rw (← n, ← s) (write_at-before w.len x w.slots i.written).1;
          counted = ap suc n;
          same = z;
          grown = λ c. rw n (g c);
        },
      )

  pub vec_push-Pushed :
      (x : A) (v : Vec A)
      → IsVec v
      → header_size + (2 * v.len + 1) * v.esize < 2 ^ 64
      → (w : Vec A) × (vec_push x v ≡ some w) × Pushed x v w
  unfolding vec_push
  vec_push-Pushed x v i b =
      let there : (v.esize == 0) ≡ false = ground (arith, i.sized) in
      let small : (2 * v.len + 1) * 1 ≤ (2 * v.len + 1) * v.esize =
        mul-le-mul_left (2 * v.len + 1) i.sized in
      elim (Bool-cases (leb v.cap v.len)) [
        | inl full ↦
            let same : v.cap ≡ v.len = ground (arith, i.inside) in
            let (more, bounded, twice) = grown_cap-bounds v.cap (omega arith) in
            let bounded' : grown_cap v.cap ≤ 2 * v.len + 1 = omega arith in
            let size : grown_cap v.cap * v.esize ≤ (2 * v.len + 1) * v.esize =
              mul-le-mul_right v.esize bounded' in
            let grows : leb (grown_cap v.cap) v.cap ≡ false = ground (arith, more) in
            let whole : (header_size + grown_cap v.cap * v.esize) % 2 ^ 64
                ≡ header_size + grown_cap v.cap * v.esize =
              omega arith in
            let w : Vec A = record v {
              cap = grown_cap v.cap;
              bytes = header_size + grown_cap v.cap * v.esize;
            } in
            let step : vec_push x v ≡ store x w = rw (there, full, there, grows, whole) refl in
            let (u, e, p) =
              store-Pushed x v w
                (record { sized = i.sized; fits = refl; inside = omega arith; written = i.written })
                (omega arith) refl refl refl (omega arith) (λ c. omega arith) in
            (u, step ∙ e, p)
        | inr room ↦
            let (u, e, p) =
              store-Pushed x v v i (ground arith) refl refl refl (omega arith) (λ c. omega arith) in
            let step : vec_push x v ≡ store x v = rw (there, room) refl in (u, step ∙ e, p)
      ]

  vec_append_raw-IsVec :
      (xs : List A) (v : Vec A)
      → IsVec v
      → v.cap ≤ 2 * v.len
      → header_size + (2 * (v.len + length xs) + 1) * v.esize < 2 ^ 64
      → (w : Vec A) × (vec_append_raw xs v ≡ some w)
        × IsVec w
        × (items w ≡ items v ++ xs)
        × (w.len ≡ v.len + length xs)
        × (w.cap ≤ 2 * w.len)
  unfolding vec_append_raw
  vec_append_raw-IsVec [] v i c b = (v, refl, i, sym (append-nil (items v)), omega arith, c)
  vec_append_raw-IsVec (x ∷ xs) v i c b =
      let fewer : (2 * v.len + 1) * v.esize ≤ (2 * (v.len + suc (length xs)) + 1) * v.esize =
        mul-le-mul_right v.esize (omega arith) in
      let (w, e, p) = vec_push-Pushed x v i (omega arith) in
      let room : header_size + (2 * (w.len + length xs) + 1) * w.esize < 2 ^ 64 =
        rw (p.counted, p.same) (omega arith) in
      let (u, e2, i2, s, n, g) = vec_append_raw-IsVec xs w p.well (p.grown c) room in
      (
        u,
        rw e e2,
        i2,
        s ∙ ap (λ l. l ++ xs) p.added ∙ append_assoc (items v) (x ∷ []) xs,
        omega (arith, p.counted),
        g,
      )

  -- Elements pushed one after the other on a new vector are its elements in their order. No push writes
  -- outside the block, and the capacity is at most twice the number of elements. The block that these
  -- ask for at most is smaller than 2 ^ 64 bytes, and an element has at least one byte.
  pub vec_append_raw-items :
      (xs : List A) (esize : ℕ)
      → 0 < esize
      → header_size + (2 * length xs + 1) * esize < 2 ^ 64
      → (v : Vec A) × (vec_append_raw xs (vec_new esize) ≡ some v)
        × (items v ≡ xs)
        × (v.len ≡ length xs)
        × (v.len ≤ v.cap)
        × (v.cap ≤ 2 * length xs)
        × (v.bytes ≡ header_size + v.cap * v.esize)
  vec_append_raw-items xs esize h b =
      let new : IsVec (vec_new esize) = record {
        sized = h;
        fits = omega arith;
        inside = omega arith;
        written = omega arith;
      } in
      let (v, e, i, s, n, g) =
        vec_append_raw-IsVec xs (vec_new esize) new (omega arith) (omega (arith, b)) in
      (v, e, s, omega (arith, n), i.inside, omega (arith, n, g), i.fits)

  -- A pop behind a push gives the element back, and leaves the elements that there were.
  pub vec_pop-vec_push :
      (x : A) (v : Vec A)
      → IsVec v
      → header_size + (2 * v.len + 1) * v.esize < 2 ^ 64
      → (w u : Vec A) × (vec_push x v ≡ some w)
        × (vec_pop w ≡ some (x, u))
        × IsVec u
        × (items u ≡ items v)
  unfolding vec_pop vec_top
  vec_pop-vec_push x v i b =
      let small : (2 * v.len + 1) * 1 ≤ (2 * v.len + 1) * v.esize =
        mul-le-mul_left (2 * v.len + 1) i.sized in
      let (w, e, p) = vec_push-Pushed x v i b in
      let there : (w.esize == 0) ≡ false = ground (arith, p.well.sized) in
      let some_left : ltb 0 w.len ≡ true = ground (arith, p.counted) in
      let top : (w.len + 2 ^ 64 - 1) % 2 ^ 64 ≡ v.len = omega (arith, p.counted) in
      let left : w.len - 1 ≡ v.len = omega (arith, p.counted) in
      (
        w,
        record w { len = v.len },
        e,
        rw (there, some_left, there, top, p.last, left) refl,
        record {
          sized = p.well.sized;
          fits = p.well.fits;
          inside = omega (arith, p.well.inside, p.counted);
          written = omega (arith, p.well.written, p.counted);
        },
        p.before,
      )
