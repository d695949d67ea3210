-- ===== src/Sema/Expr/As/Typed.antt =====
-- The type of what a conversion makes.
use hoblang_old.Base.{
  ℕ, Bool, true, false, ◌≡◌, refl, ◌⊎◌, inl, inr, Option, none, some, arith, if◌then◌else◌,
}
use hoblang_old.Sema.Analysis.{World, answer, node_of, same_type, or_abort, continue_with}
use hoblang_old.Sema.Types.Equals.{sema_types_equals}
use hoblang_old.Sema.Expr.{SemaExpr, sema_value_expr_type}
use hoblang_old.Sema.Expr.Answers.{
  IsRuntime, Answers, holds_behind, Answers-behind, value_type-Answers,
}
use hoblang_old.Sema.Expr.As.{
  SemaAsConvType, conv_ignore, sema_conv_primitive, sema_conv_array, sema_conv_pointer,
  sema_conv_slice, sema_conv_function, sema_conv_optional, convert, wrap_or_convert,
  sema_analyze_expr_as, expected_inside,
}
use hoblang_old.Sema.Types.{
  Ref, SemaPrimitive, SemaType, primitive, optional, pointer, function, structure, slice, array,
  generic,
}
use hoblang_old.Sema.Value.{Floats, SemaValue, value_final, sema_value_typeof}

-- Where the answer is a value, it has the type `dest`.
abbrev pub Gives :
    {F : Type 0} → Ref → Option (Option (SemaAsConvType × SemaValue F) × World) → Type 0
Gives dest none = Unit
Gives dest (some (none, w)) = Unit
Gives dest (some (some (k, v), w)) = v ≡ value_final dest

module _ {F : Type 0} (floats : Floats F) (fuel : ℕ) where
  pointer-Gives :
      (t : Ref) (v : SemaValue F) (dest : Ref) (w : World)
      → Gives dest (sema_conv_pointer floats fuel t v dest w)
  unfolding sema_conv_pointer
  pointer-Gives t v dest w = ground arith

  slice-Gives :
      (t : Ref) (v : SemaValue F) (dest : Ref) (w : World)
      → Gives dest (sema_conv_slice floats fuel t v dest w)
  unfolding sema_conv_slice
  slice-Gives t v dest w = ground arith

  primitive-Gives :
      (p : SemaPrimitive) (v : SemaValue F) (dest : Ref) (w : World)
      → IsRuntime v
      → Gives dest (sema_conv_primitive floats fuel p v dest w)
  unfolding sema_conv_primitive
  primitive-Gives p v dest w r = ground arith

  optional-Gives :
      (t : Ref) (v : SemaValue F) (dest : Ref) (w : World)
      → IsRuntime v
      → Gives dest (sema_conv_optional floats fuel t v dest w)
  unfolding sema_conv_optional
  optional-Gives t v dest w r = ground arith

  function-Gives :
      (v : SemaValue F) (dest : Ref) (w : World)
      → Gives dest (sema_conv_function floats fuel v dest w)
  unfolding sema_conv_function
  function-Gives v dest w = ground arith

  convert-Gives :
      (n : SemaType) (v : SemaValue F) (dest : Ref) (w : World)
      → IsRuntime v
      → Gives dest (convert floats fuel n v dest w)
  unfolding convert sema_conv_array
  convert-Gives (primitive p) v dest w r = primitive-Gives p v dest w r
  convert-Gives (array n t) v dest w r = tt
  convert-Gives (pointer t) v dest w r = pointer-Gives t v dest w
  convert-Gives (slice t) v dest w r = slice-Gives t v dest w
  convert-Gives (function xs s) v dest w r = function-Gives v dest w
  convert-Gives (optional t) v dest w r = optional-Gives t v dest w r
  convert-Gives (generic g) v dest w r = tt
  convert-Gives (structure d) v dest w r = tt

  wrap_or_convert-Gives :
      (d : SemaType) (v : SemaValue F) (dest type : Ref) (w : World)
      → IsRuntime v
      → Gives dest (wrap_or_convert floats fuel dest d v type w)
  unfolding wrap_or_convert
  wrap_or_convert-Gives (optional t) v dest type w r =
      holds_behind (Gives dest) tt (λ _. tt) (same_type fuel type t w) (λ same w'. ground arith)
  wrap_or_convert-Gives d v dest type w r =
      holds_behind (Gives dest) tt (λ _. tt) (node_of type w) (λ n w'. convert-Gives n v dest w' r)

  -- The value keeps a type equal to `dest` where nothing is converted, and has the type `dest` else.
  abbrev pub IsConverted : Ref → SemaAsConvType × SemaValue F → World → Type 0
  IsConverted dest (k, v) w =
      ((k ≡ conv_ignore)
        × ((t : Ref) × (sema_value_typeof v ≡ some t)
            × (sema_types_equals fuel w.heap dest t ≡ some true)))
      ⊎ (v ≡ value_final dest)

  Gives-IsConverted :
      (dest : Ref) (r : Option (Option (SemaAsConvType × SemaValue F) × World))
      → Gives dest r
      → Answers (IsConverted dest) r
  Gives-IsConverted dest none g = tt
  Gives-IsConverted dest (some (none, w)) g = tt
  Gives-IsConverted dest (some (some (k, v), w)) g = inr g

  compared :
      (dest : Ref) (d : SemaType) (v : SemaValue F) (t : Ref) (w : World) (o : Option Bool)
      → sema_types_equals fuel w.heap dest t ≡ o
      → IsRuntime v
      → sema_value_typeof v ≡ some t
      → Answers (IsConverted dest) (
          continue_with
            (λ same.
              if same then answer (conv_ignore, v) else wrap_or_convert floats fuel dest d v t)
            (or_abort o w))
  compared dest d v t w none e r p = tt
  compared dest d v t w (some true) e r p = inl (refl, (t, p, e))
  compared dest d v t w (some false) e r p =
      Gives-IsConverted dest (wrap_or_convert floats fuel dest d v t w)
        (wrap_or_convert-Gives d v dest t w r)

  -- An expression `as` a written type, over an operand whose values are computed when the program
  -- runs: if the analysis gives a value, either nothing is converted and the value has a type equal to
  -- the one written, or the value has the type written.
  pub analyze_expr_as-IsConverted :
      (dest : Ref) (e : SemaExpr F) (expectation : Option Ref) (w : World)
      → ((expect : Option Ref) (w0 : World) → Answers (λ v _. IsRuntime v) (e expect w0))
      → Answers (IsConverted dest) (sema_analyze_expr_as floats fuel (some dest) e expectation w)
  unfolding sema_analyze_expr_as same_type
  analyze_expr_as-IsConverted dest e expectation w q =
      holds_behind (Answers (IsConverted dest)) tt (λ _. tt) (node_of dest w)
        (λ d w1.
          let inside = some (expected_inside floats fuel dest d) in
          Answers-behind (λ r _. IsRuntime r.0 × (sema_value_typeof r.0 ≡ some r.1))
            (IsConverted dest) (sema_value_expr_type e inside w1) _
            (value_type-Answers e inside w1 (q inside w1))
            (λ (v, t) w2 (r, p).
              compared dest d v t w2 (sema_types_equals fuel w2.heap dest t) refl r p))
