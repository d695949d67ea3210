-- ===== src/Sema/Expr/Binop/Typed.antt =====
-- The type of what a binary operator gives.
use mathlib.Core.Path.{subst}
use hoblang_old.Base.{
  ◌∙◌, ap, sym, ℕ, Bool, true, false, not, ◌&&◌, ◌≡◌, refl, Option, none, some, if◌then◌else◌,
}
use hoblang_old.Parser.Binop.{
  AstBinopType, binop_and, binop_mod, binop_add, binop_sub, binop_mul, binop_div, binop_eq,
  binop_neq, binop_gt, binop_ge, binop_lt, binop_le, binop_or, binop_bitand, binop_bitor, binop_shr,
  binop_shl, binop_xor,
}
use hoblang_old.Sema.Analysis.{
  World, Analysis, ◌>>=◌, answer, node_of, same_type, or_abort, continue_with, refuse,
}
use hoblang_old.Sema.Expr.{SemaExpr, sema_value_expr_type}
use hoblang_old.Sema.Expr.Answers.{IsRuntime, Answers, Answers-mono, Answers-behind, value_type-is}
use hoblang_old.Sema.Expr.Binop.{
  is_bool_binop, is_binary_binop, is_number, both_bool, eval_or_final, sema_analyze_expr_binop,
}
use hoblang_old.Sema.Types.{type_at, Ref, bool}
use hoblang_old.Sema.Types.Equals.{sema_types_equals}
use hoblang_old.Sema.Value.{
  Floats, SemaValue, value_final, value_var, sema_value_typeof, sema_type_primitive,
}
use hoblang_old.Sema.Expr.Binop.Kinds.{
  arithmetic, comparison, logical, BinopKind, kind_of, IsNumber, KeepsPrimitive, guard-Answers,
  given-Answers, true-not, IsNumber-kept, passed-IsNumber,
}

module _ {F : Type 0} (floats : Floats F) (fuel : ℕ) where
  -- For an operator of arithmetic the type of the left operand is a number type, which the value has; a
  -- comparison gives bool; and `&&` and `||` take bool and give it.
  abbrev pub KindOperated : BinopKind → Ref → Ref → SemaValue F → World → Type 0
  KindOperated arithmetic l r v w = IsNumber w.heap l × (v ≡ value_final l)
  KindOperated comparison l r v w = v ≡ value_final (sema_type_primitive bool)
  KindOperated logical l r v w =
      (sema_types_equals fuel w.heap l (sema_type_primitive bool) ≡ some true)
      × (sema_types_equals fuel w.heap r (sema_type_primitive bool) ≡ some true)
      × (v ≡ value_final (sema_type_primitive bool))

  -- The types `l` and `r` of the operands are equal, and the kind of the operator is obeyed.
  abbrev pub IsOperated : AstBinopType → Ref → Ref → SemaValue F → World → Type 0
  IsOperated op l r v w =
      (sema_types_equals fuel w.heap l r ≡ some true) × KindOperated (kind_of op) l r v w

  -- What the checks before the comparison of the types have shown.
  abbrev Checked : AstBinopType → Ref → Ref → World → Type 0
  Checked op l r w =
      (is_binary_binop op ≡ false → IsNumber w.heap l)
      × (is_bool_binop op ≡ true
          → (sema_types_equals fuel w.heap l (sema_type_primitive bool) ≡ some true)
            × (sema_types_equals fuel w.heap r (sema_type_primitive bool) ≡ some true))

  behind_checks-IsOperated :
      (op : AstBinopType) (l r : Ref) (w : World)
      → sema_types_equals fuel w.heap l r ≡ some true
      → Checked op l r w
      → IsOperated op l r
          (value_final (if is_binary_binop op then sema_type_primitive bool else l))
          w
  behind_checks-IsOperated binop_add l r w e (n, b) = (e, (n refl, refl))
  behind_checks-IsOperated binop_sub l r w e (n, b) = (e, (n refl, refl))
  behind_checks-IsOperated binop_mul l r w e (n, b) = (e, (n refl, refl))
  behind_checks-IsOperated binop_div l r w e (n, b) = (e, (n refl, refl))
  behind_checks-IsOperated binop_mod l r w e (n, b) = (e, (n refl, refl))
  behind_checks-IsOperated binop_bitand l r w e (n, b) = (e, (n refl, refl))
  behind_checks-IsOperated binop_bitor l r w e (n, b) = (e, (n refl, refl))
  behind_checks-IsOperated binop_xor l r w e (n, b) = (e, (n refl, refl))
  behind_checks-IsOperated binop_shl l r w e (n, b) = (e, (n refl, refl))
  behind_checks-IsOperated binop_shr l r w e (n, b) = (e, (n refl, refl))
  behind_checks-IsOperated binop_eq l r w e (n, b) = (e, refl)
  behind_checks-IsOperated binop_neq l r w e (n, b) = (e, refl)
  behind_checks-IsOperated binop_lt l r w e (n, b) = (e, refl)
  behind_checks-IsOperated binop_le l r w e (n, b) = (e, refl)
  behind_checks-IsOperated binop_gt l r w e (n, b) = (e, refl)
  behind_checks-IsOperated binop_ge l r w e (n, b) = (e, refl)
  behind_checks-IsOperated binop_and l r w e (n, b) = (e, ((b refl).0, (b refl).1, refl))
  behind_checks-IsOperated binop_or l r w e (n, b) = (e, ((b refl).0, (b refl).1, refl))

  compared :
      (op : AstBinopType) (lv rv : SemaValue F) (l r : Ref) (w : World) (o : Option Bool)
      → sema_types_equals fuel w.heap l r ≡ o
      → IsRuntime lv
      → Checked op l r w
      → Answers (IsOperated op l r) (
          continue_with
            (λ same w'.
              continue_with
                (λ _.
                  eval_or_final floats op lv rv
                    (if is_binary_binop op then sema_type_primitive bool else l))
                ((if not same then refuse else answer tt) w'))
            (or_abort o w))
  compared op lv rv l r w none e h c = tt
  compared op lv rv l r w (some false) e h c = tt
  compared op (value_final t) rv l r w (some true) e h c = behind_checks-IsOperated op l r w e c
  compared op (value_var t) rv l r w (some true) e h c = behind_checks-IsOperated op l r w e c
  compared op v rv l r w (some true) e h c = elim h [ ]

  both_bool-Answers :
      (l r : Ref) (w : World)
      → Answers
          (λ b w'.
            (w' ≡ w)
            × (b ≡ true
                → (sema_types_equals fuel w.heap l (sema_type_primitive bool) ≡ some true)
                  × (sema_types_equals fuel w.heap r (sema_type_primitive bool) ≡ some true)))
          (both_bool floats fuel l r w)
  unfolding both_bool same_type
  both_bool-Answers l r w =
      of_left (sema_types_equals fuel w.heap l (sema_type_primitive bool)) refl
    where
      Wanted : Bool → World → Type 0
      Wanted b w' =
          (w' ≡ w)
          × (b ≡ true
              → (sema_types_equals fuel w.heap l (sema_type_primitive bool) ≡ some true)
                × (sema_types_equals fuel w.heap r (sema_type_primitive bool) ≡ some true))

      of_right :
          (o : Option Bool)
          → sema_types_equals fuel w.heap l (sema_type_primitive bool) ≡ some true
          → sema_types_equals fuel w.heap r (sema_type_primitive bool) ≡ o
          → Answers Wanted (or_abort o w)
      of_right none e f = tt
      of_right (some b) e f = (refl, λ t. (e, f ∙ ap some t))

      of_left :
          (o : Option Bool)
          → sema_types_equals fuel w.heap l (sema_type_primitive bool) ≡ o
          → Answers Wanted (
              continue_with
                (λ left.
                  if not left then answer false else same_type fuel r (sema_type_primitive bool))
                (or_abort o w))
      of_left none e = tt
      of_left (some false) e = (refl, λ t. cc)
      of_left (some true) e =
          of_right (sema_types_equals fuel w.heap r (sema_type_primitive bool)) e refl

  -- The part of the analysis behind the right operand.
  abbrev behind_operands :
      AstBinopType → SemaValue F → SemaValue F → Ref → Ref → Analysis (SemaValue F)
  behind_operands op lv rv l r = do
    bools ← (if is_bool_binop op then both_bool floats fuel l r else answer true)
    _ ← (if not bools then refuse else answer tt)
    same ← same_type fuel l r
    _ ← (if not same then refuse else answer tt)
    eval_or_final floats op lv rv (if is_binary_binop op then sema_type_primitive bool else l)

  -- Bool is asked of both operands where the operator is `&&` or `||`.
  tested-Answers :
      (b : Bool) (l r : Ref) (w : World)
      → Answers
          (λ ok w'.
            (w' ≡ w)
            × (ok ≡ true
                → b ≡ true
                → (sema_types_equals fuel w.heap l (sema_type_primitive bool) ≡ some true)
                  × (sema_types_equals fuel w.heap r (sema_type_primitive bool) ≡ some true)))
          ((if b then both_bool floats fuel l r else answer true) w)
  tested-Answers false l r w = (refl, λ t f. cc)
  tested-Answers true l r w =
      Answers-mono _ _ (both_bool floats fuel l r w) (λ b w' (e, f). (e, λ t u. f t))
        (both_bool-Answers l r w)

  behind_operands-IsOperated :
      (op : AstBinopType) (lv rv : SemaValue F) (l r : Ref) (w : World)
      → IsRuntime lv
      → (is_binary_binop op ≡ false → IsNumber w.heap l)
      → Answers (IsOperated op l r) (behind_operands op lv rv l r w)
  unfolding same_type
  behind_operands-IsOperated op lv rv l r w h number =
      let Q = IsOperated op l r in
      Answers-behind _ Q ((if is_bool_binop op then both_bool floats fuel l r else answer true) w) _
        (tested-Answers (is_bool_binop op) l r w)
        (λ ok w1 (e1, bools).
          Answers-behind _ Q ((if not ok then refuse else answer tt) w1) _
            (guard-Answers (not ok) w1)
            (λ _ w2 (e2, g).
              compared op lv rv l r w2 (sema_types_equals fuel w2.heap l r) refl h
                (subst (Checked op l r) (sym (e2 ∙ e1)) (number, bools (true-not ok g)))))

  -- A binary operator whose left operand has the type `l` and is computed when the program runs, and
  -- whose right operand has the type `r`, and keeps `l` where that is a primitive type: if the analysis
  -- gives a value, the two types are equal. For `+ - * / %` and the operators on bits, the type `l` is
  -- an integer or floating point type, and the value is a runtime value of it; for the six comparisons
  -- it is one of type bool; for `&&` and `||` it is so too, and both types are equal to bool.
  pub analyze_expr_binop-IsOperated :
      (op : AstBinopType) (l r : Ref) (left right : SemaExpr F) (expectation : Option Ref)
      (w : World)
      → ((expect : Option Ref) (w0 : World)
          → Answers (λ v _. IsRuntime v × (sema_value_typeof v ≡ some l)) (left expect w0))
      → ((expect : Option Ref) (w0 : World)
          → Answers
              (λ v w1. KeepsPrimitive l w0 w1 × (sema_value_typeof v ≡ some r))
              (right expect w0))
      → Answers
          (IsOperated op l r)
          (sema_analyze_expr_binop floats fuel op left right expectation w)
  unfolding sema_analyze_expr_binop same_type
  analyze_expr_binop-IsOperated op l r left right expectation w p q =
      let expect =
        if is_binary_binop op
        then (if is_bool_binop op then some (sema_type_primitive bool) else none)
        else expectation in
      let Q = IsOperated op l r in
      Answers-behind (λ p _. IsRuntime p.0 × (p.1 ≡ l)) Q (sema_value_expr_type left expect w) _
        (value_type-is (λ v _. IsRuntime v) l left expect w (p expect w))
        (λ (lv, l') w1 (h, el).
          Answers-behind (λ n w'. (w' ≡ w1) × (type_at w1.heap l' ≡ some n)) Q (node_of l' w1) _
            (given-Answers (type_at w1.heap l') w1)
            (λ n w2 (e2, en).
              Answers-behind
                (λ _ w'. (w' ≡ w2) × (not (is_binary_binop op) && not (is_number floats n) ≡ false))
                Q
                ((if not (is_binary_binop op) && not (is_number floats n)
                    then refuse
                    else answer tt)
                  w2)
                _ (guard-Answers (not (is_binary_binop op) && not (is_number floats n)) w2)
                (λ _ w3 (e3, g).
                  let inside = if not (is_bool_binop op) then some l' else expect in
                  let number : is_binary_binop op ≡ false → IsNumber w3.heap l = λ b.
                    subst (λ x. IsNumber x.heap l) (sym (e3 ∙ e2))
                      (subst (IsNumber w1.heap) el
                        (passed-IsNumber floats op n w1.heap l' en g b)) in
                  Answers-behind (λ p w'. KeepsPrimitive l w3 w' × (p.1 ≡ r)) Q
                    (sema_value_expr_type right inside w3) _
                    (value_type-is (λ _. KeepsPrimitive l w3) r right inside w3 (q inside w3))
                    (λ (rv, r') w4 (k, er).
                      rw (el, er)
                        (behind_operands-IsOperated op lv rv l r w4 h
                          (λ b. IsNumber-kept l w3 w4 k (number b)))))))
