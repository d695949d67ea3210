-- ===== src/Sema/Statements/Values.antt =====
-- Declarations of values: src/sema/module/parts/val_decl.c. A value in memory is an address, which the
-- caller gives.
use hoblang_old.Base.{ℕ, Bool, not, ◌&&◌, Option, none, some, if◌then◌else◌}
use hoblang_old.Parser.Syntax.{AstValDeclType, decl_const, decl_final, decl_var}
use hoblang_old.Sema.Analysis.{Analysis, answer, refuse, ◌>>=◌, or_abort, same_type}
use hoblang_old.Sema.Expr.{SemaExpr}
use hoblang_old.Sema.Types.{Ref}
use hoblang_old.Sema.Value.{
  SemaValue, value_final, value_var, sema_value_typeof, sema_value_is_value, sema_value_is_not_mut,
  sema_value_is_const,
}

abbrev same_as_expected : ℕ → Option Ref → Ref → Analysis (Unit {0})
same_as_expected fuel none t = answer tt
same_as_expected fuel (some u) t = do
  same ← same_type fuel t u
  if not same then refuse else answer tt

-- NULL of the type that is written is no type: the declaration goes on.
abbrev written_type : Option (Analysis Ref) → Analysis (Option Ref)
written_type none w = some (some none, w)
written_type (some a) w = elim (a w) [ none ↦ none | some r ↦ some (some r.0, r.1) ]

module _ {F : Type 0} (fuel : ℕ) (is_global : Bool) where
  -- The value of the initializer and the type of the declaration.
  abbrev initialized : Option Ref → Option (SemaExpr F) → Analysis (Option (SemaValue F) × Ref)
  initialized none none = refuse
  initialized (some t) none = answer (none, t)
  initialized expected (some e) = do
    v ← e expected
    _ ← (if not (sema_value_is_value v) then refuse else answer tt)
    _ ← (if is_global && not (sema_value_is_not_mut v) then refuse else answer tt)
    t ← or_abort (sema_value_typeof v)
    _ ← same_as_expected fuel expected t
    answer (some v, t)

  -- The value that is declared. A constant of a body has to be constant; one of the module not.
  abbrev declared : AstValDeclType → Option (SemaValue F) → Ref → Analysis (SemaValue F)
  declared decl_const none t = refuse
  declared decl_const (some v) t =
      if not is_global && not (sema_value_is_const v) then refuse else answer v
  declared decl_final v t = answer (value_final t)
  declared decl_var v t = answer (value_var t)

  unfoldable pub sema_val_decl :
      AstValDeclType → Option (Analysis Ref) → Option (SemaExpr F) → Analysis (SemaValue F)
  unfolding same_type
  sema_val_decl kind spec_type initializer = do
    expected ← written_type spec_type
    (v, t) ← initialized expected initializer
    declared kind v t
