-- ===== src/Sema/Primitives.antt =====
-- The names of the primitive types: sema_module_push_primitives of src/sema/module/private.c.
use hoblang_old.Base.{ℕ, Bool, false, Option, none, some, if◌then◌else◌, Bytes}
use hoblang_old.Lexer.Rules.{codes}
use hoblang_old.Sema.Analysis.{World, Analysis, the_world}
use hoblang_old.Sema.Build.{Build, give, analysed, new_value, ◌>>=◌}
use hoblang_old.Sema.Decls.{sema_decl_new, sema_module_push_module_decl}
use hoblang_old.Sema.State.{SemaDecl, SemaModule}
use hoblang_old.Sema.Types.{
  int8, int16, int32, int64, uint8, uint16, uint32, uint64, float32, float64, SemaPrimitive, int,
  bool, float, void, Ref,
}
use hoblang_old.Sema.Types.Equals.{sema_types_equals}
use hoblang_old.Sema.Value.{SemaValue, value_type, has_bit, sema_type_primitive, sema_arch_usize}

abbrev accepted : World → Option (Bool × SemaModule) → Option (Option Bool × World)
accepted w none = none
accepted w (some (ok, m)) = some (some ok, record w { sema = m })

-- A declaration of the module, whose NULL is not read.
unfoldable pub push_module_decl : ℕ → Bool → SemaDecl → Analysis Bool
unfolding sema_module_push_module_decl sema_types_equals
push_module_decl fuel public d w =
    accepted w (sema_module_push_module_decl (sema_types_equals fuel w.heap) public d w.sema)

module _ {F : Type 0} (fuel : ℕ) where
  -- A declaration with a new value.
  unfoldable pub push_new_decl : Bool → Bytes → SemaValue F → Build F Bool
  unfolding push_module_decl
  push_new_decl public name v = do
    value ← new_value v
    analysed (λ P. push_module_decl fuel public (sema_decl_new name value))

  -- The macros PP and PD.
  abbrev pub push_type : Bytes → Ref → Build F Bool
  push_type name t = push_new_decl false name (value_type t)

  abbrev pub push_primitive : Bytes → SemaPrimitive → Build F Bool
  push_primitive name p = push_type name (sema_type_primitive p)

  -- The macros ADIPP and ADFPP.
  abbrev pub push_if : Bool → Bytes → SemaPrimitive → Build F Bool
  push_if supported name p = if supported then push_primitive name p else give false

  unfoldable pub sema_module_push_primitives : Build F Bool
  unfolding push_new_decl
  sema_module_push_primitives = do
    w ← analysed (λ P. the_world)
    _ ← push_primitive (codes "u8") (int uint8)
    _ ← push_if (has_bit w.arch.ints 1) (codes "i8") (int int8)
    _ ← push_if (has_bit w.arch.ints 2) (codes "i16") (int int16)
    _ ← push_if (has_bit w.arch.ints 2) (codes "u16") (int uint16)
    _ ← push_if (has_bit w.arch.ints 4) (codes "i32") (int int32)
    _ ← push_if (has_bit w.arch.ints 4) (codes "u32") (int uint32)
    _ ← push_if (has_bit w.arch.ints 8) (codes "i64") (int int64)
    _ ← push_if (has_bit w.arch.ints 8) (codes "u64") (int uint64)
    _ ← push_if (has_bit w.arch.floats 1) (codes "f32") (float float32)
    _ ← push_if (has_bit w.arch.floats 2) (codes "f64") (float float64)
    _ ← push_primitive (codes "bool") bool
    _ ← push_primitive (codes "void") void
    push_type (codes "usize") (sema_arch_usize w.arch)
