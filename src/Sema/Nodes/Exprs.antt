-- ===== src/Sema/Nodes/Exprs.antt =====
-- Expressions that add to memory: src/sema/module/parts/exprs/struct.c and anon_fun.c.
use hoblang_old.Base.{
  ℕ, false, not, ◌==◌, List, [], ◌∷◌, ◌++◌, Option, none, some, if◌then◌else◌, Bytes, get_elem?,
  suc, ltb, length,
}
use hoblang_old.Core.Slice.{slice_eq}
use hoblang_old.Parser.Syntax.{
  AstBody, AstFuncTypeInfo, func_type_info, AstFuncArgs, arg_then, AstExpr, AstMembers, no_members,
  member_then, undefined_then,
}
use hoblang_old.Sema.Analysis.{
  Analysis, answer, abort, refuse, or_abort, node_of, new_type, same_type,
}
use hoblang_old.Sema.Build.{Build, done, give, give_null, analysed, attempted, ◌>>=◌}
use hoblang_old.Sema.Scopes.{
  sema_module_push_scope, sema_module_pop_scope, sema_module_push_scope_decl,
}
use hoblang_old.Sema.State.{sema_ss_new}
use hoblang_old.Sema.Types.{Ref, SemaType, function, StructMember, structure, struct_at}
use hoblang_old.Sema.Value.{
  const_type, const_struct, value_const, SemaValue, value_final, value_var,
}
use hoblang_old.Sema.Nodes.{Parts, swap_ss, scoped, reported, push_scope_decl}
use hoblang_old.Sema.Program.{SemaConstStructField}

module _ {F : Type 0} (fuel : ℕ) (parts : Parts F)
    (expr : AstExpr → Option Ref → Build F (SemaValue F)) where
  -- A member of the same name behind is reported.
  unfoldable pub report_same_behind : Bytes → AstMembers → Build F (Unit {0})
  report_same_behind name no_members = give tt
  report_same_behind name (member_then n e ms) = do
    _ ← (if slice_eq name n then reported else give tt)
    report_same_behind name ms
  report_same_behind name (undefined_then n ms) = do
    _ ← (if slice_eq name n then reported else give tt)
    report_same_behind name ms

  unfoldable pub report_duplicates : AstMembers → Build F (Unit {0})
  unfolding report_same_behind
  report_duplicates no_members = give tt
  report_duplicates (member_then n e ms) = do _ ← report_same_behind n ms; report_duplicates ms
  report_duplicates (undefined_then n ms) = do _ ← report_same_behind n ms; report_duplicates ms

  abbrev members_len : AstMembers → ℕ
  members_len no_members = 0
  members_len (member_then n e ms) = suc (members_len ms)
  members_len (undefined_then n ms) = suc (members_len ms)

  -- The member of the struct of a name, from the number `i` on.
  unfoldable pub member_named : Bytes → ℕ → List StructMember → Option (ℕ × StructMember)
  member_named name i [] = none
  member_named name i (m ∷ ms) =
      let rest = member_named name (suc i) ms in if slice_eq m.name name then some (i, m) else rest

  -- The fields of a struct as long as all are constant.
  abbrev Fields : Type 0
  Fields = Option (List (SemaConstStructField F))

  abbrev with_field : Fields → SemaConstStructField F → Fields
  with_field none f = none
  with_field (some fs) f = some (fs ++ f ∷ [])

  abbrev same_member_type : Ref → Ref → Build F (Unit {0})
  same_member_type t u = do
    same ← analysed (λ P. same_type fuel t u)
    if not same then reported else give tt

  -- The value of a member; what is no value is reported, and its type not compared.
  abbrev field_value : Fields → ℕ → StructMember → SemaValue F → Build F Fields
  field_value fields i m (value_const c) = do
    _ ← same_member_type (const_type c) m.type
    give (with_field fields (record { value = c; type = m.type; is_undefined = false; idx = i }))
  field_value fields i m (value_var t) = do _ ← same_member_type t m.type; give none
  field_value fields i m (value_final t) = do _ ← same_member_type t m.type; give none
  field_value fields i m v = do _ ← reported; give fields

  -- NULL of the expression is read.
  abbrev not_null : {A : Type 0} → Option A → Build F A
  not_null none = analysed (λ P. abort)
  not_null (some a) = give a

  abbrev struct_field : Fields → AstExpr → Option (ℕ × StructMember) → Build F Fields
  struct_field fields e none = do _ ← reported; give fields
  struct_field fields e (some (i, m)) = do
    o ← attempted (expr e (some m.type))
    v ← not_null o
    field_value fields i m v

  -- An undefined member has no value: the struct is not constant, and its name is not looked up.
  unfoldable pub struct_fields : List StructMember → Fields → AstMembers → Build F Fields
  unfolding member_named same_type
  struct_fields def fields no_members = give fields
  struct_fields def fields (undefined_then name ms) = struct_fields def none ms
  struct_fields def fields (member_then name e ms) = do
    more ← struct_field fields e (member_named name 0 def)
    struct_fields def more ms

  abbrev only_struct : SemaType → Analysis ℕ
  only_struct (structure def) = answer def
  only_struct n = refuse

  abbrev new_const_struct : List (SemaConstStructField F) → Build F ℕ
  new_const_struct fs s = done (some (length s.program.const_structs)) (record s {
    program = record s.program { const_structs = s.program.const_structs ++ fs ∷ [] };
  })

  abbrev struct_value : Ref → ℕ → Fields → Build F (SemaValue F)
  struct_value t def none = give (value_final t)
  struct_value t def (some fs) = do
    fields ← new_const_struct fs
    u ← analysed (λ P. new_type (structure def))
    give (value_const (const_struct u fields))

  -- A struct is made in its own module only.
  unfoldable pub sema_analyze_expr_struct : Ref → AstMembers → Build F (SemaValue F)
  unfolding report_duplicates struct_fields new_type
  sema_analyze_expr_struct t members = do
    n ← analysed (λ P. node_of t)
    def ← analysed (λ P. only_struct n)
    owner ← analysed (λ P. or_abort (get_elem? P.struct_modules def))
    here ← analysed (λ P. answer P.here)
    _ ← (if not (owner == here) then (do _ ← reported; give_null) else give tt)
    _ ← report_duplicates members
    ms ← analysed (λ P w. or_abort (struct_at w.heap def) w)
    _ ← (if ltb (members_len members) (length ms) then reported else give tt)
    fields ← struct_fields ms (some []) members
    struct_value t def fields

  -- The types of the arguments are those of the function type.
  unfoldable pub push_anon_args : AstFuncArgs → List Ref → Build F (Unit {0})
  unfolding sema_module_push_scope_decl
  push_anon_args (arg_then name type args) (t ∷ ts) = do
    _ ← push_scope_decl name (value_var t)
    push_anon_args args ts
  push_anon_args args ts = give tt

  abbrev signature_of : SemaType → Analysis (List Ref × Ref)
  signature_of (function args returning) = answer (args, returning)
  signature_of n = abort

  -- The scope stack of a function whose type is refused is made and left at once.
  unfoldable pub sema_analyze_expr_anon_fun : AstFuncTypeInfo → AstBody → Build F (SemaValue F)
  unfolding push_anon_args sema_module_push_scope sema_module_pop_scope
  sema_analyze_expr_anon_fun (func_type_info args returning) body = do
    t ← parts.func none args returning
    n ← analysed (λ P. node_of t)
    (ts, r) ← analysed (λ P. signature_of n)
    ss ← swap_ss (some (sema_ss_new r))
    _ ← scoped sema_module_push_scope
    _ ← push_anon_args args ts
    _ ← attempted (parts.body body)
    _ ← scoped sema_module_pop_scope
    _ ← swap_ss ss
    give (value_final t)
