-- ===== src/Sema/Decls.antt =====
-- The declarations of a module: the functions of src/sema/module/private.c on `private_decls` and
-- `public_decls`, and src/sema/module/decls/api.c. `none` is an equality of types that does not
-- return.
pub mod Unique
use hoblang_old.Base.{
  ℕ, Bool, true, false, not, List, [], ◌∷◌, ◌++◌, Option, none, some, ◌>>=◌, if◌then◌else◌, Bytes,
}
use hoblang_old.Core.Slice.{slice_eq}
use hoblang_old.Sema.Types.{Ref}
use hoblang_old.Sema.State.{SemaDecl, SemaModule, sema_module_fail}
use hoblang_old.Sema.Scopes.{sema_ss_resolve_decl, scopes_resolve}

abbrev pub sema_decl_new_in_type : Bytes → Option Ref → ℕ → SemaDecl
sema_decl_new_in_type name in_type value = record { name = name; in_type = in_type; value = value }

abbrev pub sema_decl_new : Bytes → ℕ → SemaDecl
sema_decl_new name value = sema_decl_new_in_type name none value

abbrev pub declare : Bool → SemaDecl → SemaModule → SemaModule
declare public d m = record m {
  private_decls = m.private_decls ++ d ∷ [];
  public_decls = if public then m.public_decls ++ d ∷ [] else m.public_decls;
}

-- An extension function.
abbrev pub is_ext : SemaDecl → Bool
is_ext d = elim d.in_type [ none ↦ false | some t ↦ true ]

-- `equals` is `sema_types_equals` on the types of the program.
module _ (equals : Ref → Ref → Option Bool) where
  -- Whether a declaration is one in the type `t`; NULL is no type.
  unfoldable pub is_in_type : Option Ref → Option Ref → Option Bool
  is_in_type (some a) (some t) = equals a t
  is_in_type none (some t) = some false
  is_in_type (some a) none = some false
  is_in_type none none = some true

  -- The loop over `private_decls`.
  unfoldable pub resolve_in_type : Option Ref → Bytes → List SemaDecl → Option (Option SemaDecl)
  unfolding is_in_type
  resolve_in_type t name [] = some none
  resolve_in_type t name (d ∷ ds) =
      let rest = resolve_in_type t name ds in
      let here = is_in_type d.in_type t >>= (λ found. if found then some (some d) else rest) in
      if slice_eq d.name name then here else rest

  abbrev pub sema_module_resolve_module_decl_in_type :
      Option Ref → Bytes → SemaModule → Option (Option SemaDecl)
  sema_module_resolve_module_decl_in_type t name m = resolve_in_type t name m.private_decls

  -- A name of the current scopes comes first, then one of the module.
  unfoldable pub sema_module_resolve_scope_decl : Bytes → SemaModule → Option (Option SemaDecl)
  unfolding resolve_in_type scopes_resolve
  sema_module_resolve_scope_decl name m =
      let in_ss = m.current_ss >>= sema_ss_resolve_decl none name in
      let of_module = sema_module_resolve_module_decl_in_type none name m in
      elim in_ss [ some d ↦ some (some d) | none ↦ of_module ]

  -- The answer is whether the declaration was accepted; a name of the same type that is there already
  -- is an error.
  unfoldable pub sema_module_push_module_decl :
      Bool → SemaDecl → SemaModule → Option (Bool × SemaModule)
  unfolding resolve_in_type
  sema_module_push_module_decl public d m = do
    found ← sema_module_resolve_module_decl_in_type d.in_type d.name m
    elim found [
      | some e ↦ some (false, sema_module_fail m)
      | none ↦ some (true, declare public d m)
    ]

  -- The loops over `from->public_decls`.
  unfoldable pub append_all : Bool → List SemaDecl → SemaModule → Option SemaModule
  unfolding sema_module_push_module_decl
  append_all public [] m = some m
  append_all public (d ∷ ds) m =
      let pushed = sema_module_push_module_decl public d m >>= (λ r. append_all public ds r.1) in
      if not (is_ext d) then pushed else append_all public ds m

  unfoldable pub append_ext_funcs : List SemaDecl → SemaModule → Option SemaModule
  unfolding sema_module_push_module_decl
  append_ext_funcs [] m = some m
  append_ext_funcs (d ∷ ds) m =
      let pushed = sema_module_push_module_decl false d m >>= (λ r. append_ext_funcs ds r.1) in
      if is_ext d then pushed else append_ext_funcs ds m

  abbrev pub sema_module_append_all_from : Bool → SemaModule → SemaModule → Option SemaModule
  sema_module_append_all_from public from m = append_all public from.public_decls m

  abbrev pub sema_module_append_ext_funcs_from : SemaModule → SemaModule → Option SemaModule
  sema_module_append_ext_funcs_from from m = append_ext_funcs from.public_decls m

-- The loop over `public_decls`.
unfoldable pub resolve_public : Bytes → List SemaDecl → Option SemaDecl
resolve_public name [] = none
resolve_public name (d ∷ ds) =
    let rest = resolve_public name ds in
    let here = if slice_eq d.name name then some d else rest in
    elim d.in_type [ none ↦ here | some t ↦ rest ]

abbrev pub sema_module_resolve_public_decl : Bytes → SemaModule → Option SemaDecl
sema_module_resolve_public_decl name m = resolve_public name m.public_decls
