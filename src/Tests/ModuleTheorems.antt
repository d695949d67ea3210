-- ===== src/Tests/ModuleTheorems.antt =====
-- The theorems on paths through modules and on imports.
use hoblang_old.Base.{
  ℕ, Bool, false, true, List, [], ◌∷◌, ◌≡◌, ◌↔◌, refl, none, some, Bytes, if◌then◌else◌,
}
use hoblang_old.Core.Slice.{same_bytes, slice_eq}
use hoblang_old.Parser.Nodes.{AstModuleNode, node_import}
use hoblang_old.Parser.Syntax.{AstPath, segment_then, no_segments, seg_ident}
use hoblang_old.Sema.Analysis.{World}
use hoblang_old.Sema.Build.{Store, give_null}
use hoblang_old.Sema.Nodes.{Parts}
use hoblang_old.Sema.Paths.Resolve.{sema_resolve_decl_path}
use hoblang_old.Sema.Types.{structure, primitive, bool}
use hoblang_old.Sema.Paths.{sema_resolve_inner_value_path, struct_segment, path_struct_member}
use hoblang_old.Sema.Paths.Members.{inner_value_path-Shown}
use hoblang_old.Sema.Paths.Shown.{Shown}
use hoblang_old.Sema.Paths.Modules.{Names, resolve_decl_path_iff}
use hoblang_old.Sema.Program.{member_id, Program}
use hoblang_old.Sema.Project.{Files, sema_project_add_module_at}
use hoblang_old.Sema.Project.Cycles.{here, Outside, Returns, IsCircle, add_module-circle}
use hoblang_old.Sema.Project.Nodes.{PartsStay}
use hoblang_old.Sema.Project.Stays.{RunStays, give_null-Stays}
use hoblang_old.Sema.State.{SemaDecl, SemaModule}
use hoblang_old.Sema.Value.{value_var, value_module, value_type}
use hoblang_old.Tests.ExprTheorems.{world}

abbrev decl_at : Bytes → ℕ → SemaDecl
decl_at b v = record { name = b; in_type = none; value = v }

abbrev module_with : List SemaDecl → SemaModule
module_with ds = record {
  public_decls = ds;
  private_decls = ds;
  current_ss = none;
  failed = false;
  bodies = [];
}

-- The module 0 is under analysis and knows the module 1 as `m`, which shows the type `t`.
abbrev two_modules : Program ℕ
two_modules = record {
  values = value_module 1 ∷ value_type 2 ∷ [];
  modules = module_with [] ∷ module_with (decl_at (b't' ∷ []) 1 ∷ []) ∷ [];
  here = 0;
  behaviours = [];
  struct_modules = [];
  const_structs = [];
  project = [];
}

abbrev here_world : World
here_world = record world { sema = module_with (decl_at (b'm' ∷ []) 0 ∷ []) }

abbrev m_t : AstPath
m_t = segment_then (seg_ident (b'm' ∷ [])) (segment_then (seg_ident (b't' ∷ [])) no_segments)

resolve_decl_path_iff_example :
    (sema_resolve_decl_path 3 two_modules m_t here_world
      ≡ some (some (some (decl_at (b't' ∷ []) 1)), here_world))
    ↔ ((here_world ≡ here_world) × Names 3 two_modules here_world 0 m_t (decl_at (b't' ∷ []) 1))
resolve_decl_path_iff_example =
    resolve_decl_path_iff 3 two_modules here_world m_t (decl_at (b't' ∷ []) 1) here_world

-- A variable of a struct of the module 1, with a private member `p` and a public member `q`.
abbrev struct_program : Program ℕ
struct_program = record two_modules { struct_modules = 1 ∷ [] }

abbrev struct_world : World
struct_world = record world {
  heap = record {
    types = structure 0 ∷ primitive bool ∷ [];
    structs =
        (record { is_public = false; name = b'p' ∷ []; type = 1 }
          ∷ record { is_public = true; name = b'q' ∷ []; type = 1 }
          ∷ [])
        ∷ [];
  };
}

inner_value_path-Shown_example : Shown struct_program struct_world (b'q' ∷ []) 0 1
unfolding sema_resolve_inner_value_path struct_segment member_id slice_eq same_bytes
inner_value_path-Shown_example =
    inner_value_path-Shown 3 struct_program struct_world (b'q' ∷ []) 1 (value_var 0) (value_var 1)
      (record { value = value_var 0; type = path_struct_member 1 0 }) struct_world 1 0 refl refl

-- The file `a`, which imports itself.
abbrev is_a : Bytes → Bool
is_a path = slice_eq path (b'a' ∷ [])

abbrev importing_a : List AstModuleNode
importing_a = record { is_public = false; decl = node_import (b'a' ∷ []) (b'x' ∷ []) } ∷ []

abbrev files : Files
files = record {
  Directory = Unit {0};
  realpath = λ dir path. some path;
  enter = λ dir path. dir;
  parse = λ path. if is_a path then some importing_a else none;
}

abbrev no_parts : Parts ℕ
no_parts = record {
  ast_type = λ t. give_null;
  val_decl = λ d. give_null;
  resolve = λ p. give_null;
  decl_path = λ p. give_null;
  func = λ e args t. give_null;
  body = λ b. give_null;
}

no_parts-PartsStay : PartsStay (Outside is_a) no_parts
no_parts-PartsStay = record {
  ast_type = λ t. give_null-Stays (Outside is_a);
  val_decl = λ d. give_null-Stays (Outside is_a);
  resolve = λ p. give_null-Stays (Outside is_a);
  decl_path = λ p. give_null-Stays (Outside is_a);
  func = λ e args t. give_null-Stays (Outside is_a);
  body = λ b. give_null-Stays (Outside is_a);
}

files-IsCircle : IsCircle is_a files
unfolding slice_eq
files-IsCircle dir path full p e =
    (importing_a, b'a' ∷ [], b'a' ∷ [], rw e refl, here refl, refl, refl)

abbrev start : Store ℕ
start = record { program = two_modules; world = world }

add_module-circle_example :
    RunStays (Outside is_a) (sema_project_add_module_at files 3 no_parts 5 tt (b'a' ∷ []) start)
    × ((full : Bytes)
        → some (b'a' ∷ []) ≡ some full
        → is_a full ≡ true
        → ¬ Returns (sema_project_add_module_at files 3 no_parts 5 tt (b'a' ∷ []) start))
add_module-circle_example =
    add_module-circle is_a files 3 no_parts no_parts-PartsStay files-IsCircle 5 tt (b'a' ∷ []) start
      tt
