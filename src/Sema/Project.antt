-- ===== src/Sema/Project.antt =====
-- The modules of a project: src/sema/project/api.c and src/sema/module/api.c. Files, directories and the
-- parser are given.
pub mod Stays
pub mod Nodes
pub mod Cycles
use hoblang_old.Base.{
  ℕ, zero, suc, Bool, true, false, not, ◌&&◌, List, [], ◌∷◌, ◌++◌, Option, none, some, length,
  if◌then◌else◌, Bytes, get_elem?,
}
use hoblang_old.Core.Slice.{slice_eq}
use hoblang_old.Parser.Nodes.{AstModuleNode}
use hoblang_old.Sema.Analysis.{World, answer, or_abort}
use hoblang_old.Sema.Build.{
  Build, Store, Run, done, crashed, spent, give, give_null, out_of_depth, analysed, attempted,
  ◌>>=◌,
}
use hoblang_old.Sema.Nodes.{Parts, FuncSema}
use hoblang_old.Sema.Nodes.Push.{sema_module_read_decls}
use hoblang_old.Sema.Program.{Program}
use hoblang_old.Sema.State.{SemaModule, update}

-- What the operating system and the parser answer. `realpath` is the absolute path of one seen from a
-- directory, `enter` the directory after `chdir` to that of the path, and `parse` NULL where the file is
-- not read or not accepted.
pub record Files : Type 1 where
  pub Directory : Type 0
  pub realpath : Directory → Bytes → Option Bytes
  pub enter : Directory → Bytes → Directory
  pub parse : Bytes → Option (List AstModuleNode)

abbrev pub sema_module_new : SemaModule
sema_module_new = record {
  public_decls = [];
  private_decls = [];
  current_ss = none;
  failed = false;
  bodies = [];
}

-- The loop over the modules of the project.
unfoldable pub module_of_path : Bytes → List (Bytes × ℕ) → Option ℕ
module_of_path path [] = none
module_of_path path ((p, m) ∷ ms) =
    let rest = module_of_path path ms in if slice_eq path p then some m else rest

module _ {F : Type 0} where
  -- A new module, which is from now on the one under analysis; the answer is the one before.
  unfoldable pub begin_module : Build F ℕ
  begin_module s = done (some s.program.here) (record s {
    program = record s.program {
      modules = update s.program.here (λ _. s.world.sema) s.program.modules ++ sema_module_new ∷ [];
      here = length s.program.modules;
    };
    world = record s.world { sema = sema_module_new };
  })

  -- The module `back`, from the memory of modules, is again the one under analysis.
  abbrev pub resumed : ℕ → Store F → Option SemaModule → Run F ℕ
  resumed back s none = crashed
  resumed back s (some m) = done (some s.program.here) (record s {
    program = record s.program {
      modules = update s.program.here (λ _. s.world.sema) s.program.modules;
      here = back;
    };
    world = record s.world { sema = m };
  })

  unfoldable pub end_module : ℕ → Build F ℕ
  end_module back s = resumed back s (get_elem? s.program.modules back)

  unfoldable pub add_to_project : Bytes → ℕ → Build F (Unit {0})
  add_to_project path m s =
      done (some tt)
        (record s { program = record s.program { project = s.program.project ++ (path, m) ∷ [] } })

  unfoldable pub found_module : Bytes → Build F (Option ℕ)
  found_module path s = done (some (module_of_path path s.program.project)) s

  unfoldable pub failed_now : Build F Bool
  failed_now s = done (some s.world.sema.failed) s

  -- The state begins with a module that is none of the project, where all imports start.
  module _ (files : Files) (fuel : ℕ) (parts : Parts F) where
    open files use {Directory, realpath, enter, parse}

    -- The reading of a module that is not there yet.
    abbrev pub read_module : (Bytes → Build F ℕ) → Bytes → List AstModuleNode → Build F ℕ
    read_module import path nodes = do
      back ← begin_module
      _ ← sema_module_read_decls fuel parts import nodes
      failed ← failed_now
      m ← end_module back
      if failed then give_null else (do _ ← add_to_project path m; give m)

    abbrev pub or_read :
        (Bytes → Build F ℕ) → Bytes → Option (List AstModuleNode) → Option ℕ → Build F ℕ
    or_read import path parsed (some m) = give m
    or_read import path none none = give_null
    or_read import path (some nodes) none = read_module import path nodes

    abbrev pub at_full_path : (Bytes → Build F ℕ) → Option Bytes → Build F ℕ
    at_full_path import none = give_null
    at_full_path import (some full) = do
      found ← found_module full
      or_read import full (parse full) found

    -- The number bounds the imports inside each other.
    unfoldable pub sema_project_add_module_at : ℕ → Directory → Bytes → Build F ℕ
    unfolding sema_module_read_decls module_of_path begin_module end_module add_to_project
        found_module failed_now
    sema_project_add_module_at zero dir path = out_of_depth
    sema_project_add_module_at (suc n) dir path =
        at_full_path (sema_project_add_module_at n (enter dir path)) (realpath dir path)
