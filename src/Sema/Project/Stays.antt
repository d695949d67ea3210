-- ===== src/Sema/Project/Stays.antt =====
-- The nodes of a module leave the project as it is, but for what an import adds.
use hoblang_old.Base.{ℕ, Bool, true, false, List, Option, none, some, if◌then◌else◌, Bytes}
use hoblang_old.Sema.Analysis.{World, Analysis}
use hoblang_old.Sema.Build.{
  Store, Run, done, crashed, spent, Build, give, give_null, go_on, kept_null, attempted, of_result,
  analysed, new_value, new_behaviour, new_tables, new_struct, ◌>>=◌,
}
use hoblang_old.Sema.Behaviours.{SemaBehaviour}
use hoblang_old.Sema.Primitives.{push_new_decl, sema_module_push_primitives}
use hoblang_old.Sema.Program.{Program}
use hoblang_old.Sema.Types.{StructMember}
use hoblang_old.Sema.Value.{SemaValue}

-- A property of the modules of a project.
module _ {F : Type 0} (S : List (Bytes × ℕ) → Type 0) where
  abbrev pub RunStays : {A : Type 0} → Run F A → Type 0
  RunStays (done o s) = S s.program.project
  RunStays crashed = Unit
  RunStays spent = Unit

  -- Where it holds, it holds behind the step.
  pub data Stays {A : Type 0} (x : Build F A) : Type 0 where
    stays : ((s : Store F) → S s.program.project → RunStays (x s)) → Stays x

  pub run :
      {A : Type 0} {x : Build F A} → Stays x → (s : Store F) → S s.program.project → RunStays (x s)
  run (stays h) = h

  pub go_on-Stays :
      {A B : Type 0} (r : Run F A) (f : A → Build F B)
      → RunStays r
      → ((a : A) → Stays (f a))
      → RunStays (go_on f r)
  go_on-Stays (done (some a) s) f h k = run (k a) s h
  go_on-Stays (done none s) f h k = h
  go_on-Stays crashed f h k = tt
  go_on-Stays spent f h k = tt

  pub bind-Stays :
      {A B : Type 0} {x : Build F A} {f : A → Build F B}
      → Stays x
      → ((a : A) → Stays (f a))
      → Stays (x >>= f)
  unfolding ◌>>=◌
  bind-Stays {x = x} {f = f} h k = stays (λ s p. go_on-Stays (x s) f (run h s p) k)

  pub attempted-Stays : {A : Type 0} {x : Build F A} → Stays x → Stays (attempted x)
  unfolding attempted
  attempted-Stays {x = x} h = stays (λ s p. kept (x s) (run h s p))
    where
      kept : {A : Type 0} (r : Run F A) → RunStays r → RunStays (kept_null r)
      kept (done o s) q = q
      kept crashed q = tt
      kept spent q = tt

  pub give-Stays : {A : Type 0} (a : A) → Stays (give a)
  unfolding give
  give-Stays a = stays (λ s p. p)

  pub give_null-Stays : {A : Type 0} → Stays (give_null {A = A})
  unfolding give_null
  give_null-Stays = stays (λ s p. p)

  pub analysed-Stays : {A : Type 0} (f : Program F → Analysis A) → Stays (analysed f)
  unfolding analysed
  analysed-Stays {A} f = stays (λ s p. kept s p (f s.program s.world))
    where
      kept :
          (s : Store F)
          → S s.program.project
          → (r : Option (Option A × World)) → RunStays (of_result s.program r)
      kept s p none = tt
      kept s p (some (o, w)) = p

  pub new_value-Stays : (v : SemaValue F) → Stays (new_value v)
  unfolding new_value
  new_value-Stays v = stays (λ s p. p)

  pub new_tables-Stays : Stays (new_tables)
  unfolding new_tables
  new_tables-Stays = stays (λ s p. p)

  pub if-Stays :
      {A : Type 0} (b : Bool) {x y : Build F A} → Stays x → Stays y → Stays (if b then x else y)
  if-Stays true h k = h
  if-Stays false h k = k

  pub new_behaviour-Stays : (b : SemaBehaviour) → Stays (new_behaviour b)
  unfolding new_behaviour
  new_behaviour-Stays b = stays (λ s p. p)

  pub new_struct-Stays : (ms : List StructMember) → Stays (new_struct ms)
  unfolding new_struct
  new_struct-Stays ms = stays (λ s p. p)

-- What is needed of the parts of which a node is made up.
pub ruleset stays_rules = (
  bind-Stays, attempted-Stays, give-Stays, give_null-Stays, analysed-Stays, new_value-Stays,
  new_tables-Stays, new_behaviour-Stays, new_struct-Stays, if-Stays,
)

module _ {F : Type 0} (S : List (Bytes × ℕ) → Type 0) (fuel : ℕ) where
  pub push_new_decl-Stays :
      (public : Bool) (name : Bytes) (v : SemaValue F) → Stays S (push_new_decl fuel public name v)
  unfolding push_new_decl
  push_new_decl-Stays public name v = search stays_rules

  pub push_primitives-Stays : Stays {F = F} S (sema_module_push_primitives fuel)
  unfolding sema_module_push_primitives
  push_primitives-Stays = search (stays_rules, push_new_decl-Stays) depth 40
