-- ===== src/Sema/Paths/Modules.antt =====
-- Paths through modules: sema_resolve_decl_path of src/sema/module/parts/path.c.
use mathlib.Core.Path.{subst}
use hoblang_old.Base.{
  ℕ, false, ◌==◌, ==_iff, ◌≡◌, ◌≢◌, ◌↔◌, inl, inr, refl, sym, ◌∙◌, ap, Option, none, some,
  Bool-cases, Bytes, get_elem?,
}
use hoblang_old.Parser.Syntax.{
  AstPath, no_segments, segment_then, AstPathSegment, seg_ident, seg_deref, seg_sizeof, seg_null,
  seg_generic,
}
use hoblang_old.Sema.Analysis.{World, Analysis, answer, continue_with, or_abort, ◌>>=◌}
use hoblang_old.Sema.Decls.{sema_module_resolve_public_decl, sema_module_resolve_scope_decl}
use hoblang_old.Sema.Paths.{or_refuse}
use hoblang_old.Sema.Paths.Resolve.{
  only_module, next_module, only_module, through, module_search, sema_resolve_inner_module_path,
  decl_path_from, sema_resolve_decl_path,
}
use hoblang_old.Sema.Program.{Program}
use hoblang_old.Sema.State.{SemaDecl, SemaModule}
use hoblang_old.Sema.Types.Equals.{sema_types_equals}
use hoblang_old.Sema.Value.{SemaValue, value_module}

-- An answer of two parts is one of the second, behind one of the first.
pub answered :
    {A B : Type 0} (x : Option (Option A × World)) (f : A → Analysis B) (b : B) (w' : World)
    → continue_with f x ≡ some (some b, w')
    → (a : A) × (v : World) × (x ≡ some (some a, v)) × (f a v ≡ some (some b, w'))
answered none f b w' e = cc
answered (some (none, v)) f b w' e = cc
answered (some (some a, v)) f b w' e = (a, v, refl, e)

pub or_abort-answered :
    {A : Type 0} (o : Option A) (a : A) (w w' : World)
    → or_abort o w ≡ some (some a, w')
    → (o ≡ some a) × (w' ≡ w)
or_abort-answered none a w w' e = cc
or_abort-answered (some x) a w w' e = (cc, cc)

module _ {F : Type 0} (fuel : ℕ) (P : Program F) (w : World) where
  -- What a module shows of a name: all it knows to the module under analysis, which it is itself, and
  -- what is public to any other.
  pub data Shows (m : ℕ) (name : Bytes) (d : SemaDecl) : Type 0 where
    own :
        P.here ≡ m
        → sema_module_resolve_scope_decl (sema_types_equals fuel w.heap) name w.sema ≡ some (some d)
        → Shows m name d
    public :
        {M : SemaModule}
        → P.here ≢ m
        → get_elem? P.modules m ≡ some M
        → sema_module_resolve_public_decl name M ≡ some d
        → Shows m name d

  -- A path names a declaration from a module: the last name is shown by the module that those before it
  -- lead to.
  pub data Names : ℕ → AstPath → SemaDecl → Type 0 where
    last :
        {m : ℕ} {name : Bytes} {d : SemaDecl} {v : SemaValue F}
        → Shows m name d
        → get_elem? P.values d.value ≡ some v
        → Names m (segment_then (seg_ident name) no_segments) d
    inside :
        {m m' : ℕ} {name : Bytes} {e d : SemaDecl} {path : AstPath}
        → Shows m name e
        → get_elem? P.values e.value ≡ some (value_module m')
        → Names m' path d
        → Names m (segment_then (seg_ident name) path) d

  module_search-Shows :
      (m : ℕ) (name : Bytes) (d : SemaDecl) (w' : World)
      → module_search fuel P m name w ≡ some (some (some d), w')
      → Shows m name d × (w' ≡ w)
  unfolding module_search
  module_search-Shows m name d w' e = elim (Bool-cases (P.here == m)) [
    | inl h ↦
        let (s, k) = or_abort-answered _ (some d) w w' (rw h at e) in
        (own ((==_iff P.here m).0 h) s, k)
    | inr h ↦ other h (answered _ _ (some d) w' (rw h at e))
  ]
    where
      other :
          (P.here == m) ≡ false
          → (M : SemaModule) × (v : World) × (or_abort (get_elem? P.modules m) w ≡ some (some M, v))
            × (answer (sema_module_resolve_public_decl name M) v ≡ some (some (some d), w'))
          → Shows m name d × (w' ≡ w)
      other h (M, v, x, y) =
          let (s, k) = or_abort-answered _ M w v x in
          (public (λ q. cc ((==_iff P.here m).1 q)) s (cc), (cc))

  Shows-module_search :
      (m : ℕ) (name : Bytes) (d : SemaDecl)
      → Shows m name d
      → module_search fuel P m name w ≡ some (some (some d), w)
  unfolding module_search
  Shows-module_search m name d (own h s) = rw ((==_iff P.here m).1 h, s) refl
  Shows-module_search m name d (public h s p) = elim (Bool-cases (P.here == m)) [
    | inl q ↦ absurd (h ((==_iff P.here m).0 q))
    | inr q ↦ rw (q, s, p) refl
  ]

  inner-Shows :
      (m : ℕ) (s : AstPathSegment) (d : SemaDecl) (w' : World)
      → sema_resolve_inner_module_path fuel P m s w ≡ some (some d, w')
      → (name : Bytes) × (s ≡ seg_ident name) × Shows m name d × (w' ≡ w)
  unfolding sema_resolve_inner_module_path
  inner-Shows m (seg_ident name) d w' e = found (answered _ _ d w' e)
    where
      found :
          (o : Option SemaDecl) × (v : World) × (module_search fuel P m name w ≡ some (some o, v))
            × (or_refuse o v ≡ some (some d, w'))
          → (n : Bytes) × (seg_ident name ≡ seg_ident n) × Shows m n d × (w' ≡ w)
      found (none, v, x, y) = cc
      found (some c, v, x, y) =
          let (s, k) = module_search-Shows m name d w' (x ∙ ap (λ r. some r) (cc)) in
          (name, refl, s, k)
  inner-Shows m seg_deref d w' e = cc
  inner-Shows m seg_sizeof d w' e = cc
  inner-Shows m seg_null d w' e = cc
  inner-Shows m (seg_generic params) d w' e = cc

  -- The declaration passed through, if any, is a module.
  IsPassed : Option SemaDecl → Type 0
  IsPassed none = Unit {0}
  IsPassed (some e) = (m : ℕ) × (get_elem? P.values e.value ≡ some (value_module m))

  only_module-IsModule :
      (v : SemaValue F) (w' : World)
      → only_module fuel P v w ≡ some (some tt, w')
      → (m : ℕ) × (v ≡ value_module m) × (w' ≡ w)
  only_module-IsModule (value_module m) w' h = (m, refl, cc)
  only_module-IsModule v w' h = absurd (apart h)
    where
      apart :
          {x y : World}
          → ◌≡◌ {A = Option (Option (Unit {0}) × World)} (some (none, x)) (some (some tt, y))
          → ⊥
      apart e = cc

  through-IsPassed :
      (o : Option SemaDecl) (w' : World)
      → through fuel P o w ≡ some (some tt, w')
      → IsPassed o × (w' ≡ w)
  unfolding IsPassed
  through-IsPassed none w' e = (tt, cc)
  through-IsPassed (some c) w' e =
      let (v, u, x, y) = answered _ _ tt w' e in
      let (s, k) = or_abort-answered (get_elem? P.values c.value) v w u x in
      let (m, r, j) = only_module-IsModule v w' (rw k at y) in ((m, s ∙ ap some r), j)

  IsPassed-through : (o : Option SemaDecl) → IsPassed o → through fuel P o w ≡ some (some tt, w)
  unfolding IsPassed
  IsPassed-through none h = refl
  IsPassed-through (some c) (m, e) = rw e refl

  -- What the loop has answered, from a declaration and a module on.
  Ended : ℕ → Option SemaDecl → AstPath → SemaDecl → Type 0
  unfolding IsPassed
  Ended m o no_segments d = o ≡ some d
  Ended m o (segment_then s path) d = IsPassed o × Names m (segment_then s path) d

  -- One more name in front.
  Ended-step :
      (m : ℕ) (name : Bytes) (e d : SemaDecl) (v : SemaValue F) (path : AstPath)
      → Shows m name e
      → get_elem? P.values e.value ≡ some v
      → Ended (next_module m v) (some e) path d
      → Names m (segment_then (seg_ident name) path) d
  unfolding Ended
  Ended-step m name e d v no_segments s g h = rw (same h) at (last s g)
    where
      same : some e ≡ some d → e ≡ d
      same h = cc
  Ended-step m name e d v (segment_then t path) s g ((m', p), n) =
      inside s p (subst (λ u. Names (next_module m u) (segment_then t path) d) (same (sym g ∙ p)) n)
    where
      same : {x y : SemaValue F} → some x ≡ some y → x ≡ y
      same h = cc

  path_from-Ended :
      (path : AstPath) (m : ℕ) (o : Option SemaDecl) (d : SemaDecl) (w' : World)
      → decl_path_from fuel P m o path w ≡ some (some (some d), w')
      → Ended m o path d × (w' ≡ w)
  unfolding decl_path_from Ended
  path_from-Ended no_segments m o d w' e = (cc, cc)
  path_from-Ended (segment_then s path) m o d w' e =
      let (_, w1, x1, e1) =
        answered (through fuel P o w) (λ _. sema_resolve_inner_module_path fuel P m s >>= goes_on)
          (some d) w' e in
      let (passed, k1) = through-IsPassed o w1 x1 in
      let (c, w2, x2, e2) =
        answered (sema_resolve_inner_module_path fuel P m s w1) goes_on (some d) w' e1 in
      let (name, n, shows, k2) = inner-Shows m s c w2 (rw k1 at x2) in
      let (v, w3, x3, e3) =
        answered (or_abort (get_elem? P.values c.value) w2)
          (λ u. decl_path_from fuel P (next_module m u) (some c) path) (some d) w' e2 in
      let (g, k3) = or_abort-answered (get_elem? P.values c.value) v w2 w3 x3 in
      let (ended, k) = path_from-Ended path (next_module m v) (some c) d w' (rw (k3 ∙ k2) at e3) in
      ((passed, rw n (Ended-step m name c d v path shows g ended)), k)
    where
      goes_on : SemaDecl → Analysis (Option SemaDecl)
      goes_on c =
          or_abort (get_elem? P.values c.value)
          >>= (λ u. decl_path_from fuel P (next_module m u) (some c) path)

  Names-path_from :
      (path : AstPath) (m : ℕ) (o : Option SemaDecl) (d : SemaDecl)
      → IsPassed o
      → Names m path d
      → decl_path_from fuel P m o path w ≡ some (some (some d), w)
  unfolding decl_path_from sema_resolve_inner_module_path IsPassed
  Names-path_from _ m o d p (last {name = name} s g) =
      rw (IsPassed-through o p, Shows-module_search m name d s, g) refl
  Names-path_from _ m o d p (inside {m' = m'} {name = name} {e = e} {path = path} s g n) =
      rw (IsPassed-through o p, Shows-module_search m name e s, g)
        (Names-path_from path m' (some e) d (m', g) n)

  unnamed : {m : ℕ} {path : AstPath} {d : SemaDecl} → Names m path d → path ≡ no_segments → ⊥
  unnamed (last s g) e = cc
  unnamed (inside s g n) e = cc

  -- A path of names resolves to a declaration exactly where each name but the last is shown as a module
  -- by the module before it, and the last name is shown as the declaration; the module under analysis
  -- stands before the first. A module shows its scopes and all its declarations to itself, and only what
  -- is public to another. Nothing is changed and no error is reported where it resolves.
  pub resolve_decl_path_iff :
      (path : AstPath) (d : SemaDecl) (w' : World)
      → (sema_resolve_decl_path fuel P path w ≡ some (some (some d), w'))
        ↔ ((w' ≡ w) × Names P.here path d)
  unfolding sema_resolve_decl_path IsPassed Ended
  resolve_decl_path_iff no_segments d w' =
      ((λ e. absurd (nothing e)), (λ (k, n). absurd (unnamed n refl)))
    where
      nothing :
          ◌≡◌ {A = Option (Option (Option SemaDecl) × World)}
            (some (some none, w))
            (some (some (some d), w'))
          → ⊥
      nothing h = cc
  resolve_decl_path_iff (segment_then s path) d w' = (
    (λ e. ended (path_from-Ended (segment_then s path) P.here none d w' e)),
    (λ (k, n). rw k (Names-path_from (segment_then s path) P.here none d tt n)),
  )
    where
      ended :
          Ended P.here none (segment_then s path) d × (w' ≡ w)
          → (w' ≡ w) × Names P.here (segment_then s path) d
      ended (h, k) = (k, h.1)
