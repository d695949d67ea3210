-- ===== src/Sema/Decls/Unique.antt =====
-- The names of the declarations of a module.
use mathlib.Core.Bool.{true≢false}
use mathlib.Core.Path.{subst}
use hoblang_old.Base.{
  Bool, true, false, List, [], ◌∷◌, ◌++◌, ◌≡◌, refl, sym, ◌∙◌, Option, none, some, ◌>>=◌,
  if◌then◌else◌, Bytes, arith, Bool-cases, inl, inr,
}
use hoblang_old.Core.Slice.{slice_eq, slice_eq_iff}
use hoblang_old.Sema.Types.{Ref}
use hoblang_old.Sema.State.{SemaDecl, SemaModule, sema_module_fail}
use hoblang_old.Sema.Decls.{
  is_in_type, declare, resolve_in_type, sema_module_resolve_module_decl_in_type,
  sema_module_push_module_decl, is_ext, append_all,
}

abbrev pub is_new : Option SemaDecl → Bool
is_new none = true
is_new (some x) = false

abbrev pub or_new : SemaDecl → Option SemaDecl → SemaDecl
or_new d none = d
or_new d (some x) = x

module _ (equals : Ref → Ref → Option Bool) where
  resolve_in_type-append :
      (t : Option Ref) (n : Bytes) (ds : List SemaDecl) (d : SemaDecl)
      → resolve_in_type equals t n ds ≡ some none
      → resolve_in_type equals t n (ds ++ d ∷ []) ≡ resolve_in_type equals t n (d ∷ [])
  unfolding resolve_in_type
  resolve_in_type-append t n [] d e = refl
  resolve_in_type-append t n (c ∷ ds) d e = ground (arith, resolve_in_type-append t n ds d)

  -- What a name means does not change when a declaration follows.
  pub resolve_in_type-before :
      (t : Option Ref) (n : Bytes) (ds : List SemaDecl) (d x : SemaDecl)
      → resolve_in_type equals t n ds ≡ some (some x)
      → resolve_in_type equals t n (ds ++ d ∷ []) ≡ some (some x)
  unfolding resolve_in_type
  resolve_in_type-before t n [] d x e = ground arith
  resolve_in_type-before t n (c ∷ ds) d x e = ground (arith, resolve_in_type-before t n ds d x)

  -- Each declaration was new where it was added: its type and name found nothing before it.
  pub data IsUnique : List SemaDecl → Type 0 where
    none_yet : IsUnique []
    added :
        {ds : List SemaDecl} (d : SemaDecl)
        → resolve_in_type equals d.in_type d.name ds ≡ some none
        → IsUnique ds
        → IsUnique (ds ++ d ∷ [])

  -- What a push leaves of the names: those found before are found as before.
  abbrev pub Keeps : SemaModule → SemaModule → Type 0
  Keeps m m' =
      (t : Option Ref) (n : Bytes) (x : SemaDecl)
      → sema_module_resolve_module_decl_in_type equals t n m ≡ some (some x)
      → sema_module_resolve_module_decl_in_type equals t n m' ≡ some (some x)

  pub declare-Keeps : (public : Bool) (d : SemaDecl) (m : SemaModule) → Keeps m (declare public d m)
  declare-Keeps public d m t n x e = resolve_in_type-before t n m.private_decls d x e

  -- A push that the equality of types lets return is refused, and then only reports, or accepted, and then declares.
  pub push_module_decl-cases :
      (public : Bool) (d : SemaDecl) (m : SemaModule) (o : Option SemaDecl)
      → sema_module_resolve_module_decl_in_type equals d.in_type d.name m ≡ some o
      → sema_module_push_module_decl equals public d m ≡ elim o [
        | some e ↦ some (false, sema_module_fail m)
        | none ↦ some (true, declare public d m)
      ]
  unfolding sema_module_push_module_decl
  push_module_decl-cases public d m o e = rw e refl

  found_alone :
      (d : SemaDecl)
      → is_in_type equals d.in_type d.in_type ≡ some true
      → resolve_in_type equals d.in_type d.name (d ∷ []) ≡ some (some d)
  unfolding resolve_in_type
  found_alone d s = rw ((slice_eq_iff d.name d.name).1 refl, s) refl

  -- A push whose search returns, returns, where the declarations are unique and the type that the
  -- new one is declared in, if any, equals itself. It keeps the declarations unique and the names
  -- found before; and the name pushed is found after it: the new declaration, or the one that was
  -- there already.
  pub push_module_decl-IsUnique :
      (public : Bool) (d : SemaDecl) (m : SemaModule) (o : Option SemaDecl)
      → is_in_type equals d.in_type d.in_type ≡ some true
      → sema_module_resolve_module_decl_in_type equals d.in_type d.name m ≡ some o
      → IsUnique m.private_decls
      → (m' : SemaModule) × (sema_module_push_module_decl equals public d m ≡ some (is_new o, m'))
        × IsUnique m'.private_decls
        × Keeps m m'
        × (sema_module_resolve_module_decl_in_type equals d.in_type d.name m'
            ≡ some (some (or_new d o)))
  push_module_decl-IsUnique public d m none s e u = (
    declare public d m,
    push_module_decl-cases public d m none e,
    added d e u,
    declare-Keeps public d m,
    resolve_in_type-append d.in_type d.name m.private_decls d e ∙ found_alone d s,
  )
  push_module_decl-IsUnique public d m (some x) s e u =
      (sema_module_fail m, push_module_decl-cases public d m (some x) e, u, (λ t n y h. h), e)

  none_answers :
      (c : SemaDecl) (t : Option Ref) (same : Bool) (rest : Option (Option SemaDecl))
      → (o : Option SemaDecl) × (rest ≡ some o)
      → (o : Option SemaDecl) × ((if same
            then (is_in_type equals t none >>= (λ found. if found then some (some c) else rest))
            else rest)
          ≡ some o)
  unfolding is_in_type
  none_answers c t false rest h = h
  none_answers c none true rest h = (some c, refl)
  none_answers c (some a) true rest h = h

  -- The search for a name that is declared in no type compares no types: it returns.
  resolve_none :
      (n : Bytes) (ds : List SemaDecl)
      → (o : Option SemaDecl) × (resolve_in_type equals none n ds ≡ some o)
  unfolding resolve_in_type
  resolve_none n [] = (none, refl)
  resolve_none n (c ∷ ds) =
      none_answers c c.in_type (slice_eq c.name n) (resolve_in_type equals none n ds)
        (resolve_none n ds)

  -- The module has a declaration of every name in the list that is declared in no type.
  abbrev pub HasNames : List SemaDecl → SemaModule → Type 0
  HasNames [] m = Unit
  HasNames (d ∷ ds) m =
      (is_ext d ≡ false
        → (x : SemaDecl) × (sema_module_resolve_module_decl_in_type equals none d.name m
            ≡ some (some x)))
      × HasNames ds m

  -- A declaration that is not an extension function.
  plain_type : (d : SemaDecl) → is_ext d ≡ false → d.in_type ≡ none
  plain_type d e = split d.in_type e
    where
      split : (t : Option Ref) → (elim t [ none ↦ false | some a ↦ true ]) ≡ false → t ≡ none
      split none e = refl
      split (some a) e = absurd (true≢false e)

  push_plain :
      (public : Bool) (d : SemaDecl) (m : SemaModule)
      → is_ext d ≡ false
      → IsUnique m.private_decls
      → (b : Bool) × (m' : SemaModule) × (sema_module_push_module_decl equals public d m
          ≡ some (b, m'))
        × IsUnique m'.private_decls
        × Keeps m m'
        × ((x : SemaDecl) × (sema_module_resolve_module_decl_in_type equals none d.name m'
              ≡ some (some x)))
  unfolding is_in_type
  push_plain public d m e u =
      let t = plain_type d e in
      let (o, p) = resolve_none d.name m.private_decls in
      let (m', q, v, k, r) = push_module_decl-IsUnique public d m o (rw t refl) (rw t p) u in
      (
        is_new o,
        m',
        q,
        v,
        k,
        (
          or_new d o,
          subst (λ y. resolve_in_type equals y d.name m'.private_decls ≡ some (some (or_new d o))) t
              r,
        ),
      )

  -- Importing all names of a module into one whose declarations are unique always returns, keeps
  -- the declarations unique and the names found before, and then every name imported that is
  -- declared in no type is found.
  pub append_all-HasNames :
      (public : Bool) (ds : List SemaDecl) (m : SemaModule)
      → IsUnique m.private_decls
      → (m' : SemaModule) × (append_all equals public ds m ≡ some m')
        × IsUnique m'.private_decls
        × Keeps m m'
        × HasNames ds m'
  unfolding append_all
  append_all-HasNames public [] m u = (m, refl, u, (λ t n x e. e), tt)
  append_all-HasNames public (d ∷ ds) m u = elim (Bool-cases (is_ext d)) [
    | inl e ↦
        let (m', p, v, k, a) = append_all-HasNames public ds m u in
        (m', rw e p, v, k, ((λ f. absurd (true≢false (sym e ∙ f))), a))
    | inr e ↦
        let (b, m1, p1, v1, k1, (x, q)) = push_plain public d m e u in
        let (m', p, v, k, a) = append_all-HasNames public ds m1 v1 in
        (m', rw (e, p1) p, v, (λ t n y h. k t n y (k1 t n y h)), ((λ _. (x, k none d.name x q)), a))
  ]
