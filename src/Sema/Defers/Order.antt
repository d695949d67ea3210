-- ===== src/Sema/Defers/Order.antt =====
-- The defers that leaving a body runs.
use hoblang_old.Base.{
  ℕ, zero, suc, ◌≤◌, false, List, [], ◌∷◌, ◌++◌, ◌≡◌, refl, ap, ◌∙◌, Option, none, some, ◌==◌,
  if◌then◌else◌, reverse, reverse_aux, get_elem?, length, arith, Bool-cases, inl, inr,
}
use hoblang_old.Sema.State.{AstBody, SemaModule, SemaScopeStack, update}
use hoblang_old.Sema.Scopes.{
  sema_module_current_body, sema_module_push_body_scope, sema_ss_current_body,
  sema_ss_push_body_scope,
}
use hoblang_old.Sema.Defers.{
  sema_module_push_defer, is_last, defers_from, sema_module_defers_up_to, add_defer,
}

-- The bodies around a place, the innermost first.
pub data Chain (bodies : List AstBody) : Option ℕ → List ℕ → Type 0 where
  outermost : Chain bodies none []
  inside :
      {bs : List ℕ} (b : ℕ) (x : AstBody)
      → get_elem? bodies b ≡ some x
      → Chain bodies x.parent bs
      → Chain bodies (some b) (b ∷ bs)

abbrev pub defers_in : Option AstBody → List ℕ
defers_in none = []
defers_in (some x) = x.defers

abbrev pub defers_of : List AstBody → ℕ → List ℕ
defers_of bodies b = defers_in (get_elem? bodies b)

-- What leaving the bodies runs, up to the body `to` and with it.
abbrev pub unwound : List AstBody → Option ℕ → List ℕ → List ℕ
unwound bodies to [] = []
unwound bodies to (b ∷ bs) =
    reverse (defers_of bodies b) ++ (if is_last to b then [] else unwound bodies to bs)

-- From a body with finitely many bodies around it, the defers of these bodies are collected from
-- the inside out, up to the body `to` and with it, in each body the last pushed first; fuel for
-- the number of bodies is enough.
pub defers_from-unwound :
    (bodies : List AstBody) (to start : Option ℕ) (bs : List ℕ) (fuel : ℕ)
    → Chain bodies start bs
    → length bs ≤ fuel
    → defers_from fuel bodies to start ≡ some (unwound bodies to bs)
unfolding defers_from
defers_from-unwound bodies to _ _ fuel outermost l = refl
defers_from-unwound bodies to _ _ zero (inside b x e c) l = absurd (omega (arith, l))
defers_from-unwound bodies to _ _ (suc fuel) (inside {bs} b x e c) l =
    elim (Bool-cases (is_last to b)) [
      | inl h ↦ rw (e, h) refl
      | inr h ↦ rw (e, h, defers_from-unwound bodies to x.parent bs fuel c (omega (arith, l))) refl
    ]

get_elem?-update :
    {A : Type 0} (i : ℕ) (f : A → A) (xs : List A) (x : A)
    → get_elem? xs i ≡ some x
    → get_elem? (update i f xs) i ≡ some (f x)
get_elem?-update i f [] x e = ground (arith, e)
get_elem?-update zero f (y ∷ xs) x e = ground (arith, e)
get_elem?-update (suc i) f (y ∷ xs) x e = get_elem?-update i f xs x e

get_elem?-update_other :
    {A : Type 0} (i j : ℕ) (f : A → A) (xs : List A)
    → (j == i) ≡ false
    → get_elem? (update i f xs) j ≡ get_elem? xs j
get_elem?-update_other i j f [] e = refl
get_elem?-update_other zero zero f (y ∷ xs) e = ground (arith, e)
get_elem?-update_other zero (suc j) f (y ∷ xs) e = refl
get_elem?-update_other (suc i) zero f (y ∷ xs) e = refl
get_elem?-update_other (suc i) (suc j) f (y ∷ xs) e =
    get_elem?-update_other i j f xs (ground (arith, e))

-- The body is none of those.
abbrev pub IsOutside : ℕ → List ℕ → Type 0
IsOutside b [] = Unit
IsOutside b (c ∷ cs) = ((c == b) ≡ false) × IsOutside b cs

Chain-update :
    (bodies : List AstBody) (b : ℕ) (f : AstBody → AstBody) (start : Option ℕ) (bs : List ℕ)
    → IsOutside b bs
    → Chain bodies start bs
    → Chain (update b f bodies) start bs
Chain-update bodies b f _ _ o outermost = outermost
Chain-update bodies b f _ _ o (inside {bs} c x e h) =
    inside c x (get_elem?-update_other b c f bodies o.0 ∙ e)
      (Chain-update bodies b f x.parent bs o.1 h)

unwound-update :
    (bodies : List AstBody) (b : ℕ) (f : AstBody → AstBody) (to : Option ℕ) (bs : List ℕ)
    → IsOutside b bs
    → unwound (update b f bodies) to bs ≡ unwound bodies to bs
unwound-update bodies b f to [] o = refl
unwound-update bodies b f to (c ∷ bs) (o, os) =
    rw (get_elem?-update_other b c f bodies o, unwound-update bodies b f to bs os) refl

reverse_aux-last :
    (xs : List ℕ) (d : ℕ) (r : List ℕ) → reverse_aux (xs ++ d ∷ []) r ≡ d ∷ reverse_aux xs r
reverse_aux-last [] d r = refl
reverse_aux-last (x ∷ xs) d r = reverse_aux-last xs d (x ∷ r)

unwound-add_defer :
    (bodies : List AstBody) (b d : ℕ) (x : AstBody) (bs : List ℕ) (to : Option ℕ)
    → get_elem? bodies b ≡ some x
    → IsOutside b bs
    → unwound (update b (add_defer d) bodies) to (b ∷ bs) ≡ d ∷ unwound bodies to (b ∷ bs)
unwound-add_defer bodies b d x bs to p o =
    rw
      (
        get_elem?-update b (add_defer d) bodies x p,
        unwound-update bodies b (add_defer d) to bs o,
        p,
        reverse_aux-last x.defers d [],
      )
      refl

-- A defer that is pushed is the first that leaving the body runs, before all that would have run
-- without it, where the bodies around the current one form a chain that does not come back to it
-- and there is fuel for their number.
pub push_defer-unwound :
    (d : ℕ) (m : SemaModule) (b : ℕ) (x : AstBody) (bs : List ℕ) (to : Option ℕ) (fuel : ℕ)
    → sema_module_current_body m ≡ some b
    → get_elem? m.bodies b ≡ some x
    → Chain m.bodies x.parent bs
    → IsOutside b bs
    → length (b ∷ bs) ≤ fuel
    → (m' : SemaModule) × (sema_module_push_defer d m ≡ some m')
      × (sema_module_defers_up_to fuel to m ≡ some (unwound m.bodies to (b ∷ bs)))
      × (sema_module_defers_up_to fuel to m' ≡ some (d ∷ unwound m.bodies to (b ∷ bs)))
unfolding sema_module_push_defer sema_module_defers_up_to
push_defer-unwound d m b x bs to fuel e p c o l =
    let bodies = update b (add_defer d) m.bodies in
    let q = get_elem?-update b (add_defer d) m.bodies x p in
    let c' : Chain bodies (some b) (b ∷ bs) =
      inside b (add_defer d x) q (Chain-update m.bodies b (add_defer d) x.parent bs o c) in
    (
      record m { bodies = bodies },
      rw e refl,
      rw e (defers_from-unwound m.bodies to (some b) (b ∷ bs) fuel (inside b x p c) l),
      rw e (
          defers_from-unwound bodies to (some b) (b ∷ bs) fuel c' l
          ∙ ap some (unwound-add_defer m.bodies b d x bs to p o)),
    )

-- Entering a body puts it in front of the bodies around the current place, where it is none of them.
push_body_scope-Chain :
    (m : SemaModule) (st : SemaScopeStack) (b : ℕ) (x : AstBody) (bs : List ℕ)
    → m.current_ss ≡ some st
    → get_elem? m.bodies b ≡ some x
    → Chain m.bodies (sema_ss_current_body st) bs
    → IsOutside b bs
    → (m' : SemaModule) × (sema_module_push_body_scope (some b) m ≡ some m')
      × (sema_module_current_body m' ≡ some b)
      × Chain m'.bodies (some b) (b ∷ bs)
unfolding sema_module_push_body_scope
push_body_scope-Chain m st b x bs e p c o =
    let current = sema_ss_current_body st in
    let f : AstBody → AstBody = λ y. record y { parent = current } in
    let q = get_elem?-update b f m.bodies x p in
    (
      record m {
        current_ss = some (sema_ss_push_body_scope (some b) st m.bodies).0;
        bodies = update b f m.bodies;
      },
      rw e refl,
      refl,
      inside b (f x) q (Chain-update m.bodies b f current bs o c),
    )
