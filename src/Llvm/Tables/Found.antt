-- ===== src/Llvm/Tables/Found.antt =====
-- The table that the analysis builds holds a function behind every path that the search answers with.
use mathlib.Core.Path.{subst}
use hoblang_old.Base.{
  ℕ, zero, suc, true, false, List, ◌≡◌, ◌⊎◌, inl, inr, refl, sym, ◌∙◌, Option, none, some, Bytes,
}
use hoblang_old.Core.Slice.{slice_eq, slice_eq_iff}
use hoblang_old.Llvm.Tables.{table_at, btable_walk}
use hoblang_old.Sema.Analysis.{World, Analysis, attempt}
use hoblang_old.Sema.Behaviours.{
  SemaBehaviourRule, SemaBehaviour, behaviour_decl, behaviour_list, SemaBehaviours, no_behaviours,
  behaviour_then, SemaBehaviourTable, table_decl, table_list, SemaBehaviourTables, table_then,
  TablePath, replaced, sema_behaviour_resolve,
}
use hoblang_old.Sema.Behaviours.Paths.{behaviour_at, Leads, here, deeper, behaviour_resolve-Leads}
use hoblang_old.Sema.Behaviours.Tables.{
  sema_type_behaves_as_decl, joined, listed, build_behaviour_table, type_behaves_as_list,
  sema_type_build_behaviour_table,
}
use hoblang_old.Sema.State.{SemaDecl, update}
use hoblang_old.Sema.Types.{Ref, Heap}
use hoblang_old.Sema.Value.{SemaValue}
use hoblang_old.Llvm.Tables.Functions.{
  IsFunction, Keeps, Post, Post-behind, Functions, Functions-at, unchanged, behaves_as-Post,
}

-- The walk along every path that leads to a rule ends at a function of its name.
abbrev Holds : List SemaDecl → SemaBehaviour → SemaBehaviourTable → Type 0
Holds decls b table =
    (path : TablePath) (rule : SemaBehaviourRule)
    → Leads path b rule
    → (type : Ref) (value : Option SemaDecl) (h : Heap)
    → (d : SemaDecl) × (h' : Heap) × (btable_walk type path table value h ≡ some (some d, h'))
      × IsFunction decls rule.name d

abbrev ListHolds : List SemaDecl → SemaBehaviours → SemaBehaviourTables → Type 0
ListHolds decls bs ts =
    (i : ℕ) (b : SemaBehaviour)
    → behaviour_at bs i ≡ some b
    → (table : SemaBehaviourTable) × (table_at ts i ≡ some table) × Holds decls b table

-- What holds of a table, unless an error was reported.
abbrev Built : List SemaDecl → SemaBehaviour → SemaBehaviourTable → World → Type 0
Built decls b table w = (w.sema.failed ≡ true) ⊎ Holds decls b table

abbrev ListBuilt : List SemaDecl → SemaBehaviours → Option SemaBehaviourTables → World → Type 0
ListBuilt decls bs none w = w.sema.failed ≡ true
ListBuilt decls bs (some ts) w = (w.sema.failed ≡ true) ⊎ ListHolds decls bs ts

decl-Holds :
    (decls : List SemaDecl) (t self : Ref) (rules : List SemaBehaviourRule) (ds : List SemaDecl)
    → Functions decls rules ds
    → Holds decls (behaviour_decl rules self) (table_decl (some ds) t)
unfolding btable_walk
decl-Holds decls t self rules ds f _ rule (here {i = i} e) type value h =
    let (d, g, p) = Functions-at decls rules ds i rule f e in
    (d, record h { types = update self (replaced type) h.types }, rw g refl, p)

list-Holds :
    (decls : List SemaDecl) (t : Ref) (bs : SemaBehaviours) (ts : SemaBehaviourTables)
    → ListHolds decls bs ts
    → Holds decls (behaviour_list bs) (table_list ts t)
unfolding btable_walk
list-Holds decls t bs ts l _ rule (deeper {b = b} {i = i} {path = path} at leads) type value h =
    let (table, e, holds) = l i b at in
    let (d, h', g, p) = holds path rule leads type value h in (d, h', rw e g, p)

list_then-Built :
    (decls : List SemaDecl) (b : SemaBehaviour) (bs : SemaBehaviours) (w w' : World)
    → (w.sema.failed ≡ true → w'.sema.failed ≡ true)
    → (o : Option SemaBehaviourTable) (l : Option SemaBehaviourTables)
    → ((o ≡ none) → w.sema.failed ≡ true)
    → ((table : SemaBehaviourTable) → o ≡ some table → Built decls b table w)
    → ListBuilt decls bs l w'
    → ListBuilt decls (behaviour_then b bs) (joined o l) w'
list_then-Built decls b bs w w' keep none none n h l = l
list_then-Built decls b bs w w' keep none (some ts) n h l = keep (n refl)
list_then-Built decls b bs w w' keep (some table) none n h l = l
list_then-Built decls b bs w w' keep (some table) (some ts) n h (inl f) = inl f
list_then-Built decls b bs w w' keep (some table) (some ts) n h (inr l) = elim (h table refl) [
  | inl f ↦ inl (keep f)
  | inr holds ↦ inr (both holds)
]
  where
    same : {x y : SemaBehaviour} → some x ≡ some y → x ≡ y
    same e = cc

    both : Holds decls b table → ListHolds decls (behaviour_then b bs) (table_then table ts)
    both holds zero c at = (table, refl, subst (λ x. Holds decls x table) (same at) holds)
    both holds (suc i) c at = l i c at

-- A NULL that is not returned has been reported.
abbrev Attempted : List SemaDecl → SemaBehaviour → Option SemaBehaviourTable → World → Type 0
Attempted decls b none w = w.sema.failed ≡ true
Attempted decls b (some table) w = Built decls b table w

attempt-Post :
    {A : Type 0} (decls : List SemaDecl) (w : World) (Q : A → World → Type 0)
    (R : Option A → World → Type 0)
    → ((v : World) → v.sema.failed ≡ true → R none v)
    → ((a : A) (v : World) → Q a v → R (some a) v)
    → (x : Analysis A) → Post decls w Q (x w)
    → Post decls w R (attempt x w)
attempt-Post {A} decls w Q R n s x p = of_result (x w) p
  where
    of_result :
        (r : Option (Option A × World)) → Post decls w Q r → Post decls w R (attempt (λ _. r) w)
    of_result none p = tt
    of_result (some (none, v)) p = (p.0, n v p.1)
    of_result (some (some a, v)) p = (p.0, s a v p.1)

module _ {F : Type 0} (fuel : ℕ) (values : List (SemaValue F)) (decls : List SemaDecl)
    (t : Ref) where
  mutual
    unfolding build_behaviour_table

    build-Post :
        (b : SemaBehaviour) (w : World)
        → w.sema.private_decls ≡ decls
        → Post decls w (Built decls b) (build_behaviour_table fuel values t b w)
    build-Post (behaviour_decl rules self) w e =
        Post-behind decls Reported (Built decls (behaviour_decl rules self)) w
          (attempt (sema_type_behaves_as_decl fuel values t self rules) w) _
          (attempt-Post decls w (λ ds _. Functions decls rules ds) Reported (λ v f. f) (λ a v q. q)
            (sema_type_behaves_as_decl fuel values t self rules)
            (behaves_as-Post fuel values decls t self rules w e))
          made
      where
        Reported : Option (List SemaDecl) → World → Type 0
        Reported none v = v.sema.failed ≡ true
        Reported (some ds) v = Functions decls rules ds

        made :
            (o : Option (List SemaDecl)) (v : World)
            → Keeps decls w v
            → Reported o v
            → Keeps decls v v × Built decls (behaviour_decl rules self) (table_decl o t) v
        made none v k f = (unchanged decls v k.0, inl f)
        made (some ds) v k f = (unchanged decls v k.0, inr (decl-Holds decls t self rules ds f))
    build-Post (behaviour_list bs) w e =
        Post-behind decls (ListBuilt decls bs) (Built decls (behaviour_list bs)) w
          (type_behaves_as_list fuel values t bs w) _ (list-Post bs w e) made
      where
        made :
            (o : Option SemaBehaviourTables) (v : World)
            → Keeps decls w v
            → ListBuilt decls bs o v
            → Post decls v (Built decls (behaviour_list bs)) (listed t o v)
        made none v k f = (unchanged decls v k.0, f)
        made (some ts) v k (inl f) = (unchanged decls v k.0, inl f)
        made (some ts) v k (inr l) = (unchanged decls v k.0, inr (list-Holds decls t bs ts l))

    list-Post :
        (bs : SemaBehaviours) (w : World)
        → w.sema.private_decls ≡ decls
        → Post decls w (ListBuilt decls bs) (type_behaves_as_list fuel values t bs w)
    list-Post no_behaviours w e = (unchanged decls w e, inr (λ i b at. absurd (impossible at)))
      where
        impossible : {A : Type 0} {x : A} → none ≡ some x → ⊥
        impossible h = cc
    list-Post (behaviour_then b bs) w e =
        Post-behind decls (Attempted decls b) (ListBuilt decls (behaviour_then b bs)) w
          (attempt (build_behaviour_table fuel values t b) w) _
          (attempt-Post decls w (Built decls b) (Attempted decls b) (λ v f. f) (λ a v q. q)
            (build_behaviour_table fuel values t b) (build-Post b w e))
          (λ o w1 k1 q1.
            Post-behind decls (ListBuilt decls bs) (ListBuilt decls (behaviour_then b bs)) w1
              (type_behaves_as_list fuel values t bs w1) _ (list-Post bs w1 k1.0)
              (λ l w2 k2 q2. (
                unchanged decls w2 k2.0,
                list_then-Built decls b bs w1 w2 k2.1 o l
                    (λ n. subst (λ x. Attempted decls b x w1) n q1)
                    (λ table s. subst (λ x. Attempted decls b x w1) s q1) q2,
              )))

resolve-Leads :
    (b : SemaBehaviour) (name : Bytes) (path : TablePath) (rule : SemaBehaviourRule)
    → sema_behaviour_resolve (some b) name ≡ some (path, rule)
    → (slice_eq rule.name name ≡ true) × Leads path b rule
resolve-Leads b name path rule e = elim (behaviour_resolve-Leads b name) [
  | inl (p, r, f, n, l) ↦ moved p r (sym f ∙ e) n l
  | inr (f, _) ↦ absurd (impossible (sym f ∙ e))
]
  where
    impossible : {A : Type 0} {x : A} → none ≡ some x → ⊥
    impossible h = cc

    moved :
        (p : TablePath) (r : SemaBehaviourRule)
        → ◌≡◌ {A = Option (TablePath × SemaBehaviourRule)} (some (p, r)) (some (path, rule))
        → slice_eq r.name name ≡ true
        → Leads p b r
        → (slice_eq rule.name name ≡ true) × Leads path b rule
    moved p r s n l =
        let q : ◌≡◌ {A = TablePath × SemaBehaviourRule} (p, r) (path, rule) = same s in
        (subst (λ x. slice_eq x.1.name name ≡ true) q n, subst (λ x. Leads x.0 b x.1) q l)
      where
        same : {A : Type 0} {x y : A} → some x ≡ some y → x ≡ y
        same h = cc

-- What the search for a member, the table and the generated code make of a behaviour fits together: where
-- the search for a name in a behaviour answers with a path, and the table of a type is built for that
-- behaviour with no error reported, there is a table, and the walk of the generated code along the path
-- in the table does not fail and ends at an extension function of that name, which is one of the
-- declarations of the module.
pub btable_walk-resolve :
    {F : Type 0} (fuel : ℕ) (values : List (SemaValue F)) (b : SemaBehaviour) (name : Bytes)
    (t : Ref) (w w' : World) (o : Option SemaBehaviourTable) (path : TablePath)
    (rule : SemaBehaviourRule)
    → sema_behaviour_resolve (some b) name ≡ some (path, rule)
    → sema_type_build_behaviour_table fuel values t (some b) w ≡ some (o, w')
    → w'.sema.failed ≡ false
    → (type : Ref) (value : Option SemaDecl) (h : Heap)
    → (table : SemaBehaviourTable) × (d : SemaDecl) × (h' : Heap) × (o ≡ some table)
      × (btable_walk type path table value h ≡ some (some d, h'))
      × IsFunction w.sema.private_decls name d
unfolding sema_type_build_behaviour_table
btable_walk-resolve fuel values b name t w w' o path rule r e ok type value h = ended o (
    subst (Post w.sema.private_decls w (Built w.sema.private_decls b)) e
      (build-Post fuel values w.sema.private_decls t b w refl))
  where
    not_both : w'.sema.failed ≡ true → ⊥
    not_both f = cc

    found : Bytes → SemaBehaviourTable → Type 0
    found n table =
        (d : SemaDecl) × (h' : Heap) × (btable_walk type path table value h ≡ some (some d, h'))
        × IsFunction w.sema.private_decls n d

    ended :
        (x : Option SemaBehaviourTable)
        → Post w.sema.private_decls w (Built w.sema.private_decls b) (some (x, w'))
        → (table : SemaBehaviourTable) × (d : SemaDecl) × (h' : Heap) × (x ≡ some table)
          × (btable_walk type path table value h ≡ some (some d, h'))
          × IsFunction w.sema.private_decls name d
    ended none p = absurd (not_both p.1)
    ended (some table) (k, inl f) = absurd (not_both f)
    ended (some table) (k, inr holds) =
        let (n, l) = resolve-Leads b name path rule r in
        let (d, h', g, p) =
          subst (λ x. found x table) ((slice_eq_iff rule.name name).0 n)
            (holds path rule l type value h) in
        (table, d, h', refl, g, p)
