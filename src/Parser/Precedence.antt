-- ===== src/Parser/Precedence.antt =====
-- The trees that `expr_push_down` builds, beside those that the priorities ask for.
use mathlib.Core.List.{append_assoc}
use hoblang_old.Base.{
  ℕ, ◌<◌, ◌≤◌, true, false, List, [], ◌∷◌, ◌++◌, ◌≡◌, refl, ap, ◌∙◌, sym, arith, ltb, ltb→lt, ◌⊎◌,
  if◌then◌else◌, Bool-cases, inl, inr,
}
use hoblang_old.Parser.Binop.{AstBinopType, priority, binop_mod, binop_eq}
use hoblang_old.Parser.PushDown.{push_down_node, expr_push_down, expr_make_binop, parse_operators}
use hoblang_old.Parser.Syntax.{AstExpr, operand, binop}

-- The reference: read from left to right, an operator goes below the operators at the right edge
-- that bind looser than itself, and takes what stands there for its left side.
unfoldable pub insert_right : AstExpr → AstBinopType → AstExpr → AstExpr
insert_right (operand a) op next = binop false op (operand a) next
insert_right (binop true c l r) op next = binop false op (binop true c l r) next
insert_right (binop false c l r) op next =
    let deeper = insert_right r op next in
    if ltb (priority c) (priority op)
    then binop false c l deeper
    else binop false op (binop false c l r) next

unfoldable pub read_operators : AstExpr → List (AstBinopType × AstExpr) → AstExpr
read_operators tree [] = tree
read_operators tree ((op, next) ∷ more) = read_operators (insert_right tree op next) more

-- An operand of the chain: no operator, or one in parentheses.
abbrev pub IsOperand : AstExpr → Type 0
IsOperand (operand a) = Unit {0}
IsOperand (binop scoped op l r) = scoped ≡ true

abbrev pub AllOperands : List (AstBinopType × AstExpr) → Type 0
AllOperands [] = Unit {0}
AllOperands ((op, e) ∷ more) = IsOperand e × AllOperands more

push_down_node-insert_right :
    (t : AstExpr) (op op2 : AstBinopType) (left next : AstExpr)
    → push_down_node false op left (insert_right t op2 next)
      ≡ insert_right (push_down_node false op left t) op2 next
unfolding push_down_node insert_right
push_down_node-insert_right (operand a) op op2 left next = ground arith
push_down_node-insert_right (binop true c x y) op op2 left next = ground arith
push_down_node-insert_right (binop false c x y) op op2 left next = ground arith

push_down_node-operand :
    (e left : AstExpr) (op : AstBinopType)
    → IsOperand e
    → push_down_node false op left e ≡ binop false op left e
unfolding push_down_node
push_down_node-operand (operand a) left op h = refl
push_down_node-operand (binop true c x y) left op h = refl
push_down_node-operand (binop false c x y) left op h = cc

insert_right-operand :
    (e next : AstExpr) (op : AstBinopType)
    → IsOperand e
    → insert_right e op next ≡ binop false op e next
unfolding insert_right
insert_right-operand (operand a) next op h = refl
insert_right-operand (binop true c x y) next op h = refl
insert_right-operand (binop false c x y) next op h = cc

push_down_node-read_operators :
    (more : List (AstBinopType × AstExpr)) (t left : AstExpr) (op : AstBinopType)
    → push_down_node false op left (read_operators t more)
      ≡ read_operators (push_down_node false op left t) more
unfolding read_operators
push_down_node-read_operators [] t left op = refl
push_down_node-read_operators ((op2, next) ∷ more) t left op =
    push_down_node-read_operators more (insert_right t op2 next) left op
    ∙ ap (λ s. read_operators s more) (push_down_node-insert_right t op op2 left next)

-- Pushing down from the right gives the tree of reading from the left: for every chain of operands
-- and operators, parentheses included, the parser's tree is that of precedence, left associative.
pub parse_operators-read_operators :
    (first : AstExpr) (more : List (AstBinopType × AstExpr))
    → IsOperand first
    → AllOperands more
    → parse_operators first more ≡ read_operators first more
unfolding parse_operators read_operators expr_make_binop expr_push_down
parse_operators-read_operators first [] h a = refl
parse_operators-read_operators first ((op, next) ∷ more) h (n, a) =
    ap (λ t. push_down_node false op first t) (parse_operators-read_operators next more n a)
    ∙ push_down_node-read_operators more next first op
    ∙ ap (λ t. read_operators t more)
        (push_down_node-operand next first op n ∙ sym (insert_right-operand first next op h))

-- What stands at the root binds at least as tight as `p`, or tighter.
abbrev LeftFits : ℕ → AstExpr → Type 0
LeftFits p (binop false op l r) = p ≤ priority op
LeftFits p _ = Unit {0}

abbrev RightFits : ℕ → AstExpr → Type 0
RightFits p (binop false op l r) = p < priority op
RightFits p _ = Unit {0}

-- Each operator outside parentheses has only tighter operators on its right, and none looser on
-- its left.
abbrev pub IsOrdered : AstExpr → Type 0
IsOrdered (operand a) = Unit {0}
IsOrdered (binop true op l r) = Unit {0}
IsOrdered (binop false op l r) =
    LeftFits (priority op) l × RightFits (priority op) r × IsOrdered l × IsOrdered r

push_down_node-LeftFits :
    (t left : AstExpr) (op : AstBinopType) (p : ℕ)
    → p ≤ priority op
    → LeftFits p t
    → LeftFits p (push_down_node false op left t)
unfolding push_down_node
push_down_node-LeftFits (operand a) left op p h f = h
push_down_node-LeftFits (binop true c x y) left op p h f = h
push_down_node-LeftFits (binop false c x y) left op p h f = ground arith

operand-LeftFits : (e : AstExpr) (p : ℕ) → IsOperand e → LeftFits p e
operand-LeftFits (operand a) p h = tt
operand-LeftFits (binop true op l r) p h = tt
operand-LeftFits (binop false op l r) p h = cc

operand-IsOrdered : (e : AstExpr) → IsOperand e → IsOrdered e
operand-IsOrdered (operand a) h = tt
operand-IsOrdered (binop true op l r) h = tt
operand-IsOrdered (binop false op l r) h = cc

-- Pushing a node down keeps the order of the tree that it goes into.
push_down_node-IsOrdered :
    (t left : AstExpr) (op : AstBinopType)
    → IsOperand left
    → IsOrdered t
    → IsOrdered (push_down_node false op left t)
unfolding push_down_node
push_down_node-IsOrdered (operand a) left op h o =
    (operand-LeftFits left (priority op) h, tt, operand-IsOrdered left h, tt)
push_down_node-IsOrdered (binop true c x y) left op h o =
    (operand-LeftFits left (priority op) h, tt, operand-IsOrdered left h, tt)
push_down_node-IsOrdered (binop false c x y) left op h (fx, fy, ox, oy) =
    elim (Bool-cases (ltb (priority op) (priority c))) [
      | inl tighter ↦ rw tighter (
        operand-LeftFits left (priority op) h,
        ltb→lt _ _ tighter,
        operand-IsOrdered left h,
        (fx, fy, ox, oy),
      )
      | inr looser ↦ rw looser (
        push_down_node-LeftFits x left op (priority c) (ground arith) fx,
        fy,
        push_down_node-IsOrdered x left op h ox,
        oy,
      )
    ]

-- The tree of any chain of operands and operators is ordered by priority: outside parentheses, no
-- operator has one of its own or a looser priority at the root of its right side, nor a looser one
-- at the root of its left side.
pub parse_operators-IsOrdered :
    (first : AstExpr) (more : List (AstBinopType × AstExpr))
    → IsOperand first
    → AllOperands more
    → IsOrdered (parse_operators first more)
unfolding parse_operators expr_make_binop expr_push_down
parse_operators-IsOrdered first [] h a = operand-IsOrdered first h
parse_operators-IsOrdered first ((op, next) ∷ more) h (n, a) =
    push_down_node-IsOrdered (parse_operators next more) first op h
      (parse_operators-IsOrdered next more n a)

-- The operands and operators of a tree from left to right, what stands in parentheses as one operand.
abbrev pub items : AstExpr → List (AstBinopType ⊎ AstExpr)
items (operand a) = inr (operand a) ∷ []
items (binop true op l r) = inr (binop true op l r) ∷ []
items (binop false op l r) = items l ++ (inl op ∷ items r)

abbrev pub chain_items : List (AstBinopType × AstExpr) → List (AstBinopType ⊎ AstExpr)
chain_items [] = []
chain_items ((op, e) ∷ more) = inl op ∷ inr e ∷ chain_items more

push_down_node-items :
    (t left : AstExpr) (op : AstBinopType)
    → items (push_down_node false op left t) ≡ items left ++ (inl op ∷ items t)
unfolding push_down_node
push_down_node-items (operand a) left op = refl
push_down_node-items (binop true c x y) left op = refl
push_down_node-items (binop false c x y) left op =
    elim (Bool-cases (ltb (priority op) (priority c))) [
      | inl tighter ↦ rw tighter
      | inr looser ↦
          rw (looser, push_down_node-items x left op)
            (append_assoc (items left) (inl op ∷ items x) (inl c ∷ items y))
    ]

operand-items : (e : AstExpr) → IsOperand e → items e ≡ inr e ∷ []
operand-items (operand a) h = refl
operand-items (binop true op l r) h = refl
operand-items (binop false op l r) h = cc

-- No operand and no operator is lost, added or moved.
pub parse_operators-items :
    (first : AstExpr) (more : List (AstBinopType × AstExpr))
    → IsOperand first
    → AllOperands more
    → items (parse_operators first more) ≡ inr first ∷ chain_items more
unfolding parse_operators expr_make_binop expr_push_down
parse_operators-items first [] h a = operand-items first h
parse_operators-items first ((op, next) ∷ more) h (n, a) =
    push_down_node-items (parse_operators next more) first op
    ∙ rw (operand-items first h, parse_operators-items next more n a)

-- The remainder operator has the priority of the comparisons: behind any operator but `&&` and `||`
-- it takes all that stands before it, the left side of a sum too, for its left side.
pub parse_operators-mod :
    (a b c : AstExpr) (op : AstBinopType)
    → IsOperand a
    → IsOperand b
    → IsOperand c
    → priority binop_eq ≤ priority op
    → parse_operators a ((op, b) ∷ (binop_mod, c) ∷ [])
      ≡ binop false binop_mod (binop false op a b) c
unfolding parse_operators expr_make_binop expr_push_down push_down_node priority
parse_operators-mod a b c op x y z h =
    rw (push_down_node-operand c b binop_mod z)
      (unfold priority in ground (arith, push_down_node-operand b a op y))
