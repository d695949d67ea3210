-- ===== src/Parser/Grammar/Whole.antt =====
-- The trees of the grammar: operands where operands should be, and no NULL.
use mathlib.Core.Path.{subst}
use hoblang_old.Base.{true, false, List, [], ◌∷◌, ◌≡◌, refl, ltb, if_intro, arith}
use hoblang_old.Lexer.Token.{Token, TokenValue}
use hoblang_old.Parser.Binop.{AstBinopType, priority}
use hoblang_old.Parser.Expr.{set_scoped, char_node, str_node, integer_node, float_node}
use hoblang_old.Parser.Grammar.{
  IsLiteral, is_true, is_false, is_char, is_str, is_integer, is_float, is_null, Term, literal, name,
  parens, chain, More, done, more, IsTerm, IsMore, term_tree, chain_tree, more_operators,
}
use hoblang_old.Parser.Precedence.{IsOperand, AllOperands, parse_operators-read_operators}
use hoblang_old.Parser.PushDown.{
  push_down_node, is_nothing, push_down_crashes, expr_push_down, expr_make_binop, parse_operators,
}
use hoblang_old.Parser.Syntax.{AstExpr, operand, binop, AstNode}

set_scoped-IsOperand : (e : AstExpr) → IsOperand (set_scoped e)
set_scoped-IsOperand (operand a) = tt
set_scoped-IsOperand (binop scoped op l r) = refl

pub term_tree-IsOperand : (t : Term) → IsOperand (term_tree t)
term_tree-IsOperand (literal t a) = tt
term_tree-IsOperand (name t) = tt
term_tree-IsOperand (parens o c e) = set_scoped-IsOperand (chain_tree c)

pub more_operators-AllOperands : (m : More) → AllOperands (more_operators m)
more_operators-AllOperands done = tt
more_operators-AllOperands (more o op t m) = (term_tree-IsOperand t, more_operators-AllOperands m)

-- What the code builds of the operands and operators is the tree.
pub parse_operators-chain_tree :
    (t : Term) (m : More)
    → parse_operators (term_tree t) (more_operators m) ≡ chain_tree (chain t m)
parse_operators-chain_tree t m =
    parse_operators-read_operators (term_tree t) (more_operators m) (term_tree-IsOperand t)
      (more_operators-AllOperands m)

-- No NULL outside parentheses.
abbrev pub IsWhole : AstExpr → Type 0
IsWhole (operand a) = is_nothing a ≡ false
IsWhole (binop true op l r) = Unit {0}
IsWhole (binop false op l r) = IsWhole l × IsWhole r

abbrev AllWhole : List (AstBinopType × AstExpr) → Type 0
AllWhole [] = Unit {0}
AllWhole ((op, e) ∷ rest) = IsWhole e × AllWhole rest

push_down_node-IsWhole :
    (t left : AstExpr) (op : AstBinopType)
    → IsWhole left
    → IsWhole t
    → IsWhole (push_down_node false op left t)
unfolding push_down_node
push_down_node-IsWhole (operand a) left op l h = (l, h)
push_down_node-IsWhole (binop true c x y) left op l h = (l, h)
push_down_node-IsWhole (binop false c x y) left op l (a, b) =
    let kept : IsWhole (binop false op left (binop false c x y)) = (l, (a, b)) in
    let deeper : IsWhole (binop false c (push_down_node false op left x) y) =
      (push_down_node-IsWhole x left op l a, b) in
    if_intro IsWhole (ltb (priority op) (priority c)) kept deeper

pub IsWhole-push_down_crashes :
    (t : AstExpr) (op : AstBinopType) → IsWhole t → push_down_crashes op t ≡ false
unfolding push_down_crashes
IsWhole-push_down_crashes (operand a) op h = h
IsWhole-push_down_crashes (binop true c x y) op h = refl
IsWhole-push_down_crashes (binop false c x y) op (a, b) =
    if_intro (λ r. r ≡ false) _ refl (IsWhole-push_down_crashes x op a)

parse_operators-IsWhole :
    (first : AstExpr) (rest : List (AstBinopType × AstExpr))
    → IsWhole first
    → AllWhole rest
    → IsWhole (parse_operators first rest)
unfolding parse_operators expr_make_binop expr_push_down
parse_operators-IsWhole first [] h a = h
parse_operators-IsWhole first ((op, e) ∷ rest) h (x, a) =
    push_down_node-IsWhole (parse_operators e rest) first op h (parse_operators-IsWhole e rest x a)

set_scoped-IsWhole : (e : AstExpr) → IsWhole e → IsWhole (set_scoped e)
set_scoped-IsWhole (operand a) h = h
set_scoped-IsWhole (binop scoped op l r) h = tt

node_there :
    (v : TokenValue)
    → (is_nothing (char_node v) ≡ false)
      × (is_nothing (str_node v) ≡ false)
      × (is_nothing (integer_node v) ≡ false)
      × (is_nothing (float_node v) ≡ false)
node_there v = ground arith

literal-there : (t : Token) (a : AstNode) → IsLiteral t a → is_nothing a ≡ false
literal-there t _ (is_true e) = refl
literal-there t _ (is_false e) = refl
literal-there t _ (is_char e) = (node_there t.value).0
literal-there t _ (is_str e) = (node_there t.value).1
literal-there t _ (is_integer e) = (node_there t.value).2
literal-there t _ (is_float e) = (node_there t.value).3
literal-there t _ (is_null e) = refl

mutual
  pub term_tree-IsWhole : (t : Term) → IsTerm t → IsWhole (term_tree t)
  term_tree-IsWhole (literal t a) h = literal-there t a h
  term_tree-IsWhole (name t) h = refl
  term_tree-IsWhole (parens o (chain t m) e) (x, y, (u, v)) =
      set_scoped-IsWhole (chain_tree (chain t m)) (
        subst IsWhole (parse_operators-chain_tree t m) (
          parse_operators-IsWhole (term_tree t) (more_operators m) (term_tree-IsWhole t u)
            (more_operators-AllWhole m v)))

  pub more_operators-AllWhole : (m : More) → IsMore m → AllWhole (more_operators m)
  more_operators-AllWhole done h = tt
  more_operators-AllWhole (more o op t m) (x, y, z) =
      (term_tree-IsWhole t y, more_operators-AllWhole m z)

-- The same of a whole chain.
pub chain-IsWhole :
    (t : Term) (m : More)
    → IsTerm t
    → IsMore m
    → IsWhole (parse_operators (term_tree t) (more_operators m))
chain-IsWhole t m u v =
    parse_operators-IsWhole (term_tree t) (more_operators m) (term_tree-IsWhole t u)
      (more_operators-AllWhole m v)
