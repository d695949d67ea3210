-- ===== src/Parser/Grammar.antt =====
-- The expressions of literals, names, binary operators and parentheses, as tokens and as trees. What
-- `_parse_expr` should make of them is said without it.
pub mod Whole
pub mod Terms
pub mod Loops
pub mod Reads
use hoblang_old.Base.{ℕ, suc, ◌+◌, Bool, true, false, List, [], ◌∷◌, ◌≡◌}
use hoblang_old.Lexer.Token.{
  Token, TokenType, token_true, token_false, token_char, token_str, token_integer, token_float,
  token_null, token_ident, token_opening_circle_brace, token_closing_circle_brace, token_bitand,
  token_minus, token_mod, token_add, token_and, token_xor, token_bitor, token_shr, token_shl,
  token_multiply, token_divide, token_equals, token_not_equals, token_less, token_less_or_equals,
  token_greater, token_greater_or_equals, token_or,
}
use hoblang_old.Parser.Binop.{
  AstBinopType, binop_bitand, binop_sub, binop_mod, binop_add, binop_and, binop_xor, binop_bitor,
  binop_shr, binop_shl, binop_mul, binop_div, binop_eq, binop_neq, binop_lt, binop_le, binop_gt,
  binop_ge, binop_or,
}
use hoblang_old.Parser.Cursor.{ident_of}
use hoblang_old.Parser.Expr.{set_scoped, char_node, str_node, integer_node, float_node}
use hoblang_old.Parser.Parts.{ParseStopFunc}
use hoblang_old.Parser.Precedence.{read_operators}
use hoblang_old.Parser.Syntax.{
  AstExpr, operand, AstNode, boolean, null_expr, get_local, segment_then, seg_ident, no_segments,
}

-- The node of a literal.
pub data IsLiteral (t : Token) : AstNode → Type 0 where
  is_true : t.type ≡ token_true → IsLiteral t (boolean true)
  is_false : t.type ≡ token_false → IsLiteral t (boolean false)
  is_char : t.type ≡ token_char → IsLiteral t (char_node t.value)
  is_str : t.type ≡ token_str → IsLiteral t (str_node t.value)
  is_integer : t.type ≡ token_integer → IsLiteral t (integer_node t.value)
  is_float : t.type ≡ token_float → IsLiteral t (float_node t.value)
  is_null : t.type ≡ token_null → IsLiteral t null_expr

pub data IsOperator : TokenType → AstBinopType → Type 0 where
  op_bitand : IsOperator token_bitand binop_bitand
  op_sub : IsOperator token_minus binop_sub
  op_mod : IsOperator token_mod binop_mod
  op_add : IsOperator token_add binop_add
  op_and : IsOperator token_and binop_and
  op_xor : IsOperator token_xor binop_xor
  op_bitor : IsOperator token_bitor binop_bitor
  op_shr : IsOperator token_shr binop_shr
  op_shl : IsOperator token_shl binop_shl
  op_mul : IsOperator token_multiply binop_mul
  op_div : IsOperator token_divide binop_div
  op_eq : IsOperator token_equals binop_eq
  op_neq : IsOperator token_not_equals binop_neq
  op_lt : IsOperator token_less binop_lt
  op_le : IsOperator token_less_or_equals binop_le
  op_gt : IsOperator token_greater binop_gt
  op_ge : IsOperator token_greater_or_equals binop_ge
  op_or : IsOperator token_or binop_or

mutual
  pub data Term : Type 0 where
    literal : Token → AstNode → Term
    name : Token → Term
    parens : Token → Chain → Token → Term

  pub data Chain : Type 0 where
    chain : Term → More → Chain

  -- Operators, each with its operand.
  pub data More : Type 0 where
    done : More
    more : Token → AstBinopType → Term → More → More

-- The tokens are of the types that the grammar wants.
abbrev mutual
  pub IsTerm : Term → Type 0
  IsTerm (literal t a) = IsLiteral t a
  IsTerm (name t) = t.type ≡ token_ident
  IsTerm (parens o c e) =
      (o.type ≡ token_opening_circle_brace) × (e.type ≡ token_closing_circle_brace) × IsChain c

  pub IsChain : Chain → Type 0
  IsChain (chain t m) = IsTerm t × IsMore m

  pub IsMore : More → Type 0
  IsMore done = Unit {0}
  IsMore (more o op t m) = IsOperator o.type op × IsTerm t × IsMore m

abbrev pub term_head : Term → Token
term_head (literal t a) = t
term_head (name t) = t
term_head (parens o c e) = o

-- The tokens in front of others; `term_rest` leaves out the first.
abbrev mutual
  pub term_rest : Term → List Token → List Token
  term_rest (literal t a) ts = ts
  term_rest (name t) ts = ts
  term_rest (parens o c e) ts = chain_tokens c (e ∷ ts)

  pub chain_tokens : Chain → List Token → List Token
  chain_tokens (chain t m) ts = term_head t ∷ term_rest t (more_tokens m ts)

  pub more_tokens : More → List Token → List Token
  more_tokens done ts = ts
  more_tokens (more o op t m) ts = o ∷ term_head t ∷ term_rest t (more_tokens m ts)

-- How many tokens there are.
abbrev mutual
  pub term_size : Term → ℕ
  term_size (literal t a) = 1
  term_size (name t) = 1
  term_size (parens o c e) = chain_size c + 2

  pub chain_size : Chain → ℕ
  chain_size (chain t m) = term_size t + more_size m

  pub more_size : More → ℕ
  more_size done = 0
  more_size (more o op t m) = suc (term_size t + more_size m)

-- No token outside the parentheses is one to stop at.
abbrev pub Unstopped : ParseStopFunc → More → Type 0
Unstopped stop done = Unit {0}
Unstopped stop (more o op t m) =
    (stop o.type ≡ false) × (stop (term_head t).type ≡ false) × Unstopped stop m

abbrev pub UnstoppedChain : ParseStopFunc → Chain → Type 0
UnstoppedChain stop (chain t m) = (stop (term_head t).type ≡ false) × Unstopped stop m

-- The tree that the priorities ask for.
abbrev mutual
  pub term_tree : Term → AstExpr
  term_tree (literal t a) = operand a
  term_tree (name t) = operand (get_local (segment_then (seg_ident (ident_of t)) no_segments))
  term_tree (parens o c e) = set_scoped (chain_tree c)

  pub chain_tree : Chain → AstExpr
  chain_tree (chain t m) = read_operators (term_tree t) (more_operators m)

  pub more_operators : More → List (AstBinopType × AstExpr)
  more_operators done = []
  more_operators (more o op t m) = (op, term_tree t) ∷ more_operators m
