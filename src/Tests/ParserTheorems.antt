-- ===== src/Tests/ParserTheorems.antt =====
-- The theorems on trees of operators, at concrete chains.
use hoblang_old.Base.{ℕ, true, false, List, [], ◌∷◌, ◌≡◌, refl, arith, inr}
use hoblang_old.Parser.Binop.{
  AstBinopType, priority, binop_add, binop_mul, binop_eq, binop_sub, binop_mod,
}
use hoblang_old.Parser.Precedence.{
  read_operators, IsOrdered, items, chain_items, parse_operators-read_operators,
  parse_operators-IsOrdered, parse_operators-items, parse_operators-mod,
}
use hoblang_old.Parser.PushDown.{parse_operators, push_down_node}
use hoblang_old.Parser.Syntax.{AstExpr, operand, binop, integer}

abbrev num : ℕ → AstExpr
num n = operand (integer n)

-- `1 - (2 + 3) * 4 - 5 == 6`, behind its first operand.
abbrev chain : List (AstBinopType × AstExpr)
chain =
    (binop_sub, binop true binop_add (num 2) (num 3))
    ∷ (binop_mul, num 4)
    ∷ (binop_sub, num 5)
    ∷ (binop_eq, num 6)
    ∷ []

parses_chain :
    parse_operators (num 1) chain
    ≡ binop false binop_eq
        (binop false binop_sub
          (binop false binop_sub
            (num 1)
            (binop false binop_mul (binop true binop_add (num 2) (num 3)) (num 4)))
          (num 5))
        (num 6)
unfolding parse_operators push_down_node priority
parses_chain = refl

parse_operators-read_operators_example :
    parse_operators (num 1) chain ≡ read_operators (num 1) chain
parse_operators-read_operators_example =
    parse_operators-read_operators (num 1) chain tt (refl, (tt, (tt, (tt, tt))))

parse_operators-IsOrdered_example : IsOrdered (parse_operators (num 1) chain)
parse_operators-IsOrdered_example =
    parse_operators-IsOrdered (num 1) chain tt (refl, (tt, (tt, (tt, tt))))

parse_operators-items_example :
    items (parse_operators (num 1) chain) ≡ inr (num 1) ∷ chain_items chain
parse_operators-items_example = parse_operators-items (num 1) chain tt (refl, (tt, (tt, (tt, tt))))

parse_operators-mod_example :
    parse_operators (num 1) ((binop_add, num 2) ∷ (binop_mod, num 3) ∷ [])
    ≡ binop false binop_mod (binop false binop_add (num 1) (num 2)) (num 3)
unfolding priority
parse_operators-mod_example =
    parse_operators-mod (num 1) (num 2) (num 3) binop_add tt tt tt (omega arith)
