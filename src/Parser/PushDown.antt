-- ===== src/Parser/PushDown.antt =====
-- Trees of binary operators, and how the parser orders them by priority: `expr_push_down` and
-- `expr_make_binop` of src/parser/parts/expr.c. An expression of any other kind is an `operand`, of
-- which they only read whether it is there.
use hoblang_old.Base.{Bool, true, false, List, [], ◌∷◌, ltb, if◌then◌else◌}
use hoblang_old.Parser.Binop.{AstBinopType, priority}
use hoblang_old.Parser.Syntax.{AstExpr, operand, binop, AstNode, nothing}

-- `expr_push_down` on the node with this flag, operator, left and right: where the right is an
-- unscoped operator that binds no tighter, it becomes the root, and the node goes down its left.
unfoldable pub push_down_node : Bool → AstBinopType → AstExpr → AstExpr → AstExpr
push_down_node scoped pb pr (operand a) = binop scoped pb pr (operand a)
push_down_node scoped pb pr (binop true cb cr cl) = binop scoped pb pr (binop true cb cr cl)
push_down_node scoped pb pr (binop false cb cr cl) =
    let pushed = push_down_node false pb pr cr in
    if ltb (priority pb) (priority cb)
    then binop scoped pb pr (binop false cb cr cl)
    else binop scoped cb pushed cl

unfoldable pub expr_push_down : AstExpr → AstExpr
unfolding push_down_node
expr_push_down (operand a) = operand a
expr_push_down (binop scoped op left right) = push_down_node scoped op left right

abbrev pub is_nothing : AstNode → Bool
is_nothing nothing = true
is_nothing a = false

-- Whether `expr_push_down` comes to a NULL on its way down, from a node with this operator and right
-- side: it reads `scoped` of the right side before all else.
unfoldable pub push_down_crashes : AstBinopType → AstExpr → Bool
push_down_crashes pb (operand a) = is_nothing a
push_down_crashes pb (binop true cb cr cl) = false
push_down_crashes pb (binop false cb cr cl) =
    let deeper = push_down_crashes pb cr in
    if ltb (priority pb) (priority cb) then false else deeper

-- `expr_make_binop` behind the parse of its right side.
unfoldable pub expr_make_binop : AstBinopType → AstExpr → AstExpr → AstExpr
unfolding expr_push_down
expr_make_binop op current right = expr_push_down (binop false op current right)

-- What `_parse_expr` makes of an operand and the operators that follow it, each with its operand:
-- the right side of an operator is parsed to the end before the operator is placed.
unfoldable pub parse_operators : AstExpr → List (AstBinopType × AstExpr) → AstExpr
unfolding expr_make_binop
parse_operators current [] = current
parse_operators current ((op, next) ∷ more) = expr_make_binop op current (parse_operators next more)
