-- ===== src/Parser/Binop.antt =====
-- Binary operators and their priorities: include/ast/private/expr/binop.h and the table of
-- `expr_push_down` in src/parser/parts/expr.c.
use hoblang_old.Base.{ℕ}

pub data AstBinopType : Type 0 where
  binop_and binop_mod binop_add binop_sub binop_mul binop_div binop_eq binop_neq : AstBinopType
  binop_gt binop_ge binop_lt binop_le binop_or binop_bitand binop_bitor binop_shr : AstBinopType
  binop_shl binop_xor : AstBinopType

-- One more than the entry of the table, in which two entries are -1. The table has no entry for
-- `binop_mod`, and C puts 0 there.
unfoldable pub priority : AstBinopType → ℕ
priority binop_bitand = 31
priority binop_bitor = 16
priority binop_shr = 31
priority binop_shl = 31
priority binop_xor = 31
priority binop_mul = 21
priority binop_div = 21
priority binop_add = 11
priority binop_sub = 11
priority binop_eq = 1
priority binop_neq = 1
priority binop_gt = 1
priority binop_ge = 1
priority binop_lt = 1
priority binop_le = 1
priority binop_or = 0
priority binop_and = 0
priority binop_mod = 1
