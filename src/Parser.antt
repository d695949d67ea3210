-- ===== src/Parser.antt =====
-- The parser: src/parser/.
pub mod Binop
pub mod Syntax
pub mod PushDown
pub mod Precedence
pub mod Cursor
pub mod Ahead
pub mod Parts
pub mod Types
pub mod Expr
pub mod Stmts
pub mod Nodes
pub mod Decls
pub mod Module
pub mod Source
pub mod Grammar
pub mod Failures
