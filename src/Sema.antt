-- ===== src/Sema.antt =====
-- The semantic analysis: src/sema/ and include/sema/.
pub mod Types
pub mod State
pub mod Scopes
pub mod Loops
pub mod Decls
pub mod Behaviours
pub mod Defers
pub mod Word
pub mod Value
pub mod Analysis
pub mod Expr
pub mod Statements
pub mod AstTypes
pub mod Program
pub mod Paths
pub mod Build
pub mod Primitives
pub mod Nodes
pub mod Project
