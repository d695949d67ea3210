-- ===== src/Tests.antt =====
-- Runs on concrete input, and the theorems applied to it.
pub mod LexerRuns
pub mod LexerTheorems
pub mod WordTheorems
pub mod ParserTheorems
pub mod TypeTheorems
pub mod SemaTheorems
pub mod ExprTheorems
pub mod ParserRuns
pub mod Tape
pub mod CursorTheorems
pub mod VecTheorems
pub mod BehaviourTheorems
pub mod TableTheorems
pub mod ModuleTheorems
