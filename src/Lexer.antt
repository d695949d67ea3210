-- ===== src/Lexer.antt =====
-- The lexer.
pub mod Token
pub mod State
pub mod Trivia
pub mod Parts
pub mod Rules
pub mod Runs
pub mod Position
pub mod Next
pub mod Words
pub mod Text
pub mod Comments
pub mod Dispatch
pub mod Stuck
pub mod Numbers
