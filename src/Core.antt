-- ===== src/Core.antt =====
-- The compiler's own small library: include/core and src/core.
pub mod Chars
pub mod Slice
pub mod Vec
