-- ===== src/Llvm.antt =====
-- Code generation: src/llvm/, what of it does not call the LLVM library.
pub mod Tables
