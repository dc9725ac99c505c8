-- ===== src/Builtins.antt =====
-- The table of Clang builtins (phase-1-llvm/clang/lib/Basic/Builtins.cpp).
pub mod Table
pub mod Supported
pub mod Register
pub mod FpMath
pub mod RegisterLaws
pub mod Strtol
pub mod Query
pub mod Indices
pub mod Examples
