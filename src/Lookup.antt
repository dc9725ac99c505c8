-- ===== src/Lookup.antt =====
-- Name lookup of RISC-V vector intrinsics: the pragma that declares them, and the lookup that makes
-- them (phase-1-llvm/clang/lib/Parse/ParsePragma.cpp, phase-1-llvm/clang/lib/Sema/SemaLookup.cpp).
pub mod Pragma
pub mod Builtin
pub mod Session
pub mod Declared
pub mod Finds
mod Examples
