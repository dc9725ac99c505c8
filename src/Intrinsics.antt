-- ===== src/Intrinsics.antt =====
-- The manager of the RISC-V vector intrinsics (phase-1-llvm/clang/lib/Sema/SemaRISCV.cpp).
pub mod Types
pub mod Manager
pub mod Decl
pub mod Layers
pub mod Preserve
pub mod Indices
pub mod Init
pub mod Total
pub mod Found
pub mod Examples
