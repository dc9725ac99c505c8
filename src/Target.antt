-- ===== src/Target.antt =====
-- The RISC-V target of Clang (phase-1-llvm/clang/lib/Basic/Targets/RISCV.cpp).
pub mod Constraint
pub mod Isa
pub mod Attr
pub mod ArchWins
pub mod Defines
pub mod Examples
