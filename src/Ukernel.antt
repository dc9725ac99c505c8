-- ===== src/Ukernel.antt =====
-- The matrix microkernel
-- (phase-2-iree/runtime/src/iree/builtins/ukernel/arch/riscv_64/mmt4d_riscv_64_xsmtvdot.c).
pub mod Vectors
pub mod Tile
pub mod Offsets
pub mod Store
pub mod Rounds
pub mod Reference
pub mod Refine
pub mod Funcs
pub mod Model
mod Examples
