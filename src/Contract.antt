-- ===== src/Contract.antt =====
-- The rewrite of `vector.contract` to SpacemiT IME operations
-- (phase-3-mlir/llvm-project/mlir/lib/Dialect/RISCVIME).
pub mod Ir
pub mod Match
pub mod Lower
pub mod Semantics
pub mod Tile
pub mod Operand
pub mod Sound
pub mod Model
pub mod Examples
pub mod Limits
pub mod Layout
