-- ===== src/Codegen.antt =====
-- The CPU code generator of IREE (phase-3-mlir/iree/compiler/src/iree/compiler/Codegen/LLVMCPU).
pub mod Config
pub mod Gather
pub mod Lowering
pub mod Tiles
pub mod Examples
