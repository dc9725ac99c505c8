-- ===== src/Sema.antt =====
-- Semantic checks of phase-1-llvm/clang/lib/Sema/SemaRISCV.cpp: attributes, types and calls of
-- builtins.
pub mod Version
pub mod VersionLaws
pub mod CloneLaws
pub mod Interrupt
pub mod InterruptLoop
pub mod InterruptLaws
pub mod Labels
pub mod RoundingLabels
pub mod TailLabels
pub mod MaskedLabels
pub mod Calls
pub mod Nontemporal
pub mod Switch
pub mod CallLaws
pub mod RoundingLaws
pub mod Immediates
pub mod FixedPoint
pub mod Types
mod Examples
