-- ===== src/Lib.antt =====
-- The SpacemiT IME support: an instruction set extension for integer matrix products (the vmadot
-- family) in Clang, in MLIR and in IREE.
--
-- Parts and files. Paths are from the repository's root.
--   Contract: the pattern that lowers a vector.contract to vmadot calls
--     (phase-3-mlir/llvm-project/mlir/lib/Dialect/RISCVIME/Transforms/
--     LowerContractionToRISCVIMEVMADOTPattern.cpp). Ir has the values and types it reads and builds,
--     Match is `matchAndInit` with its helpers, Lower is `lower`, `createIMEOp` and
--     `matchAndRewrite`. A value is the tree of operations that computes it, and Semantics gives its
--     elements in terms of a machine, a record of the documented element laws of the operations.
--     Tile has one hardware call and the loops over K, N and M; Operand has the accepted operands.
--   Builtins: the builtin context of Clang (phase-1-llvm/clang/lib/Basic/Builtins.cpp). Table is
--     `getShardAndInfo` and `InitializeTarget`, Supported is `builtinIsSupported`, FpMath is
--     `shouldGenerateFPMathIntrinsic`, Register is `initializeBuiltins`, Query has the queries of
--     attribute strings, Strtol the C functions that they call.
--   Intrinsics: the manager of the vector intrinsics
--     (phase-1-llvm/clang/lib/Sema/SemaRISCV.cpp). Types is `RVVType2Qual`, Manager is
--     `ConstructRVVIntrinsics` and `InitRVVIntrinsic`, Decl is `InitIntrinsicList`,
--     `CreateRVVIntrinsicDecl` and `CreateIntrinsicIfFound`.
--   Target: the RISC-V target (phase-1-llvm/clang/lib/Basic/Targets/RISCV.cpp). Constraint has the
--     inline assembly constraints, Isa the features and vscale, Attr the target attributes, Defines the
--     predefined macros.
--   Codegen: the utilities of the CPU code generator of IREE
--     (phase-3-mlir/iree/compiler/src/iree/compiler/Codegen/LLVMCPU/Utils.cpp).
--     Gather is the rewrite of vector.gather in LLVMCPUVirtualVectorLowering.cpp beside it, Lowering
--     that file's pass with its pattern sets in order and the options that
--     LLVMCPULowerExecutableTarget.cpp sets, Tiles the reset of the distribution tiles there. The
--     greedy driver, the patterns of other libraries and the configuration attributes are parameters.
--   Ukernel: the matrix microkernel of IREE (phase-2-iree/runtime/src/iree/builtins/ukernel/arch/
--     riscv_64/mmt4d_riscv_64_xsmtvdot.c). Vectors is the record of the vector operations with their
--     laws, Tile the three bodies, which are one function of the grid of accumulators (acc0, acc1, …
--     by atom row and column), Funcs the nine tile functions, Reference the product of the panels.
--   Lookup: Pragma is `PragmaRISCVHandler::HandlePragma`
--     (phase-1-llvm/clang/lib/Parse/ParsePragma.cpp), Builtin is `Sema::LookupBuiltin`
--     (phase-1-llvm/clang/lib/Sema/SemaLookup.cpp), Session the sequences of both.
--   Sema: the semantic checks of phase-1-llvm/clang/lib/Sema/SemaRISCV.cpp. Switch is
--     `CheckBuiltinFunctionCall` with the case labels of Labels, RoundingLabels, TailLabels and
--     MaskedLabels, the single checks of Calls (with `CheckLMUL` and `CheckInvalidVLENandLMUL`) and
--     Nontemporal; Immediates and FixedPoint are about its rounding modes; Types
--     is `checkRVVTypeSupport`, `isValidRVVBitcast` and `isAliasValid`; Interrupt is
--     `handleInterruptAttr`; Version is `checkTargetVersionAttr` and `checkTargetClonesAttr`.
--   Shared: names of the libraries, lists over native numbers, byte strings, steps without a result.
-- The builtins that Builtins registers are those the intrinsics of Intrinsics are aliases of, and
-- their code is the instructions that Contract emits. The pragma that Ukernel's source begins with
-- sets a flag in Lookup, whose lookups ask the manager of Intrinsics; Sema checks the calls of what
-- they find.
--
-- Conventions. A failed assertion, an unreachable case or an undefined dereference is `none`, unless
-- a file says otherwise. Code that is not in the repository is a parameter: MLIR's tile iterator and
-- inferred types, the generated tables, the vector type library, the ISA string library and the
-- ASTContext, the general checks of Sema, and the vector operations of the hardware. Fields of a rewriter or a manager are records that the operations take and return.
--
-- Bounds and fuel. Integers of the lowering are native numbers; i32 sums are modulo 2^32, and the
-- 32-bit index of an intrinsic, the fixed vector length and the numbers that strtol reads wrap. The
-- one loop on fuel, the list of indices in Builtins.Query, takes the length of its text, and each turn
-- reads a character at least.
--
-- A tile loops over K as an `int`, 2^31 panels at most. In the bodies with inline assembly the
-- instruction runs with the vector length of the loads before it.
--
-- Not modelled: the folding that `createOrFold` does, debug output, the text and the place of the
-- diagnostics of builtin calls and vector types, assertions in SemaRISCV.cpp behind the manager, the
-- run of IREE's pass pipeline, registration code, and what the copies of LLVM files (ParsePragma.cpp,
-- SemaLookup.cpp, the code generation of builtins, the TableGen driver) have beside this extension.
pub mod Shared
pub mod Contract
pub mod Builtins
pub mod Intrinsics
pub mod Target
pub mod Codegen
pub mod Ukernel
pub mod Lookup
pub mod Sema
