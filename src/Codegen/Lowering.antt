-- ===== src/Codegen/Lowering.antt =====
-- The pass that lowers virtual vectors and the pass that sets up its pipeline:
-- `LLVMCPUVirtualVectorLoweringPass` and the options of `LLVMCPULowerExecutableTargetPass` in
-- phase-3-mlir/iree/compiler/src/iree/compiler/Codegen/LLVMCPU. The tests of the architecture are
-- those of IREE's Codegen/Utils.
use spacemit_ime_iree_tcp.Shared.{
  ◌≡◌, refl, Bool, true, false, not, ◌&&◌, ◌||◌, List, [], ◌∷◌, ◌++◌, Option, none, some, Text,
  codes, text_eq, if◌then◌else◌, Bool-cases, any, ap, ◌∙◌, inl, inr,
}
use spacemit_ime_iree_tcp.Codegen.Config.{has_any_v_feature, has_xsmtvdot_feature}

-- What the passes ask of `targetConfig`.
pub record Target : Type 0 where
  pub is_x86 : Bool
  pub is_riscv : Bool
  pub is_aarch64 : Bool
  pub has_feature : Text → Bool
  pub has_any_sve_feature : Bool

pub data TransferSplit : Type 0 where
  split_none linalg_copy vector_transfer : TransferSplit

unfoldable pub transfer_split : Text → TransferSplit
transfer_split s =
    if text_eq s (codes "none")
    then split_none
    else if text_eq s (codes "linalg-copy")
    then linalg_copy
    else if text_eq s (codes "vector-transfers")
    then vector_transfer
    else split_none

-- The sets of patterns, one for each call that fills in the set.
pub data Pattern : Type 0 where
  neon_i8mm riscv_ime_vmadot vector_canonicalization transfer_gather_scatter
        transfer_gather_canonicalization transfer_scatter_canonicalization
        transfer_gather_scatter_to_vector gather_to_conditional_load
        contiguous_gather_to_conditional_loads gather_lowering contract_outer_product :
      Pattern
  scalar_vector_transfer : Bool → Pattern
  transfer_permutation_map multi_reduction_reorder_inner multi_reduction_flattening_inner
        multi_reduction_unrolling_inner :
      Pattern
  transfer_full_partial : TransferSplit → Pattern
  unroll_inner_tiled drop_inner_tiled_unit_dims lower_inner_tiled : Pattern

-- A test of the configuration, which fails if there is none.
abbrev pub given : Option Target → (Target → Bool) → Bool
given none test = false
given (some t) test = test t

abbrev pub lowers_to_vmadot : Option Target → Bool
lowers_to_vmadot target = given target (λ t. t.is_riscv && has_xsmtvdot_feature t.has_feature)

unfoldable pub gather_patterns : Option Target → List Pattern
gather_patterns target =
    if not (given target (λ t. t.is_riscv && has_any_v_feature t.has_feature))
    then gather_to_conditional_load ∷ contiguous_gather_to_conditional_loads ∷ []
    else []

unfoldable pub target_independent : Option Target → Text → List Pattern
target_independent target split =
    (vector_canonicalization ∷ transfer_gather_scatter ∷ transfer_gather_canonicalization
      ∷ transfer_scatter_canonicalization ∷ transfer_gather_scatter_to_vector ∷ [])
    ++ gather_patterns target
    ++ (gather_lowering
        ∷ contract_outer_product
        ∷ scalar_vector_transfer (not (given target (λ t. t.is_aarch64)))
        ∷ transfer_permutation_map
        ∷ multi_reduction_reorder_inner
        ∷ multi_reduction_flattening_inner
        ∷ multi_reduction_unrolling_inner
        ∷ transfer_full_partial (transfer_split split)
        ∷ unroll_inner_tiled
        ∷ drop_inner_tiled_unit_dims
        ∷ lower_inner_tiled
        ∷ [])

-- `LLVMCPUPipelineOptions`, but for the options of the command line.
pub record PipelineOptions : Type 0 where
  pub decompose_pack_un_pack_ops : Bool
  pub use_configured_vector_sizes : Bool
  pub enable_peeling : Bool
  pub enable_vector_masking : Bool
  pub enable_aarch64_sme : Bool
  pub enable_aarch64_i8mm : Bool
  pub enable_xsmtvdot : Bool
  pub enable_native_bf16_converts : Bool
  pub lower_to_avx2 : Bool

-- The options for a function: whether it asks for decomposition and for peeling, and whether it has
-- an attention operation.
unfoldable pub pipeline_options : Bool → Bool → Bool → Target → PipelineOptions
pipeline_options decomposition peeling has_attention t =
    let sme = t.has_feature (codes "+sme") in
    let masks = t.is_x86 || t.is_riscv || (t.is_aarch64 && (t.has_any_sve_feature || sme)) in
    record {
      decompose_pack_un_pack_ops = decomposition;
      use_configured_vector_sizes = not (t.is_x86 || t.is_riscv);
      enable_peeling = peeling;
      enable_vector_masking = if t.is_aarch64 && has_attention then true else masks;
      enable_aarch64_sme = t.is_aarch64 && sme;
      enable_aarch64_i8mm = t.is_aarch64 && t.has_feature (codes "+i8mm");
      enable_xsmtvdot = t.is_riscv && has_xsmtvdot_feature t.has_feature;
      enable_native_bf16_converts =
          t.is_riscv && t.has_feature (codes "+zfbfmin") && t.has_feature (codes "+zvfbfmin");
      lower_to_avx2 = t.has_feature (codes "+avx2");
    }

-- The functions that the passes rewrite, the greedy driver, and the elimination of conversions,
-- which can fail.
module _ {Func : Type 0} (apply : List Pattern → Func → Func) (eliminate : Func → Option Func) where
  -- `runOnOperation` with the pass's options; `none` is the failure of the pass.
  unfoldable pub lower_virtual_vectors : Option Target → Text → Bool → Func → Option Func
  lower_virtual_vectors target split enable_arm_i8mm f =
      let f1 = if enable_arm_i8mm then apply (neon_i8mm ∷ []) f else f in
      let f2 = if lowers_to_vmadot target then apply (riscv_ime_vmadot ∷ []) f1 else f1 in
      eliminate (apply (target_independent target split) f2)

abbrev pub is_vmadot : Pattern → Bool
is_vmadot riscv_ime_vmadot = true
is_vmadot _ = false

abbrev pub is_contract : Pattern → Bool
is_contract contract_outer_product = true
is_contract _ = false

unfoldable pub some_pattern : (Pattern → Bool) → List Pattern → Bool
some_pattern test [] = false
some_pattern test (p ∷ ps) = test p || some_pattern test ps

and_false : (b : Bool) → (b && false || false) ≡ false
and_false true = refl
and_false false = refl

or_false : (b : Bool) → (b || false) ≡ b
or_false true = refl
or_false false = refl

-- The patterns that turn gathers into conditional loads.
abbrev pub is_conditional_load : Pattern → Bool
is_conditional_load gather_to_conditional_load = true
is_conditional_load contiguous_gather_to_conditional_loads = true
is_conditional_load _ = false

-- A vmadot pattern in the same set as the lowering of contractions to outer products, or later.
abbrev pub late_vmadot : List (List Pattern) → Bool
late_vmadot [] = false
late_vmadot (ps ∷ rest) =
    (some_pattern is_contract ps && any (some_pattern is_vmadot) (ps ∷ rest)) || late_vmadot rest

-- The driver's runs with one set after the other.
abbrev pub applied :
    {Func : Type 0} → (List Pattern → Func → Func) → List (List Pattern) → Func → Func
applied apply [] f = f
applied apply (ps ∷ rest) f = applied apply rest (apply ps f)

abbrev run_if : Bool → List Pattern → List (List Pattern) → List (List Pattern)
run_if true ps rest = ps ∷ rest
run_if false ps rest = rest

-- The sets that the pass runs, in their order.
abbrev runs : Bool → Bool → List Pattern → List (List Pattern)
runs arm vmadot ps = run_if arm (neon_i8mm ∷ []) (run_if vmadot (riscv_ime_vmadot ∷ []) (ps ∷ []))

applied-runs :
    {Func : Type 0} (apply : List Pattern → Func → Func) (arm vmadot : Bool) (ps : List Pattern)
    (f : Func)
    → (let f1 = if arm then apply (neon_i8mm ∷ []) f else f in
        apply ps (if vmadot then apply (riscv_ime_vmadot ∷ []) f1 else f1))
      ≡ applied apply (runs arm vmadot ps) f
applied-runs apply true true ps f = refl
applied-runs apply true false ps f = refl
applied-runs apply false true ps f = refl
applied-runs apply false false ps f = refl

independent-vmadot :
    (target : Option Target) (split : Text)
    → some_pattern is_vmadot (target_independent target split) ≡ false
unfolding some_pattern target_independent gather_patterns
independent-vmadot target split =
    elim (Bool-cases (given target (λ t. t.is_riscv && has_any_v_feature t.has_feature))) [
      | inl v ↦ rw v refl
      | inr v ↦ rw v refl
    ]

independent-loads :
    (target : Option Target) (split : Text)
    → some_pattern is_conditional_load (target_independent target split)
      ≡ not (given target (λ t. t.is_riscv && has_any_v_feature t.has_feature))
unfolding some_pattern target_independent gather_patterns
independent-loads target split =
    elim (Bool-cases (given target (λ t. t.is_riscv && has_any_v_feature t.has_feature))) [
      | inl v ↦ rw v refl
      | inr v ↦ rw v refl
    ]

runs-vmadot :
    (arm vmadot : Bool) (ps : List Pattern)
    → some_pattern is_vmadot ps ≡ false
    → (any (some_pattern is_vmadot) (runs arm vmadot ps) ≡ vmadot)
      × (late_vmadot (runs arm vmadot ps) ≡ false)
unfolding some_pattern
runs-vmadot true true ps h = (refl, rw h (and_false _))
runs-vmadot true false ps h = (rw h refl, rw h (and_false _))
runs-vmadot false true ps h = (refl, rw h (and_false _))
runs-vmadot false false ps h = (rw h refl, rw h (and_false _))

runs-loads :
    (arm vmadot : Bool) (ps : List Pattern)
    → any (some_pattern is_conditional_load) (runs arm vmadot ps)
      ≡ some_pattern is_conditional_load ps
unfolding some_pattern
runs-loads true true ps = or_false _
runs-loads true false ps = or_false _
runs-loads false true ps = or_false _
runs-loads false false ps = or_false _

-- The pass runs the driver with some sets of patterns, one after the other, and then the elimination
-- of conversions. The vmadot pattern is in one of the sets exactly if the pipeline options that
-- `LLVMCPULowerExecutableTargetPass` computes for the target enable xsmtvdot, and never in or behind
-- a set that lowers contractions to outer products. A pattern that makes conditional loads of gathers
-- is in one of the sets exactly if the target is not RISC-V with vectors. This holds for every driver
-- and elimination.
pub lower_virtual_vectors-xsmtvdot :
    {Func : Type 0} (apply : List Pattern → Func → Func) (eliminate : Func → Option Func)
    (decomposition peeling has_attention : Bool) (t : Target) (split : Text)
    (enable_arm_i8mm : Bool) (f : Func)
    → (sets : List (List Pattern)) × (lower_virtual_vectors apply eliminate
          (some t)
          split
          enable_arm_i8mm
          f
        ≡ eliminate (applied apply sets f))
      × (any (some_pattern is_vmadot) sets
          ≡ PipelineOptions.enable_xsmtvdot
              (pipeline_options decomposition peeling has_attention t))
      × (any (some_pattern is_conditional_load) sets
          ≡ not (t.is_riscv && has_any_v_feature t.has_feature))
      × (late_vmadot sets ≡ false)
unfolding lower_virtual_vectors pipeline_options
lower_virtual_vectors-xsmtvdot apply eliminate d p a t split arm f =
    let vmadot = t.is_riscv && has_xsmtvdot_feature t.has_feature in
    let ps = target_independent (some t) split in
    let (on, late) = runs-vmadot arm vmadot ps (independent-vmadot (some t) split) in
    (
      runs arm vmadot ps,
      ap eliminate (applied-runs apply arm vmadot ps f),
      on,
      runs-loads arm vmadot ps ∙ independent-loads (some t) split,
      late,
    )
