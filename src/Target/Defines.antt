-- ===== src/Target/Defines.antt =====
-- The predefined macros: `getTargetDefines` of phase-1-llvm/clang/lib/Basic/Targets/RISCV.cpp.
use spacemit_ime_iree_tcp.Shared.{
  ℕ, ◌+◌, ◌*◌, ◌/◌, ◌%◌, ◌^◌, ◌≡◌, ◌≤◌, ◌<◌, Bool, not, ◌&&◌, ◌||◌, List, [], ◌∷◌, ◌++◌, Option,
  none, some, Text, codes, text_eq, ◌==◌, if◌then◌else◌, arith, map,
}
use spacemit_ime_iree_tcp.Target.Isa.{IsaLibrary, TargetInfo, get_vscale_range}

-- What the macros take of the ISA beside the library: its numbers, and its extensions with their
-- versions.
pub record IsaNumbers (I : Type 0) : Type 0 where
  pub flen : I → ℕ
  pub max_elen : I → ℕ
  pub max_elen_fp : I → ℕ
  pub extensions : I → List (Text × (ℕ × ℕ))

pub data BranchLabelScheme : Type 0 where
  default_scheme unlabeled func_sig : BranchLabelScheme

pub record MacroOptions : Type 0 where
  pub code_model : Text
  pub vscale_min : ℕ
  pub vscale_max : ℕ
  pub cf_protection_return : Bool
  pub cf_protection_branch : Bool
  pub cf_branch_label_scheme : BranchLabelScheme
  pub default_cf_branch_label_scheme : BranchLabelScheme

-- A macro with its value: 1, or a number.
pub data Macro : Type 0 where
  flag : Text → Macro
  number : Text → ℕ → Macro

unfoldable pub get_version_value : ℕ → ℕ → ℕ
get_version_value major minor = major * 1000000 + minor * 1000

unfoldable pub define_if : Bool → List Macro → List Macro
define_if b ms = if b then ms else []

-- The model "default" is the small one.
unfoldable pub code_model_macros : Text → List Macro
code_model_macros m =
    if text_eq m (codes "default") || text_eq m (codes "small")
    then flag (codes "__riscv_cmodel_medlow") ∷ []
    else if text_eq m (codes "medium")
    then flag (codes "__riscv_cmodel_medany") ∷ []
    else define_if (text_eq m (codes "large")) (flag (codes "__riscv_cmodel_large") ∷ [])

unfoldable pub abi_macros : Text → List Macro
unfolding define_if
abi_macros abi =
    (if text_eq abi (codes "ilp32f") || text_eq abi (codes "lp64f")
      then flag (codes "__riscv_float_abi_single")
      else if text_eq abi (codes "ilp32d") || text_eq abi (codes "lp64d")
      then flag (codes "__riscv_float_abi_double")
      else flag (codes "__riscv_float_abi_soft"))
    ∷ define_if (text_eq abi (codes "ilp32e") || text_eq abi (codes "lp64e"))
        (flag (codes "__riscv_abi_rve") ∷ [])

unfoldable pub extension_macro : Text × (ℕ × ℕ) → Macro
extension_macro e = number (codes "__riscv_" ++ e.0) (get_version_value e.1.0 e.1.1)

-- The vector length, if the range of vscale has one value: a product of 32-bit words.
unfoldable pub fixed_vlen : {I : Type 0} → IsaLibrary I → TargetInfo I → ℕ → ℕ → Option ℕ
fixed_vlen lib t opt_min opt_max = elim (get_vscale_range lib t opt_min opt_max) [
  | none ↦ none
  | some r ↦ if not (r.0 == 0) && r.0 == r.1 then some (r.0 * 64 % 2 ^ 32) else none
]

unfoldable pub fixed_vlen_macros : Option ℕ → List Macro
fixed_vlen_macros none = []
fixed_vlen_macros (some n) = number (codes "__riscv_v_fixed_vlen") n ∷ []

-- `none` is the unreachable case of a default scheme that is itself the default.
unfoldable pub scheme_macros : BranchLabelScheme → Option (List Macro)
scheme_macros unlabeled = some (flag (codes "__riscv_landing_pad_unlabeled") ∷ [])
scheme_macros func_sig = some []
scheme_macros default_scheme = none

unfoldable pub branch_macros : MacroOptions → Option (List Macro)
unfolding scheme_macros
branch_macros o =
    let scheme : BranchLabelScheme = elim o.cf_branch_label_scheme [
      | default_scheme ↦ o.default_cf_branch_label_scheme
      | unlabeled ↦ unlabeled
      | func_sig ↦ func_sig
    ] in
    if o.cf_protection_branch
    then (elim (scheme_macros scheme) [
      | none ↦ none
      | some ms ↦ some (flag (codes "__riscv_landing_pad") ∷ ms)
    ])
    else some []

-- The macros up to those of the branch protection, in their order.
unfoldable pub isa_macros :
    {I : Type 0} → IsaLibrary I → IsaNumbers I → TargetInfo I → MacroOptions → List Macro
unfolding define_if fixed_vlen
isa_macros lib numbers t o =
    let isa = t.isa_info in
    let has = λ (e : Text). lib.has_extension isa e in
    flag (codes "__riscv")
    ∷ number (codes "__riscv_xlen") (if t.is_64_bit then 64 else 32)
    ∷ (code_model_macros o.code_model
        ++ (abi_macros t.abi
            ++ (flag (codes "__riscv_arch_test") ∷ map extension_macro (numbers.extensions isa)
                ++ (define_if (has (codes "zmmul")) (flag (codes "__riscv_mul") ∷ [])
                    ++ (define_if (has (codes "m"))
                          (flag (codes "__riscv_div") ∷ flag (codes "__riscv_muldiv") ∷ [])
                        ++ (define_if (has (codes "a")) (flag (codes "__riscv_atomic") ∷ [])
                            ++ (define_if (has (codes "zalrsc")) (
                                  flag (codes "__GCC_HAVE_SYNC_COMPARE_AND_SWAP_1")
                                  ∷ flag (codes "__GCC_HAVE_SYNC_COMPARE_AND_SWAP_2")
                                  ∷ flag (codes "__GCC_HAVE_SYNC_COMPARE_AND_SWAP_4")
                                  ∷ define_if t.is_64_bit
                                      (flag (codes "__GCC_HAVE_SYNC_COMPARE_AND_SWAP_8") ∷ []))
                                ++ (define_if (not (numbers.flen isa == 0)) (
                                      number (codes "__riscv_flen") (numbers.flen isa)
                                      ∷ flag (codes "__riscv_fdiv")
                                      ∷ flag (codes "__riscv_fsqrt")
                                      ∷ [])
                                    ++ (define_if (not (lib.min_vlen isa == 0)) (
                                          number (codes "__riscv_v_min_vlen") (lib.min_vlen isa)
                                          ∷ number (codes "__riscv_v_elen") (numbers.max_elen isa)
                                          ∷ number (codes "__riscv_v_elen_fp")
                                              (numbers.max_elen_fp isa)
                                          ∷ [])
                                        ++ (define_if (has (codes "c"))
                                              (flag (codes "__riscv_compressed") ∷ [])
                                            ++ (define_if (has (codes "zve32x"))
                                                  (flag (codes "__riscv_vector") ∷ [])
                                                ++ (number (codes "__riscv_v_intrinsic")
                                                        (get_version_value 1 0)
                                                      ∷ fixed_vlen_macros (
                                                          fixed_vlen lib t o.vscale_min
                                                            o.vscale_max)
                                                    ++ ((if t.fast_scalar_unaligned_access
                                                            then flag
                                                            (codes "__riscv_misaligned_fast")
                                                            else flag
                                                            (codes "__riscv_misaligned_avoid"))
                                                          ∷ define_if (has (codes "e")) (
                                                            (if t.is_64_bit
                                                            then flag (codes "__riscv_64e")
                                                            else flag (codes "__riscv_32e"))
                                                            ∷ [])
                                                        ++ define_if
                                                            (o.cf_protection_return
                                                            && has (codes "zicfiss"))
                                                            (flag (codes "__riscv_shadow_stack")
                                                            ∷ []))))))))))))))

unfoldable pub get_target_defines :
    {I : Type 0} → IsaLibrary I → IsaNumbers I → TargetInfo I → MacroOptions → Option (List Macro)
get_target_defines lib numbers t o = elim (branch_macros o) [
  | none ↦ none
  | some ms ↦ some (isa_macros lib numbers t o ++ ms)
]

-- A fixed vector length that the macros announce is a positive multiple of 64 bits and no less than
-- the ISA's shortest vector length, up to a multiple of 64, if that length is a 32-bit word and the
-- option for the least vscale is below 2 ^ 26, so that the product does not wrap.
pub fixed_vlen-bounds :
    {I : Type 0} (lib : IsaLibrary I) (t : TargetInfo I) (opt_min opt_max v : ℕ)
    → lib.min_vlen t.isa_info < 2 ^ 32
    → opt_min < 2 ^ 26
    → fixed_vlen lib t opt_min opt_max ≡ some v
    → (64 ≤ v) × (64 * (lib.min_vlen t.isa_info / 64) ≤ v) × (v % 64 ≡ 0)
unfolding fixed_vlen get_vscale_range
fixed_vlen-bounds lib t opt_min opt_max v isa small h = ground arith
