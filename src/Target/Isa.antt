-- ===== src/Target/Isa.antt =====
-- The instruction set of the target: `getVScaleRange`, `hasFeature`, `handleTargetFeatures` and
-- `initFeatureMap` of phase-1-llvm/clang/lib/Basic/Targets/RISCV.cpp.
use spacemit_ime_iree_tcp.Shared.{
  ℕ, ◌/◌, ◌≡◌, ◌≤◌, ◌⊎◌, refl, Bool, true, false, not, ◌&&◌, ◌||◌, List, [], ◌∷◌, ◌++◌, Option,
  none, some, Text, codes, text_eq, ◌==◌, ltb, if◌then◌else◌, arith, any, inl, inr, sym, ap, ◌∙◌,
  subst, Bool-cases,
}
use mathlib.Core.Bool.{true≢false}

-- The library of the ISA strings (`llvm::RISCVISAInfo`, `llvm::RISCV`) over its `ISAInfo`s. An error
-- is its message.
pub record IsaLibrary (I : Type 0) : Type 0 where
  pub min_vlen : I → ℕ
  pub max_vlen : I → ℕ
  pub has_extension : I → Text → Bool
  pub compute_default_abi : I → Text
  pub to_features : I → List Text
  pub to_all_features : I → List Text
  pub parse_features : ℕ → List Text → I ⊎ Text
  pub parse_arch_string : Text → Option I
  pub target_feature_for_extension : Text → Text
  pub march_from_mcpu : Text → Text

-- The fields of a `RISCVTargetInfo` that its operations change, and its triple.
pub record TargetInfo (I : Type 0) : Type 0 where
  pub is_64_bit : Bool
  pub isa_info : I
  pub abi : Text
  pub has_fast_half_type : Bool
  pub fast_scalar_unaligned_access : Bool
  pub has_experimental : Bool

-- A diagnostic of an invalid combination of features.
pub data Diagnostic : Type 0 where
  invalid_feature_combination : Text → Diagnostic

unfoldable pub get_vscale_range :
    {I : Type 0} → IsaLibrary I → TargetInfo I → ℕ → ℕ → Option (ℕ × ℕ)
get_vscale_range lib t opt_min opt_max =
    let vscale_min = lib.min_vlen t.isa_info / 64 in
    if not (opt_min == 0) || not (opt_max == 0)
    then (let lower = if ltb vscale_min opt_min then opt_min else vscale_min in
        let upper = if not (opt_max == 0) && ltb opt_max lower then lower else opt_max in
        some ((if lower == 0 then 1 else lower), upper))
    else if ltb 0 vscale_min
    then some (vscale_min, lib.max_vlen t.isa_info / 64)
    else none

unfoldable pub has_feature : {I : Type 0} → IsaLibrary I → TargetInfo I → Text → Bool
has_feature lib t f =
    if text_eq f (codes "riscv")
    then true
    else if text_eq f (codes "riscv32")
    then not t.is_64_bit
    else if text_eq f (codes "riscv64")
    then t.is_64_bit
    else if text_eq f (codes "32bit")
    then not t.is_64_bit
    else if text_eq f (codes "64bit")
    then t.is_64_bit
    else if text_eq f (codes "experimental")
    then t.has_experimental
    else lib.has_extension t.isa_info f

abbrev pub is_contained : List Text → Text → Bool
is_contained fs f = any (text_eq f) fs

unfoldable pub xlen : Bool → ℕ
xlen b = if b then 64 else 32

-- What `handleTargetFeatures` does once the features are parsed.
unfoldable pub with_isa : {I : Type 0} → IsaLibrary I → I → List Text → TargetInfo I → TargetInfo I
with_isa lib isa fs t = record t {
  isa_info = isa;
  abi = if text_eq t.abi [] then lib.compute_default_abi isa else t.abi;
  has_fast_half_type =
      if lib.has_extension isa (codes "zfh") || lib.has_extension isa (codes "zhinx")
      then true
      else t.has_fast_half_type;
  fast_scalar_unaligned_access = is_contained fs (codes "+unaligned-scalar-mem");
  has_experimental = if is_contained fs (codes "+experimental") then true else t.has_experimental;
}

-- The last test, on the configured target: the result, the diagnostics and the target.
unfoldable pub check_abi :
    {I : Type 0} → IsaLibrary I → TargetInfo I → Bool × (List Diagnostic × TargetInfo I)
check_abi lib u =
    if text_eq u.abi (codes "ilp32e") && lib.has_extension u.isa_info (codes "d")
    then (
      false,
      (
        invalid_feature_combination (codes "ILP32E cannot be used with the D ISA extension") ∷ [],
        u,
      ),
    )
    else (true, ([], u))

-- The result, the diagnostics and the target afterwards.
unfoldable pub handle_target_features :
    {I : Type 0} → IsaLibrary I → List Text → TargetInfo I → Bool × (List Diagnostic × TargetInfo I)
unfolding xlen
handle_target_features lib fs t = elim (lib.parse_features (xlen t.is_64_bit) fs) [
  | inr message ↦ (false, (invalid_feature_combination message ∷ [], t))
  | inl isa ↦ check_abi lib (with_isa lib isa fs t)
]

-- The feature map is the list of its assignments; `init` is `TargetInfo::initFeatureMap`.
unfoldable pub init_feature_map :
    {I : Type 0}
    → IsaLibrary I
    → (List (Text × Bool) → Text → List Text → Bool × List (Text × Bool))
    → TargetInfo I
    → List (Text × Bool)
    → Text
    → List Text
    → Bool × (List Diagnostic × List (Text × Bool))
unfolding xlen
init_feature_map lib init t features cpu fs =
    let mode : Text × Bool = (if t.is_64_bit then codes "64bit" else codes "32bit", true) in
    elim (lib.parse_features (xlen t.is_64_bit) fs) [
      | inr message ↦ (false, (invalid_feature_combination message ∷ [], mode ∷ features))
      | inl isa ↦ let r = init (mode ∷ features) cpu (fs ++ lib.to_features isa) in (r.0, ([], r.1))
    ]

-- A range of vscale that the target reports starts at 1 or more and at the Zvl*b extension's bound,
-- and its upper end is 0, which means no bound, or no less than its lower end, if the ISA's shortest
-- vector length is no more than its longest.
pub get_vscale_range-bounds :
    {I : Type 0} (lib : IsaLibrary I) (t : TargetInfo I) (opt_min opt_max lower upper : ℕ)
    → lib.min_vlen t.isa_info ≤ lib.max_vlen t.isa_info
    → get_vscale_range lib t opt_min opt_max ≡ some (lower, upper)
    → (1 ≤ lower) × (lib.min_vlen t.isa_info / 64 ≤ lower) × ((upper ≡ 0) ⊎ (lower ≤ upper))
unfolding get_vscale_range
get_vscale_range-bounds lib t opt_min opt_max lower upper le h = ground arith

abbrev clash : {I : Type 0} → IsaLibrary I → TargetInfo I → Bool
clash lib u = text_eq u.abi (codes "ilp32e") && lib.has_extension u.isa_info (codes "d")

-- What a target is after it took its features.
abbrev pub Configured :
    {I : Type 0} → IsaLibrary I → List Text → TargetInfo I → TargetInfo I → Type 0
Configured lib fs t u =
    (lib.parse_features (xlen t.is_64_bit) fs ≡ inl u.isa_info)
    × (text_eq u.abi [] ≡ false)
    × ((text_eq u.abi (codes "ilp32e") && lib.has_extension u.isa_info (codes "d")) ≡ false)

with_isa-abi :
    {I : Type 0} (lib : IsaLibrary I) (isa : I) (fs : List Text) (t : TargetInfo I)
    → text_eq (lib.compute_default_abi isa) [] ≡ false
    → text_eq (with_isa lib isa fs t).abi [] ≡ false
unfolding with_isa
with_isa-abi lib isa fs t h = elim (Bool-cases (text_eq t.abi [])) [
  | inl e ↦ rw e h
  | inr e ↦ rw e e
]

check_abi-success :
    {I : Type 0} (lib : IsaLibrary I) (v u : TargetInfo I) (ds : List Diagnostic)
    → check_abi lib v ≡ (true, (ds, u))
    → (ds ≡ []) × (v ≡ u) × (clash lib v ≡ false)
unfolding check_abi
check_abi-success {I = I} lib v u ds h = elim (Bool-cases (clash lib v)) [
  | inl e ↦ absurd (
      true≢false
        (sym (ap (λ (x : Bool × (List Diagnostic × TargetInfo I)). x.0) (rw (e, check_abi) at h))))
  | inr e ↦
      let q : check_abi lib v ≡ (true, ([], v)) = rw (e, check_abi) refl in
      (
        ap (λ (x : Bool × (List Diagnostic × TargetInfo I)). x.1.0) (sym h ∙ q),
        ap (λ (x : Bool × (List Diagnostic × TargetInfo I)). x.1.1) (sym q ∙ h),
        e,
      )
]

-- If `handleTargetFeatures` succeeds on a target, it reports nothing, the target has the parsed ISA and
-- a non-empty ABI, where every ISA has a default one, and the ABI "ilp32e" does not go with the
-- extension "d".
pub handle_target_features-success :
    {I : Type 0} (lib : IsaLibrary I) (fs : List Text) (t u : TargetInfo I) (ds : List Diagnostic)
    → ((isa : I) → text_eq (lib.compute_default_abi isa) [] ≡ false)
    → handle_target_features lib fs t ≡ (true, (ds, u))
    → (ds ≡ []) × Configured lib fs t u
unfolding handle_target_features with_isa
handle_target_features-success {I = I} lib fs t u ds abi h =
    parsed (lib.parse_features (xlen t.is_64_bit) fs) refl h
  where
    parsed :
        (r : I ⊎ Text)
        → lib.parse_features (xlen t.is_64_bit) fs ≡ r
        → handle_target_features lib fs t ≡ (true, (ds, u))
        → (ds ≡ []) × Configured lib fs t u
    parsed (inr m) e q = absurd (
        true≢false (
          sym (
            ap (λ (x : Bool × (List Diagnostic × TargetInfo I)). x.0)
              (rw (e, handle_target_features) at q))))
    parsed (inl isa) e q =
        let (d, v, f) =
          check_abi-success lib (with_isa lib isa fs t) u ds
            (rw (e, handle_target_features) at q) in
        (d, subst (Configured lib fs t) v (e, with_isa-abi lib isa fs t (abi isa), f))
