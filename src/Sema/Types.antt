-- ===== src/Sema/Types.antt =====
-- Types and names: `checkRVVTypeSupport`, `isValidRVVBitcast` and `isAliasValid` of
-- phase-1-llvm/clang/lib/Sema/SemaRISCV.cpp.
use spacemit_ime_iree_tcp.Shared.{
  ℕ, Bool, true, false, not, ◌&&◌, ◌||◌, Option, none, some, Text, codes, leb, ◌==◌, if◌then◌else◌,
}

-- The element type of a vector type.
pub data ElementKind : Type 0 where
  integer_element double_element float16_element bfloat16_element float_element : ElementKind
  other_element : ElementKind

-- A vector type: its elements, their width and their least count, and whether it is an OFP8 type of
-- RISCVVTypes.def.
pub record RvvTy : Type 0 where
  pub element : ElementKind
  pub elt_size : ℕ
  pub min_elts : ℕ
  pub is_ofp8 : Bool

abbrev pub is_integer : ElementKind → Bool
is_integer ElementKind.integer_element = true
is_integer _ = false

abbrev pub is_double : ElementKind → Bool
is_double ElementKind.double_element = true
is_double _ = false

abbrev pub is_float16 : ElementKind → Bool
is_float16 ElementKind.float16_element = true
is_float16 _ = false

abbrev pub is_bfloat16 : ElementKind → Bool
is_bfloat16 ElementKind.bfloat16_element = true
is_bfloat16 _ = false

abbrev pub is_float : ElementKind → Bool
is_float ElementKind.float_element = true
is_float _ = false

-- The extensions that the error names, if there is one; `feature` looks a name up in the map of the
-- features, `andes` is `DeclareAndesVectorBuiltins`.
unfoldable pub check_rvv_type_support : (Text → Bool) → Bool → RvvTy → Option Text
check_rvv_type_support feature andes t =
    if is_double t.element && not (feature (codes "zve64d"))
    then some (codes "zve64d")
    else if ((t.elt_size == 64 && is_integer t.element) || t.min_elts == 1)
        && not (feature (codes "zve64x"))
    then some (codes "zve64x")
    else if is_float16 t.element
        && (not (feature (codes "zvfhmin")) && not (feature (codes "xandesvpackfph")))
    then some (if andes then codes "zvfh, zvfhmin or xandesvpackfph" else codes "zvfh or zvfhmin")
    else if is_bfloat16 t.element
        && (not (feature (codes "zvfbfmin"))
            && (not (feature (codes "xandesvbfhcvt"))
                && not (feature (codes "experimental-zvfbfa"))))
    then some (if andes then codes "zvfbfmin or xandesvbfhcvt" else codes "zvfbfmin")
    else if is_float t.element && not (feature (codes "zve32f"))
    then some (codes "zve32f")
    else if not (feature (codes "zve32x"))
    then some (codes "zve32x")
    else if t.is_ofp8 && not (feature (codes "experimental-zvfofp8min"))
    then some (codes "zvfofp8min")
    else none

-- A type of a bitcast: a sizeless RVV type, a fixed-length vector of RVV data, or another.
pub data CastTy : Type 0 where
  rvv_sizeless rvv_fixed_length_data other_ty : CastTy

abbrev pub valid_scalable_conversion : CastTy → CastTy → Bool
valid_scalable_conversion CastTy.rvv_sizeless CastTy.rvv_fixed_length_data = true
valid_scalable_conversion _ _ = false

unfoldable pub is_valid_rvv_bitcast : CastTy → CastTy → Bool
is_valid_rvv_bitcast src dest =
    valid_scalable_conversion src dest || valid_scalable_conversion dest src

-- With the first and the last ID of the RVV builtins.
unfoldable pub is_alias_valid : ℕ → ℕ → ℕ → Bool
is_alias_valid first last builtin_id = leb first builtin_id && leb builtin_id last
