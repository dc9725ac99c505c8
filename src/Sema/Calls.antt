-- ===== src/Sema/Calls.antt =====
-- Calls of builtins: `CheckLMUL`, `CheckInvalidVLENandLMUL` and the single checks of
-- `CheckBuiltinFunctionCall` of phase-1-llvm/clang/lib/Sema/SemaRISCV.cpp. True is an error that is reported, as in the code.
use spacemit_ime_iree_tcp.Shared.{
  ℕ, zero, suc, ◌+◌, ◌*◌, ◌/◌, ◌%◌, ◌^◌, Bool, true, false, not, ◌&&◌, ◌||◌, List, [], ◌∷◌, ◌++◌,
  Option, Text, codes, text_eq, any, leb, ltb, ◌==◌, if◌then◌else◌,
}

-- An integer; `negsuc n` is -(n + 1).
pub data ℤ : Type 0 where
  pos negsuc : ℕ → ℤ

-- `BuiltinVectorTypeInfo`: the element's width, the least element count, and the vectors of a tuple.
pub record VectorInfo : Type 0 where
  pub elem_size : ℕ
  pub min_elem_count : ℕ
  pub num_vectors : ℕ

-- What `Sema` says of an expression.
pub record SemaRef (E : Type 0) : Type 0 where
  pub vector_info : E → VectorInfo
  -- type- or value-dependent
  pub is_dependent : E → Bool
  -- `BuiltinConstantArg`: whether it reports an error, and the value
  pub constant_arg : E → Bool × ℤ
  -- `BuiltinConstantArgRange` and `BuiltinConstantArgMultiple`
  pub constant_arg_range : E → ℤ → ℤ → Bool
  pub constant_arg_multiple : E → ℕ → Bool

-- A call: the builtin, the arguments, the type of the result, and the features that the attribute of
-- the callee requires, if it has one.
pub record Call (E : Type 0) : Type 0 where
  pub builtin : Text
  pub arg : ℕ → E
  pub num_args : ℕ
  pub result : VectorInfo
  pub target_attr : Option Text

abbrev pub is_one_of : List Text → Text → Bool
is_one_of names n = any (text_eq n) names

abbrev pub is_pos : ℕ → ℤ → Bool
is_pos n (pos m) = m == n
is_pos n (negsuc m) = false

-- `std::to_string`, for the vector lengths up to 65536.
abbrev pub digit : ℕ → Text
digit n = (b'0' + n % 10) ∷ []

abbrev pub to_string : ℕ → Text
to_string n =
    if ltb n 10
    then digit n
    else if ltb n 100
    then digit (n / 10) ++ digit n
    else if ltb n 1000
    then digit (n / 100) ++ (digit (n / 10) ++ digit n)
    else if ltb n 10000
    then digit (n / 1000) ++ (digit (n / 100) ++ (digit (n / 10) ++ digit n))
    else digit (n / 10000) ++ (digit (n / 1000) ++ (digit (n / 100) ++ (digit (n / 10) ++ digit n)))

abbrev pub rvv_bits_per_block : ℕ
rvv_bits_per_block = 64

-- `has_feature` asks the target and the map of the function's features.
module _ {E : Type 0} (s : SemaRef E) (has_feature : Text → Bool) where
  unfoldable pub check_lmul : E → Bool
  check_lmul arg =
      if s.is_dependent arg
      then false
      else if (s.constant_arg arg).0
      then true
      else elim (s.constant_arg arg).1 [
        | negsuc n ↦ true
        | pos n ↦ not (leb n 3 || (leb 5 n && leb n 7))
      ]

  -- Whether vectors of this type may have fewer than `egw` bits.
  unfoldable pub check_invalid_vlen_and_lmul : VectorInfo → ℕ → Bool
  check_invalid_vlen_and_lmul info egw =
      let egs = egw / info.elem_size in
      if leb egs info.min_elem_count
      then false
      else (let vscale_factor = egs / info.min_elem_count in
          let min_required_vlen = vscale_factor * rvv_bits_per_block in
          let required_ext = codes "zvl" ++ (to_string min_required_vlen ++ codes "b") in
          not (has_feature required_ext))

  unfoldable pub check_vset_vl : E → E → Bool
  check_vset_vl sew lmul =
      if (s.constant_arg sew).0 || (s.constant_arg lmul).0
      then true
      else (let sew_value = (s.constant_arg sew).1 in
          let lmul_value = (s.constant_arg lmul).1 in
          if (is_pos 0 sew_value && is_pos 5 lmul_value
              || (is_pos 1 sew_value && is_pos 6 lmul_value
                  || (is_pos 2 sew_value && is_pos 7 lmul_value || is_pos 3 sew_value)))
            && not (has_feature (codes "zve64x"))
          then true
          else s.constant_arg_range sew (pos 0) (pos 3) || check_lmul lmul)

  -- `mtd` of a matrix multiplication.
  unfoldable pub check_sf_mm : Text → E → E → Bool
  check_sf_mm builtin mtd operand =
      let elt_size = (s.vector_info operand).elem_size in
      if s.is_dependent mtd
      then false
      else if (s.constant_arg mtd).0
      then true
      else if (text_eq builtin (codes "rvv_sf_mm_f_f_w1") && elt_size == 64)
          || (text_eq builtin (codes "rvv_sf_mm_f_f_w2") && elt_size == 32)
      then s.constant_arg_range mtd (pos 0) (pos 15) || s.constant_arg_multiple mtd 2
      else s.constant_arg_range mtd (pos 0) (pos 15) || s.constant_arg_multiple mtd 4

  abbrev pub value_of : ℤ → ℕ
  value_of (pos n) = n
  value_of (negsuc n) = 0

  unfoldable pub check_sf_vtzero : E → E → E → Bool
  check_sf_vtzero mtd log2_sew twiden =
      if (s.constant_arg log2_sew).0 || (s.constant_arg twiden).0
      then true
      else if s.constant_arg_range log2_sew (pos 3) (pos 6)
      then true
      else (let widen = (s.constant_arg twiden).1 in
          let tew = 2 ^ value_of (s.constant_arg log2_sew).1 * value_of widen in
          if not (is_pos 1 widen || (is_pos 2 widen || is_pos 4 widen))
          then true
          else if s.constant_arg_range mtd (pos 0) (pos 15)
          then true
          else if tew == 16 || tew == 64
          then s.constant_arg_multiple mtd 2
          else s.constant_arg_multiple mtd 4)

  -- How many vectors of type `part` the type `whole` has.
  unfoldable pub max_index : VectorInfo → VectorInfo → ℕ
  max_index whole part =
      if whole.num_vectors == 1
      then whole.min_elem_count * whole.num_vectors / (part.min_elem_count * part.num_vectors)
      else whole.num_vectors

  -- `MaxIndex - 1`, as an `int`.
  abbrev pub before : ℕ → ℤ
  before zero = negsuc 0
  before (suc n) = pos n
