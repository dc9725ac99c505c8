-- ===== src/Intrinsics/Types.antt =====
-- `RVVType2Qual` of phase-1-llvm/clang/lib/Sema/SemaRISCV.cpp. `none` is a failed assertion, an
-- unreachable case, or the dereference of a missing scale.
use mathlib.Core.Option
use spacemit_ime_iree_tcp.Shared.{
  ℕ, Bool, true, false, List, [], ◌∷◌, Option, none, some, if◌then◌else◌, ◌==◌, ◌&&◌, same,
}

pub data ScalarTypeKind : Type 0 where
  void size_t ptrdiff_t unsigned_long signed_long boolean signed_integer : ScalarTypeKind
  unsigned_integer float_e4m3 float_e5m2 bfloat float invalid undefined : ScalarTypeKind

-- What the accessors of an `RVVType` return.
pub record RvvType : Type 0 where
  pub scalar_type : ScalarTypeKind
  pub element_bitwidth : ℕ
  pub scale : Option ℕ
  pub nf : ℕ
  pub is_vector : Bool
  pub is_tuple : Bool
  pub is_constant : Bool
  pub is_pointer : Bool

-- What the function takes from the `ASTContext`, over its `QualType`s. `ofp8_types` are the rows of
-- clang/Basic/RISCVVTypes.def: is it E5M2, the number of elements, the type.
pub record AstContext (Q : Type 0) : Type 0 where
  pub void_ty : Q
  pub size_type : Q
  pub pointer_diff_type : Q
  pub unsigned_long_ty : Q
  pub long_ty : Q
  pub unsigned_long_long_ty : Q
  pub long_long_ty : Q
  pub bool_ty : Q
  pub bfloat16_ty : Q
  pub double_ty : Q
  pub float_ty : Q
  pub float16_ty : Q
  pub int64_is_signed_long : Bool
  pub int_type_for_bitwidth : ℕ → Bool → Q
  pub scalable_vector_type : Q → ℕ → Option ℕ → Q
  pub const_type : Q → Q
  pub pointer_type : Q → Q
  pub ofp8_types : List (Bool × (ℕ × Q))

module _ {Q : Type 0} (c : AstContext Q) where
  -- The rows that the .def file expands to: the last one that fits stays.
  unfoldable pub ofp8_type : Bool → ℕ → List (Bool × (ℕ × Q)) → Option Q → Option Q
  ofp8_type e5m2 n [] found = found
  ofp8_type e5m2 n ((e, (m, q)) ∷ rows) found =
      ofp8_type e5m2 n rows (if same e5m2 e && n == m then some q else found)

  unfoldable pub float_type : ℕ → Option Q
  float_type w =
      if w == 64
      then some c.double_ty
      else if w == 32
      then some c.float_ty
      else if w == 16
      then some c.float16_ty
      else none

  -- The const qualifier, and the pointer as the last step.
  unfoldable pub qualify : RvvType → Q → Q
  qualify t q =
      let constant = if t.is_constant then c.const_type q else q in
      if t.is_pointer then c.pointer_type constant else constant

  -- The first switch for the types that are no OFP8 types.
  unfoldable pub scalar_qual : RvvType → Option Q
  unfolding float_type
  scalar_qual t = elim t.scalar_type [
    | void ↦ some c.void_ty
    | size_t ↦ some c.size_type
    | ptrdiff_t ↦ some c.pointer_diff_type
    | unsigned_long ↦ some c.unsigned_long_ty
    | signed_long ↦ some c.long_ty
    | boolean ↦ some c.bool_ty
    | signed_integer ↦ some (
        if t.element_bitwidth == 64
        then if c.int64_is_signed_long then c.long_ty else c.long_long_ty
        else c.int_type_for_bitwidth t.element_bitwidth true)
    | unsigned_integer ↦ some (
        if t.element_bitwidth == 64
        then if c.int64_is_signed_long then c.unsigned_long_ty else c.unsigned_long_long_ty
        else c.int_type_for_bitwidth t.element_bitwidth false)
    | bfloat ↦ some c.bfloat16_ty
    | float ↦ float_type t.element_bitwidth
    | float_e4m3 ↦ none
    | float_e5m2 ↦ none
    | invalid ↦ none
    | undefined ↦ none
  ]

  -- The vector or the tuple of vectors of an element type.
  unfoldable pub vector_qual : RvvType → Q → Option Q
  vector_qual t q =
      if t.is_vector
      then Option.map (λ n. c.scalable_vector_type q n (if t.is_tuple then some t.nf else none))
          t.scale
      else some q

  -- The early return for the OFP8 types.
  unfoldable pub ofp8_qual : Bool → RvvType → Option Q
  unfolding ofp8_type
  ofp8_qual e5m2 t =
      if t.is_vector
      then elim t.scale [ none ↦ none | some n ↦ ofp8_type e5m2 n c.ofp8_types none ]
      else none

  unfoldable pub rvv_type_to_qual : RvvType → Option Q
  unfolding ofp8_qual scalar_qual vector_qual qualify
  rvv_type_to_qual t = elim t.scalar_type [
    | float_e4m3 ↦ Option.map (qualify t) (ofp8_qual false t)
    | float_e5m2 ↦ Option.map (qualify t) (ofp8_qual true t)
    | _ ↦ elim (scalar_qual t) [ none ↦ none | some q ↦ Option.map (qualify t) (vector_qual t q) ]
  ]
