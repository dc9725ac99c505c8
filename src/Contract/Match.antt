-- ===== src/Contract/Match.antt =====
-- `VectorContractRewriter::matchAndInit`, `getExtOperand` and
-- `VectorContractRewriterVMADOT::matchAndInit` of LowerContractionToRISCVIMEVMADOTPattern.cpp. The
-- rewriter object is local to one match, so a match returns it whole or says why it failed.
use spacemit_ime_iree_tcp.Shared.{
  ◌≡◌, refl, ℕ, ◌+◌, Bool, true, false, not, ◌&&◌, List, [], ◌∷◌, Option, none, some, ◌==◌, ltb,
  leb, if◌then◌else◌, get_or,
}
use spacemit_ime_iree_tcp.Contract.Ir.{
  ElementType, is_signless_integer, bit_width, is_signless_i32, i8, VectorType, rank, dim_size, Ty,
  vector, ImeOp, Value, type_of, vector_type_of, IteratorType, parallel, reduction, AffineExpr,
  AffineMap, ContractionOp,
}

pub data Failure : Type 0 where
  masked_contraction not_a_matmul invalid_rank no_rhs_dims no_lhs_dims dims_mismatch : Failure
  lhs_not_extended rhs_not_extended acc_not_i32 : Failure

pub data Match {ℓ} (A : Type ℓ) : Type ℓ where
  success : A → Match A
  failure : Failure → Match A

infixl 5 ◌>>=◌ ◌>>◌
abbrev pub ◌>>=◌ {ℓ κ} : {A : Type ℓ} {B : Type κ} → Match A → (A → Match B) → Match B
success a >>= f = f a
failure e >>= f = failure e

abbrev pub ◌>>◌ {ℓ} : {B : Type ℓ} → Match (Unit {0}) → Match B → Match B
m >> k = m >>= λ _. k

pub >>=-eq-success {ℓ κ} :
    {A : Type ℓ} {B : Type κ} (m : Match A) (f : A → Match B) {b : B}
    → (m >>= f) ≡ success b
    → (a : A) × (m ≡ success a) × (f a ≡ success b)
>>=-eq-success (success a) f h = (a, refl, h)
>>=-eq-success (failure e) f h = cc

-- `if (!test) return rewriter.notifyMatchFailure(op, reason);`
abbrev pub require : Bool → Failure → Match (Unit {0})
require true e = success tt
require false e = failure e

abbrev pub require_some {ℓ} : {A : Type ℓ} → Option A → Failure → Match A
require_some (some a) e = success a
require_some none e = failure e

-- Which extension operation a template instance of `getExtOperand` looks for.
pub data Extension : Type 0 where
  sign_extension zero_extension : Extension

-- `v.getDefiningOp<Op>()`, with the operand of that operation.
abbrev pub defining_ext : Extension → Value → Option Value
defining_ext sign_extension (Value.ext_si t v) = some v
defining_ext zero_extension (Value.ext_ui t v) = some v
defining_ext _ _ = none

abbrev pub is_narrow_integer : ElementType → Bool
is_narrow_integer t = is_signless_integer t && leb (bit_width t) 8

-- With no such operation a sign extension may be implicit.
abbrev pub implicit_operand : Extension → Value → Option Value
implicit_operand sign_extension v =
    if is_narrow_integer (vector_type_of v).element then some v else none
implicit_operand zero_extension v = none

abbrev pub explicit_operand : Ty → Ty → Value → Option Value
explicit_operand (vector i) (vector o) v =
    if is_narrow_integer i.element then if is_signless_i32 o.element then some v else none else none
explicit_operand _ _ v = none

unfoldable pub get_ext_operand : Extension → Value → Option Value
get_ext_operand ext v = elim (defining_ext ext v) [
  | none ↦ implicit_operand ext v
  | some inner ↦ explicit_operand (type_of inner) (type_of v) inner
]

abbrev pub clone_element : VectorType → ElementType → VectorType
clone_element t e = record t { element = e }

unfoldable pub extend_small_int_vector : VectorType → Value → Bool → Value
extend_small_int_vector ty v sign_ext =
    if sign_ext
    then Value.ext_si (vector (clone_element ty i8)) v
    else Value.ext_ui (vector (clone_element ty i8)) v

pub record Dims : Type 0 where
  pub m : ℕ
  pub n : ℕ
  pub k : ℕ

-- The state of a `VectorContractRewriter` whose match succeeded.
pub record Rewriter : Type 0 where
  pub ime_op : ImeOp
  pub lhs : Value
  pub rhs : Value
  pub acc : Value
  pub dims : Dims

abbrev pub is_matmul : List IteratorType → Bool
is_matmul (parallel ∷ parallel ∷ reduction ∷ []) = true
is_matmul (parallel ∷ reduction ∷ []) = true
is_matmul _ = false

-- `findPhysicalDim`, from the physical dimension `p` on.
unfoldable pub find_from : List AffineExpr → ℕ → ℕ → Option ℕ
find_from [] p iter = none
find_from (AffineExpr.dim d ∷ es) p iter = if d == iter then some p else find_from es (p + 1) iter
find_from (e ∷ es) p iter = find_from es (p + 1) iter

unfoldable pub find_physical_dim : AffineMap → ℕ → Option ℕ
unfolding find_from
find_physical_dim m iter = find_from m.results 0 iter

abbrev empty_map : AffineMap
empty_map = record { dims = 0; results = [] }

-- The extent of M and of K on the left: a vector has K only.
unfoldable pub lhs_dims : VectorType → AffineMap → Match (ℕ × ℕ)
unfolding find_physical_dim
lhs_dims ty lhs_map =
    let of_matrix : Match (ℕ × ℕ) = do
      m ← require_some (find_physical_dim lhs_map 0) Failure.no_lhs_dims
      k ← require_some (find_physical_dim lhs_map 2) Failure.no_lhs_dims
      success (dim_size ty m, dim_size ty k)
    in if rank ty == 1 then success (1, dim_size ty 0) else of_matrix

unfoldable pub match_dims : ContractionOp → Match Dims
match_dims op = do
  require (is_matmul op.iterator_types) Failure.not_a_matmul
  let lhs_type = vector_type_of op.lhs
  let rhs_type = vector_type_of op.rhs
  require (leb (rank lhs_type) 2 && rank rhs_type == 2) Failure.invalid_rank
  let lhs_map = get_or op.indexing_maps 0 empty_map
  let rhs_map = get_or op.indexing_maps 1 empty_map
  rhs_n ← require_some (find_physical_dim rhs_map 1) Failure.no_rhs_dims
  rhs_k ← require_some (find_physical_dim rhs_map 2) Failure.no_rhs_dims
  let k = dim_size rhs_type rhs_k
  lhs ← lhs_dims lhs_type lhs_map
  require (lhs.1 == k) Failure.dims_mismatch
  success (record { m = lhs.0; n = dim_size rhs_type rhs_n; k = k })

-- The operand and whether it is sign-extended: a sign extension is looked for first.
unfoldable pub extended_operand : Value → Failure → Match (Value × Bool)
extended_operand v reason = elim (get_ext_operand sign_extension v) [
  | some inner ↦ success (inner, true)
  | none ↦ elim (get_ext_operand zero_extension v) [
    | some inner ↦ success (inner, false)
    | none ↦ failure reason
  ]
]

unfoldable pub select_op : Bool → Bool → ImeOp
select_op lhs_signed rhs_signed =
    if lhs_signed && rhs_signed
    then ImeOp.vmadot
    else if not lhs_signed && not rhs_signed
    then ImeOp.vmadotu
    else if lhs_signed && not rhs_signed
    then ImeOp.vmadotsu
    else ImeOp.vmadotus

-- vmadot and its variants take exactly i8 operands.
unfoldable pub widen_to_i8 : Value → Bool → Value
widen_to_i8 v sign_ext =
    let ty = vector_type_of v in
    if ltb (bit_width ty.element) 8 then extend_small_int_vector ty v sign_ext else v

unfoldable pub match_and_init : ContractionOp → Match Rewriter
match_and_init op = do
  dims ← match_dims op
  l ← extended_operand op.lhs Failure.lhs_not_extended
  r ← extended_operand op.rhs Failure.rhs_not_extended
  require (is_signless_i32 (vector_type_of op.acc).element) Failure.acc_not_i32
  success (record {
    ime_op = select_op l.1 r.1;
    lhs = widen_to_i8 l.0 l.1;
    rhs = widen_to_i8 r.0 r.1;
    acc = op.acc;
    dims = dims;
  })
