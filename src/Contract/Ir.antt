-- ===== src/Contract/Ir.antt =====
-- The MLIR types, operations and values that the vmadot rewrite reads and creates
-- (phase-3-mlir/llvm-project/mlir/lib/Dialect/RISCVIME/Transforms/
-- LowerContractionToRISCVIMEVMADOTPattern.cpp). A value is the tree of the pure operations that
-- define it; `createOrFold` is read as creation, since a fold keeps the value.
use spacemit_ime_iree_tcp.Shared.{
  ℕ, Bool, true, false, ◌&&◌, List, [], ◌==◌, length, get_or, product,
}

pub data Signedness : Type 0 where
  signless signed unsigned : Signedness

pub data ElementType : Type 0 where
  integer : Signedness → ℕ → ElementType
  float : ℕ → ElementType
  index : ElementType

abbrev pub is_signless_integer : ElementType → Bool
is_signless_integer (integer signless w) = true
is_signless_integer _ = false

abbrev pub bit_width : ElementType → ℕ
bit_width (integer s w) = w
bit_width (float w) = w
bit_width index = 0

abbrev pub is_signless_i32 : ElementType → Bool
is_signless_i32 t = is_signless_integer t && bit_width t == 32

abbrev pub i8 : ElementType
i8 = integer signless 8

abbrev pub i32 : ElementType
i32 = integer signless 32

pub record VectorType : Type 0 where
  pub shape : List ℕ
  pub scalable : List Bool
  pub element : ElementType

abbrev pub rank : VectorType → ℕ
rank t = length t.shape

abbrev pub dim_size : VectorType → ℕ → ℕ
dim_size t d = get_or t.shape d 0

abbrev pub num_elements : VectorType → ℕ
num_elements t = product t.shape

pub data Ty : Type 0 where
  vector : VectorType → Ty
  scalar : ElementType → Ty

-- The operation that a rewrite selects; `nop` is the value before selection.
pub data ImeOp : Type 0 where
  nop vmadot vmadotu vmadotsu vmadotus : ImeOp

pub data Value : Type 0 where
  null : Value
  -- A block argument, or the result of an operation that the rewrite does not look into.
  opaque : ℕ → Ty → Value
  ext_si ext_ui : Ty → Value → Value
  zeros : VectorType → Value
  constant_i64 : ℕ → Value
  poison : VectorType → Value
  extract_slice : VectorType → Value → List ℕ → List ℕ → List ℕ → Value
  insert_slice : Value → Value → List ℕ → List ℕ → Value
  shape_cast : VectorType → Value → Value
  scalable_insert : Value → Value → ℕ → Value
  scalable_extract : VectorType → Value → ℕ → Value
  -- result type; accumulator, vs1, vs2; vl; policy
  ime : ImeOp → VectorType → Value → Value → Value → Value → ℕ → Value

abbrev pub type_of : Value → Ty
type_of null = scalar index
type_of (opaque n t) = t
type_of (ext_si t v) = t
type_of (ext_ui t v) = t
type_of (zeros t) = vector t
type_of (constant_i64 n) = scalar (integer signless 64)
type_of (poison t) = vector t
type_of (extract_slice t v off size strides) = vector t
type_of (insert_slice v dest off strides) = type_of dest
type_of (shape_cast t v) = vector t
type_of (scalable_insert v dest p) = type_of dest
type_of (scalable_extract t v p) = vector t
type_of (ime op t acc l r vl policy) = vector t

-- `cast<VectorType>`, which asserts that the type is a vector type; the type for the rest is a dummy.
abbrev pub vector_type : Ty → VectorType
vector_type (vector t) = t
vector_type (scalar e) = record { shape = []; scalable = []; element = e }

abbrev pub vector_type_of : Value → VectorType
vector_type_of v = vector_type (type_of v)

pub data IteratorType : Type 0 where
  parallel reduction : IteratorType

pub data AffineExpr : Type 0 where
  dim constant : ℕ → AffineExpr
  compound : AffineExpr

pub record AffineMap : Type 0 where
  pub dims : ℕ
  pub results : List AffineExpr

-- How a contraction combines its products with the accumulator.
pub data CombiningKind : Type 0 where
  add another_kind : CombiningKind

pub record ContractionOp : Type 0 where
  pub lhs : Value
  pub rhs : Value
  pub acc : Value
  pub iterator_types : List IteratorType
  pub indexing_maps : List AffineMap
  pub kind : CombiningKind
  pub is_masked : Bool
