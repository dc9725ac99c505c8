-- ===== src/Contract/Semantics.antt =====
-- The meaning of the created operations: a record of what MLIR and the IME hardware document of
-- them, and the value of an IR tree over it. An element is the residue of its integer, so that an
-- element of width w lies below 2 ^ w.
use spacemit_ime_iree_tcp.Shared.{
  ℕ, zero, suc, ◌+◌, ◌-◌, ◌*◌, ◌%◌, ◌^◌, ◌<◌, ◌≤◌, ◌≡◌, ◌≢◌, ◌⊎◌, Bool, true, false, List, [], ◌∷◌,
  ltb, if◌then◌else◌,
}
use spacemit_ime_iree_tcp.Contract.Ir.{
  ElementType, bit_width, VectorType, ImeOp, Value, Ty, type_of, vector_type_of,
}

-- The sign extension of a residue from `w` to `v` bits.
unfoldable pub sign_extend : ℕ → ℕ → ℕ → ℕ
sign_extend w v x = if ltb (2 * x) (2 ^ w) then x else x + 2 ^ v - 2 ^ w

abbrev pub extend : Bool → ℕ → ℕ → ℕ → ℕ
extend true w v x = sign_extend w v x
extend false w v x = x

-- Which operands an instruction reads as signed: vs1 and vs2.
abbrev pub reads_signed : ImeOp → Bool × Bool
reads_signed ImeOp.vmadot = (true, true)
reads_signed ImeOp.vmadotu = (false, false)
reads_signed ImeOp.vmadotsu = (true, false)
reads_signed ImeOp.vmadotus = (false, true)
reads_signed ImeOp.nop = (false, false)

-- f 0 + … + f (n - 1)
unfoldable pub sum_below : ℕ → (ℕ → ℕ) → ℕ
sum_below zero f = 0
sum_below (suc n) f = sum_below n f + f n

abbrev pub matrix_type : ℕ → ℕ → ElementType → VectorType
matrix_type r c e = record { shape = r ∷ c ∷ []; scalable = false ∷ false ∷ []; element = e }

abbrev pub Shape2 : VectorType → ℕ → ℕ → Type 0
Shape2 t r c = t.shape ≡ r ∷ c ∷ []

abbrev pub Shape1 : VectorType → ℕ → Type 0
Shape1 t n = t.shape ≡ n ∷ []

-- Run-time vectors, their elements by position, and the operations by their documentation. The
-- operand's type comes before the result's.
pub record Machine : Type 1 where
  pub Vector : Type 0
  pub at1 : Vector → ℕ → ℕ
  pub at2 : Vector → ℕ → ℕ → ℕ
  pub zeros : VectorType → Vector
  pub poison : VectorType → Vector
  pub extend_elements : Bool → Ty → Ty → Vector → Vector
  pub extract_slice : VectorType → VectorType → List ℕ → List ℕ → List ℕ → Vector → Vector
  pub insert_slice : VectorType → VectorType → List ℕ → List ℕ → Vector → Vector → Vector
  pub shape_cast : VectorType → VectorType → Vector → Vector
  pub scalable_insert : VectorType → VectorType → ℕ → Vector → Vector → Vector
  pub scalable_extract : VectorType → VectorType → ℕ → Vector → Vector
  -- acc, vs1, vs2, vl, policy
  pub ime : ImeOp → Vector → Vector → Vector → ℕ → ℕ → Vector
  pub extract_slice_at :
      (s t : VectorType) (v : Vector) (rows cols m n a b i j : ℕ)
      → Shape2 s rows cols
      → m + a ≤ rows
      → n + b ≤ cols
      → i < a
      → j < b
      → at2 (extract_slice s t (m ∷ n ∷ []) (a ∷ b ∷ []) (1 ∷ 1 ∷ []) v) i j ≡ at2 v (m + i) (n + j)
  pub insert_slice_inside :
      (s t : VectorType) (v d : Vector) (rows cols m n a b i j : ℕ)
      → Shape2 s a b
      → Shape2 t rows cols
      → m + a ≤ rows
      → n + b ≤ cols
      → i < a
      → j < b
      → at2 (insert_slice s t (m ∷ n ∷ []) (1 ∷ 1 ∷ []) v d) (m + i) (n + j) ≡ at2 v i j
  pub insert_slice_outside :
      (s t : VectorType) (v d : Vector) (rows cols m n a b i j : ℕ)
      → Shape2 s a b
      → Shape2 t rows cols
      → ((i < m) ⊎ (m + a ≤ i)) ⊎ ((j < n) ⊎ (n + b ≤ j))
      → at2 (insert_slice s t (m ∷ n ∷ []) (1 ∷ 1 ∷ []) v d) i j ≡ at2 d i j
  -- Both shapes run through the elements in row-major order.
  pub flatten_at :
      (s t : VectorType) (v : Vector) (rows cols i j : ℕ)
      → Shape2 s rows cols
      → Shape1 t (rows * cols)
      → i < rows
      → j < cols
      → at1 (shape_cast s t v) (i * cols + j) ≡ at2 v i j
  pub unflatten_at :
      (s t : VectorType) (v : Vector) (rows cols i j : ℕ)
      → Shape1 s (rows * cols)
      → Shape2 t rows cols
      → i < rows
      → j < cols
      → at2 (shape_cast s t v) i j ≡ at1 v (i * cols + j)
  pub scalable_insert_at :
      (s t : VectorType) (v d : Vector) (n i : ℕ)
      → Shape1 s n
      → i < n
      → at1 (scalable_insert s t 0 v d) i ≡ at1 v i
  pub scalable_extract_at :
      (s t : VectorType) (v : Vector) (n i : ℕ)
      → Shape1 t n
      → i < n
      → at1 (scalable_extract s t 0 v) i ≡ at1 v i
  pub extend_elements_at :
      (signed : Bool) (s t : VectorType) (v : Vector) (i j : ℕ)
      → at2 (extend_elements signed (Ty.vector s) (Ty.vector t) v) i j
        ≡ extend signed (bit_width s.element) (bit_width t.element) (at2 v i j)
  -- One instruction on the 4x4x8 atom: with vl = 32 and VLEN = 256 it adds the products of the
  -- rows of vs1 and of vs2, modulo 2 ^ 32.
  pub ime_at :
      (op : ImeOp) (acc l r : Vector) (policy i j : ℕ)
      → op ≢ ImeOp.nop
      → i < 4
      → j < 4
      → at1 (ime op acc l r 32 policy) (i * 4 + j)
        ≡ (at1 acc (i * 4 + j)
            + sum_below 8 (λ t.
              extend (reads_signed op).0 8 32 (at1 l (i * 8 + t))
              * extend (reads_signed op).1 8 32 (at1 r (j * 8 + t))))
          % 2 ^ 32

abbrev pub constant_of : Value → ℕ
constant_of (Value.constant_i64 n) = n
constant_of _ = 0

-- The value of a tree, given those of its opaque leaves.
module _ (machine : Machine) (env : ℕ → machine.Vector) where
  unfoldable pub denote : Value → machine.Vector
  denote Value.null = machine.poison (vector_type_of Value.null)
  denote (Value.opaque n t) = env n
  denote (Value.ext_si t v) = machine.extend_elements true (type_of v) t (denote v)
  denote (Value.ext_ui t v) = machine.extend_elements false (type_of v) t (denote v)
  denote (Value.zeros t) = machine.zeros t
  denote (Value.constant_i64 n) = machine.poison (vector_type_of Value.null)
  denote (Value.poison t) = machine.poison t
  denote (Value.extract_slice t v off size strides) =
      machine.extract_slice (vector_type_of v) t off size strides (denote v)
  denote (Value.insert_slice v dest off strides) =
      machine.insert_slice (vector_type_of v) (vector_type_of dest) off strides (denote v)
        (denote dest)
  denote (Value.shape_cast t v) = machine.shape_cast (vector_type_of v) t (denote v)
  denote (Value.scalable_insert v dest p) =
      machine.scalable_insert (vector_type_of v) (vector_type_of dest) p (denote v) (denote dest)
  denote (Value.scalable_extract t v p) = machine.scalable_extract (vector_type_of v) t p (denote v)
  denote (Value.ime op t acc l r vl policy) =
      machine.ime op (denote acc) (denote l) (denote r) (constant_of vl) policy
