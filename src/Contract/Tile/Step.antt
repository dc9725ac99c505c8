-- ===== src/Contract/Tile/Step.antt =====
-- One hardware call: the flattened operands of a tile, and `createIMEOp` on them.
use spacemit_ime_iree_tcp.Shared.{
  ℕ, zero, suc, ◌+◌, ◌*◌, ◌%◌, ◌^◌, ◌<◌, ◌≤◌, ◌≡◌, ◌≢◌, refl, ap, ◌∙◌, List, [], ◌∷◌, arith,
  product, length,
}
use mathlib.Core.Path.{ap₂}
use spacemit_ime_iree_tcp.Contract.Ir.{VectorType, ImeOp, Value, vector_type_of}
use spacemit_ime_iree_tcp.Contract.Lower.{
  Mlir, flatten_to_1d, create_ime_op, create_hardware_op, extract_2d,
}
use spacemit_ime_iree_tcp.Contract.Semantics.{
  Machine, denote, extend, reads_signed, sum_below, Shape1, Shape2,
}

pub sum_below_congr :
    (n : ℕ) (f g : ℕ → ℕ) → ((t : ℕ) → t < n → f t ≡ g t) → sum_below n f ≡ sum_below n g
unfolding sum_below
sum_below_congr zero f g h = refl
sum_below_congr (suc n) f g h =
    ap₂ ◌+◌ (sum_below_congr n f g (λ t lt. h t (omega arith))) (h n (omega arith))

-- The result shape of `vector.extract_strided_slice` at full rank is its sizes.
abbrev pub SliceShape : Mlir → Type 0
SliceShape mlir =
    (t : VectorType) (off : List ℕ) (a b : ℕ)
    → length off ≡ 2
    → Shape2 (mlir.slice_type t off (a ∷ b ∷ [])) a b

module _ (machine : Machine) (env : ℕ → machine.Vector) (mlir : Mlir)
    (sliced : SliceShape mlir) where
  abbrev pub elem1 : Value → ℕ → ℕ
  elem1 v i = machine.at1 (denote machine env v) i

  abbrev pub elem2 : Value → ℕ → ℕ → ℕ
  elem2 v i j = machine.at2 (denote machine env v) i j

  pub flatten-Shape1 :
      (v : Value) (m n a b : ℕ)
      → Shape1
          (vector_type_of (flatten_to_1d (extract_2d mlir v (m ∷ n ∷ []) (a ∷ b ∷ []))))
          (a * b)
  unfolding flatten_to_1d extract_2d
  flatten-Shape1 v m n a b =
      rw (sliced (vector_type_of v) (m ∷ n ∷ []) a b refl)
        (ap {B = List ℕ} (λ k. k ∷ []) {x = a * (b * 1)} {y = a * b} (grind arith))

  -- Element (i, j) of the tile at (m, n), flattened, is element (m + i, n + j) of the operand.
  pub flatten_elem :
      (v : Value) (rows cols m n a b i j : ℕ)
      → Shape2 (vector_type_of v) rows cols
      → m + a ≤ rows
      → n + b ≤ cols
      → i < a
      → j < b
      → elem1 (flatten_to_1d (extract_2d mlir v (m ∷ n ∷ []) (a ∷ b ∷ []))) (i * b + j)
        ≡ elem2 v (m + i) (n + j)
  unfolding denote flatten_to_1d extract_2d
  flatten_elem v rows cols m n a b i j shape hm hn hi hj =
      machine.flatten_at _ _ _ a b i j (sliced _ (m ∷ n ∷ []) a b refl) (flatten-Shape1 v m n a b)
        hi hj
      ∙ machine.extract_slice_at _ _ _ rows cols m n a b i j shape hm hn hi hj

  -- The products that one call adds to element (i, j) of its accumulator.
  abbrev pub call_sum : ImeOp → Value → Value → ℕ → ℕ → ℕ
  call_sum op l r i j = sum_below 8 (λ t.
      extend (reads_signed op).0 8 32 (elem1 l (i * 8 + t))
      * extend (reads_signed op).1 8 32 (elem1 r (j * 8 + t)))

  pub create_ime_op-Shape1 :
      (op : ImeOp) (acc l r : Value)
      → Shape1 (vector_type_of acc) 16
      → Shape1 (vector_type_of (create_ime_op op acc l r)) 16
  unfolding create_ime_op
  create_ime_op-Shape1 op acc l r h = h

  created :
      (op : ImeOp) (ty : VectorType) (acc l r : Value) (n i j : ℕ)
      → op ≢ ImeOp.nop
      → n ≡ 32
      → i < 4
      → j < 4
      → elem1 (create_hardware_op op ty acc l r (Value.constant_i64 n)) (i * 4 + j)
        ≡ (elem1 acc (i * 4 + j) + call_sum op l r i j) % 2 ^ 32
  unfolding denote
  created ImeOp.nop ty acc l r n i j chosen e hi hj = absurd (chosen refl)
  created ImeOp.vmadot ty acc l r n i j chosen e hi hj =
      rw e (machine.ime_at ImeOp.vmadot _ _ _ 0 i j chosen hi hj)
  created ImeOp.vmadotu ty acc l r n i j chosen e hi hj =
      rw e (machine.ime_at ImeOp.vmadotu _ _ _ 0 i j chosen hi hj)
  created ImeOp.vmadotsu ty acc l r n i j chosen e hi hj =
      rw e (machine.ime_at ImeOp.vmadotsu _ _ _ 0 i j chosen hi hj)
  created ImeOp.vmadotus ty acc l r n i j chosen e hi hj =
      rw e (machine.ime_at ImeOp.vmadotus _ _ _ 0 i j chosen hi hj)

  -- The scalable register holds the fixed vector's elements.
  wrapped :
      (v : Value) (ty : VectorType) (n i : ℕ)
      → Shape1 (vector_type_of v) n
      → i < n
      → elem1 (Value.scalable_insert v (Value.poison ty) 0) i ≡ elem1 v i
  unfolding denote
  wrapped v ty n i h lt = machine.scalable_insert_at _ _ _ _ n i h lt

  call_sum_wrapped :
      (op : ImeOp) (l r : Value) (s t : VectorType) (i j : ℕ)
      → Shape1 (vector_type_of l) 32
      → Shape1 (vector_type_of r) 32
      → i < 4
      → j < 4
      → call_sum op
          (Value.scalable_insert l (Value.poison s) 0)
          (Value.scalable_insert r (Value.poison t) 0)
          i
          j
        ≡ call_sum op l r i j
  call_sum_wrapped op l r s t i j hl hr hi hj = sum_below_congr 8 _ _ λ k lt.
      rw (wrapped l s 32 (i * 8 + k) hl (omega arith), wrapped r t 32 (j * 8 + k) hr (omega arith))

  -- `createIMEOp` adds the products of one call to its accumulator, modulo 2 ^ 32.
  pub create_ime_op_elem :
      (op : ImeOp) (acc l r : Value) (i j : ℕ)
      → op ≢ ImeOp.nop
      → Shape1 (vector_type_of acc) 16
      → Shape1 (vector_type_of l) 32
      → Shape1 (vector_type_of r) 32
      → i < 4
      → j < 4
      → elem1 (create_ime_op op acc l r) (i * 4 + j)
        ≡ (elem1 acc (i * 4 + j) + call_sum op l r i j) % 2 ^ 32
  unfolding create_ime_op denote
  create_ime_op_elem op acc l r i j chosen ha hl hr hi hj =
      machine.scalable_extract_at _ _ _ 16 (i * 4 + j) ha (omega arith)
      ∙ created op _ _ _ _ _ i j chosen (ap product hl) hi hj
      ∙ ap₂ (λ a b. (a + b) % 2 ^ 32) (wrapped acc _ 16 (i * 4 + j) ha (omega arith))
          (call_sum_wrapped op l r _ _ i j hl hr hi hj)
