-- ===== src/Contract/Lower.antt =====
-- `VectorContractRewriter::lower`, `createIMEOp`, the two rank helpers and the pattern's
-- `matchAndRewrite`, of LowerContractionToRISCVIMEVMADOTPattern.cpp. `StaticTileOffsetRange` and
-- the type that `ExtractStridedSliceOp` infers are MLIR's, and are parameters.
use spacemit_ime_iree_tcp.Shared.{
  ℕ, ◌+◌, true, false, not, List, [], ◌∷◌, foldl, ◌==◌, leb, any, if◌then◌else◌, get_or, product,
}
use spacemit_ime_iree_tcp.Contract.Ir.{
  ElementType, VectorType, num_elements, ImeOp, Value, vector_type_of, ContractionOp,
}
use spacemit_ime_iree_tcp.Contract.Match.{
  Failure, Match, success, ◌>>=◌, ◌>>◌, require, Rewriter, match_and_init,
}

-- What the lowering calls of MLIR.
pub record Mlir : Type 0 where
  -- `StaticTileOffsetRange(shape, tile, loop order)`, as the list that its iterator runs through.
  pub tile_offsets : List ℕ → List ℕ → List ℕ → List (List ℕ)
  -- The result type of `vector.extract_strided_slice` from its operand's type, offsets and sizes.
  pub slice_type : VectorType → List ℕ → List ℕ → VectorType

unfoldable pub flatten_to_1d : Value → Value
flatten_to_1d v =
    let ty = vector_type_of v in
    Value.shape_cast
      (record {
        shape = product ty.shape ∷ [];
        scalable = any (λ b. b) ty.scalable ∷ [];
        element = ty.element;
      })
      v

unfoldable pub unflatten_to : Value → VectorType → Value
unflatten_to v target = Value.shape_cast target v

abbrev pub scalable_type : ℕ → ElementType → VectorType
scalable_type n e = record { shape = n ∷ []; scalable = true ∷ []; element = e }

-- `nop` is `llvm_unreachable`: no operation is created.
abbrev pub create_hardware_op : ImeOp → VectorType → Value → Value → Value → Value → Value
create_hardware_op ImeOp.nop ty acc lhs rhs vl = Value.null
create_hardware_op ImeOp.vmadot ty acc lhs rhs vl = Value.ime ImeOp.vmadot ty acc lhs rhs vl 0
create_hardware_op ImeOp.vmadotu ty acc lhs rhs vl = Value.ime ImeOp.vmadotu ty acc lhs rhs vl 0
create_hardware_op ImeOp.vmadotsu ty acc lhs rhs vl = Value.ime ImeOp.vmadotsu ty acc lhs rhs vl 0
create_hardware_op ImeOp.vmadotus ty acc lhs rhs vl = Value.ime ImeOp.vmadotus ty acc lhs rhs vl 0

unfoldable pub create_ime_op : ImeOp → Value → Value → Value → Value
create_ime_op op acc lhs rhs =
    let acc_fixed = vector_type_of acc in
    let acc_scalable = scalable_type 4 acc_fixed.element in
    let in_scalable = scalable_type 8 (vector_type_of lhs).element in
    let vl = Value.constant_i64 (num_elements (vector_type_of lhs)) in
    let to_scalable =
      λ (fixed : Value) (ty : VectorType). Value.scalable_insert fixed (Value.poison ty) 0 in
    Value.scalable_extract acc_fixed
      (create_hardware_op op acc_scalable (to_scalable acc acc_scalable)
        (to_scalable lhs in_scalable) (to_scalable rhs in_scalable) vl)
      0

-- The variables that the loop of `lower` carries from one tile to the next.
pub record LoopState : Type 0 where
  pub result : Value
  pub k_acc : Value

module _ (mlir : Mlir) where
  unfoldable pub extract_2d : Value → List ℕ → List ℕ → Value
  extract_2d v off size =
      Value.extract_slice (mlir.slice_type (vector_type_of v) off size) v off size (1 ∷ 1 ∷ [])

  -- The accumulator of a call: the operand's tile at first, then what the last call left.
  unfoldable pub tile_acc : Rewriter → LoopState → ℕ → ℕ → ℕ → Value
  tile_acc r s m n k =
      if k == 0 then flatten_to_1d (extract_2d r.acc (m ∷ n ∷ []) (4 ∷ 4 ∷ [])) else s.k_acc

  -- One round of the loop: the tile at the offsets m, n, k.
  unfoldable pub lower_tile : Rewriter → LoopState → List ℕ → LoopState
  lower_tile r s offsets =
      let m = get_or offsets 0 0 in
      let n = get_or offsets 1 0 in
      let k = get_or offsets 2 0 in
      let tiled_lhs = extract_2d r.lhs (m ∷ k ∷ []) (4 ∷ 8 ∷ []) in
      let tiled_rhs = extract_2d r.rhs (n ∷ k ∷ []) (4 ∷ 8 ∷ []) in
      let k_acc =
        create_ime_op r.ime_op (tile_acc r s m n k) (flatten_to_1d tiled_lhs)
          (flatten_to_1d tiled_rhs) in
      let tile_type : VectorType = record {
        shape = 4 ∷ 4 ∷ [];
        scalable = false ∷ false ∷ [];
        element = (vector_type_of r.acc).element;
      } in
      let written =
        Value.insert_slice (unflatten_to k_acc tile_type) s.result (m ∷ n ∷ []) (1 ∷ 1 ∷ []) in
      record { result = if leb r.dims.k (k + 8) then written else s.result; k_acc = k_acc }

  unfoldable pub lower : Rewriter → Value
  lower r =
      let offsets =
        mlir.tile_offsets (r.dims.m ∷ r.dims.n ∷ r.dims.k ∷ []) (4 ∷ 4 ∷ 8 ∷ []) (0 ∷ 1 ∷ 2 ∷ []) in
      (foldl (lower_tile r)
        (record { result = Value.zeros (vector_type_of r.acc); k_acc = Value.null }) offsets).result

  -- The value that replaces the operation, or the reason why it stays.
  unfoldable pub match_and_rewrite : ContractionOp → Match Value
  match_and_rewrite op = do
    require (not op.is_masked) Failure.masked_contraction
    r ← match_and_init op
    success (lower r)
