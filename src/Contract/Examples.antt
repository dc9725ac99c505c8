-- ===== src/Contract/Examples.antt =====
-- The theorems on the rewrite applied to contractions of one 4x4x8 tile.
use spacemit_ime_iree_tcp.Shared.{
  ℕ, zero, suc, ◌-◌, ◌^◌, ◌<◌, ◌≡◌, ◌≢◌, refl, false, [], ◌∷◌, arith,
}
use spacemit_ime_iree_tcp.Contract.Ir.{
  Value, vector, vector_type_of, ContractionOp, CombiningKind, AffineMap, AffineExpr, parallel,
  reduction, ImeOp, i8, i32,
}
use spacemit_ime_iree_tcp.Contract.Match.{
  success, Rewriter, match_and_init, match_dims, lhs_dims, find_physical_dim, extended_operand,
  get_ext_operand, select_op, widen_to_i8,
}
use spacemit_ime_iree_tcp.Contract.Limits.{match_and_init_types}
use spacemit_ime_iree_tcp.Contract.Layout.{
  ColumnMajorMatmul, meant, transposed, product_with, column_major_transposes, vector_left_rejected,
}
use spacemit_ime_iree_tcp.Contract.Lower.{lower, match_and_rewrite}
use spacemit_ime_iree_tcp.Contract.Semantics.{denote, sum_below, sign_extend, matrix_type}
use spacemit_ime_iree_tcp.Contract.Operand.{Accepted, element_at}
use spacemit_ime_iree_tcp.Contract.Sound.{
  RowMajorOperands, RowMajorMatmul, contraction, match_and_rewrite-sums, match_and_rewrite_sound,
}
use spacemit_ime_iree_tcp.Contract.Model.{Elements, machine, mlir, row_major}

-- Rows of -1 as i8, rows of 2 as i8 extended by zeros to i32, and an accumulator of 5.
abbrev env : ℕ → Elements
env zero is = 255
env (suc zero) is = 2
env _ is = 5

abbrev one_tile : ContractionOp
one_tile = record {
  lhs = Value.opaque 0 (vector (matrix_type 4 8 i8));
  rhs = Value.ext_ui (vector (matrix_type 4 8 i32)) (Value.opaque 1 (vector (matrix_type 4 8 i8)));
  acc = Value.opaque 2 (vector (matrix_type 4 4 i32));
  iterator_types = parallel ∷ parallel ∷ reduction ∷ [];
  indexing_maps =
      record { dims = 3; results = AffineExpr.dim 0 ∷ AffineExpr.dim 2 ∷ [] }
      ∷ record { dims = 3; results = AffineExpr.dim 1 ∷ AffineExpr.dim 2 ∷ [] }
      ∷ record { dims = 3; results = AffineExpr.dim 0 ∷ AffineExpr.dim 1 ∷ [] }
      ∷ [];
  kind = CombiningKind.add;
  is_masked = false;
}

abbrev result_map : AffineMap
result_map = record { dims = 3; results = AffineExpr.dim 0 ∷ AffineExpr.dim 1 ∷ [] }

abbrev transposed_map : AffineMap
transposed_map = record { dims = 3; results = AffineExpr.dim 1 ∷ AffineExpr.dim 0 ∷ [] }

one_tile-RowMajorOperands : RowMajorOperands one_tile result_map 4 4 8
one_tile-RowMajorOperands = record {
  iterators = refl;
  maps = refl;
  lhs_shape = refl;
  rhs_shape = refl;
  acc_shape = refl;
  acc_i32 = refl;
}

one_tile-RowMajorMatmul : RowMajorMatmul one_tile 4 4 8
one_tile-RowMajorMatmul = record { operands = one_tile-RowMajorOperands; kind = refl }

lhs-Accepted : Accepted machine env one_tile.lhs
unfolding denote
lhs-Accepted = Accepted.plain (matrix_type 4 8 i8) refl refl refl (λ i j. omega arith)

rhs-Accepted : Accepted machine env one_tile.rhs
unfolding denote
rhs-Accepted =
    Accepted.zero_extended (Value.opaque 1 (vector (matrix_type 4 8 i8))) (matrix_type 4 8 i8)
      (matrix_type 4 8 i32) refl refl refl refl refl (λ i j. omega arith)

match_and_rewrite_sound_example :
    (v : Value) × (match_and_rewrite mlir one_tile ≡ success v)
    × (element_at machine env v 3 2 ≡ contraction machine env mlir one_tile 8 3 2)
match_and_rewrite_sound_example =
    match_and_rewrite_sound machine env mlir one_tile 1 1 0 3 2 (λ t off a b h. refl) row_major refl
      one_tile-RowMajorMatmul lhs-Accepted rhs-Accepted (omega arith) (omega arith)

-- The same tile with products that are combined otherwise, and a transposed result.
abbrev other_kind : ContractionOp
other_kind = record one_tile {
  kind = CombiningKind.another_kind;
  indexing_maps =
      record { dims = 3; results = AffineExpr.dim 0 ∷ AffineExpr.dim 2 ∷ [] }
      ∷ record { dims = 3; results = AffineExpr.dim 1 ∷ AffineExpr.dim 2 ∷ [] }
      ∷ record { dims = 3; results = AffineExpr.dim 1 ∷ AffineExpr.dim 0 ∷ [] }
      ∷ [];
}

other_kind-RowMajorOperands : RowMajorOperands other_kind transposed_map 4 4 8
other_kind-RowMajorOperands = record {
  iterators = refl;
  maps = refl;
  lhs_shape = refl;
  rhs_shape = refl;
  acc_shape = refl;
  acc_i32 = refl;
}

match_and_rewrite-sums_example :
    (v : Value) × (match_and_rewrite mlir other_kind ≡ success v)
    × (element_at machine env v 3 2 ≡ contraction machine env mlir other_kind 8 3 2)
match_and_rewrite-sums_example =
    match_and_rewrite-sums machine env mlir other_kind transposed_map 1 1 0 3 2
      (λ t off a b h. refl) row_major refl other_kind-RowMajorOperands lhs-Accepted rhs-Accepted
      (omega arith) (omega arith)

-- 5 + 8 * (-1 * 2) is -11.
one_tile_cell : contraction machine env mlir one_tile 8 0 0 ≡ 2 ^ 32 - 11
unfolding contraction denote sum_below sign_extend
one_tile_cell = refl

-- What the match makes of it: -1 signed, 2 unsigned.
abbrev one_tile_rewriter : Rewriter
one_tile_rewriter = record {
  ime_op = ImeOp.vmadotsu;
  lhs = Value.opaque 0 (vector (matrix_type 4 8 i8));
  rhs = Value.opaque 1 (vector (matrix_type 4 8 i8));
  acc = Value.opaque 2 (vector (matrix_type 4 4 i32));
  dims = record { m = 4; n = 4; k = 8 };
}

one_tile_matches : match_and_init one_tile ≡ success one_tile_rewriter
unfolding match_and_init match_dims lhs_dims find_physical_dim extended_operand get_ext_operand
    select_op widen_to_i8
one_tile_matches = refl

one_tile_rewrites : match_and_rewrite mlir one_tile ≡ success (lower mlir one_tile_rewriter)
unfolding match_and_rewrite
one_tile_rewrites = rw (one_tile_matches, match_and_rewrite)

match_and_init_types_example :
    ((vector_type_of one_tile_rewriter.lhs).element ≡ i8)
    × ((vector_type_of one_tile_rewriter.rhs).element ≡ i8)
    × ((vector_type_of one_tile_rewriter.acc).element ≡ i32)
    × (one_tile_rewriter.acc ≡ one_tile.acc)
    × (one_tile_rewriter.ime_op ≢ ImeOp.nop)
match_and_init_types_example = match_and_init_types one_tile one_tile_rewriter one_tile_matches

-- The right operand of 8 x 8 as (k, n): its map has k first.
abbrev column_major : ContractionOp
column_major = record {
  lhs = Value.opaque 0 (vector (matrix_type 4 8 i8));
  rhs = Value.opaque 1 (vector (matrix_type 8 8 i8));
  acc = Value.opaque 2 (vector (matrix_type 4 8 i32));
  iterator_types = parallel ∷ parallel ∷ reduction ∷ [];
  indexing_maps =
      record { dims = 3; results = AffineExpr.dim 0 ∷ AffineExpr.dim 2 ∷ [] }
      ∷ record { dims = 3; results = AffineExpr.dim 2 ∷ AffineExpr.dim 1 ∷ [] }
      ∷ record { dims = 3; results = AffineExpr.dim 0 ∷ AffineExpr.dim 1 ∷ [] }
      ∷ [];
  kind = CombiningKind.add;
  is_masked = false;
}

-- Ones on the left; on the right 1 in row 0 and 0 below.
abbrev top_row : ℕ → Elements
top_row zero is = 1
top_row (suc zero) (zero ∷ is) = 1
top_row (suc zero) is = 0
top_row _ is = 0

column_major-ColumnMajorMatmul : ColumnMajorMatmul column_major 4 8
column_major-ColumnMajorMatmul = record {
  iterators = refl;
  kind = refl;
  maps = refl;
  lhs_shape = refl;
  rhs_shape = refl;
  acc_shape = refl;
  acc_i32 = refl;
}

top_row-lt : (i j : ℕ) → top_row 1 (i ∷ j ∷ []) < 256
top_row-lt zero j = omega arith
top_row-lt (suc i) j = omega arith

-- The maps ask for 1 at the corner; the products of the rows add up to 8.
column_major_differs :
    transposed machine top_row mlir column_major 8 0 0
    ≢ meant machine top_row mlir column_major 8 0 0
unfolding product_with denote sum_below sign_extend
column_major_differs = ground arith

column_major_transposes_example :
    (v : Value) × (match_and_rewrite mlir column_major ≡ success v)
    × (element_at machine top_row v 0 0 ≡ transposed machine top_row mlir column_major 8 0 0)
unfolding denote
column_major_transposes_example =
    column_major_transposes machine top_row mlir column_major 1 0 0 0 (λ t off a b h. refl)
      row_major refl column_major-ColumnMajorMatmul
      (Accepted.plain (matrix_type 4 8 i8) refl refl refl (λ i j. omega arith))
      (Accepted.plain (matrix_type 8 8 i8) refl refl refl top_row-lt) (omega arith) (omega arith)

-- A vector times a matrix, with the maps (k), (n, k), (n).
abbrev vector_left : ContractionOp
vector_left = record {
  lhs = Value.opaque 0 (vector (record { shape = 8 ∷ []; scalable = false ∷ []; element = i8 }));
  rhs = Value.opaque 1 (vector (matrix_type 4 8 i8));
  acc = Value.opaque 2 (vector (record { shape = 4 ∷ []; scalable = false ∷ []; element = i32 }));
  iterator_types = parallel ∷ reduction ∷ [];
  indexing_maps =
      record { dims = 2; results = AffineExpr.dim 1 ∷ [] }
      ∷ record { dims = 2; results = AffineExpr.dim 0 ∷ AffineExpr.dim 1 ∷ [] }
      ∷ record { dims = 2; results = AffineExpr.dim 0 ∷ [] }
      ∷ [];
  kind = CombiningKind.add;
  is_masked = false;
}

vector_left_rejected_example : match_and_rewrite mlir vector_left ≢ success Value.null
vector_left_rejected_example =
    vector_left_rejected mlir vector_left (record { dims = 2; results = AffineExpr.dim 1 ∷ [] })
      (record { dims = 2; results = AffineExpr.dim 0 ∷ AffineExpr.dim 1 ∷ [] })
      (record { dims = 2; results = AffineExpr.dim 0 ∷ [] }) Value.null refl refl (omega arith)
