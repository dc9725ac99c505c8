-- ===== src/Contract/Sound.antt =====
-- The rewrite as a whole: `matchAndRewrite` of LowerContractionToRISCVIMEVMADOTPattern.cpp replaces
-- a row-major contraction by code that computes it.
use mathlib.Core.Path.{ap₂}
use spacemit_ime_iree_tcp.Shared.{
  ℕ, suc, ◌+◌, ◌*◌, ◌%◌, ◌^◌, ◌<◌, ◌≡◌, ◌≢◌, refl, ap, ◌∙◌, Bool, true, false, [], ◌∷◌, arith,
  ==_refl,
}
use spacemit_ime_iree_tcp.Contract.Ir.{
  Value, vector_type_of, is_signless_i32, ContractionOp, CombiningKind, AffineMap, AffineExpr,
  parallel, reduction, ImeOp,
}
use spacemit_ime_iree_tcp.Contract.Match.{
  Failure, success, match_dims, lhs_dims, find_physical_dim, match_and_init, select_op, widen_to_i8,
  extended_operand,
}
use spacemit_ime_iree_tcp.Contract.Lower.{Mlir, lower, match_and_rewrite}
use spacemit_ime_iree_tcp.Contract.Semantics.{Machine, reads_signed, sum_below, Shape2}
use spacemit_ime_iree_tcp.Contract.Operand.{
  Accepted, Reads, contract_reads, element_at, extended_operand-Accepted,
}
use spacemit_ime_iree_tcp.Contract.Tile.Step.{SliceShape, sum_below_congr}
use spacemit_ime_iree_tcp.Contract.Tile.Loop.{Setup}
use spacemit_ime_iree_tcp.Contract.Tile.Rows.{m_tiles, m_inside}

-- Operands of m x k and n x k with the maps (m, k) and (n, k), and an i32 accumulator of m x n: all
-- that the rewrite looks at. It tests neither the combining kind nor the map of the result.
pub record RowMajorOperands (op : ContractionOp) (acc_map : AffineMap) (m n k : ℕ) : Type 0 where
  pub iterators : op.iterator_types ≡ parallel ∷ parallel ∷ reduction ∷ []
  pub maps :
      op.indexing_maps
      ≡ record { dims = 3; results = AffineExpr.dim 0 ∷ AffineExpr.dim 2 ∷ [] }
        ∷ record { dims = 3; results = AffineExpr.dim 1 ∷ AffineExpr.dim 2 ∷ [] }
        ∷ acc_map
        ∷ []
  pub lhs_shape : Shape2 (vector_type_of op.lhs) m k
  pub rhs_shape : Shape2 (vector_type_of op.rhs) n k
  pub acc_shape : Shape2 (vector_type_of op.acc) m n
  pub acc_i32 : is_signless_i32 (vector_type_of op.acc).element ≡ true

-- A matrix multiplication of m x k by n x k: its products are added, and its result has the map
-- (m, n).
pub record RowMajorMatmul (op : ContractionOp) (m n k : ℕ) : Type 0 where
  pub operands :
      RowMajorOperands op
        (record { dims = 3; results = AffineExpr.dim 0 ∷ AffineExpr.dim 1 ∷ [] })
        m
        n
        k
  pub kind : op.kind ≡ CombiningKind.add

match_dims-RowMajorOperands :
    (op : ContractionOp) (acc_map : AffineMap) (m n k : ℕ)
    → RowMajorOperands op acc_map m n k
    → match_dims op ≡ success (record { m = m; n = n; k = k })
unfolding match_dims lhs_dims find_physical_dim
match_dims-RowMajorOperands op acc_map m n k p =
    rw (p.iterators, p.maps) (rw (p.lhs_shape, p.rhs_shape) (rw (==_refl k)))

reads_signed-select_op : (a b : Bool) → reads_signed (select_op a b) ≡ (a, b)
unfolding select_op
reads_signed-select_op a b = ground arith

pub select_op-ne-nop : (a b : Bool) → select_op a b ≢ ImeOp.nop
unfolding select_op
select_op-ne-nop a b = ground arith

-- `StaticTileOffsetRange` runs through the tiles of a divisible shape in row-major order.
abbrev pub RowMajorTiles : Mlir → Type 0
RowMajorTiles mlir =
    (a b c m n k : ℕ)
    → 4 * a ≡ m
    → 4 * b ≡ n
    → 8 * suc c ≡ k
    → mlir.tile_offsets (m ∷ n ∷ k ∷ []) (4 ∷ 4 ∷ 8 ∷ []) (0 ∷ 1 ∷ 2 ∷ []) ≡ m_tiles 0 (suc c) b a

module _ (machine : Machine) (env : ℕ → machine.Vector) (mlir : Mlir) where
  -- A cell of the contraction: the accumulator and the products along k, modulo 2 ^ 32.
  unfoldable pub contraction : ContractionOp → ℕ → ℕ → ℕ → ℕ
  contraction op k i j =
      (element_at machine env op.acc i j
        + sum_below k (λ t.
          contract_reads (vector_type_of op.lhs).element (element_at machine env op.lhs i t)
          * contract_reads (vector_type_of op.rhs).element (element_at machine env op.rhs j t)))
      % 2 ^ 32

  pub matched :
      (op : ContractionOp) (m n k : ℕ) (l r : Value × Bool)
      → match_dims op ≡ success (record { m = m; n = n; k = k })
      → is_signless_i32 (vector_type_of op.acc).element ≡ true
      → extended_operand op.lhs Failure.lhs_not_extended ≡ success l
      → extended_operand op.rhs Failure.rhs_not_extended ≡ success r
      → match_and_init op
        ≡ success (record {
          ime_op = select_op l.1 r.1;
          lhs = widen_to_i8 l.0 l.1;
          rhs = widen_to_i8 r.0 r.1;
          acc = op.acc;
          dims = record { m = m; n = n; k = k };
        })
  unfolding match_and_init
  matched op m n k l r dims wide el er = rw (dims, match_and_init) (rw el (rw er (rw wide)))

  -- The lowering reads both operands as (row, k), whatever the maps say.
  pub lower-contraction :
      (op : ContractionOp) (a b c m n k : ℕ) (l r : Value × Bool) (i j : ℕ)
      → SliceShape mlir
      → RowMajorTiles mlir
      → (4 * a ≡ m) × (4 * b ≡ n) × (8 * suc c ≡ k)
      → Shape2 (vector_type_of op.lhs) m k
      → Shape2 (vector_type_of op.rhs) n k
      → Shape2 (vector_type_of op.acc) m n
      → Reads machine env op.lhs l
      → Reads machine env op.rhs r
      → i < m
      → j < n
      → element_at machine env
          (lower mlir (record {
            ime_op = select_op l.1 r.1;
            lhs = widen_to_i8 l.0 l.1;
            rhs = widen_to_i8 r.0 r.1;
            acc = op.acc;
            dims = record { m = m; n = n; k = k };
          }))
          i
          j
        ≡ contraction op k i j
  unfolding lower contraction
  lower-contraction op a b c m n k l r i j sliced tiles (em, en, ek) ls rs accs rl rr hi hj =
      rw (tiles a b c m n k em en ek, lower)
        (m_inside setup _ 0 c b a i j accs (omega arith) en ek (omega arith)
          ∙ ap (λ s. (element_at machine env op.acc i j + s) % 2 ^ 32)
              (sum_below_congr k _ _
                λ t lt. rw (reads_signed-select_op l.1 r.1) (ap₂ ◌*◌ (rl.1 i t) (rr.1 j t))))
    where
      setup : Setup
      setup = record {
        machine = machine;
        env = env;
        mlir = mlir;
        sliced = sliced;
        r = record {
          ime_op = select_op l.1 r.1;
          lhs = widen_to_i8 l.0 l.1;
          rhs = widen_to_i8 r.0 r.1;
          acc = op.acc;
          dims = record { m = m; n = n; k = k };
        };
        chosen = select_op-ne-nop l.1 r.1;
        lhs_shape = rl.0 ∙ ls;
        rhs_shape = rr.0 ∙ rs;
        acc_shape = accs;
      }

  -- An unmasked contraction of accepted row-major operands, whose extents are multiples of 4, 4 and 8
  -- with at least one tile along K, is replaced whatever its combining kind and the map of its result
  -- are, and every cell of the replacement is the accumulator's cell plus the products along K, modulo
  -- 2 ^ 32: right for the kind add and the map (m, n) only. It is assumed of MLIR that tiles run in
  -- row-major order and that a slice has the shape of its sizes, and of the machine the documented
  -- element laws.
  pub match_and_rewrite-sums :
      (op : ContractionOp) (acc_map : AffineMap) (a b c i j : ℕ)
      → SliceShape mlir
      → RowMajorTiles mlir
      → op.is_masked ≡ false
      → RowMajorOperands op acc_map (4 * a) (4 * b) (8 * suc c)
      → Accepted machine env op.lhs
      → Accepted machine env op.rhs
      → i < 4 * a
      → j < 4 * b
      → (v : Value) × (match_and_rewrite mlir op ≡ success v)
        × (element_at machine env v i j ≡ contraction op (8 * suc c) i j)
  unfolding match_and_rewrite
  match_and_rewrite-sums op acc_map a b c i j sliced tiles unmasked p al ar hi hj =
      let (l, el, rl) = extended_operand-Accepted machine env op.lhs Failure.lhs_not_extended al in
      let (r, er, rr) = extended_operand-Accepted machine env op.rhs Failure.rhs_not_extended ar in
      (
        _,
        rw
            (
              matched op _ _ _ l r (match_dims-RowMajorOperands op _ _ _ _ p) p.acc_i32 el er,
              match_and_rewrite,
            )
            (rw unmasked),
        lower-contraction op a b c _ _ _ l r i j sliced tiles (refl, refl, refl) p.lhs_shape
            p.rhs_shape p.acc_shape rl rr hi hj,
      )

  -- An unmasked row-major contraction of kind add, with the result map (m, n) and of accepted operands, whose extents are multiples of 4, 4
  -- and 8 with at least one tile along K, is replaced, and every cell of the replacement is the
  -- contraction's cell, modulo 2 ^ 32. It is assumed of MLIR that tiles run in row-major order and
  -- that a slice has the shape of its sizes, and of the machine the documented element laws.
  pub match_and_rewrite_sound :
      (op : ContractionOp) (a b c i j : ℕ)
      → SliceShape mlir
      → RowMajorTiles mlir
      → op.is_masked ≡ false
      → RowMajorMatmul op (4 * a) (4 * b) (8 * suc c)
      → Accepted machine env op.lhs
      → Accepted machine env op.rhs
      → i < 4 * a
      → j < 4 * b
      → (v : Value) × (match_and_rewrite mlir op ≡ success v)
        × (element_at machine env v i j ≡ contraction op (8 * suc c) i j)
  match_and_rewrite_sound op a b c i j sliced tiles unmasked p al ar hi hj =
      match_and_rewrite-sums op _ a b c i j sliced tiles unmasked p.operands al ar hi hj
