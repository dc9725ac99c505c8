-- ===== src/Contract/Layout.antt =====
-- The contractions whose layout the rewrite does not serve: a right operand stored as (k, n), and a
-- vector on the left (LowerContractionToRISCVIMEVMADOTPattern.cpp, `matchAndInit` and `lower`).
use spacemit_ime_iree_tcp.Shared.{
  ℕ, suc, ◌+◌, ◌*◌, ◌%◌, ◌^◌, ◌<◌, ◌≡◌, ◌≢◌, refl, Bool, true, false, List, [], ◌∷◌, none, arith,
  ==_refl, All, not,
}
use spacemit_ime_iree_tcp.Contract.Ir.{
  Value, vector_type_of, is_signless_i32, ContractionOp, CombiningKind, AffineMap, AffineExpr,
  parallel, reduction,
}
use spacemit_ime_iree_tcp.Contract.Match.{
  Failure, Match, success, Dims, is_matmul, require_some, ◌>>=◌, ◌>>◌, match_dims, lhs_dims,
  find_physical_dim, find_from, match_and_init, >>=-eq-success, require, select_op, widen_to_i8,
}
use spacemit_ime_iree_tcp.Contract.Lower.{Mlir, lower, match_and_rewrite}
use spacemit_ime_iree_tcp.Contract.Semantics.{Machine, sum_below, Shape2}
use spacemit_ime_iree_tcp.Contract.Operand.{
  Accepted, contract_reads, element_at, extended_operand-Accepted,
}
use spacemit_ime_iree_tcp.Contract.Tile.Step.{SliceShape}
use spacemit_ime_iree_tcp.Contract.Sound.{RowMajorTiles, contraction, matched, lower-contraction}

-- A square right operand stored as (k, n), which its map says; the other maps are (m, k) and (m, n).
pub record ColumnMajorMatmul (op : ContractionOp) (m n : ℕ) : Type 0 where
  pub iterators : op.iterator_types ≡ parallel ∷ parallel ∷ reduction ∷ []
  pub kind : op.kind ≡ CombiningKind.add
  pub maps :
      op.indexing_maps
      ≡ record { dims = 3; results = AffineExpr.dim 0 ∷ AffineExpr.dim 2 ∷ [] }
        ∷ record { dims = 3; results = AffineExpr.dim 2 ∷ AffineExpr.dim 1 ∷ [] }
        ∷ record { dims = 3; results = AffineExpr.dim 0 ∷ AffineExpr.dim 1 ∷ [] }
        ∷ []
  pub lhs_shape : Shape2 (vector_type_of op.lhs) m n
  pub rhs_shape : Shape2 (vector_type_of op.rhs) n n
  pub acc_shape : Shape2 (vector_type_of op.acc) m n
  pub acc_i32 : is_signless_i32 (vector_type_of op.acc).element ≡ true

match_dims-ColumnMajorMatmul :
    (op : ContractionOp) (m n : ℕ)
    → ColumnMajorMatmul op m n
    → match_dims op ≡ success (record { m = m; n = n; k = n })
unfolding match_dims lhs_dims find_physical_dim
match_dims-ColumnMajorMatmul op m n p =
    rw (p.iterators, p.maps) (rw (p.lhs_shape, p.rhs_shape) (rw (==_refl n)))

module _ (machine : Machine) (env : ℕ → machine.Vector) (mlir : Mlir) where
  -- A cell of the product with a right-hand matrix, given by its rows t and columns j.
  unfoldable pub product_with : ContractionOp → (ℕ → ℕ → ℕ) → ℕ → ℕ → ℕ → ℕ
  product_with op rhs k i j =
      (element_at machine env op.acc i j
        + sum_below k (λ t.
          contract_reads (vector_type_of op.lhs).element (element_at machine env op.lhs i t)
          * contract_reads (vector_type_of op.rhs).element (rhs t j)))
      % 2 ^ 32

  -- What the maps (m, k), (k, n), (m, n) ask for: row t and column j of the right operand are there.
  abbrev pub meant : ContractionOp → ℕ → ℕ → ℕ → ℕ
  meant op = product_with op (λ t j. element_at machine env op.rhs t j)

  abbrev pub transposed : ContractionOp → ℕ → ℕ → ℕ → ℕ
  transposed op = product_with op (λ t j. element_at machine env op.rhs j t)

  -- An unmasked contraction whose square right operand is stored as (k, n) is matched all the same,
  -- and every cell of its replacement is that of the product with the transpose of the right operand,
  -- modulo 2 ^ 32. (The sides are multiples of 8, and of 4 for M; MLIR's tiles run in row-major order,
  -- a slice has the shape of its sizes, and the machine has the documented element laws.)
  pub column_major_transposes :
      (op : ContractionOp) (a c i j : ℕ)
      → SliceShape mlir
      → RowMajorTiles mlir
      → op.is_masked ≡ false
      → ColumnMajorMatmul op (4 * a) (8 * suc c)
      → Accepted machine env op.lhs
      → Accepted machine env op.rhs
      → i < 4 * a
      → j < 8 * suc c
      → (v : Value) × (match_and_rewrite mlir op ≡ success v)
        × (element_at machine env v i j ≡ transposed op (8 * suc c) i j)
  unfolding match_and_rewrite product_with contraction
  column_major_transposes op a c i j sliced tiles unmasked p al ar hi hj =
      let (l, el, rl) = extended_operand-Accepted machine env op.lhs Failure.lhs_not_extended al in
      let (r, er, rr) = extended_operand-Accepted machine env op.rhs Failure.rhs_not_extended ar in
      (
        lower mlir (record {
          ime_op = select_op l.1 r.1;
          lhs = widen_to_i8 l.0 l.1;
          rhs = widen_to_i8 r.0 r.1;
          acc = op.acc;
          dims = record { m = 4 * a; n = 8 * suc c; k = 8 * suc c };
        }),
        rw
            (
              matched machine env mlir op _ _ _ l r (match_dims-ColumnMajorMatmul op _ _ p)
                  p.acc_i32 el er,
              match_and_rewrite,
            )
            (rw unmasked),
        lower-contraction machine env mlir op a (2 * suc c) c _ _ _ l r i j sliced tiles
            (refl, omega arith, refl) p.lhs_shape p.rhs_shape p.acc_shape rl rr hi hj,
      )

-- A position below n.
abbrev PositionBelow : ℕ → AffineExpr → Type 0
PositionBelow n (AffineExpr.dim d) = d < n
PositionBelow n _ = Unit

find_from-none :
    (es : List AffineExpr) (p iter : ℕ) → All (PositionBelow iter) es → find_from es p iter ≡ none
unfolding find_from
find_from-none [] p iter h = refl
find_from-none (AffineExpr.dim d ∷ es) p iter h = ground (arith, find_from-none es (p + 1) iter h.1)
find_from-none (AffineExpr.constant d ∷ es) p iter h = find_from-none es (p + 1) iter h.1
find_from-none (AffineExpr.compound ∷ es) p iter h = find_from-none es (p + 1) iter h.1

no_dims :
    (op : ContractionOp) (lm rm am : AffineMap) (d : Dims)
    → op.indexing_maps ≡ lm ∷ rm ∷ am ∷ []
    → find_physical_dim rm 2 ≡ none
    → match_dims op ≢ success d
unfolding match_dims
no_dims op lm rm am d maps missing h =
    stuck (is_matmul op.iterator_types) _ _ (rw (maps, match_dims) at h)
  where
    -- Whatever the checks before it say, the missing dimension ends the match.
    stuck :
        (b c : Bool) (rest : ℕ → ℕ → Match Dims)
        → (do
          require b Failure.not_a_matmul
          require c Failure.invalid_rank
          n ← require_some (find_physical_dim rm 1) Failure.no_rhs_dims
          k ← require_some (find_physical_dim rm 2) Failure.no_rhs_dims
          rest n k)
          ≢ success d
    stuck b c rest q = ground arith

-- No contraction with a vector on the left (iterators parallel, reduction) is ever rewritten, if its
-- maps have two dimensions, as the verifier has it: the match looks for a third one.
pub vector_left_rejected :
    (mlir : Mlir) (op : ContractionOp) (lm rm am : AffineMap) (v : Value)
    → op.iterator_types ≡ parallel ∷ reduction ∷ []
    → op.indexing_maps ≡ lm ∷ rm ∷ am ∷ []
    → All (PositionBelow 2) rm.results
    → match_and_rewrite mlir op ≢ success v
unfolding match_and_rewrite match_and_init find_physical_dim
vector_left_rejected mlir op lm rm am v its maps two h =
    let (_, _, h1) = >>=-eq-success (require (not op.is_masked) Failure.masked_contraction) _ h in
    let (r, er, _) = >>=-eq-success (match_and_init op) _ h1 in
    let (d, ed, _) = >>=-eq-success (match_dims op) _ er in
    no_dims op lm rm am d maps (find_from-none rm.results 0 2 two) ed
