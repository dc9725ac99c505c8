-- ===== src/Contract/Tile/Loop.antt =====
-- The loop of `lower` over the tiles: along K, along N, along M.
use spacemit_ime_iree_tcp.Shared.{
  ℕ, zero, suc, ◌+◌, ◌*◌, ◌%◌, ◌^◌, ◌<◌, ◌≤◌, ◌≡◌, ◌≢◌, ◌⊎◌, inl, inr, [], ◌∷◌, arith, ◌==◌, false,
}
use spacemit_ime_iree_tcp.Contract.Ir.{ImeOp, Value, vector_type_of}
use spacemit_ime_iree_tcp.Contract.Match.{Rewriter}
use spacemit_ime_iree_tcp.Contract.Lower.{
  Mlir, flatten_to_1d, extract_2d, LoopState, tile_acc, lower_tile,
}
use spacemit_ime_iree_tcp.Contract.Semantics.{
  Machine, extend, reads_signed, sum_below, Shape1, Shape2,
}
use spacemit_ime_iree_tcp.Contract.Tile.Step.{
  SliceShape, sum_below_congr, elem1, elem2, flatten-Shape1, flatten_elem, call_sum,
  create_ime_op-Shape1, create_ime_op_elem,
}

pub sum_below_add :
    (k n : ℕ) (f : ℕ → ℕ) → sum_below (k + n) f ≡ sum_below k f + sum_below n (λ t. f (k + t))
unfolding sum_below
sum_below_add k zero f = let e : k + 0 ≡ k = omega arith in rw e (omega arith)
sum_below_add k (suc n) f =
    let e : k + suc n ≡ suc (k + n) = omega arith in rw e (omega (arith, sum_below_add k n f))

-- A rewriter after a match, with the shapes that its maps promise, and the semantics to run it in.
pub record Setup : Type 1 where
  pub machine : Machine
  pub env : ℕ → machine.Vector
  pub mlir : Mlir
  pub sliced : SliceShape mlir
  pub r : Rewriter
  pub chosen : r.ime_op ≢ ImeOp.nop
  pub lhs_shape : Shape2 (vector_type_of r.lhs) r.dims.m r.dims.k
  pub rhs_shape : Shape2 (vector_type_of r.rhs) r.dims.n r.dims.k
  pub acc_shape : Shape2 (vector_type_of r.acc) r.dims.m r.dims.n

module _ (u : Setup) where
  open u use {machine, env, mlir, sliced, r, chosen, lhs_shape, rhs_shape, acc_shape}

  -- One product, and the value of a cell after the products below k.
  abbrev pub term : ℕ → ℕ → ℕ → ℕ
  term i j t =
      extend (reads_signed r.ime_op).0 8 32 (elem2 machine env mlir sliced r.lhs i t)
      * extend (reads_signed r.ime_op).1 8 32 (elem2 machine env mlir sliced r.rhs j t)

  abbrev pub cell : ℕ → ℕ → ℕ → ℕ
  cell i j k = (elem2 machine env mlir sliced r.acc i j + sum_below k (term i j)) % 2 ^ 32

  -- A flat accumulator of the tile at (m, n) that holds the products below k.
  abbrev pub Carries : Value → ℕ → ℕ → ℕ → Type 0
  Carries v m n k =
      Shape1 (vector_type_of v) 16
      × ((i j : ℕ)
          → i < 4
          → j < 4
          → elem1 machine env mlir sliced v (i * 4 + j) % 2 ^ 32 ≡ cell (m + i) (n + j) k)

  tile_acc-Carries :
      (s : LoopState) (m n k : ℕ)
      → m + 4 ≤ r.dims.m
      → n + 4 ≤ r.dims.n
      → (k ≡ 0) ⊎ Carries s.k_acc m n k
      → Carries (tile_acc mlir r s m n k) m n k
  unfolding tile_acc sum_below
  tile_acc-Carries s m n zero hm hn h = (
    flatten-Shape1 machine env mlir sliced r.acc m n 4 4,
    λ i j hi hj.
        omega
          (arith, flatten_elem machine env mlir sliced r.acc _ _ m n 4 4 i j acc_shape hm hn hi hj),
  )
  tile_acc-Carries s m n (suc k) hm hn (inl e) = absurd (omega arith)
  tile_acc-Carries s m n (suc k) hm hn (inr c) =
      let e : (suc k == 0) ≡ false = ground arith in rw (e, tile_acc) c

  tile_sum :
      (m n k i j : ℕ)
      → m + 4 ≤ r.dims.m
      → n + 4 ≤ r.dims.n
      → k + 8 ≤ r.dims.k
      → i < 4
      → j < 4
      → call_sum machine env mlir sliced r.ime_op
          (flatten_to_1d (extract_2d mlir r.lhs (m ∷ k ∷ []) (4 ∷ 8 ∷ [])))
          (flatten_to_1d (extract_2d mlir r.rhs (n ∷ k ∷ []) (4 ∷ 8 ∷ [])))
          i
          j
        ≡ sum_below 8 (λ t. term (m + i) (n + j) (k + t))
  tile_sum m n k i j hm hn hk hi hj = sum_below_congr 8 _ _ λ t lt. rw (
    flatten_elem machine env mlir sliced r.lhs _ _ m k 4 8 i t lhs_shape hm hk hi lt,
    flatten_elem machine env mlir sliced r.rhs _ _ n k 4 8 j t rhs_shape hn hk hj lt,
  )

  -- A round leaves the products below k + 8 in its accumulator.
  pub lower_tile_elem :
      (s : LoopState) (m n k i j : ℕ)
      → m + 4 ≤ r.dims.m
      → n + 4 ≤ r.dims.n
      → k + 8 ≤ r.dims.k
      → (k ≡ 0) ⊎ Carries s.k_acc m n k
      → i < 4
      → j < 4
      → elem1 machine env mlir sliced (lower_tile mlir r s (m ∷ n ∷ k ∷ [])).k_acc (i * 4 + j)
        ≡ cell (m + i) (n + j) (k + 8)
  unfolding lower_tile
  lower_tile_elem s m n k i j hm hn hk h hi hj =
      let carried = tile_acc-Carries s m n k hm hn h in
      omega (
        arith,
        carried.1 i j hi hj,
        sum_below_add k 8 (term (m + i) (n + j)),
        tile_sum m n k i j hm hn hk hi hj,
        create_ime_op_elem machine env mlir sliced r.ime_op (tile_acc mlir r s m n k)
            (flatten_to_1d (extract_2d mlir r.lhs (m ∷ k ∷ []) (4 ∷ 8 ∷ [])))
            (flatten_to_1d (extract_2d mlir r.rhs (n ∷ k ∷ []) (4 ∷ 8 ∷ []))) i j chosen carried.0
            (flatten-Shape1 machine env mlir sliced r.lhs m k 4 8)
            (flatten-Shape1 machine env mlir sliced r.rhs n k 4 8) hi hj,
      )

  pub lower_tile-Shape1 :
      (s : LoopState) (m n k : ℕ)
      → m + 4 ≤ r.dims.m
      → n + 4 ≤ r.dims.n
      → (k ≡ 0) ⊎ Carries s.k_acc m n k
      → Shape1 (vector_type_of (lower_tile mlir r s (m ∷ n ∷ k ∷ [])).k_acc) 16
  unfolding lower_tile
  lower_tile-Shape1 s m n k hm hn h =
      create_ime_op-Shape1 machine env mlir sliced r.ime_op _ _ _
        (tile_acc-Carries s m n k hm hn h).0

  pub lower_tile-Carries :
      (s : LoopState) (m n k : ℕ)
      → m + 4 ≤ r.dims.m
      → n + 4 ≤ r.dims.n
      → k + 8 ≤ r.dims.k
      → (k ≡ 0) ⊎ Carries s.k_acc m n k
      → Carries (lower_tile mlir r s (m ∷ n ∷ k ∷ [])).k_acc m n (k + 8)
  lower_tile-Carries s m n k hm hn hk h = (
    lower_tile-Shape1 s m n k hm hn h,
    λ i j hi hj. omega (arith, lower_tile_elem s m n k i j hm hn hk h hi hj),
  )
