-- ===== src/Contract/Tile/Rows.antt =====
-- The loop of `lower` over the tiles of the result: along K, then N, then M.
use spacemit_ime_iree_tcp.Shared.{
  ℕ, zero, suc, ◌+◌, ◌*◌, ◌<◌, ◌≤◌, ◌≡◌, ◌⊎◌, inl, inr, refl, ap, ◌∙◌, ◌-◌, foldl-append, subst,
  List, [], ◌∷◌, ◌++◌, arith, foldl, Bool-cases, true, leb,
}
use native.Mathlib.Decide.{dec_lt}
use spacemit_ime_iree_tcp.Contract.Ir.{vector_type_of}
use spacemit_ime_iree_tcp.Contract.Lower.{unflatten_to, LoopState, lower_tile}
use spacemit_ime_iree_tcp.Contract.Semantics.{denote, Shape2}
use spacemit_ime_iree_tcp.Contract.Tile.Loop.{
  Setup, cell, Carries, lower_tile_elem, lower_tile-Shape1, lower_tile-Carries,
}
use spacemit_ime_iree_tcp.Contract.Tile.Step.{elem2}

-- The tile offsets in row-major order: along K from k, along N from n, along M from m.
unfoldable pub k_tiles : ℕ → ℕ → ℕ → ℕ → List (List ℕ)
k_tiles m n k zero = []
k_tiles m n k (suc c) = (m ∷ n ∷ k ∷ []) ∷ k_tiles m n (k + 8) c

unfoldable pub n_tiles : ℕ → ℕ → ℕ → ℕ → List (List ℕ)
n_tiles m n c zero = []
n_tiles m n c (suc b) = k_tiles m n 0 c ++ n_tiles m (n + 4) c b

unfoldable pub m_tiles : ℕ → ℕ → ℕ → ℕ → List (List ℕ)
m_tiles m c b zero = []
m_tiles m c b (suc a) = n_tiles m 0 c b ++ m_tiles (m + 4) c b a

module _ (u : Setup) where
  open u use {machine, env, mlir, sliced, r, chosen, lhs_shape, rhs_shape, acc_shape}

  abbrev Shaped : LoopState → Type 0
  Shaped s = Shape2 (vector_type_of s.result) r.dims.m r.dims.n

  lower_tile-Shaped : (s : LoopState) (off : List ℕ) → Shaped s → Shaped (lower_tile mlir r s off)
  unfolding lower_tile
  lower_tile-Shaped s off h = ground arith

  abbrev Inside : ℕ → ℕ → ℕ → ℕ → Type 0
  Inside m n i j = (m ≤ i) × (i < m + 4) × (n ≤ j) × (j < n + 4)

  abbrev Outside : ℕ → ℕ → ℕ → ℕ → Type 0
  Outside m n i j = ((i < m) ⊎ (m + 4 ≤ i)) ⊎ ((j < n) ⊎ (n + 4 ≤ j))

  -- The round at the last k writes the tile's cells, each finished, and no others.
  last_inside :
      (s : LoopState) (m n k i j : ℕ)
      → Shaped s
      → m + 4 ≤ r.dims.m
      → n + 4 ≤ r.dims.n
      → k + 8 ≡ r.dims.k
      → (k ≡ 0) ⊎ Carries u s.k_acc m n k
      → i < 4
      → j < 4
      → elem2 machine env mlir sliced (lower_tile mlir r s (m ∷ n ∷ k ∷ [])).result (m + i) (n + j)
        ≡ cell u (m + i) (n + j) (k + 8)
  last_inside s m n k i j shaped hm hn hk h hi hj =
      let last : leb r.dims.k (k + 8) ≡ true = ground arith in
      unfold lower_tile denote unflatten_to in
      rw last (
        machine.insert_slice_inside _ _ _ _ r.dims.m r.dims.n m n 4 4 i j refl shaped hm hn hi hj
        ∙ machine.unflatten_at _ _ _ 4 4 i j (lower_tile-Shape1 u s m n k hm hn h) refl hi hj
        ∙ lower_tile_elem u s m n k i j hm hn (omega arith) h hi hj)

  tile-Outside :
      (s : LoopState) (m n k i j : ℕ)
      → Shaped s
      → Outside m n i j
      → elem2 machine env mlir sliced (lower_tile mlir r s (m ∷ n ∷ k ∷ [])).result i j
        ≡ elem2 machine env mlir sliced s.result i j
  unfolding lower_tile denote unflatten_to
  tile-Outside s m n k i j shaped out = elim (Bool-cases (leb r.dims.k (k + 8))) [
    | inl last ↦
        rw last (machine.insert_slice_outside _ _ _ _ r.dims.m r.dims.n m n 4 4 i j refl shaped out)
    | inr more ↦ rw more
  ]

  abbrev after : LoopState → List (List ℕ) → LoopState
  after = foldl (lower_tile mlir r)

  after_tiles-Shaped : (s : LoopState) (offs : List (List ℕ)) → Shaped s → Shaped (after s offs)
  after_tiles-Shaped s [] h = h
  after_tiles-Shaped s (o ∷ os) h =
      after_tiles-Shaped (lower_tile mlir r s o) os (lower_tile-Shaped s o h)

  -- The loop along K finishes the tile.
  k_inside :
      (s : LoopState) (m n k c i j : ℕ)
      → Shaped s
      → m + 4 ≤ r.dims.m
      → n + 4 ≤ r.dims.n
      → k + 8 * suc c ≡ r.dims.k
      → (k ≡ 0) ⊎ Carries u s.k_acc m n k
      → i < 4
      → j < 4
      → elem2 machine env mlir sliced (after s (k_tiles m n k (suc c))).result (m + i) (n + j)
        ≡ cell u (m + i) (n + j) r.dims.k
  unfolding k_tiles
  k_inside s m n k zero i j shaped hm hn hk h hi hj =
      let e : k + 8 ≡ r.dims.k = omega arith in
      last_inside s m n k i j shaped hm hn e h hi hj ∙ ap (cell u (m + i) (n + j)) e
  k_inside s m n k (suc c) i j shaped hm hn hk h hi hj =
      k_inside (lower_tile mlir r s (m ∷ n ∷ k ∷ [])) m n (k + 8) c i j
        (lower_tile-Shaped s _ shaped) hm hn (omega arith)
        (inr (lower_tile-Carries u s m n k hm hn (omega arith) h)) hi hj

  k-Outside :
      (s : LoopState) (m n k c i j : ℕ)
      → Shaped s
      → Outside m n i j
      → elem2 machine env mlir sliced (after s (k_tiles m n k c)).result i j
        ≡ elem2 machine env mlir sliced s.result i j
  unfolding k_tiles
  k-Outside s m n k zero i j shaped out = refl
  k-Outside s m n k (suc c) i j shaped out =
      k-Outside (lower_tile mlir r s (m ∷ n ∷ k ∷ [])) m n (k + 8) c i j
        (lower_tile-Shaped s _ shaped) out
      ∙ tile-Outside s m n k i j shaped out

  -- One tile, all of K: a cell inside is finished, the others stay.
  tile_cell :
      (s : LoopState) (m n c i j : ℕ)
      → Shaped s
      → m + 4 ≤ r.dims.m
      → n + 4 ≤ r.dims.n
      → 8 * suc c ≡ r.dims.k
      → (m ≤ i) × (i < m + 4) × (n ≤ j) × (j < n + 4)
      → elem2 machine env mlir sliced (after s (k_tiles m n 0 (suc c))).result i j
        ≡ cell u i j r.dims.k
  tile_cell s m n c i j shaped hm hn hk (mi, im, nj, jn) =
      let ei : m + (i - m) ≡ i = omega arith in
      let ej : n + (j - n) ≡ j = omega arith in
      subst
        (λ x.
          elem2 machine env mlir sliced (after s (k_tiles m n 0 (suc c))).result x j
          ≡ cell u x j r.dims.k)
        ei
        (subst
          (λ y.
            elem2 machine env mlir sliced (after s (k_tiles m n 0 (suc c))).result (m + (i - m)) y
            ≡ cell u (m + (i - m)) y r.dims.k)
          ej
          (k_inside s m n 0 c (i - m) (j - n) shaped hm hn (omega arith) (inl refl) (omega arith)
            (omega arith)))

  -- The loop along N finishes the cells of its rows from column n on.
  n_outside :
      (s : LoopState) (m n c b i j : ℕ)
      → Shaped s
      → ((i < m) ⊎ (m + 4 ≤ i)) ⊎ (j < n)
      → elem2 machine env mlir sliced (after s (n_tiles m n c b)).result i j
        ≡ elem2 machine env mlir sliced s.result i j
  unfolding n_tiles
  n_outside s m n c zero i j shaped out = refl
  n_outside s m n c (suc b) i j shaped out =
      rw (foldl-append (lower_tile mlir r) s (k_tiles m n 0 c) (n_tiles m (n + 4) c b)) (
        n_outside (after s (k_tiles m n 0 c)) m (n + 4) c b i j
          (after_tiles-Shaped s (k_tiles m n 0 c) shaped) (omega arith)
        ∙ k-Outside s m n 0 c i j shaped (omega arith))

  n_inside :
      (s : LoopState) (m n c b i j : ℕ)
      → Shaped s
      → m + 4 ≤ r.dims.m
      → n + 4 * b ≡ r.dims.n
      → 8 * suc c ≡ r.dims.k
      → (m ≤ i) × (i < m + 4) × (n ≤ j) × (j < r.dims.n)
      → elem2 machine env mlir sliced (after s (n_tiles m n (suc c) b)).result i j
        ≡ cell u i j r.dims.k
  unfolding n_tiles
  n_inside s m n c zero i j shaped hm hn hk h = absurd (omega arith)
  n_inside s m n c (suc b) i j shaped hm hn hk h =
      let s' = after s (k_tiles m n 0 (suc c)) in
      let shaped' : Shaped s' = after_tiles-Shaped s (k_tiles m n 0 (suc c)) shaped in
      rw (foldl-append (lower_tile mlir r) s (k_tiles m n 0 (suc c)) (n_tiles m (n + 4) (suc c) b))
        (elim (dec_lt j (n + 4)) [
          | yes near ↦
              n_outside s' m (n + 4) (suc c) b i j shaped' (inr near)
              ∙ tile_cell s m n c i j shaped hm (omega arith) hk (omega arith)
          | no far ↦ n_inside s' m (n + 4) c b i j shaped' hm (omega arith) hk (omega arith)
        ])

  m_outside :
      (s : LoopState) (m c b a i j : ℕ)
      → Shaped s
      → i < m
      → elem2 machine env mlir sliced (after s (m_tiles m c b a)).result i j
        ≡ elem2 machine env mlir sliced s.result i j
  unfolding m_tiles
  m_outside s m c b zero i j shaped out = refl
  m_outside s m c b (suc a) i j shaped out =
      rw (foldl-append (lower_tile mlir r) s (n_tiles m 0 c b) (m_tiles (m + 4) c b a)) (
        m_outside (after s (n_tiles m 0 c b)) (m + 4) c b a i j
          (after_tiles-Shaped s (n_tiles m 0 c b) shaped) (omega arith)
        ∙ n_outside s m 0 c b i j shaped (omega arith))

  -- The whole loop finishes every cell.
  pub m_inside :
      (s : LoopState) (m c b a i j : ℕ)
      → Shaped s
      → m + 4 * a ≡ r.dims.m
      → 4 * b ≡ r.dims.n
      → 8 * suc c ≡ r.dims.k
      → (m ≤ i) × (i < r.dims.m) × (j < r.dims.n)
      → elem2 machine env mlir sliced (after s (m_tiles m (suc c) b a)).result i j
        ≡ cell u i j r.dims.k
  unfolding m_tiles
  m_inside s m c b zero i j shaped hm hn hk h = absurd (omega arith)
  m_inside s m c b (suc a) i j shaped hm hn hk h =
      let s' = after s (n_tiles m 0 (suc c) b) in
      let shaped' : Shaped s' = after_tiles-Shaped s (n_tiles m 0 (suc c) b) shaped in
      rw (foldl-append (lower_tile mlir r) s (n_tiles m 0 (suc c) b) (m_tiles (m + 4) (suc c) b a))
        (elim (dec_lt i (m + 4)) [
          | yes near ↦
              m_outside s' (m + 4) (suc c) b a i j shaped' near
              ∙ n_inside s m 0 c b i j shaped (omega arith) (omega arith) hk (omega arith)
          | no far ↦ m_inside s' (m + 4) c b a i j shaped' (omega arith) hn hk (omega arith)
        ])
