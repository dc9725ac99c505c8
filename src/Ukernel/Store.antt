-- ===== src/Ukernel/Store.antt =====
-- What the stores at the end of a body leave in the output.
use spacemit_ime_iree_tcp.Shared.{
  ℕ, ◌+◌, ◌*◌, ◌<◌, ◌≤◌, ◌≡◌, ◌≢◌, ◌⊎◌, inl, inr, ap, ◌∙◌, refl, arith, Bool, true, false, ◌&&◌,
  List, [], ◌∷◌, foldl, any, All, ◌==◌, Bool-cases,
}
use spacemit_ime_iree_tcp.Ukernel.Vectors.{Vectors, Memory, IsAtom}
use spacemit_ime_iree_tcp.Ukernel.Tile.{
  Body, body_3x4, body_2x4, body_1x4, Accumulators, store, ime_out, out_index,
}
use spacemit_ime_iree_tcp.Ukernel.Offsets.{
  offset, offset-injective, out_index_at, place, place-injective, place-lt,
}

abbrev pub is_cell : ℕ → ℕ → ℕ × ℕ → Bool
is_cell mt nt cell = cell.0 == mt && cell.1 == nt

abbrev pub InGrid : ℕ → ℕ × ℕ → Type 0
InGrid mts cell = (cell.0 < mts) × (cell.1 < 4)

-- The accumulators are those of a grid of four columns, every one of them.
abbrev pub IsGrid : Body → Type 0
IsGrid body =
    All (InGrid body.mt) body.accumulators
    × ((mt nt : ℕ) → mt < body.mt → nt < 4 → any (is_cell mt nt) body.accumulators ≡ true)

module _ (v : Vectors) (atom : ℕ) (ok : IsAtom atom) (out : ℕ) (acc : Accumulators v) where
  store_hit :
      (m : Memory) (mt nt i : ℕ)
      → i < atom * atom
      → store v atom out acc m (mt, nt) (out + place atom mt nt i) ≡ v.lane (acc mt nt) i
  store_hit m mt nt i h =
      let base = ime_out v atom out mt nt in
      let e : out + place atom mt nt i ≡ base + offset atom i = omega arith in
      ap (store v atom out acc m (mt, nt)) e
      ∙ v.vsuxei32_hit base (out_index v atom) (acc mt nt) (atom * atom) m i (offset atom i) h
          (out_index_at v atom ok i h)
          (λ j hj q.
            let same : v.lane (out_index v atom) j ≡ offset atom j * 4 =
              out_index_at v atom ok j hj in
            offset-injective atom ok i j h hj (omega arith))

  store_miss :
      (m : Memory) (mt nt q : ℕ)
      → ((j : ℕ) → j < atom * atom → out + place atom mt nt j ≢ q)
      → store v atom out acc m (mt, nt) q ≡ m q
  store_miss m mt nt q away =
      let base = ime_out v atom out mt nt in
      v.vsuxei32_miss base (out_index v atom) (acc mt nt) (atom * atom) m q
        (λ j hj. (offset atom j, out_index_at v atom ok j hj, λ e. away j hj (omega arith)))

  -- A store leaves what another accumulator has stored, or what it stores itself.
  store_keeps :
      (m : Memory) (mt nt i mu nu : ℕ)
      → nt < 4
      → nu < 4
      → i < atom * atom
      → m (out + place atom mt nt i) ≡ v.lane (acc mt nt) i
      → store v atom out acc m (mu, nu) (out + place atom mt nt i) ≡ v.lane (acc mt nt) i
  store_keeps m mt nt i mu nu hn hv hi held = go (Bool-cases (is_cell mt nt (mu, nu)))
    where
      go :
          (is_cell mt nt (mu, nu) ≡ true) ⊎ (is_cell mt nt (mu, nu) ≡ false)
          → store v atom out acc m (mu, nu) (out + place atom mt nt i) ≡ v.lane (acc mt nt) i
      go (inl e) =
          let em : mu ≡ mt = ground arith in
          let en : nu ≡ nt = ground arith in rw (em, en) (store_hit m mt nt i hi)
      go (inr e) =
          store_miss m mu nu (out + place atom mt nt i) (λ j hj q.
            let (em, en) = place-injective atom ok mu nu j mt nt i hv hn hj hi (omega arith) in
            ground arith)
          ∙ held

  stores_keep :
      (mts : ℕ) (cells : List (ℕ × ℕ)) (m : Memory) (mt nt i : ℕ)
      → All (InGrid mts) cells
      → nt < 4
      → i < atom * atom
      → m (out + place atom mt nt i) ≡ v.lane (acc mt nt) i
      → foldl (store v atom out acc) m cells (out + place atom mt nt i) ≡ v.lane (acc mt nt) i
  stores_keep mts [] m mt nt i inside hn hi held = held
  stores_keep mts ((mu, nu) ∷ cells) m mt nt i inside hn hi held =
      stores_keep mts cells (store v atom out acc m (mu, nu)) mt nt i inside.1 hn hi
        (store_keeps m mt nt i mu nu hn inside.0.1 hi held)

  pub stores_hit :
      (mts : ℕ) (cells : List (ℕ × ℕ)) (m : Memory) (mt nt i : ℕ)
      → All (InGrid mts) cells
      → any (is_cell mt nt) cells ≡ true
      → nt < 4
      → i < atom * atom
      → foldl (store v atom out acc) m cells (out + place atom mt nt i) ≡ v.lane (acc mt nt) i
  stores_hit mts [] m mt nt i inside listed hn hi = cc
  stores_hit mts ((mu, nu) ∷ cells) m mt nt i inside listed hn hi =
      go (Bool-cases (is_cell mt nt (mu, nu)))
        (λ l. stores_hit mts cells (store v atom out acc m (mu, nu)) mt nt i inside.1 l hn hi)
    where
      stored : Memory
      stored = store v atom out acc m (mu, nu)

      go :
          (is_cell mt nt (mu, nu) ≡ true) ⊎ (is_cell mt nt (mu, nu) ≡ false)
          → (any (is_cell mt nt) cells ≡ true
              → foldl (store v atom out acc) stored cells (out + place atom mt nt i)
                ≡ v.lane (acc mt nt) i)
          → foldl (store v atom out acc) stored cells (out + place atom mt nt i)
            ≡ v.lane (acc mt nt) i
      go (inl e) later =
          let em : mu ≡ mt = ground arith in
          let en : nu ≡ nt = ground arith in
          stores_keep mts cells stored mt nt i inside.1 hn hi (rw (em, en) (store_hit m mt nt i hi))
      go (inr e) later = later (rw e at listed)

  pub stores_miss :
      (mts : ℕ) (cells : List (ℕ × ℕ)) (m : Memory) (q : ℕ)
      → All (InGrid mts) cells
      → (q < out) ⊎ (out + mts * atom * (4 * atom) ≤ q)
      → foldl (store v atom out acc) m cells q ≡ m q
  stores_miss mts [] m q inside away = refl
  stores_miss mts ((mu, nu) ∷ cells) m q inside away =
      stores_miss mts cells (store v atom out acc m (mu, nu)) q inside.1 away
      ∙ store_miss m mu nu q (λ j hj e.
        let below : place atom mu nu j < mts * atom * (4 * atom) =
          place-lt atom ok mts mu nu j inside.0.0 inside.0.1 hj in
        elim away [ inl l ↦ omega arith | inr l ↦ omega arith ])

pub body_3x4-IsGrid : IsGrid body_3x4
body_3x4-IsGrid = (ground arith, λ mt nt hm hn. ground arith)

pub body_2x4-IsGrid : IsGrid body_2x4
body_2x4-IsGrid = (ground arith, λ mt nt hm hn. ground arith)

pub body_1x4-IsGrid : IsGrid body_1x4
body_1x4-IsGrid = (ground arith, λ mt nt hm hn. ground arith)
