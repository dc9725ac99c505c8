-- ===== src/Ukernel/Tile.antt =====
-- The three tile bodies, on the grids of 3x4, 2x4 and 1x4 atoms.
use spacemit_ime_iree_tcp.Shared.{
  ℕ, zero, suc, ◌+◌, ◌-◌, ◌*◌, ◌/◌, ◌%◌, ◌^◌, ◌&&◌, ◌||◌, List, [], ◌∷◌, Option, none, some, foldl,
  ltb, ◌==◌, if◌then◌else◌,
}
use spacemit_ime_iree_tcp.Ukernel.Vectors.{Vectors, Memory}

-- `iree_uk_mmt4d_params_t`: the fields that the tile functions read.
pub record Params : Type 0 where
  pub m0 : ℕ
  pub n0 : ℕ
  pub k0 : ℕ
  pub k : ℕ
  pub flags : ℕ

abbrev pub ime_nt : ℕ
ime_nt = 4

-- The atom rows of a body, and the accumulators acc0, acc1, … by atom row and column.
pub record Body : Type 0 where
  pub mt : ℕ
  pub accumulators : List (ℕ × ℕ)

abbrev pub body_3x4 : Body
body_3x4 = record {
  mt = 3;
  accumulators =
      (0, 0)
      ∷ (0, 1)
      ∷ (0, 2)
      ∷ (0, 3)
      ∷ (1, 0)
      ∷ (1, 1)
      ∷ (1, 2)
      ∷ (1, 3)
      ∷ (2, 0)
      ∷ (2, 1)
      ∷ (2, 2)
      ∷ (2, 3)
      ∷ [];
}

abbrev pub body_2x4 : Body
body_2x4 = record {
  mt = 2;
  accumulators = (0, 0) ∷ (0, 1) ∷ (0, 2) ∷ (0, 3) ∷ (1, 0) ∷ (1, 1) ∷ (1, 2) ∷ (1, 3) ∷ [];
}

abbrev pub body_1x4 : Body
body_1x4 = record { mt = 1; accumulators = (0, 0) ∷ (0, 1) ∷ (0, 2) ∷ (0, 3) ∷ [] }

-- `(int)(params->K)`, as the number of rounds of a loop that counts up to it.
abbrev pub rounds : ℕ → ℕ
rounds k = if ltb (k % 2 ^ 32) (2 ^ 31) then k % 2 ^ 32 else 0

module _ (v : Vectors) where
  unfoldable pub ime_out_index : ℕ → ℕ → ℕ → ℕ → v.Vector
  ime_out_index n0 atom log2_atom vl32 =
      let vi = v.vid vl32 in
      let row = v.vsrl_vx vi log2_atom vl32 in
      let off = v.vmacc_vx vi ((n0 - atom) % 2 ^ 32) row vl32 in v.vsll_vx off 2 vl32

  -- The index vector of a body with this atom.
  abbrev pub out_index : ℕ → v.Vector
  out_index atom = ime_out_index (ime_nt * atom) atom (v.ctz atom) (atom * atom)

  -- `IME_OUT(mt, nt)`
  abbrev pub ime_out : ℕ → ℕ → ℕ → ℕ → ℕ
  ime_out atom out mt nt = out + mt * atom * (ime_nt * atom) + nt * atom

  -- Accumulator `acc<mt * IME_NT + nt>` by `mt` and `nt`.
  abbrev pub Accumulators : Type 0
  Accumulators = ℕ → ℕ → v.Vector

  unfoldable pub first_accumulators : ℕ → ℕ → Memory → ℕ → Accumulators
  first_accumulators atom flags m out mt nt =
      if v.accumulate_flag flags
      then v.vluxei32 m (ime_out atom out mt nt) (out_index atom) (atom * atom)
      else v.vmv_v_x 0 (atom * atom)

  -- One round of the loop: the panels of the left-hand side by `mt`, of the right-hand side by `nt`.
  abbrev pub round : ℕ → Memory → ℕ → Memory → ℕ → Accumulators → Accumulators
  round atom l lhs r rhs acc mt nt =
      let panel_stride = atom * (2 * atom) in
      v.vmadot (acc mt nt) (v.vle8 l (lhs + mt * panel_stride) panel_stride)
        (v.vle8 r (rhs + nt * panel_stride) panel_stride) panel_stride

  -- The loop over k, with the panel pointers that it moves.
  unfoldable pub k_loop : ℕ → ℕ → ℕ → Memory → ℕ → Memory → ℕ → Accumulators → Accumulators
  k_loop zero mts atom l lhs r rhs acc = acc
  k_loop (suc k) mts atom l lhs r rhs acc =
      let panel_stride = atom * (2 * atom) in
      k_loop k mts atom l (lhs + mts * panel_stride) r (rhs + ime_nt * panel_stride)
        (round atom l lhs r rhs acc)

  abbrev pub store : ℕ → ℕ → Accumulators → Memory → ℕ × ℕ → Memory
  store atom out acc m cell =
      v.vsuxei32 (ime_out atom out cell.0 cell.1) (out_index atom) (acc cell.0 cell.1) (atom * atom)
        m

  -- A body. `none` is a failed assertion.
  unfoldable pub tile : Body → Memory → ℕ → Memory → ℕ → Memory → ℕ → Params → ℕ → Option Memory
  tile body o out l lhs r rhs params m0 =
      let atom = m0 / body.mt in
      let acc =
        k_loop (rounds params.k) body.mt atom l lhs r rhs
          (first_accumulators atom params.flags o out) in
      if (atom == 4 || (atom == 8 || atom == 16))
        && (params.m0 == m0 && (params.n0 == ime_nt * atom && params.k0 == 2 * atom))
      then some (foldl (store atom out acc) o body.accumulators)
      else none

  -- The bodies, by their grids.
  abbrev pub tile_3x4 : Memory → ℕ → Memory → ℕ → Memory → ℕ → Params → ℕ → Option Memory
  tile_3x4 = tile body_3x4

  abbrev pub tile_2x4 : Memory → ℕ → Memory → ℕ → Memory → ℕ → Params → ℕ → Option Memory
  tile_2x4 = tile body_2x4

  abbrev pub tile_1x4 : Memory → ℕ → Memory → ℕ → Memory → ℕ → Params → ℕ → Option Memory
  tile_1x4 = tile body_1x4
