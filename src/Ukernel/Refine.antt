-- ===== src/Ukernel/Refine.antt =====
-- A tile body against the product of the panels that it is handed.
use spacemit_ime_iree_tcp.Shared.{
  ℕ, ◌+◌, ◌-◌, ◌*◌, ◌/◌, ◌%◌, ◌^◌, ◌<◌, ◌≤◌, ◌≡◌, ◌⊎◌, inl, inr, ap, ◌∙◌, subst, refl, arith, true,
  false, ◌&&◌, ◌||◌, some, foldl, leb, ltb, ◌==◌, if◌then◌else◌, Bool-cases, and_true, ltb→lt,
}
use mathlib.Core.Option
use spacemit_ime_iree_tcp.Contract.Semantics.{sum_below}
use spacemit_ime_iree_tcp.Contract.Tile.Step.{sum_below_congr}
use spacemit_ime_iree_tcp.Ukernel.Vectors.{Vectors, Memory, IsAtom, row_product}
use spacemit_ime_iree_tcp.Ukernel.Tile.{
  Params, Body, rounds, tile, k_loop, first_accumulators, store, ime_out, out_index,
}
use spacemit_ime_iree_tcp.Ukernel.Offsets.{offset, out_index_at, place}
use spacemit_ime_iree_tcp.Ukernel.Store.{stores_hit, stores_miss}
use spacemit_ime_iree_tcp.Ukernel.Reference.{
  Fits, panels_product, mmt4d, Split, split, panel_row, position_of,
}
use spacemit_ime_iree_tcp.Ukernel.Rounds.{products, k_loop_at}

module _ (v : Vectors) (atom : ℕ) (ok : IsAtom atom) where
  first_at :
      (o : Memory) (out flags mt nt i : ℕ)
      → i < atom * atom
      → v.lane (first_accumulators v atom flags o out mt nt) i
        ≡ (if v.accumulate_flag flags then o (out + place atom mt nt i) else 0)
  unfolding first_accumulators
  first_at o out flags mt nt i h = go (Bool-cases (v.accumulate_flag flags))
    where
      go :
          (v.accumulate_flag flags ≡ true) ⊎ (v.accumulate_flag flags ≡ false)
          → v.lane (first_accumulators v atom flags o out mt nt) i
            ≡ (if v.accumulate_flag flags then o (out + place atom mt nt i) else 0)
      go (inl e) = rw e (
          v.vluxei32_at o (ime_out v atom out mt nt) (out_index v atom) (atom * atom) i
            (offset atom i) h (out_index_at v atom ok i h)
          ∙ ap o (omega arith))
      go (inr e) = rw e (v.vmv_v_x_at 0 (atom * atom) i h)

asserted :
    (atom m0 n0 k0 : ℕ)
    → IsAtom atom
    → n0 ≡ 4 * atom
    → k0 ≡ 2 * atom
    → ((atom == 4 || (atom == 8 || atom == 16)) && (m0 == m0 && (n0 == 4 * atom && k0 == 2 * atom)))
      ≡ true
asserted atom m0 n0 k0 ok en ek = ground arith

rounds_below : (k : ℕ) → k < 2 ^ 31 → rounds k ≡ k
rounds_below k h = ground arith

quotient : (n atom : ℕ) → 0 < n → n * atom / n ≡ atom
quotient n atom h = grind arith

-- The output of a body, with its atom written out.
abbrev written : (v : Vectors) → Body → ℕ → Memory → ℕ → Memory → ℕ → Memory → ℕ → Params → Memory
written v body atom o out l lhs r rhs params =
    foldl
      (store v atom out (
        k_loop v (rounds params.k) body.mt atom l lhs r rhs
          (first_accumulators v atom params.flags o out)))
      o body.accumulators

module _ (v : Vectors) (body : Body) (atom : ℕ) (params : Params) (fits : Fits body params atom)
    (o : Memory) (out : ℕ) (l : Memory) (lhs : ℕ) (r : Memory) (rhs : ℕ) where
  tile-written :
      tile v body o out l lhs r rhs params params.m0
      ≡ some (written v body atom o out l lhs r rhs params)
  unfolding tile
  tile-written =
      let e : body.mt * atom / body.mt ≡ atom = quotient body.mt atom fits.rows in
      let e0 : params.m0 / body.mt ≡ atom = rw fits.m0 e in
      rw (e0, asserted atom params.m0 params.n0 params.k0 fits.atom_ok fits.n0 fits.k0) refl

  sums_are :
      (row col : ℕ) (cell : Split atom body.mt row col)
      → sum_below params.k (products v atom fits.atom_ok l r body.mt lhs rhs cell.mt cell.nt cell.i)
        ≡ panels_product params l lhs r rhs row col
  sums_are row col cell =
      sum_below_congr params.k
        (products v atom fits.atom_ok l r body.mt lhs rhs cell.mt cell.nt cell.i)
        (λ s.
          row_product l r params.k0 (lhs + (s * params.m0 + row) * params.k0)
            (rhs + (s * params.n0 + col) * params.k0))
        (λ s h.
          let e =
            panel_row lhs s body.mt atom (cell.mt * (atom * (2 * atom)))
              (cell.i / atom * (2 * atom)) row cell.row_is in
          let f =
            panel_row rhs s 4 atom (cell.nt * (atom * (2 * atom))) (cell.i % atom * (2 * atom)) col
              cell.col_is in
          rw (fits.m0, fits.n0, fits.k0, e, f) refl)

  written_cell :
      (row col : ℕ) (cell : Split atom body.mt row col)
      → ((p : ℕ) → o p < 2 ^ 32)
      → written v body atom o out l lhs r rhs params (out + place atom cell.mt cell.nt cell.i)
        ≡ ((if v.accumulate_flag params.flags
              then o (out + place atom cell.mt cell.nt cell.i)
              else 0)
            + panels_product params l lhs r rhs row col)
          % 2 ^ 32
  written_cell row col cell words =
      let first = first_accumulators v atom params.flags o out in
      let last = k_loop v (rounds params.k) body.mt atom l lhs r rhs first in
      let start =
        first_at v atom fits.atom_ok o out params.flags cell.mt cell.nt cell.i cell.i_lt in
      let word = words (out + place atom cell.mt cell.nt cell.i) in
      stores_hit v atom fits.atom_ok out last body.mt body.accumulators o cell.mt cell.nt cell.i
        fits.grid.0 (fits.grid.1 cell.mt cell.nt cell.mt_lt cell.nt_lt) cell.nt_lt cell.i_lt
      ∙ k_loop_at v atom fits.atom_ok l r (rounds params.k) body.mt lhs rhs first cell.mt cell.nt
          cell.i cell.i_lt (rw start (ground arith))
      ∙ rw (start, rounds_below params.k fits.k, sums_are row col cell) refl

  written_inside :
      (row col : ℕ)
      → row < params.m0
      → col < params.n0
      → ((p : ℕ) → o p < 2 ^ 32)
      → written v body atom o out l lhs r rhs params (out + (row * params.n0 + col))
        ≡ ((if v.accumulate_flag params.flags then o (out + (row * params.n0 + col)) else 0)
            + panels_product params l lhs r rhs row col)
          % 2 ^ 32
  written_inside row col hr hc words =
      let cell = split atom fits.atom_ok body.mt row col (rw fits.m0 at hr) (rw fits.n0 at hc) in
      let here : place atom cell.mt cell.nt cell.i ≡ row * params.n0 + col =
        rw fits.n0 cell.placed in
      subst
        (λ p.
          written v body atom o out l lhs r rhs params (out + p)
          ≡ ((if v.accumulate_flag params.flags then o (out + p) else 0)
              + panels_product params l lhs r rhs row col)
            % 2 ^ 32)
        here (written_cell row col cell words)

  written_outside :
      (q : ℕ)
      → (q < out) ⊎ (out + params.m0 * params.n0 ≤ q)
      → written v body atom o out l lhs r rhs params q ≡ o q
  written_outside q away =
      stores_miss v atom fits.atom_ok out
        (k_loop v (rounds params.k) body.mt atom l lhs r rhs
          (first_accumulators v atom params.flags o out))
        body.mt body.accumulators o q fits.grid.0 (rw (fits.m0, fits.n0) at away)

away : (q a b : ℕ) → (leb a q && ltb q b) ≡ false → (q < a) ⊎ (b ≤ q)
away q a b h = ground arith

-- For a body whose accumulators are all those of its grid, and parameters that fit one of the three
-- atoms, with fewer than 2 ^ 31 panels and output words below 2 ^ 32: the tile function does not
-- fail, and every position of the output, inside the block or not, has the value of the reference.
pub tile_multiplies :
    (v : Vectors) (body : Body) (atom : ℕ) (params : Params) (o : Memory) (out : ℕ) (l : Memory)
    (lhs : ℕ) (r : Memory) (rhs q : ℕ)
    → Fits body params atom
    → ((p : ℕ) → o p < 2 ^ 32)
    → Option.map (λ m. m q) (tile v body o out l lhs r rhs params params.m0)
      ≡ some (mmt4d (v.accumulate_flag params.flags) params o out l lhs r rhs q)
unfolding mmt4d
tile_multiplies v body atom params o out l lhs r rhs q fits words =
    rw (tile-written v body atom params fits o out l lhs r rhs)
      (ap some (go (Bool-cases (leb out q && ltb q (out + params.m0 * params.n0)))))
  where
    go :
        ((leb out q && ltb q (out + params.m0 * params.n0)) ≡ true)
          ⊎ ((leb out q && ltb q (out + params.m0 * params.n0)) ≡ false)
        → written v body atom o out l lhs r rhs params q
          ≡ mmt4d (v.accumulate_flag params.flags) params o out l lhs r rhs q
    go (inl e) =
        let (from, below) = and_true (leb out q) (ltb q (out + params.m0 * params.n0)) e in
        let row = (q - out) / params.n0 in
        let col = (q - out) % params.n0 in
        let (hr, hc, here) =
          position_of atom fits.atom_ok q out params.m0 params.n0 fits.n0 (ground arith)
            (ltb→lt q (out + params.m0 * params.n0) below) in
        rw e (
          subst
            (λ p.
              written v body atom o out l lhs r rhs params p
              ≡ ((if v.accumulate_flag params.flags then o p else 0)
                  + panels_product params l lhs r rhs row col)
                % 2 ^ 32)
            here (written_inside v body atom params fits o out l lhs r rhs row col hr hc words))
    go (inr e) = rw e (
        written_outside v body atom params fits o out l lhs r rhs q
          (away q out (out + params.m0 * params.n0) e))
