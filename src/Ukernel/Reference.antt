-- ===== src/Ukernel/Reference.antt =====
-- The reference of a tile: the product of the panels that it is handed, cell by cell.
use spacemit_ime_iree_tcp.Shared.{
  ℕ, ◌+◌, ◌-◌, ◌*◌, ◌/◌, ◌%◌, ◌^◌, ◌<◌, ◌≤◌, ◌≡◌, arith, Bool, ◌&&◌, leb, ltb, if◌then◌else◌,
}
use spacemit_ime_iree_tcp.Contract.Semantics.{sum_below}
use spacemit_ime_iree_tcp.Ukernel.Vectors.{Memory, IsAtom, row_product}
use spacemit_ime_iree_tcp.Ukernel.Tile.{Params, Body}
use spacemit_ime_iree_tcp.Ukernel.Offsets.{IsAtom-elim, place}
use spacemit_ime_iree_tcp.Ukernel.Store.{IsGrid}

-- The parameters of a tile with this atom.
pub record Fits (body : Body) (params : Params) (atom : ℕ) : Type 0 where
  pub atom_ok : IsAtom atom
  pub grid : IsGrid body
  pub rows : 0 < body.mt
  pub m0 : params.m0 ≡ body.mt * atom
  pub n0 : params.n0 ≡ 4 * atom
  pub k0 : params.k0 ≡ 2 * atom
  pub k : params.k < 2 ^ 31

-- Cell (row, col) of the product of the left-hand side's panels and the transposed right-hand
-- side's: lhs [K][M0][K0], rhs [K][N0][K0].
abbrev pub panels_product : Params → Memory → ℕ → Memory → ℕ → ℕ → ℕ → ℕ
panels_product params l lhs r rhs row col = sum_below params.k (λ s.
    row_product l r params.k0 (lhs + (s * params.m0 + row) * params.k0)
      (rhs + (s * params.n0 + col) * params.k0))

-- The output after the multiplication: the block [M0][N0] from `out` on has the products, on top of
-- what it had if `accumulate` says so, modulo 2 ^ 32; the rest is as it was.
unfoldable pub mmt4d : Bool → Params → Memory → ℕ → Memory → ℕ → Memory → ℕ → Memory
mmt4d accumulate params o out l lhs r rhs q =
    if leb out q && ltb q (out + params.m0 * params.n0)
    then ((if accumulate then o q else 0)
        + panels_product params l lhs r rhs ((q - out) / params.n0) ((q - out) % params.n0))
      % 2 ^ 32
    else o q

-- Where a cell of the block stands in the grid.
pub record Split (atom mts row col : ℕ) : Type 0 where
  pub mt : ℕ
  pub nt : ℕ
  pub i : ℕ
  pub mt_lt : mt < mts
  pub nt_lt : nt < 4
  pub i_lt : i < atom * atom
  pub placed : place atom mt nt i ≡ row * (4 * atom) + col
  pub row_is : mt * (atom * (2 * atom)) + i / atom * (2 * atom) ≡ row * (2 * atom)
  pub col_is : nt * (atom * (2 * atom)) + i % atom * (2 * atom) ≡ col * (2 * atom)

pub split :
    (atom : ℕ)
    → IsAtom atom
    → (mts row col : ℕ) → row < mts * atom
    → col < 4 * atom
    → Split atom mts row col
split =
    IsAtom-elim (λ a. (mts row col : ℕ) → row < mts * a → col < 4 * a → Split a mts row col)
      (λ mts row col hr hc. record {
        mt = row / 4;
        nt = col / 4;
        i = row % 4 * 4 + col % 4;
        mt_lt = omega arith;
        nt_lt = omega arith;
        i_lt = omega arith;
        placed = omega arith;
        row_is = omega arith;
        col_is = omega arith;
      })
      (λ mts row col hr hc. record {
        mt = row / 8;
        nt = col / 8;
        i = row % 8 * 8 + col % 8;
        mt_lt = omega arith;
        nt_lt = omega arith;
        i_lt = omega arith;
        placed = omega arith;
        row_is = omega arith;
        col_is = omega arith;
      })
      (λ mts row col hr hc. record {
        mt = row / 16;
        nt = col / 16;
        i = row % 16 * 16 + col % 16;
        mt_lt = omega arith;
        nt_lt = omega arith;
        i_lt = omega arith;
        placed = omega arith;
        row_is = omega arith;
        col_is = omega arith;
      })

-- A round's panel is `mts` atoms long.
pub panel_row :
    (base s mts atom x y row : ℕ)
    → x + y ≡ row * (2 * atom)
    → base + s * (mts * (atom * (2 * atom))) + x + y ≡ base + (s * (mts * atom) + row) * (2 * atom)
panel_row base s mts atom x y row e =
    let a : s * (mts * (atom * (2 * atom))) ≡ s * (mts * atom) * (2 * atom) = grind arith in
    let b : (s * (mts * atom) + row) * (2 * atom)
        ≡ s * (mts * atom) * (2 * atom) + row * (2 * atom) =
      grind arith in
    omega arith

position :
    (atom : ℕ)
    → IsAtom atom
    → (q out m0 : ℕ) → out ≤ q
    → q < out + m0 * (4 * atom)
    → ((q - out) / (4 * atom) < m0)
      × ((q - out) % (4 * atom) < 4 * atom)
      × (out + ((q - out) / (4 * atom) * (4 * atom) + (q - out) % (4 * atom)) ≡ q)
position =
    IsAtom-elim
      (λ a.
        (q out m0 : ℕ)
        → out ≤ q
        → q < out + m0 * (4 * a)
        → ((q - out) / (4 * a) < m0)
          × ((q - out) % (4 * a) < 4 * a)
          × (out + ((q - out) / (4 * a) * (4 * a) + (q - out) % (4 * a)) ≡ q))
      (λ q out m0 h k. (omega arith, omega arith, omega arith))
      (λ q out m0 h k. (omega arith, omega arith, omega arith))
      (λ q out m0 h k. (omega arith, omega arith, omega arith))

pub position_of :
    (atom : ℕ)
    → IsAtom atom
    → (q out m0 n0 : ℕ) → n0 ≡ 4 * atom
    → out ≤ q
    → q < out + m0 * n0
    → ((q - out) / n0 < m0)
      × ((q - out) % n0 < n0)
      × (out + ((q - out) / n0 * n0 + (q - out) % n0) ≡ q)
position_of atom ok q out m0 n0 e from below = rw e (position atom ok q out m0 from (rw e at below))
