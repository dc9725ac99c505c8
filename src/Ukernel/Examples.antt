-- ===== src/Ukernel/Examples.antt =====
-- Tests of the microkernel, and the theorems about it at concrete inputs.
use spacemit_ime_iree_tcp.Shared.{◌*◌, ◌≡◌, refl, arith, some, none}
use mathlib.Core.Option
use spacemit_ime_iree_tcp.Contract.Semantics.{sum_below, sign_extend}
use spacemit_ime_iree_tcp.Ukernel.Vectors.{row_product}
use spacemit_ime_iree_tcp.Ukernel.Tile.{Params, body_1x4, tile, tile_1x4}
use spacemit_ime_iree_tcp.Ukernel.Reference.{Fits, mmt4d}
use spacemit_ime_iree_tcp.Ukernel.Refine.{tile_multiplies}
use spacemit_ime_iree_tcp.Ukernel.Funcs.{
  m4_k8_zvl256b, m12_k8_zvl256b, body_of, params_of, atom_of, named_vlen, tile_func-Fits,
}
use spacemit_ime_iree_tcp.Ukernel.Model.{lanes}

abbrev two_panels : Params
two_panels = params_of m4_k8_zvl256b 2 1

-- Ones to the left, minus twos to the right, on top of 100.
tile_multiplies_example :
    Option.map (λ m. m 17) (tile_1x4 lanes (λ q. 100) 10 (λ p. 1) 0 (λ p. 254) 0 two_panels 4)
    ≡ some 68
unfolding mmt4d row_product sum_below sign_extend
tile_multiplies_example =
    tile_multiplies lanes body_1x4 4 two_panels (λ q. 100) 10 (λ p. 1) 0 (λ p. 254) 0 17
      (tile_func-Fits m4_k8_zvl256b 2 1 (omega arith)).0 (λ p. omega arith)

tile_func-Fits_example :
    Fits (body_of m12_k8_zvl256b) (params_of m12_k8_zvl256b 3 0) (atom_of m12_k8_zvl256b)
    × (atom_of m12_k8_zvl256b * (2 * atom_of m12_k8_zvl256b) * 8 ≡ named_vlen m12_k8_zvl256b)
    × (atom_of m12_k8_zvl256b * atom_of m12_k8_zvl256b * 32 ≡ 2 * named_vlen m12_k8_zvl256b)
tile_func-Fits_example = tile_func-Fits m12_k8_zvl256b 3 0 (omega arith)

tile_refuses_test :
    Option.map (λ m. m 17) (tile_1x4 lanes (λ q. 100) 10 (λ p. 1) 0 (λ p. 254) 0 two_panels 5)
    ≡ none
unfolding tile
tile_refuses_test = refl
