-- ===== src/Ukernel/Funcs.antt =====
-- The nine tile functions: the body that each instantiates, with its M0, for its vector length.
use spacemit_ime_iree_tcp.Shared.{ℕ, ◌*◌, ◌/◌, ◌^◌, ◌<◌, ◌≡◌, inl, inr, refl, arith}
use spacemit_ime_iree_tcp.Ukernel.Vectors.{IsAtom}
use spacemit_ime_iree_tcp.Ukernel.Tile.{Params, Body, body_3x4, body_2x4, body_1x4}
use spacemit_ime_iree_tcp.Ukernel.Store.{IsGrid, body_3x4-IsGrid, body_2x4-IsGrid, body_1x4-IsGrid}
use spacemit_ime_iree_tcp.Ukernel.Reference.{Fits}

-- By the M0, the K0 and the vector length in their names.
pub data TileFunc : Type 0 where
  m12_k8_zvl256b m24_k16_zvl1024b m48_k32_zvl4096b : TileFunc
  m8_k8_zvl256b m16_k16_zvl1024b m32_k32_zvl4096b : TileFunc
  m4_k8_zvl256b m8_k16_zvl1024b m16_k32_zvl4096b : TileFunc

abbrev pub body_of : TileFunc → Body
body_of m12_k8_zvl256b = body_3x4
body_of m24_k16_zvl1024b = body_3x4
body_of m48_k32_zvl4096b = body_3x4
body_of m8_k8_zvl256b = body_2x4
body_of m16_k16_zvl1024b = body_2x4
body_of m32_k32_zvl4096b = body_2x4
body_of m4_k8_zvl256b = body_1x4
body_of m8_k16_zvl1024b = body_1x4
body_of m16_k32_zvl4096b = body_1x4

abbrev pub m0_of : TileFunc → ℕ
m0_of m12_k8_zvl256b = 12
m0_of m24_k16_zvl1024b = 24
m0_of m48_k32_zvl4096b = 48
m0_of m8_k8_zvl256b = 8
m0_of m16_k16_zvl1024b = 16
m0_of m32_k32_zvl4096b = 32
m0_of m4_k8_zvl256b = 4
m0_of m8_k16_zvl1024b = 8
m0_of m16_k32_zvl4096b = 16

-- The K0 in the name.
abbrev pub named_k0 : TileFunc → ℕ
named_k0 m12_k8_zvl256b = 8
named_k0 m24_k16_zvl1024b = 16
named_k0 m48_k32_zvl4096b = 32
named_k0 m8_k8_zvl256b = 8
named_k0 m16_k16_zvl1024b = 16
named_k0 m32_k32_zvl4096b = 32
named_k0 m4_k8_zvl256b = 8
named_k0 m8_k16_zvl1024b = 16
named_k0 m16_k32_zvl4096b = 32

-- The vector length in the name.
abbrev pub named_vlen : TileFunc → ℕ
named_vlen m12_k8_zvl256b = 256
named_vlen m24_k16_zvl1024b = 1024
named_vlen m48_k32_zvl4096b = 4096
named_vlen m8_k8_zvl256b = 256
named_vlen m16_k16_zvl1024b = 1024
named_vlen m32_k32_zvl4096b = 4096
named_vlen m4_k8_zvl256b = 256
named_vlen m8_k16_zvl1024b = 1024
named_vlen m16_k32_zvl4096b = 4096

-- Parameters of the tile that the name describes.
abbrev pub params_of : TileFunc → ℕ → ℕ → Params
params_of f k flags = record {
  m0 = m0_of f;
  n0 = 2 * named_k0 f;
  k0 = named_k0 f;
  k = k;
  flags = flags;
}

abbrev pub atom_of : TileFunc → ℕ
atom_of f = m0_of f / (body_of f).mt

fitting :
    (body : Body) (params : Params) (atom : ℕ)
    → IsAtom atom
    → IsGrid body
    → 0 < body.mt
    → params.m0 ≡ body.mt * atom
    → params.n0 ≡ 4 * atom
    → params.k0 ≡ 2 * atom
    → params.k < 2 ^ 31
    → Fits body params atom
fitting body params atom a g r m n k b = record {
  atom_ok = a;
  grid = g;
  rows = r;
  m0 = m;
  n0 = n;
  k0 = k;
  k = b;
}

-- With the parameters that its name describes, and fewer than 2 ^ 31 panels, each of the nine tile
-- functions passes the assertions of its body; an int8 operand of an instruction fills one register
-- of the vector length in the name, an int32 accumulator two.
pub tile_func-Fits :
    (f : TileFunc) (k flags : ℕ)
    → k < 2 ^ 31
    → Fits (body_of f) (params_of f k flags) (atom_of f)
      × (atom_of f * (2 * atom_of f) * 8 ≡ named_vlen f)
      × (atom_of f * atom_of f * 32 ≡ 2 * named_vlen f)
tile_func-Fits m12_k8_zvl256b k flags h = (
  fitting (body_of m12_k8_zvl256b) (params_of m12_k8_zvl256b k flags) (atom_of m12_k8_zvl256b)
      (inl refl) body_3x4-IsGrid (omega arith) refl refl refl h,
  refl,
  refl,
)
tile_func-Fits m24_k16_zvl1024b k flags h = (
  fitting (body_of m24_k16_zvl1024b) (params_of m24_k16_zvl1024b k flags) (atom_of m24_k16_zvl1024b)
      (inr (inl refl)) body_3x4-IsGrid (omega arith) refl refl refl h,
  refl,
  refl,
)
tile_func-Fits m48_k32_zvl4096b k flags h = (
  fitting (body_of m48_k32_zvl4096b) (params_of m48_k32_zvl4096b k flags) (atom_of m48_k32_zvl4096b)
      (inr (inr refl)) body_3x4-IsGrid (omega arith) refl refl refl h,
  refl,
  refl,
)
tile_func-Fits m8_k8_zvl256b k flags h = (
  fitting (body_of m8_k8_zvl256b) (params_of m8_k8_zvl256b k flags) (atom_of m8_k8_zvl256b)
      (inl refl) body_2x4-IsGrid (omega arith) refl refl refl h,
  refl,
  refl,
)
tile_func-Fits m16_k16_zvl1024b k flags h = (
  fitting (body_of m16_k16_zvl1024b) (params_of m16_k16_zvl1024b k flags) (atom_of m16_k16_zvl1024b)
      (inr (inl refl)) body_2x4-IsGrid (omega arith) refl refl refl h,
  refl,
  refl,
)
tile_func-Fits m32_k32_zvl4096b k flags h = (
  fitting (body_of m32_k32_zvl4096b) (params_of m32_k32_zvl4096b k flags) (atom_of m32_k32_zvl4096b)
      (inr (inr refl)) body_2x4-IsGrid (omega arith) refl refl refl h,
  refl,
  refl,
)
tile_func-Fits m4_k8_zvl256b k flags h = (
  fitting (body_of m4_k8_zvl256b) (params_of m4_k8_zvl256b k flags) (atom_of m4_k8_zvl256b)
      (inl refl) body_1x4-IsGrid (omega arith) refl refl refl h,
  refl,
  refl,
)
tile_func-Fits m8_k16_zvl1024b k flags h = (
  fitting (body_of m8_k16_zvl1024b) (params_of m8_k16_zvl1024b k flags) (atom_of m8_k16_zvl1024b)
      (inr (inl refl)) body_1x4-IsGrid (omega arith) refl refl refl h,
  refl,
  refl,
)
tile_func-Fits m16_k32_zvl4096b k flags h = (
  fitting (body_of m16_k32_zvl4096b) (params_of m16_k32_zvl4096b k flags) (atom_of m16_k32_zvl4096b)
      (inr (inr refl)) body_1x4-IsGrid (omega arith) refl refl refl h,
  refl,
  refl,
)
