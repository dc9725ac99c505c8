-- ===== src/Ukernel/Vectors.antt =====
-- The vector operations that the microkernel calls, by the documentation of the RVV intrinsics, of
-- the compiler's builtins and of `smt.vmadot`.
use spacemit_ime_iree_tcp.Shared.{ℕ, ◌+◌, ◌*◌, ◌/◌, ◌%◌, ◌^◌, ◌<◌, ◌≡◌, ◌≢◌, ◌⊎◌, Bool}
use spacemit_ime_iree_tcp.Contract.Semantics.{sign_extend, sum_below}

-- The values of an array's elements by their index. An element of width w lies below 2 ^ w.
abbrev pub Memory : Type 0
Memory = ℕ → ℕ

-- The edges that the multiply-accumulate atom has.
abbrev pub IsAtom : ℕ → Type 0
IsAtom atom = (atom ≡ 4) ⊎ ((atom ≡ 8) ⊎ (atom ≡ 16))

-- Products of a row of one atom and a row of the other, `k0` bytes from the two positions on.
unfoldable pub row_product : (ℕ → ℕ) → (ℕ → ℕ) → ℕ → ℕ → ℕ → ℕ
row_product a b k0 p q =
    sum_below k0 (λ t. sign_extend 8 32 (a (p + t)) * sign_extend 8 32 (b (q + t)))

-- Lanes from `vl` on are not described. Addresses count elements, index vectors bytes.
pub record Vectors : Type 1 where
  pub Vector : Type 0
  pub lane : Vector → ℕ → ℕ
  pub vid : ℕ → Vector
  pub vsrl_vx : Vector → ℕ → ℕ → Vector
  pub vsll_vx : Vector → ℕ → ℕ → Vector
  -- vd, rs1, vs2, vl
  pub vmacc_vx : Vector → ℕ → Vector → ℕ → Vector
  pub vmv_v_x : ℕ → ℕ → Vector
  pub vle8 : Memory → ℕ → ℕ → Vector
  pub vluxei32 : Memory → ℕ → Vector → ℕ → Vector
  -- base, index, value, vl
  pub vsuxei32 : ℕ → Vector → Vector → ℕ → Memory → Memory
  -- acc, vs1, vs2, vl
  pub vmadot : Vector → Vector → Vector → ℕ → Vector
  -- `__builtin_ctz`
  pub ctz : ℕ → ℕ
  -- `flags & IREE_UK_FLAG_MMT4D_ACCUMULATE`
  pub accumulate_flag : ℕ → Bool
  pub vid_at : (vl i : ℕ) → i < vl → lane (vid vl) i ≡ i
  pub vsrl_vx_at :
      (v : Vector) (s vl i : ℕ) → i < vl → s < 32 → lane (vsrl_vx v s vl) i ≡ lane v i / 2 ^ s
  pub vsll_vx_at :
      (v : Vector) (s vl i : ℕ)
      → i < vl
      → s < 32
      → lane (vsll_vx v s vl) i ≡ lane v i * 2 ^ s % 2 ^ 32
  pub vmacc_vx_at :
      (d : Vector) (x : ℕ) (v : Vector) (vl i : ℕ)
      → i < vl
      → lane (vmacc_vx d x v vl) i ≡ (lane d i + x * lane v i) % 2 ^ 32
  pub vmv_v_x_at : (x vl i : ℕ) → i < vl → lane (vmv_v_x x vl) i ≡ x
  pub vle8_at : (m : Memory) (p vl i : ℕ) → i < vl → lane (vle8 m p vl) i ≡ m (p + i)
  pub vluxei32_at :
      (m : Memory) (p : ℕ) (idx : Vector) (vl i n : ℕ)
      → i < vl
      → lane idx i ≡ n * 4
      → lane (vluxei32 m p idx vl) i ≡ m (p + n)
  -- A position that one lane alone is stored at has that lane; a position that none is stored at
  -- keeps its value.
  pub vsuxei32_hit :
      (p : ℕ) (idx v : Vector) (vl : ℕ) (m : Memory) (i n : ℕ)
      → i < vl
      → lane idx i ≡ n * 4
      → ((j : ℕ) → j < vl → lane idx j ≡ n * 4 → j ≡ i)
      → vsuxei32 p idx v vl m (p + n) ≡ lane v i
  pub vsuxei32_miss :
      (p : ℕ) (idx v : Vector) (vl : ℕ) (m : Memory) (q : ℕ)
      → ((j : ℕ) → j < vl → (n : ℕ) × (lane idx j ≡ n * 4) × (p + n ≢ q))
      → vsuxei32 p idx v vl m q ≡ m q
  -- With `vl` twice the square of an atom's edge the instruction multiplies the rows of vs1 and of
  -- vs2, each of twice that edge, modulo 2 ^ 32.
  pub vmadot_at :
      (acc a b : Vector) (atom i : ℕ)
      → IsAtom atom
      → i < atom * atom
      → lane (vmadot acc a b (atom * (2 * atom))) i
        ≡ (lane acc i
            + row_product
                (lane a)
                (lane b)
                (2 * atom)
                (i / atom * (2 * atom))
                (i % atom * (2 * atom)))
          % 2 ^ 32
  pub ctz_at : (n : ℕ) → n < 32 → ctz (2 ^ n) ≡ n
