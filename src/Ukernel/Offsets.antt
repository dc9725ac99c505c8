-- ===== src/Ukernel/Offsets.antt =====
-- Where the lanes of an accumulator stand in the output block.
use spacemit_ime_iree_tcp.Shared.{
  ℕ, ◌+◌, ◌-◌, ◌*◌, ◌/◌, ◌%◌, ◌^◌, ◌<◌, ◌≡◌, inl, inr, sym, ◌∙◌, subst, arith, refl,
}
use spacemit_ime_iree_tcp.Ukernel.Vectors.{Vectors, IsAtom}
use spacemit_ime_iree_tcp.Ukernel.Tile.{ime_out_index, out_index, ime_nt}

pub IsAtom-elim {ℓ} : (P : ℕ → Type ℓ) → P 4 → P 8 → P 16 → (atom : ℕ) → IsAtom atom → P atom
IsAtom-elim P p4 p8 p16 atom (inl e) = subst P (sym e) p4
IsAtom-elim P p4 p8 p16 atom (inr (inl e)) = subst P (sym e) p8
IsAtom-elim P p4 p8 p16 atom (inr (inr e)) = subst P (sym e) p16

-- Element `i` of an atom, row by row, in a block with rows of four atoms.
abbrev pub offset : ℕ → ℕ → ℕ
offset atom i = i / atom * (4 * atom) + i % atom

pub offset-injective :
    (atom : ℕ)
    → IsAtom atom
    → (i j : ℕ) → i < atom * atom
    → j < atom * atom
    → offset atom j ≡ offset atom i
    → j ≡ i
offset-injective =
    IsAtom-elim (λ a. (i j : ℕ) → i < a * a → j < a * a → offset a j ≡ offset a i → j ≡ i)
      (λ i j hi hj e. omega arith) (λ i j hi hj e. omega arith) (λ i j hi hj e. omega arith)

ime_out_index_at :
    (v : Vectors) (atom log2 i : ℕ)
    → v.ctz atom ≡ log2
    → log2 < 32
    → i < atom * atom
    → v.lane (out_index v atom) i
      ≡ (i + (ime_nt * atom - atom) % 2 ^ 32 * (i / 2 ^ log2)) % 2 ^ 32 * 4 % 2 ^ 32
unfolding ime_out_index
ime_out_index_at v atom log2 i e small h =
    let vl = atom * atom in
    let vi = v.vid vl in
    let row = v.vsrl_vx vi log2 vl in
    rw
      (
        e,
        v.vsll_vx_at (v.vmacc_vx vi ((ime_nt * atom - atom) % 2 ^ 32) row vl) 2 vl i h
            (omega arith),
        v.vmacc_vx_at vi ((ime_nt * atom - atom) % 2 ^ 32) row vl i h,
        v.vsrl_vx_at vi log2 vl i h small,
        v.vid_at vl i h,
      )
      refl

pub out_index_at :
    (v : Vectors) (atom : ℕ)
    → IsAtom atom
    → (i : ℕ) → i < atom * atom
    → v.lane (out_index v atom) i ≡ offset atom i * 4
out_index_at v =
    IsAtom-elim (λ a. (i : ℕ) → i < a * a → v.lane (out_index v a) i ≡ offset a i * 4)
      (λ i h. ime_out_index_at v 4 2 i (v.ctz_at 2 (omega arith)) (omega arith) h ∙ omega arith)
      (λ i h. ime_out_index_at v 8 3 i (v.ctz_at 3 (omega arith)) (omega arith) h ∙ omega arith)
      (λ i h. ime_out_index_at v 16 4 i (v.ctz_at 4 (omega arith)) (omega arith) h ∙ omega arith)

-- Where lane `i` of accumulator (mt, nt) is stored, from the block's start.
abbrev pub place : ℕ → ℕ → ℕ → ℕ → ℕ
place atom mt nt i = mt * atom * (4 * atom) + nt * atom + offset atom i

pub place-injective :
    (atom : ℕ)
    → IsAtom atom
    → (mt nt i mu nu j : ℕ) → nt < 4
    → nu < 4
    → i < atom * atom
    → j < atom * atom
    → place atom mt nt i ≡ place atom mu nu j
    → (mt ≡ mu) × (nt ≡ nu)
place-injective =
    IsAtom-elim
      (λ a.
        (mt nt i mu nu j : ℕ)
        → nt < 4
        → nu < 4
        → i < a * a
        → j < a * a
        → place a mt nt i ≡ place a mu nu j
        → (mt ≡ mu) × (nt ≡ nu))
      (λ mt nt i mu nu j hn hv hi hj e. (omega arith, omega arith))
      (λ mt nt i mu nu j hn hv hi hj e. (omega arith, omega arith))
      (λ mt nt i mu nu j hn hv hi hj e. (omega arith, omega arith))

pub place-lt :
    (atom : ℕ)
    → IsAtom atom
    → (mts mt nt i : ℕ) → mt < mts
    → nt < 4
    → i < atom * atom
    → place atom mt nt i < mts * atom * (4 * atom)
place-lt =
    IsAtom-elim
      (λ a. (mts mt nt i : ℕ) → mt < mts → nt < 4 → i < a * a → place a mt nt i < mts * a * (4 * a))
      (λ mts mt nt i hm hn hi. omega arith) (λ mts mt nt i hm hn hi. omega arith)
      (λ mts mt nt i hm hn hi. omega arith)
