-- ===== src/Ukernel/Rounds.antt =====
-- What the loop over k adds up in a lane of an accumulator.
use spacemit_ime_iree_tcp.Shared.{
  ℕ, zero, suc, ◌+◌, ◌*◌, ◌/◌, ◌%◌, ◌^◌, ◌<◌, ◌≡◌, ap, ◌∙◌, refl, arith,
}
use spacemit_ime_iree_tcp.Contract.Semantics.{sign_extend, sum_below}
use spacemit_ime_iree_tcp.Contract.Tile.Step.{sum_below_congr}
use spacemit_ime_iree_tcp.Ukernel.Vectors.{Vectors, Memory, IsAtom, row_product}
use spacemit_ime_iree_tcp.Ukernel.Tile.{Accumulators, round, k_loop}
use spacemit_ime_iree_tcp.Ukernel.Offsets.{IsAtom-elim}

-- Row `p` of one panel times row `q` of the other, panels of atoms `stride` elements apart.
abbrev pub rows_product : ℕ → Memory → ℕ → Memory → ℕ → ℕ → ℕ → ℕ → ℕ
rows_product atom l lhs r rhs mt nt i =
    let panel_stride = atom * (2 * atom) in
    row_product l r (2 * atom) (lhs + mt * panel_stride + i / atom * (2 * atom))
      (rhs + nt * panel_stride + i % atom * (2 * atom))

pub row_product_congr :
    (a b c d : ℕ → ℕ) (k0 p q s u : ℕ)
    → ((t : ℕ) → t < k0 → a (p + t) ≡ c (s + t))
    → ((t : ℕ) → t < k0 → b (q + t) ≡ d (u + t))
    → row_product a b k0 p q ≡ row_product c d k0 s u
unfolding row_product
row_product_congr a b c d k0 p q s u f g =
    sum_below_congr k0 (λ t. sign_extend 8 32 (a (p + t)) * sign_extend 8 32 (b (q + t)))
      (λ t. sign_extend 8 32 (c (s + t)) * sign_extend 8 32 (d (u + t)))
      (λ t h. rw (f t h, g t h) refl)

rows_product_congr :
    (atom : ℕ) (l r : Memory) (mt nt i : ℕ) {a b c d : ℕ}
    → a ≡ c
    → b ≡ d
    → rows_product atom l a r b mt nt i ≡ rows_product atom l c r d mt nt i
rows_product_congr atom l r mt nt i e f = rw (e, f) refl

advance : (a x s : ℕ) → a + x + s * x ≡ a + (1 + s) * x
advance a x s = grind arith

sum_below_first : (k : ℕ) (f : ℕ → ℕ) → sum_below (suc k) f ≡ f 0 + sum_below k (λ s. f (1 + s))
unfolding sum_below
sum_below_first zero f = omega arith
sum_below_first (suc k) f =
    let e : 1 + k ≡ suc k = omega arith in omega (arith, sum_below_first k f, ap f e)

row_lt :
    (atom : ℕ)
    → IsAtom atom
    → (i t : ℕ) → i < atom * atom
    → t < 2 * atom
    → (i / atom * (2 * atom) + t < atom * (2 * atom))
      × (i % atom * (2 * atom) + t < atom * (2 * atom))
row_lt =
    IsAtom-elim
      (λ a.
        (i t : ℕ)
        → i < a * a
        → t < 2 * a
        → (i / a * (2 * a) + t < a * (2 * a)) × (i % a * (2 * a) + t < a * (2 * a)))
      (λ i t h k. (omega arith, omega arith)) (λ i t h k. (omega arith, omega arith))
      (λ i t h k. (omega arith, omega arith))

module _ (v : Vectors) (atom : ℕ) (ok : IsAtom atom) (l r : Memory) where
  round_at :
      (lhs rhs : ℕ) (acc : Accumulators v) (mt nt i : ℕ)
      → i < atom * atom
      → v.lane (round v atom l lhs r rhs acc mt nt) i
        ≡ (v.lane (acc mt nt) i + rows_product atom l lhs r rhs mt nt i) % 2 ^ 32
  round_at lhs rhs acc mt nt i h =
      let ps = atom * (2 * atom) in
      let a = v.vle8 l (lhs + mt * ps) ps in
      let b = v.vle8 r (rhs + nt * ps) ps in
      let same : row_product (v.lane a) (v.lane b) (2 * atom) (i / atom * (2 * atom))
            (i % atom * (2 * atom))
          ≡ rows_product atom l lhs r rhs mt nt i =
        row_product_congr (v.lane a) (v.lane b) l r (2 * atom) (i / atom * (2 * atom))
          (i % atom * (2 * atom)) (lhs + mt * ps + i / atom * (2 * atom))
          (rhs + nt * ps + i % atom * (2 * atom))
          (λ t k.
            v.vle8_at l (lhs + mt * ps) ps (i / atom * (2 * atom) + t) (row_lt atom ok i t h k).0
            ∙ ap l (omega arith))
          (λ t k.
            v.vle8_at r (rhs + nt * ps) ps (i % atom * (2 * atom) + t) (row_lt atom ok i t h k).1
            ∙ ap r (omega arith)) in
      v.vmadot_at (acc mt nt) a b atom i ok h ∙ rw same refl

  -- Round `s` reads the panels that `s` rounds have moved the pointers to.
  abbrev pub products : ℕ → ℕ → ℕ → ℕ → ℕ → ℕ → ℕ → ℕ
  products mts lhs rhs mt nt i s =
      rows_product atom l (lhs + s * (mts * (atom * (2 * atom)))) r
        (rhs + s * (4 * (atom * (2 * atom)))) mt nt i

  pub k_loop_at :
      (k mts lhs rhs : ℕ) (acc : Accumulators v) (mt nt i : ℕ)
      → i < atom * atom
      → v.lane (acc mt nt) i < 2 ^ 32
      → v.lane (k_loop v k mts atom l lhs r rhs acc mt nt) i
        ≡ (v.lane (acc mt nt) i + sum_below k (products mts lhs rhs mt nt i)) % 2 ^ 32
  unfolding k_loop sum_below
  k_loop_at zero mts lhs rhs acc mt nt i h word = omega arith
  k_loop_at (suc k) mts lhs rhs acc mt nt i h word =
      let ps = atom * (2 * atom) in
      let f = products mts lhs rhs mt nt i in
      let now = round_at lhs rhs acc mt nt i h in
      let first : f 0 ≡ rows_product atom l lhs r rhs mt nt i =
        rows_product_congr atom l r mt nt i (omega arith) (omega arith) in
      let split : sum_below (suc k) f ≡ f 0 + sum_below k (λ s. f (1 + s)) = sum_below_first k f in
      let later : sum_below k (products mts (lhs + mts * ps) (rhs + 4 * ps) mt nt i)
          ≡ sum_below k (λ s. f (1 + s)) =
        sum_below_congr k (products mts (lhs + mts * ps) (rhs + 4 * ps) mt nt i) (λ s. f (1 + s))
          (λ s hs.
            rows_product_congr atom l r mt nt i (advance lhs (mts * ps) s)
              (advance rhs (4 * ps) s)) in
      let rest =
        k_loop_at k mts (lhs + mts * ps) (rhs + 4 * ps) (round v atom l lhs r rhs acc) mt nt i h
          (rw now (omega arith)) in
      rest ∙ rw (now, later, split, first) (omega arith)
