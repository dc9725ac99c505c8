-- ===== src/Ukernel/Model.antt =====
-- Vector operations that meet the laws: a vector is the function of its lanes.
use spacemit_ime_iree_tcp.Shared.{
  ℕ, zero, suc, ◌+◌, ◌*◌, ◌/◌, ◌%◌, ◌^◌, ◌<◌, ◌≡◌, ◌≢◌, ◌⊎◌, inl, inr, refl, ap, ◌∙◌, arith, true,
  false, ◌==◌, if◌then◌else◌, Bool-cases,
}
use spacemit_ime_iree_tcp.Ukernel.Vectors.{Vectors, Memory, IsAtom, row_product}
use spacemit_ime_iree_tcp.Ukernel.Offsets.{IsAtom-elim}

-- The last lane below `vl` that is stored at the position, if any is.
unfoldable pub scatter : ℕ → (ℕ → ℕ) → (ℕ → ℕ) → ℕ → Memory → Memory
scatter p idx v zero m q = m q
scatter p idx v (suc vl) m q =
    let rest = scatter p idx v vl m q in if p * 4 + idx vl == q * 4 then v vl else rest

pub scatter-hit :
    (p : ℕ) (idx v : ℕ → ℕ) (vl : ℕ) (m : Memory) (i n : ℕ)
    → i < vl
    → idx i ≡ n * 4
    → ((j : ℕ) → j < vl → idx j ≡ n * 4 → j ≡ i)
    → scatter p idx v vl m (p + n) ≡ v i
unfolding scatter
scatter-hit p idx v zero m i n h e only = absurd (omega arith)
scatter-hit p idx v (suc vl) m i n h e only =
    go (Bool-cases (p * 4 + idx vl == (p + n) * 4))
      (λ k. scatter-hit p idx v vl m i n k e (λ j hj q. only j (omega arith) q))
  where
    go :
        ((p * 4 + idx vl == (p + n) * 4) ≡ true) ⊎ ((p * 4 + idx vl == (p + n) * 4) ≡ false)
        → (i < vl → scatter p idx v vl m (p + n) ≡ v i)
        → scatter p idx v (suc vl) m (p + n) ≡ v i
    go (inl t) later =
        let there : idx vl ≡ n * 4 = ground arith in
        let same : vl ≡ i = only vl (omega arith) there in rw t (ap v same)
    go (inr t) later =
        let apart : idx vl ≢ n * 4 = ground arith in
        let other : vl ≢ i = λ s. apart (ap idx s ∙ e) in rw t (later (omega arith))

pub scatter-miss :
    (p : ℕ) (idx v : ℕ → ℕ) (vl : ℕ) (m : Memory) (q : ℕ)
    → ((j : ℕ) → j < vl → (n : ℕ) × (idx j ≡ n * 4) × (p + n ≢ q))
    → scatter p idx v vl m q ≡ m q
unfolding scatter
scatter-miss p idx v zero m q away = refl
scatter-miss p idx v (suc vl) m q away =
    let (n, e, apart) = away vl (omega arith) in
    let other : (p * 4 + idx vl == q * 4) ≡ false = ground arith in
    rw other (scatter-miss p idx v vl m q (λ j h. away j (omega arith)))

-- The atom's edge by the vector length.
abbrev pub edge : ℕ → ℕ
edge vl = if vl == 32 then 4 else if vl == 128 then 8 else 16

abbrev pub madot : (ℕ → ℕ) → (ℕ → ℕ) → (ℕ → ℕ) → ℕ → ℕ → ℕ
madot acc a b vl i =
    let atom = edge vl in
    (acc i + row_product a b (2 * atom) (i / atom * (2 * atom)) (i % atom * (2 * atom))) % 2 ^ 32

pub madot_at :
    (acc a b : ℕ → ℕ) (atom i : ℕ)
    → IsAtom atom
    → madot acc a b (atom * (2 * atom)) i
      ≡ (acc i + row_product a b (2 * atom) (i / atom * (2 * atom)) (i % atom * (2 * atom)))
        % 2 ^ 32
madot_at acc a b atom i =
    IsAtom-elim
      (λ e.
        madot acc a b (e * (2 * e)) i
        ≡ (acc i + row_product a b (2 * e) (i / e * (2 * e)) (i % e * (2 * e))) % 2 ^ 32)
      refl refl refl atom

abbrev pub trailing_zeros : ℕ → ℕ → ℕ
trailing_zeros zero x = 0
trailing_zeros (suc fuel) x =
    let rest = trailing_zeros fuel (x / 2) in if x % 2 == 0 then suc rest else 0

pub trailing_zeros_at : (fuel n : ℕ) → n < fuel → trailing_zeros fuel (2 ^ n) ≡ n
trailing_zeros_at zero n h = absurd (omega arith)
trailing_zeros_at (suc fuel) zero h = refl
trailing_zeros_at (suc fuel) (suc n) h =
    let e : 2 ^ suc n / 2 ≡ 2 ^ n = omega arith in
    let even : (2 ^ suc n % 2 == 0) ≡ true = ground arith in
    rw (e, even) (ap suc (trailing_zeros_at fuel n (omega arith)))

abbrev pub lanes : Vectors
lanes = record {
  Vector = ℕ → ℕ;
  lane = λ v i. v i;
  vid = λ vl i. i;
  vsrl_vx = λ v s vl i. v i / 2 ^ s;
  vsll_vx = λ v s vl i. v i * 2 ^ s % 2 ^ 32;
  vmacc_vx = λ d x v vl i. (d i + x * v i) % 2 ^ 32;
  vmv_v_x = λ x vl i. x;
  vle8 = λ m p vl i. m (p + i);
  vluxei32 = λ m p idx vl i. m (p + idx i / 4);
  vsuxei32 = λ p idx v vl m. scatter p idx v vl m;
  vmadot = madot;
  ctz = trailing_zeros 32;
  accumulate_flag = λ flags. flags % 2 == 1;
  vid_at = λ vl i h. refl;
  vsrl_vx_at = λ v s vl i h k. refl;
  vsll_vx_at = λ v s vl i h k. refl;
  vmacc_vx_at = λ d x v vl i h. refl;
  vmv_v_x_at = λ x vl i h. refl;
  vle8_at = λ m p vl i h. refl;
  vluxei32_at = λ m p idx vl i n h e. ap m (ap (λ b. p + b / 4) e ∙ omega arith);
  vsuxei32_hit = scatter-hit;
  vsuxei32_miss = scatter-miss;
  vmadot_at = λ acc a b atom i ok h. madot_at acc a b atom i ok;
  ctz_at = λ n h. trailing_zeros_at 32 n h;
}
