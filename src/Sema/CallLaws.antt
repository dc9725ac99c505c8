-- ===== src/Sema/CallLaws.antt =====
-- What an accepted call of a builtin has (phase-1-llvm/clang/lib/Sema/SemaRISCV.cpp).
use spacemit_ime_iree_tcp.Shared.{
  ℕ, zero, suc, ◌+◌, ◌*◌, ◌/◌, ◌<◌, ◌≤◌, ◌≡◌, ◌≢◌, ◌⊎◌, inl, inr, refl, ap, ◌∙◌, Bool, true, false,
  not, ◌++◌, none, some, Text, codes, text_eq, leb, ◌==◌, if◌then◌else◌, arith, Bool-cases,
}
use spacemit_ime_iree_tcp.Sema.Calls.{
  ℤ, pos, negsuc, VectorInfo, SemaRef, Call, to_string, check_invalid_vlen_and_lmul, max_index,
  before,
}
use spacemit_ime_iree_tcp.Sema.Nontemporal.{Pointers}
use spacemit_ime_iree_tcp.Sema.Switch.{check_shape, check_switch, check_builtin_function_call}

-- The name of the extension for vectors of at least `n` bits.
abbrev pub zvl : ℕ → Text
zvl n = codes "zvl" ++ (to_string n ++ codes "b")

factor_le : (a b k v : ℕ) → k * 64 ≤ v → a * (b * k) ≤ a * b * (v / 64)
factor_le a b k v h = let e : k ≤ v / 64 = omega arith in grind arith

small : (m k vlen : ℕ) → 0 < m → m * k ≤ m → 64 ≤ vlen → k * 64 ≤ vlen
small m zero vlen hm h hv = omega arith
small m (suc zero) vlen hm h hv = omega arith
small m (suc (suc k)) vlen hm h hv =
    let e : m * suc (suc k) ≡ m + m + m * k = grind arith in absurd (omega arith)

within : (w n m vlen : ℕ) → n ≤ m → 64 ≤ vlen → w * n ≤ w * m * (vlen / 64)
within w n m vlen h hv =
    let one : 1 ≤ vlen / 64 = omega arith in
    let scaled : w * n ≤ w * m = grind arith in
    let more : w * m * 1 ≤ w * m * (vlen / 64) = grind arith in omega (arith, scaled, more)

exact : (k m : ℕ) → 0 < m → m * k / m ≡ k
exact k m h = grind arith

module _ {E : Type 0} (s : SemaRef E) (has_feature : Text → Bool) where
  enough_of :
      (m k vlen : ℕ)
      → 0 < m
      → 64 ≤ vlen
      → ((n : ℕ) → has_feature (zvl n) ≡ true → n ≤ vlen)
      → (if leb (m * k) m then false else not (has_feature (zvl (k * 64)))) ≡ false
      → k * 64 ≤ vlen
  enough_of m k vlen hm hv zvls h = elim (Bool-cases (leb (m * k) m)) [
    | inl e ↦ small m k vlen hm (ground arith) hv
    | inr e ↦ zvls (k * 64) (ground (arith, rw e at h))
  ]

  required_enough :
      (info : VectorInfo) (egw vlen k : ℕ)
      → 0 < info.elem_size
      → 0 < info.min_elem_count
      → egw ≡ info.elem_size * (info.min_elem_count * k)
      → 64 ≤ vlen
      → ((n : ℕ) → has_feature (zvl n) ≡ true → n ≤ vlen)
      → check_invalid_vlen_and_lmul s has_feature info egw ≡ false
      → egw ≤ info.elem_size * info.min_elem_count * (vlen / 64)
  unfolding check_invalid_vlen_and_lmul
  required_enough info egw vlen k he hm e hv zvls h =
      let egs : egw / info.elem_size ≡ info.min_elem_count * k =
        ap (λ x. x / info.elem_size) e ∙ exact (info.min_elem_count * k) info.elem_size he in
      let vscale : info.min_elem_count * k / info.min_elem_count ≡ k =
        exact k info.min_elem_count hm in
      let enough : k * 64 ≤ vlen =
        enough_of info.min_elem_count k vlen hm hv zvls
          (rw (egs, vscale, check_invalid_vlen_and_lmul) at h) in
      rw e (factor_le info.elem_size info.min_elem_count k vlen enough)

  -- Where an extension "zvl<n>b" means vectors of at least n bits, and VLEN is at least 64: a type
  -- that passes the check for EGW has at least EGW bits, its elements times VLEN / 64. EGW is the
  -- element width by an element group size, which is no more than the least element count or a
  -- multiple of it.
  pub check_invalid_vlen_and_lmul-bounds :
      (info : VectorInfo) (egw egs vlen : ℕ)
      → 0 < info.elem_size
      → 0 < info.min_elem_count
      → egw ≡ info.elem_size * egs
      → (egs ≤ info.min_elem_count) ⊎ ((k : ℕ) × (egs ≡ info.min_elem_count * k))
      → 64 ≤ vlen
      → ((n : ℕ) → has_feature (zvl n) ≡ true → n ≤ vlen)
      → check_invalid_vlen_and_lmul s has_feature info egw ≡ false
      → egw ≤ info.elem_size * info.min_elem_count * (vlen / 64)
  check_invalid_vlen_and_lmul-bounds info egw egs vlen he hm e (inl fits) hv zvls h =
      rw e (within info.elem_size egs info.min_elem_count vlen fits hv)
  check_invalid_vlen_and_lmul-bounds info egw egs vlen he hm e (inr (k, m)) hv zvls h =
      required_enough info egw vlen k he hm (e ∙ ap (λ x. info.elem_size * x) m) hv zvls h

-- What `BuiltinConstantArgRange` promises: an argument that is not dependent and has no error is a
-- constant in the range.
abbrev pub InRange : ℤ → ℤ → Type 0
InRange (pos i) (pos high) = i ≤ high
InRange (pos i) (negsuc high) = ⊥
InRange (negsuc i) high = ⊥

abbrev pub ChecksRanges : {E : Type 0} → SemaRef E → Type 0
ChecksRanges {E = E} s =
    (e : E) (value high : ℤ)
    → s.is_dependent e ≡ false
    → s.constant_arg e ≡ (false, value)
    → s.constant_arg_range e (pos 0) high ≡ false
    → InRange value high

-- The number of elements of all vectors of a type, for vscale 1.
abbrev pub elements : VectorInfo → ℕ
elements info = info.min_elem_count * info.num_vectors

parts_fit : (i w p : ℕ) → 0 < p → i < w / p → suc i * p ≤ w
parts_fit i w p hp h = grind arith

module _ {E Q : Type 0} (s : SemaRef E) (p : Pointers E Q) (has_feature : Text → Bool) where
  before-lt : (i n : ℕ) → InRange (pos i) (before s has_feature n) → i < n
  before-lt i zero h = elim h [ ]
  before-lt i (suc n) h = omega arith

  switched :
      (c : Call E)
      → check_builtin_function_call s p has_feature c ≡ (false, none)
      → check_switch s p has_feature c ≡ (false, none)
  unfolding check_builtin_function_call
  switched c h = ground arith

  shape_decides :
      (c : Call E) (b : Bool)
      → check_shape s p has_feature c ≡ some b
      → check_switch s p has_feature c ≡ (false, none)
      → b ≡ false
  unfolding check_switch
  shape_decides c b e h = ap (λ r. r.0) (rw (e, check_switch) at h)

  vget_shape :
      (c : Call E)
      → c.builtin ≡ codes "rvv_vget_v"
      → check_shape s p has_feature c
        ≡ some (
            s.constant_arg_range
              (c.arg 1)
              (pos 0)
              (before s has_feature (max_index s has_feature (s.vector_info (c.arg 0)) c.result)))
  unfolding check_shape text_eq
  vget_shape c e = rw e refl

  vget_checked :
      (c : Call E)
      → c.builtin ≡ codes "rvv_vget_v"
      → check_builtin_function_call s p has_feature c ≡ (false, none)
      → s.constant_arg_range
          (c.arg 1)
          (pos 0)
          (before s has_feature (max_index s has_feature (s.vector_info (c.arg 0)) c.result))
        ≡ false
  vget_checked c e h = shape_decides c _ (vget_shape c e) (switched c h)

  -- Of an accepted vget call with a constant index, the vectors up to the index fit into the one that
  -- they are taken from: into its elements, for a plain vector, and into its vectors, for a tuple.
  pub vget-bounds :
      (c : Call E) (i : ℕ)
      → ChecksRanges s
      → c.builtin ≡ codes "rvv_vget_v"
      → 0 < elements c.result
      → s.is_dependent (c.arg 1) ≡ false
      → s.constant_arg (c.arg 1) ≡ (false, pos i)
      → check_builtin_function_call s p has_feature c ≡ (false, none)
      → (((s.vector_info (c.arg 0)).num_vectors ≡ 1)
          × (suc i * elements c.result ≤ elements (s.vector_info (c.arg 0))))
        ⊎ (((s.vector_info (c.arg 0)).num_vectors ≢ 1)
            × (i < (s.vector_info (c.arg 0)).num_vectors))
  unfolding max_index
  vget-bounds c i ranges e some_elements independent value h =
      let whole = s.vector_info (c.arg 0) in
      let within : i < max_index s has_feature whole c.result =
        before-lt i (max_index s has_feature whole c.result) (
          ranges (c.arg 1) (pos i) (before s has_feature (max_index s has_feature whole c.result))
            independent value (vget_checked c e h)) in
      elim (Bool-cases (whole.num_vectors == 1)) [
        | inl one ↦ inl (
          ground arith,
          parts_fit i (elements whole) (elements c.result) some_elements
              (rw (one, max_index) at within),
        )
        | inr other ↦ inr (ground arith, rw (other, max_index) at within)
      ]
