-- ===== src/Sema/Switch.antt =====
-- `CheckBuiltinFunctionCall` of phase-1-llvm/clang/lib/Sema/SemaRISCV.cpp: which checks a builtin has.
use spacemit_ime_iree_tcp.Shared.{
  ℕ, ◌*◌, Bool, true, false, not, ◌&&◌, ◌||◌, Option, none, some, Text, codes, text_eq, split_all,
  any, ◌==◌, if◌then◌else◌,
}
use spacemit_ime_iree_tcp.Sema.Labels.{
  vmulh, sf_vset, sf_mm, crypto_128_128_2, crypto_256_2, crypto_128_1, crypto_128_128, vsha2,
  sf_vc_v_i, sf_vc_v_iv, sf_vc_ivv, sf_vc_v_x, sf_vc_xvv, sf_vc_fvv, byteselect,
}
use spacemit_ime_iree_tcp.Sema.RoundingLabels.{vxrm_2, vxrm_3, vxrm_4, frm_1, frm_2}
use spacemit_ime_iree_tcp.Sema.TailLabels.{frm_3}
use spacemit_ime_iree_tcp.Sema.MaskedLabels.{frm_4}
use spacemit_ime_iree_tcp.Sema.Calls.{
  pos, negsuc, SemaRef, Call, is_one_of, check_lmul, check_invalid_vlen_and_lmul, check_vset_vl,
  check_sf_mm, check_sf_vtzero, max_index, before,
}
use spacemit_ime_iree_tcp.Sema.Nontemporal.{Pointers, Retyped, check_ntl}

-- The builtins with one immediate from 0: its argument and its largest value.
unfoldable pub rounding_mode : Text → Option (ℕ × ℕ)
rounding_mode n =
    if is_one_of vxrm_2 n
    then some (2, 3)
    else if is_one_of vxrm_3 n
    then some (3, 3)
    else if is_one_of vxrm_4 n
    then some (4, 3)
    else if is_one_of frm_1 n
    then some (1, 4)
    else if is_one_of frm_2 n
    then some (2, 4)
    else if is_one_of frm_3 n
    then some (3, 4)
    else if is_one_of frm_4 n
    then some (4, 4)
    else none

module _ {E Q : Type 0} (s : SemaRef E) (p : Pointers E Q) (has_feature : Text → Bool) where
  -- Argument `i` is in the range from `low` to `high`, from 0, or an error.
  abbrev pub range : Call E → ℕ → ℕ → ℕ → Bool
  range c i low high = s.constant_arg_range (c.arg i) (pos low) (pos high)

  -- The range from -16 to 15.
  abbrev pub simm5 : Call E → ℕ → Bool
  simm5 c i = s.constant_arg_range (c.arg i) (negsuc 15) (pos 15)

  abbrev pub invalid_vlen : Call E → ℕ → ℕ → Bool
  invalid_vlen c i egw = check_invalid_vlen_and_lmul s has_feature (s.vector_info (c.arg i)) egw

  abbrev pub is : Call E → Text → Bool
  is c n = text_eq c.builtin n

  -- The feature that the callee's attribute requires and that is missing.
  unfoldable pub lacks_required_feature : Call E → Bool
  lacks_required_feature c = elim c.target_attr [
    | none ↦ false
    | some features ↦ any (λ f. not (has_feature f)) (split_all b',' features)
  ]

  unfoldable pub check_vsha2 : Call E → Bool
  check_vsha2 c =
      let egw = (s.vector_info (c.arg 0)).elem_size * 4 in
      invalid_vlen c 0 egw || (invalid_vlen c 1 egw || invalid_vlen c 2 egw)

  -- Vector cryptography.
  unfoldable pub check_crypto : Call E → Option Bool
  unfolding check_vsha2
  check_crypto c =
      if is_one_of crypto_128_128_2 c.builtin
      then some (invalid_vlen c 0 128 || (invalid_vlen c 1 128 || range c 2 0 31))
      else if is_one_of crypto_256_2 c.builtin
      then some (invalid_vlen c 0 256 || range c 2 0 31)
      else if is_one_of crypto_128_1 c.builtin
      then some (invalid_vlen c 0 128 || range c 1 0 31)
      else if is_one_of crypto_128_128 c.builtin
      then some (invalid_vlen c 0 128 || invalid_vlen c 1 128)
      else if is_one_of vsha2 c.builtin
      then some (check_vsha2 c)
      else none

  -- The custom instructions of SiFive.
  unfoldable pub check_sf_vc : Call E → Option Bool
  check_sf_vc c =
      if is c (codes "rvv_sf_vc_i_se")
      then some (
          range c 0 0 3
          || (range c 1 0 31
              || (range c 2 0 31 || (simm5 c 3 || check_lmul s has_feature (c.arg 5)))))
      else if is c (codes "rvv_sf_vc_iv_se")
      then some (range c 0 0 3 || (range c 1 0 31 || simm5 c 3))
      else if is_one_of sf_vc_v_i c.builtin
      then some (range c 0 0 3 || (range c 1 0 31 || simm5 c 2))
      else if is_one_of sf_vc_v_iv c.builtin
      then some (range c 0 0 3 || simm5 c 2)
      else if is_one_of sf_vc_ivv c.builtin
      then some (range c 0 0 3 || simm5 c 3)
      else if is c (codes "rvv_sf_vc_x_se")
      then some (
          range c 0 0 3
          || (range c 1 0 31 || (range c 2 0 31 || check_lmul s has_feature (c.arg 5))))
      else if is_one_of sf_vc_v_x c.builtin
      then some (range c 0 0 3 || range c 1 0 31)
      else if is_one_of sf_vc_xvv c.builtin
      then some (range c 0 0 3)
      else if is c (codes "rvv_sf_vc_fv_se")
      then some (range c 0 0 1 || range c 1 0 31)
      else if is_one_of sf_vc_fvv c.builtin
      then some (range c 0 0 1)
      else none

  -- Configuration, matrices and parts of vectors.
  unfoldable pub check_shape : Call E → Option Bool
  check_shape c =
      if is c (codes "rvv_vsetvli")
      then some (check_vset_vl s has_feature (c.arg 1) (c.arg 2))
      else if is c (codes "rvv_vsetvlimax")
      then some (check_vset_vl s has_feature (c.arg 0) (c.arg 1))
      else if is_one_of sf_vset c.builtin
      then some (range c 1 0 3 || range c 2 1 3)
      else if is_one_of sf_mm c.builtin
      then some (check_sf_mm s has_feature c.builtin (c.arg 0) (c.arg 1))
      else if is c (codes "rvv_sf_vtzero_t")
      then some (check_sf_vtzero s has_feature (c.arg 0) (c.arg 3) (c.arg 4))
      else if is c (codes "rvv_vget_v")
      then some (
          s.constant_arg_range (c.arg 1) (pos 0)
            (before s has_feature (max_index s has_feature (s.vector_info (c.arg 0)) c.result)))
      else if is c (codes "rvv_vset_v")
      then some (
          s.constant_arg_range (c.arg 1) (pos 0)
            (before s has_feature (max_index s has_feature c.result (s.vector_info (c.arg 2)))))
      else none

  -- The scalar immediates and the rounding modes.
  unfoldable pub check_immediate : Call E → Option Bool
  unfolding rounding_mode
  check_immediate c =
      if is_one_of byteselect c.builtin
      then some (range c 2 0 3)
      else if is c (codes "riscv_aes64ks1i")
      then some (range c 1 0 10)
      else elim (rounding_mode c.builtin) [ none ↦ none | some r ↦ some (range c r.0 0 r.1) ]

  abbrev pub or_else : Option Bool → Option Bool → Option Bool
  or_else none o = o
  or_else (some b) o = some b

  -- The second switch.
  unfoldable pub check_switch : Call E → Bool × Retyped E Q
  check_switch c =
      elim (or_else (check_shape c)
        (or_else (check_crypto c) (or_else (check_sf_vc c) (check_immediate c)))) [
          | some b ↦ (b, none)
          | none ↦
              if is c (codes "riscv_ntl_load")
              then check_ntl s p false c
              else if is c (codes "riscv_ntl_store")
              then check_ntl s p true c
              else (false, none)
        ]

  unfoldable pub check_builtin_function_call : Call E → Bool × Retyped E Q
  check_builtin_function_call c =
      if lacks_required_feature c
      then (true, none)
      else if is_one_of vmulh c.builtin
          && (c.result.elem_size == 64 && not (has_feature (codes "v")))
      then (true, none)
      else check_switch c
