-- ===== src/Sema/Immediates.antt =====
-- The checks of rounding modes in calls (phase-1-llvm/clang/lib/Sema/SemaRISCV.cpp): a builtin with a
-- rounding mode has no other check of the switch.
use spacemit_ime_iree_tcp.Shared.{
  ℕ, ◌≡◌, refl, Bool, true, false, not, ◌&&◌, ◌||◌, List, none, some, Text, codes, text_eq, any,
  ◌==◌, arith,
}
use spacemit_ime_iree_tcp.Sema.Labels.{
  vmulh, sf_vset, sf_mm, crypto_128_128_2, crypto_256_2, crypto_128_1, crypto_128_128, vsha2,
  sf_vc_v_i, sf_vc_v_iv, sf_vc_ivv, sf_vc_v_x, sf_vc_xvv, sf_vc_fvv, byteselect,
}
use spacemit_ime_iree_tcp.Sema.RoundingLabels.{vxrm_2, vxrm_3, vxrm_4, frm_1, frm_2}
use spacemit_ime_iree_tcp.Sema.TailLabels.{frm_3}
use spacemit_ime_iree_tcp.Sema.MaskedLabels.{frm_4}
use spacemit_ime_iree_tcp.Sema.Calls.{SemaRef, Call, is_one_of}
use spacemit_ime_iree_tcp.Sema.Nontemporal.{Pointers}
use spacemit_ime_iree_tcp.Sema.RoundingLaws.{member_test}
use spacemit_ime_iree_tcp.Sema.Switch.{
  rounding_mode, range, check_shape, check_crypto, check_sf_vc, check_immediate, check_switch,
  lacks_required_feature, check_builtin_function_call,
}

abbrev shape_labels : Text → Bool
shape_labels n =
    text_eq n (codes "rvv_vsetvli")
    || (text_eq n (codes "rvv_vsetvlimax")
        || (is_one_of sf_vset n
            || (is_one_of sf_mm n
                || (text_eq n (codes "rvv_sf_vtzero_t")
                    || (text_eq n (codes "rvv_vget_v") || text_eq n (codes "rvv_vset_v"))))))

abbrev crypto_labels : Text → Bool
crypto_labels n =
    is_one_of crypto_128_128_2 n
    || (is_one_of crypto_256_2 n
        || (is_one_of crypto_128_1 n || (is_one_of crypto_128_128 n || is_one_of vsha2 n)))

abbrev sf_vc_labels : Text → Bool
sf_vc_labels n =
    text_eq n (codes "rvv_sf_vc_i_se")
    || (text_eq n (codes "rvv_sf_vc_iv_se")
        || (is_one_of sf_vc_v_i n
            || (is_one_of sf_vc_v_iv n
                || (is_one_of sf_vc_ivv n
                    || (text_eq n (codes "rvv_sf_vc_x_se")
                        || (is_one_of sf_vc_v_x n
                            || (is_one_of sf_vc_xvv n
                                || (text_eq n (codes "rvv_sf_vc_fv_se")
                                    || is_one_of sf_vc_fvv n))))))))

abbrev scalar_labels : Text → Bool
scalar_labels n = is_one_of byteselect n || text_eq n (codes "riscv_aes64ks1i")

abbrev elsewhere : Text → Bool
elsewhere n = shape_labels n || (crypto_labels n || (sf_vc_labels n || scalar_labels n))

abbrev apart : List Text → Bool
apart names = any (λ n. not (not (elsewhere n))) names

or_false : (a b : Bool) → (a || b) ≡ false → (a ≡ false) × (b ≡ false)
or_false a b h = ground arith

module _ {E Q : Type 0} (s : SemaRef E) (p : Pointers E Q) (has_feature : Text → Bool) where
  no_shape : (c : Call E) → shape_labels c.builtin ≡ false → check_shape s p has_feature c ≡ none
  unfolding check_shape
  no_shape c h = ground arith

  no_crypto : (c : Call E) → crypto_labels c.builtin ≡ false → check_crypto s p has_feature c ≡ none
  unfolding check_crypto
  no_crypto c h = ground arith

  no_sf_vc : (c : Call E) → sf_vc_labels c.builtin ≡ false → check_sf_vc s p has_feature c ≡ none
  unfolding check_sf_vc
  no_sf_vc c h = ground arith

  immediate :
      (c : Call E) (i high : ℕ)
      → rounding_mode c.builtin ≡ some (i, high)
      → scalar_labels c.builtin ≡ false
      → check_immediate s p has_feature c ≡ some (range s p has_feature c i 0 high)
  unfolding check_immediate
  immediate c i high h sc =
      let (a, b) = or_false (is_one_of byteselect c.builtin) _ sc in rw (a, b, h) refl

picked :
    (a b c d e f g x : Bool)
    → (a || (b || (c || (d || (e || (f || g)))))) ≡ true
    → (a ≡ true → not x ≡ true)
    → (b ≡ true → not x ≡ true)
    → (c ≡ true → not x ≡ true)
    → (d ≡ true → not x ≡ true)
    → (e ≡ true → not x ≡ true)
    → (f ≡ true → not x ≡ true)
    → (g ≡ true → not x ≡ true)
    → x ≡ false
picked a b c d e f g x h ha hb hc hd he hf hg = ground arith

apart_2 : apart vxrm_2 || (apart vxrm_3 || (apart vxrm_4 || (apart frm_1 || apart frm_2))) ≡ false
unfolding text_eq
apart_2 = refl

apart_3 : apart frm_3 || apart frm_4 ≡ false
unfolding text_eq
apart_3 = refl

abbrev is_rounding : Text → Bool
is_rounding n =
    is_one_of vxrm_2 n
    || (is_one_of vxrm_3 n
        || (is_one_of vxrm_4 n
            || (is_one_of frm_1 n
                || (is_one_of frm_2 n || (is_one_of frm_3 n || is_one_of frm_4 n)))))

rounding_mode-listed : (n : Text) (r : ℕ × ℕ) → rounding_mode n ≡ some r → is_rounding n ≡ true
unfolding rounding_mode
rounding_mode-listed n r h = ground arith

apart_member :
    (names : List Text) (n : Text)
    → apart names ≡ false
    → is_one_of names n ≡ true
    → not (elsewhere n) ≡ true
apart_member names n h m = member_test (λ x. not (elsewhere x)) names n h m

elsewhere_not : (n : Text) → is_rounding n ≡ true → elsewhere n ≡ false
elsewhere_not n h =
    let (a2, rest2) = or_false (apart vxrm_2) _ apart_2 in
    let (a3, rest3) = or_false (apart vxrm_3) _ rest2 in
    let (a4, rest4) = or_false (apart vxrm_4) _ rest3 in
    let (f1, f2) = or_false (apart frm_1) _ rest4 in
    let (f3, f4) = or_false (apart frm_3) _ apart_3 in
    picked (is_one_of vxrm_2 n) (is_one_of vxrm_3 n) (is_one_of vxrm_4 n) (is_one_of frm_1 n)
      (is_one_of frm_2 n) (is_one_of frm_3 n) (is_one_of frm_4 n) (elsewhere n) h
      (apart_member vxrm_2 n a2) (apart_member vxrm_3 n a3) (apart_member vxrm_4 n a4)
      (apart_member frm_1 n f1) (apart_member frm_2 n f2) (apart_member frm_3 n f3)
      (apart_member frm_4 n f4)

module _ {E Q : Type 0} (s : SemaRef E) (p : Pointers E Q) (has_feature : Text → Bool) where
  rounding_switch :
      (c : Call E) (i high : ℕ)
      → rounding_mode c.builtin ≡ some (i, high)
      → check_switch s p has_feature c ≡ (range s p has_feature c i 0 high, none)
  unfolding check_switch
  rounding_switch c i high h =
      let (sh, rest) =
        or_false (shape_labels c.builtin) _
          (elsewhere_not c.builtin (rounding_mode-listed c.builtin (i, high) h)) in
      let (cr, rest2) = or_false (crypto_labels c.builtin) _ rest in
      let (vc, sc) = or_false (sf_vc_labels c.builtin) _ rest2 in
      rw (no_shape s p has_feature c sh, check_switch)
        (rw (no_crypto s p has_feature c cr)
          (rw (no_sf_vc s p has_feature c vc) (rw (immediate s p has_feature c i high h sc) refl)))

  -- A call of a builtin with a rounding mode, with the features that it requires and, for EEW=64, "v"
  -- where Zve64* lacks the operation, is accepted exactly if the rounding mode's argument passes the
  -- check of the range from 0 to the largest mode; nothing else of the call is checked.
  pub check_rounding_mode :
      (c : Call E) (i high : ℕ)
      → rounding_mode c.builtin ≡ some (i, high)
      → lacks_required_feature s p has_feature c ≡ false
      → (is_one_of vmulh c.builtin && (c.result.elem_size == 64 && not (has_feature (codes "v"))))
        ≡ false
      → check_builtin_function_call s p has_feature c ≡ (range s p has_feature c i 0 high, none)
  unfolding check_builtin_function_call
  check_rounding_mode c i high h features v = rw (features, v) (rounding_switch c i high h)
