-- ===== src/Sema/Labels.antt =====
-- The case labels of `CheckBuiltinFunctionCall` of phase-1-llvm/clang/lib/Sema/SemaRISCV.cpp, but for the
-- rounding modes: the builtins' names, without `__builtin_`.
use spacemit_ime_iree_tcp.Shared.{List, [], ◌∷◌, Text, codes}

-- vmulh, vmulhu, vmulhsu and vsmul, which Zve64* lack for EEW=64.
abbrev pub vmulh : List Text
vmulh =
    codes "rvv_vmulhsu_vv"
    ∷ codes "rvv_vmulhsu_vx"
    ∷ codes "rvv_vmulhsu_vv_tu"
    ∷ codes "rvv_vmulhsu_vx_tu"
    ∷ codes "rvv_vmulhsu_vv_m"
    ∷ codes "rvv_vmulhsu_vx_m"
    ∷ codes "rvv_vmulhsu_vv_mu"
    ∷ codes "rvv_vmulhsu_vx_mu"
    ∷ codes "rvv_vmulhsu_vv_tum"
    ∷ codes "rvv_vmulhsu_vx_tum"
    ∷ codes "rvv_vmulhsu_vv_tumu"
    ∷ codes "rvv_vmulhsu_vx_tumu"
    ∷ codes "rvv_vmulhu_vv"
    ∷ codes "rvv_vmulhu_vx"
    ∷ codes "rvv_vmulhu_vv_tu"
    ∷ codes "rvv_vmulhu_vx_tu"
    ∷ codes "rvv_vmulhu_vv_m"
    ∷ codes "rvv_vmulhu_vx_m"
    ∷ codes "rvv_vmulhu_vv_mu"
    ∷ codes "rvv_vmulhu_vx_mu"
    ∷ codes "rvv_vmulhu_vv_tum"
    ∷ codes "rvv_vmulhu_vx_tum"
    ∷ codes "rvv_vmulhu_vv_tumu"
    ∷ codes "rvv_vmulhu_vx_tumu"
    ∷ codes "rvv_vmulh_vv"
    ∷ codes "rvv_vmulh_vx"
    ∷ codes "rvv_vmulh_vv_tu"
    ∷ codes "rvv_vmulh_vx_tu"
    ∷ codes "rvv_vmulh_vv_m"
    ∷ codes "rvv_vmulh_vx_m"
    ∷ codes "rvv_vmulh_vv_mu"
    ∷ codes "rvv_vmulh_vx_mu"
    ∷ codes "rvv_vmulh_vv_tum"
    ∷ codes "rvv_vmulh_vx_tum"
    ∷ codes "rvv_vmulh_vv_tumu"
    ∷ codes "rvv_vmulh_vx_tumu"
    ∷ codes "rvv_vsmul_vv"
    ∷ codes "rvv_vsmul_vx"
    ∷ codes "rvv_vsmul_vv_tu"
    ∷ codes "rvv_vsmul_vx_tu"
    ∷ codes "rvv_vsmul_vv_m"
    ∷ codes "rvv_vsmul_vx_m"
    ∷ codes "rvv_vsmul_vv_mu"
    ∷ codes "rvv_vsmul_vx_mu"
    ∷ codes "rvv_vsmul_vv_tum"
    ∷ codes "rvv_vsmul_vx_tum"
    ∷ codes "rvv_vsmul_vv_tumu"
    ∷ codes "rvv_vsmul_vx_tumu"
    ∷ []

-- The SiFive instructions that set a tile dimension.
abbrev pub sf_vset : List Text
sf_vset =
    codes "rvv_sf_vsettnt"
    ∷ codes "rvv_sf_vsettm"
    ∷ codes "rvv_sf_vsettn"
    ∷ codes "rvv_sf_vsettk"
    ∷ []

-- SiFive matrix multiplications.
abbrev pub sf_mm : List Text
sf_mm =
    codes "rvv_sf_mm_f_f_w1"
    ∷ codes "rvv_sf_mm_f_f_w2"
    ∷ codes "rvv_sf_mm_e5m2_e4m3_w4"
    ∷ codes "rvv_sf_mm_e5m2_e5m2_w4"
    ∷ codes "rvv_sf_mm_e4m3_e4m3_w4"
    ∷ codes "rvv_sf_mm_e4m3_e5m2_w4"
    ∷ codes "rvv_sf_mm_u_u_w4"
    ∷ codes "rvv_sf_mm_u_s_w4"
    ∷ codes "rvv_sf_mm_s_u_w4"
    ∷ codes "rvv_sf_mm_s_s_w4"
    ∷ []

-- Both operands of EGW 128, immediate in argument 2.
abbrev pub crypto_128_128_2 : List Text
crypto_128_128_2 =
    codes "rvv_vaeskf1_vi_tu"
    ∷ codes "rvv_vaeskf2_vi_tu"
    ∷ codes "rvv_vaeskf2_vi"
    ∷ codes "rvv_vsm4k_vi_tu"
    ∷ []

-- One operand of EGW 256, immediate in argument 2.
abbrev pub crypto_256_2 : List Text
crypto_256_2 = codes "rvv_vsm3c_vi_tu" ∷ codes "rvv_vsm3c_vi" ∷ []

-- One operand of EGW 128, immediate in argument 1.
abbrev pub crypto_128_1 : List Text
crypto_128_1 = codes "rvv_vaeskf1_vi" ∷ codes "rvv_vsm4k_vi" ∷ []

-- Both operands of EGW 128.
abbrev pub crypto_128_128 : List Text
crypto_128_128 =
    codes "rvv_vaesdf_vv"
    ∷ codes "rvv_vaesdf_vs"
    ∷ codes "rvv_vaesdm_vv"
    ∷ codes "rvv_vaesdm_vs"
    ∷ codes "rvv_vaesef_vv"
    ∷ codes "rvv_vaesef_vs"
    ∷ codes "rvv_vaesem_vv"
    ∷ codes "rvv_vaesem_vs"
    ∷ codes "rvv_vaesz_vs"
    ∷ codes "rvv_vsm4r_vv"
    ∷ codes "rvv_vsm4r_vs"
    ∷ codes "rvv_vaesdf_vv_tu"
    ∷ codes "rvv_vaesdf_vs_tu"
    ∷ codes "rvv_vaesdm_vv_tu"
    ∷ codes "rvv_vaesdm_vs_tu"
    ∷ codes "rvv_vaesef_vv_tu"
    ∷ codes "rvv_vaesef_vs_tu"
    ∷ codes "rvv_vaesem_vv_tu"
    ∷ codes "rvv_vaesem_vs_tu"
    ∷ codes "rvv_vaesz_vs_tu"
    ∷ codes "rvv_vsm4r_vv_tu"
    ∷ codes "rvv_vsm4r_vs_tu"
    ∷ []

-- Three operands with EGW of four elements.
abbrev pub vsha2 : List Text
vsha2 =
    codes "rvv_vsha2ch_vv"
    ∷ codes "rvv_vsha2cl_vv"
    ∷ codes "rvv_vsha2ms_vv"
    ∷ codes "rvv_vsha2ch_vv_tu"
    ∷ codes "rvv_vsha2cl_vv_tu"
    ∷ codes "rvv_vsha2ms_vv_tu"
    ∷ []

-- Immediates: bit_27_26, bit_24_20, simm5.
abbrev pub sf_vc_v_i : List Text
sf_vc_v_i = codes "rvv_sf_vc_v_i" ∷ codes "rvv_sf_vc_v_i_se" ∷ []

-- Immediates: bit_27_26 and a simm5 in argument 2.
abbrev pub sf_vc_v_iv : List Text
sf_vc_v_iv = codes "rvv_sf_vc_v_iv" ∷ codes "rvv_sf_vc_v_iv_se" ∷ []

-- Immediates: bit_27_26 and a simm5 in argument 3.
abbrev pub sf_vc_ivv : List Text
sf_vc_ivv =
    codes "rvv_sf_vc_ivv_se"
    ∷ codes "rvv_sf_vc_ivw_se"
    ∷ codes "rvv_sf_vc_v_ivv"
    ∷ codes "rvv_sf_vc_v_ivw"
    ∷ codes "rvv_sf_vc_v_ivv_se"
    ∷ codes "rvv_sf_vc_v_ivw_se"
    ∷ []

-- Immediates: bit_27_26 and five bits.
abbrev pub sf_vc_v_x : List Text
sf_vc_v_x =
    codes "rvv_sf_vc_xv_se"
    ∷ codes "rvv_sf_vc_vv_se"
    ∷ codes "rvv_sf_vc_v_x"
    ∷ codes "rvv_sf_vc_v_x_se"
    ∷ []

-- Immediates: bit_27_26.
abbrev pub sf_vc_xvv : List Text
sf_vc_xvv =
    codes "rvv_sf_vc_vvv_se"
    ∷ codes "rvv_sf_vc_xvv_se"
    ∷ codes "rvv_sf_vc_vvw_se"
    ∷ codes "rvv_sf_vc_xvw_se"
    ∷ codes "rvv_sf_vc_v_xv"
    ∷ codes "rvv_sf_vc_v_vv"
    ∷ codes "rvv_sf_vc_v_xv_se"
    ∷ codes "rvv_sf_vc_v_vv_se"
    ∷ codes "rvv_sf_vc_v_xvv"
    ∷ codes "rvv_sf_vc_v_vvv"
    ∷ codes "rvv_sf_vc_v_xvw"
    ∷ codes "rvv_sf_vc_v_vvw"
    ∷ codes "rvv_sf_vc_v_xvv_se"
    ∷ codes "rvv_sf_vc_v_vvv_se"
    ∷ codes "rvv_sf_vc_v_xvw_se"
    ∷ codes "rvv_sf_vc_v_vvw_se"
    ∷ []

-- Immediates: bit_26.
abbrev pub sf_vc_fvv : List Text
sf_vc_fvv =
    codes "rvv_sf_vc_fvv_se"
    ∷ codes "rvv_sf_vc_fvw_se"
    ∷ codes "rvv_sf_vc_v_fvv"
    ∷ codes "rvv_sf_vc_v_fvw"
    ∷ codes "rvv_sf_vc_v_fvv_se"
    ∷ codes "rvv_sf_vc_v_fvw_se"
    ∷ codes "rvv_sf_vc_v_fv"
    ∷ codes "rvv_sf_vc_v_fv_se"
    ∷ []

-- The byte selection in argument 2.
abbrev pub byteselect : List Text
byteselect =
    codes "riscv_aes32dsi"
    ∷ codes "riscv_aes32dsmi"
    ∷ codes "riscv_aes32esi"
    ∷ codes "riscv_aes32esmi"
    ∷ codes "riscv_sm4ks"
    ∷ codes "riscv_sm4ed"
    ∷ []
