-- ===== src/Sema/TailLabels.antt =====
-- The case labels of `CheckBuiltinFunctionCall` of phase-1-llvm/clang/lib/Sema/SemaRISCV.cpp for the
-- floating-point rounding modes behind three operands.
use spacemit_ime_iree_tcp.Shared.{List, [], ◌∷◌, Text, codes}

-- The floating-point rounding mode is argument 3.
abbrev pub frm_3 : List Text
frm_3 =
    codes "rvv_vfadd_vv_rm_tu"
    ∷ codes "rvv_vfadd_vf_rm_tu"
    ∷ codes "rvv_vfsub_vv_rm_tu"
    ∷ codes "rvv_vfsub_vf_rm_tu"
    ∷ codes "rvv_vfrsub_vf_rm_tu"
    ∷ codes "rvv_vfwadd_vv_rm_tu"
    ∷ codes "rvv_vfwadd_vf_rm_tu"
    ∷ codes "rvv_vfwsub_vv_rm_tu"
    ∷ codes "rvv_vfwsub_vf_rm_tu"
    ∷ codes "rvv_vfwadd_wv_rm_tu"
    ∷ codes "rvv_vfwadd_wf_rm_tu"
    ∷ codes "rvv_vfwsub_wv_rm_tu"
    ∷ codes "rvv_vfwsub_wf_rm_tu"
    ∷ codes "rvv_vfmul_vv_rm_tu"
    ∷ codes "rvv_vfmul_vf_rm_tu"
    ∷ codes "rvv_vfdiv_vv_rm_tu"
    ∷ codes "rvv_vfdiv_vf_rm_tu"
    ∷ codes "rvv_vfrdiv_vf_rm_tu"
    ∷ codes "rvv_vfwmul_vv_rm_tu"
    ∷ codes "rvv_vfwmul_vf_rm_tu"
    ∷ codes "rvv_vfredosum_vs_rm_tu"
    ∷ codes "rvv_vfredusum_vs_rm_tu"
    ∷ codes "rvv_vfwredosum_vs_rm_tu"
    ∷ codes "rvv_vfwredusum_vs_rm_tu"
    ∷ codes "rvv_vfmacc_vv_rm"
    ∷ codes "rvv_vfmacc_vf_rm"
    ∷ codes "rvv_vfnmacc_vv_rm"
    ∷ codes "rvv_vfnmacc_vf_rm"
    ∷ codes "rvv_vfmsac_vv_rm"
    ∷ codes "rvv_vfmsac_vf_rm"
    ∷ codes "rvv_vfnmsac_vv_rm"
    ∷ codes "rvv_vfnmsac_vf_rm"
    ∷ codes "rvv_vfmadd_vv_rm"
    ∷ codes "rvv_vfmadd_vf_rm"
    ∷ codes "rvv_vfnmadd_vv_rm"
    ∷ codes "rvv_vfnmadd_vf_rm"
    ∷ codes "rvv_vfmsub_vv_rm"
    ∷ codes "rvv_vfmsub_vf_rm"
    ∷ codes "rvv_vfnmsub_vv_rm"
    ∷ codes "rvv_vfnmsub_vf_rm"
    ∷ codes "rvv_vfwmacc_vv_rm"
    ∷ codes "rvv_vfwmacc_vf_rm"
    ∷ codes "rvv_vfwnmacc_vv_rm"
    ∷ codes "rvv_vfwnmacc_vf_rm"
    ∷ codes "rvv_vfwmsac_vv_rm"
    ∷ codes "rvv_vfwmsac_vf_rm"
    ∷ codes "rvv_vfwnmsac_vv_rm"
    ∷ codes "rvv_vfwnmsac_vf_rm"
    ∷ codes "rvv_vfwmaccbf16_vv_rm"
    ∷ codes "rvv_vfwmaccbf16_vf_rm"
    ∷ codes "rvv_vfmacc_vv_rm_tu"
    ∷ codes "rvv_vfmacc_vf_rm_tu"
    ∷ codes "rvv_vfnmacc_vv_rm_tu"
    ∷ codes "rvv_vfnmacc_vf_rm_tu"
    ∷ codes "rvv_vfmsac_vv_rm_tu"
    ∷ codes "rvv_vfmsac_vf_rm_tu"
    ∷ codes "rvv_vfnmsac_vv_rm_tu"
    ∷ codes "rvv_vfnmsac_vf_rm_tu"
    ∷ codes "rvv_vfmadd_vv_rm_tu"
    ∷ codes "rvv_vfmadd_vf_rm_tu"
    ∷ codes "rvv_vfnmadd_vv_rm_tu"
    ∷ codes "rvv_vfnmadd_vf_rm_tu"
    ∷ codes "rvv_vfmsub_vv_rm_tu"
    ∷ codes "rvv_vfmsub_vf_rm_tu"
    ∷ codes "rvv_vfnmsub_vv_rm_tu"
    ∷ codes "rvv_vfnmsub_vf_rm_tu"
    ∷ codes "rvv_vfwmacc_vv_rm_tu"
    ∷ codes "rvv_vfwmacc_vf_rm_tu"
    ∷ codes "rvv_vfwnmacc_vv_rm_tu"
    ∷ codes "rvv_vfwnmacc_vf_rm_tu"
    ∷ codes "rvv_vfwmsac_vv_rm_tu"
    ∷ codes "rvv_vfwmsac_vf_rm_tu"
    ∷ codes "rvv_vfwnmsac_vv_rm_tu"
    ∷ codes "rvv_vfwnmsac_vf_rm_tu"
    ∷ codes "rvv_vfwmaccbf16_vv_rm_tu"
    ∷ codes "rvv_vfwmaccbf16_vf_rm_tu"
    ∷ codes "rvv_sf_vfnrclip_x_f_qf_rm_tu"
    ∷ codes "rvv_sf_vfnrclip_xu_f_qf_rm_tu"
    ∷ codes "rvv_vfadd_vv_rm_m"
    ∷ codes "rvv_vfadd_vf_rm_m"
    ∷ codes "rvv_vfsub_vv_rm_m"
    ∷ codes "rvv_vfsub_vf_rm_m"
    ∷ codes "rvv_vfrsub_vf_rm_m"
    ∷ codes "rvv_vfwadd_vv_rm_m"
    ∷ codes "rvv_vfwadd_vf_rm_m"
    ∷ codes "rvv_vfwsub_vv_rm_m"
    ∷ codes "rvv_vfwsub_vf_rm_m"
    ∷ codes "rvv_vfwadd_wv_rm_m"
    ∷ codes "rvv_vfwadd_wf_rm_m"
    ∷ codes "rvv_vfwsub_wv_rm_m"
    ∷ codes "rvv_vfwsub_wf_rm_m"
    ∷ codes "rvv_vfmul_vv_rm_m"
    ∷ codes "rvv_vfmul_vf_rm_m"
    ∷ codes "rvv_vfdiv_vv_rm_m"
    ∷ codes "rvv_vfdiv_vf_rm_m"
    ∷ codes "rvv_vfrdiv_vf_rm_m"
    ∷ codes "rvv_vfwmul_vv_rm_m"
    ∷ codes "rvv_vfwmul_vf_rm_m"
    ∷ codes "rvv_vfredosum_vs_rm_m"
    ∷ codes "rvv_vfredusum_vs_rm_m"
    ∷ codes "rvv_vfwredosum_vs_rm_m"
    ∷ codes "rvv_vfwredusum_vs_rm_m"
    ∷ codes "rvv_vfsqrt_v_rm_tum"
    ∷ codes "rvv_vfrec7_v_rm_tum"
    ∷ codes "rvv_vfcvt_x_f_v_rm_tum"
    ∷ codes "rvv_vfcvt_xu_f_v_rm_tum"
    ∷ codes "rvv_vfcvt_f_x_v_rm_tum"
    ∷ codes "rvv_vfcvt_f_xu_v_rm_tum"
    ∷ codes "rvv_vfwcvt_x_f_v_rm_tum"
    ∷ codes "rvv_vfwcvt_xu_f_v_rm_tum"
    ∷ codes "rvv_vfncvt_x_f_w_rm_tum"
    ∷ codes "rvv_vfncvt_xu_f_w_rm_tum"
    ∷ codes "rvv_vfncvt_f_x_w_rm_tum"
    ∷ codes "rvv_vfncvt_f_xu_w_rm_tum"
    ∷ codes "rvv_vfncvt_f_f_w_rm_tum"
    ∷ codes "rvv_vfncvtbf16_f_f_w_rm_tum"
    ∷ codes "rvv_vfsqrt_v_rm_tumu"
    ∷ codes "rvv_vfrec7_v_rm_tumu"
    ∷ codes "rvv_vfcvt_x_f_v_rm_tumu"
    ∷ codes "rvv_vfcvt_xu_f_v_rm_tumu"
    ∷ codes "rvv_vfcvt_f_x_v_rm_tumu"
    ∷ codes "rvv_vfcvt_f_xu_v_rm_tumu"
    ∷ codes "rvv_vfwcvt_x_f_v_rm_tumu"
    ∷ codes "rvv_vfwcvt_xu_f_v_rm_tumu"
    ∷ codes "rvv_vfncvt_x_f_w_rm_tumu"
    ∷ codes "rvv_vfncvt_xu_f_w_rm_tumu"
    ∷ codes "rvv_vfncvt_f_x_w_rm_tumu"
    ∷ codes "rvv_vfncvt_f_xu_w_rm_tumu"
    ∷ codes "rvv_vfncvt_f_f_w_rm_tumu"
    ∷ codes "rvv_vfncvtbf16_f_f_w_rm_tumu"
    ∷ codes "rvv_vfsqrt_v_rm_mu"
    ∷ codes "rvv_vfrec7_v_rm_mu"
    ∷ codes "rvv_vfcvt_x_f_v_rm_mu"
    ∷ codes "rvv_vfcvt_xu_f_v_rm_mu"
    ∷ codes "rvv_vfcvt_f_x_v_rm_mu"
    ∷ codes "rvv_vfcvt_f_xu_v_rm_mu"
    ∷ codes "rvv_vfwcvt_x_f_v_rm_mu"
    ∷ codes "rvv_vfwcvt_xu_f_v_rm_mu"
    ∷ codes "rvv_vfncvt_x_f_w_rm_mu"
    ∷ codes "rvv_vfncvt_xu_f_w_rm_mu"
    ∷ codes "rvv_vfncvt_f_x_w_rm_mu"
    ∷ codes "rvv_vfncvt_f_xu_w_rm_mu"
    ∷ codes "rvv_vfncvt_f_f_w_rm_mu"
    ∷ codes "rvv_vfncvtbf16_f_f_w_rm_mu"
    ∷ []
