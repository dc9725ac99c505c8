-- ===== src/Sema/MaskedLabels.antt =====
-- The case labels of `CheckBuiltinFunctionCall` of phase-1-llvm/clang/lib/Sema/SemaRISCV.cpp for the
-- floating-point rounding modes behind four operands.
use spacemit_ime_iree_tcp.Shared.{List, [], ◌∷◌, Text, codes}

-- The floating-point rounding mode is argument 4.
abbrev pub frm_4 : List Text
frm_4 =
    codes "rvv_vfmacc_vv_rm_m"
    ∷ codes "rvv_vfmacc_vf_rm_m"
    ∷ codes "rvv_vfnmacc_vv_rm_m"
    ∷ codes "rvv_vfnmacc_vf_rm_m"
    ∷ codes "rvv_vfmsac_vv_rm_m"
    ∷ codes "rvv_vfmsac_vf_rm_m"
    ∷ codes "rvv_vfnmsac_vv_rm_m"
    ∷ codes "rvv_vfnmsac_vf_rm_m"
    ∷ codes "rvv_vfmadd_vv_rm_m"
    ∷ codes "rvv_vfmadd_vf_rm_m"
    ∷ codes "rvv_vfnmadd_vv_rm_m"
    ∷ codes "rvv_vfnmadd_vf_rm_m"
    ∷ codes "rvv_vfmsub_vv_rm_m"
    ∷ codes "rvv_vfmsub_vf_rm_m"
    ∷ codes "rvv_vfnmsub_vv_rm_m"
    ∷ codes "rvv_vfnmsub_vf_rm_m"
    ∷ codes "rvv_vfwmacc_vv_rm_m"
    ∷ codes "rvv_vfwmacc_vf_rm_m"
    ∷ codes "rvv_vfwnmacc_vv_rm_m"
    ∷ codes "rvv_vfwnmacc_vf_rm_m"
    ∷ codes "rvv_vfwmsac_vv_rm_m"
    ∷ codes "rvv_vfwmsac_vf_rm_m"
    ∷ codes "rvv_vfwnmsac_vv_rm_m"
    ∷ codes "rvv_vfwnmsac_vf_rm_m"
    ∷ codes "rvv_vfwmaccbf16_vv_rm_m"
    ∷ codes "rvv_vfwmaccbf16_vf_rm_m"
    ∷ codes "rvv_vfadd_vv_rm_tum"
    ∷ codes "rvv_vfadd_vf_rm_tum"
    ∷ codes "rvv_vfsub_vv_rm_tum"
    ∷ codes "rvv_vfsub_vf_rm_tum"
    ∷ codes "rvv_vfrsub_vf_rm_tum"
    ∷ codes "rvv_vfwadd_vv_rm_tum"
    ∷ codes "rvv_vfwadd_vf_rm_tum"
    ∷ codes "rvv_vfwsub_vv_rm_tum"
    ∷ codes "rvv_vfwsub_vf_rm_tum"
    ∷ codes "rvv_vfwadd_wv_rm_tum"
    ∷ codes "rvv_vfwadd_wf_rm_tum"
    ∷ codes "rvv_vfwsub_wv_rm_tum"
    ∷ codes "rvv_vfwsub_wf_rm_tum"
    ∷ codes "rvv_vfmul_vv_rm_tum"
    ∷ codes "rvv_vfmul_vf_rm_tum"
    ∷ codes "rvv_vfdiv_vv_rm_tum"
    ∷ codes "rvv_vfdiv_vf_rm_tum"
    ∷ codes "rvv_vfrdiv_vf_rm_tum"
    ∷ codes "rvv_vfwmul_vv_rm_tum"
    ∷ codes "rvv_vfwmul_vf_rm_tum"
    ∷ codes "rvv_vfmacc_vv_rm_tum"
    ∷ codes "rvv_vfmacc_vf_rm_tum"
    ∷ codes "rvv_vfnmacc_vv_rm_tum"
    ∷ codes "rvv_vfnmacc_vf_rm_tum"
    ∷ codes "rvv_vfmsac_vv_rm_tum"
    ∷ codes "rvv_vfmsac_vf_rm_tum"
    ∷ codes "rvv_vfnmsac_vv_rm_tum"
    ∷ codes "rvv_vfnmsac_vf_rm_tum"
    ∷ codes "rvv_vfmadd_vv_rm_tum"
    ∷ codes "rvv_vfmadd_vf_rm_tum"
    ∷ codes "rvv_vfnmadd_vv_rm_tum"
    ∷ codes "rvv_vfnmadd_vf_rm_tum"
    ∷ codes "rvv_vfmsub_vv_rm_tum"
    ∷ codes "rvv_vfmsub_vf_rm_tum"
    ∷ codes "rvv_vfnmsub_vv_rm_tum"
    ∷ codes "rvv_vfnmsub_vf_rm_tum"
    ∷ codes "rvv_vfwmacc_vv_rm_tum"
    ∷ codes "rvv_vfwmacc_vf_rm_tum"
    ∷ codes "rvv_vfwnmacc_vv_rm_tum"
    ∷ codes "rvv_vfwnmacc_vf_rm_tum"
    ∷ codes "rvv_vfwmsac_vv_rm_tum"
    ∷ codes "rvv_vfwmsac_vf_rm_tum"
    ∷ codes "rvv_vfwnmsac_vv_rm_tum"
    ∷ codes "rvv_vfwnmsac_vf_rm_tum"
    ∷ codes "rvv_vfwmaccbf16_vv_rm_tum"
    ∷ codes "rvv_vfwmaccbf16_vf_rm_tum"
    ∷ codes "rvv_vfredosum_vs_rm_tum"
    ∷ codes "rvv_vfredusum_vs_rm_tum"
    ∷ codes "rvv_vfwredosum_vs_rm_tum"
    ∷ codes "rvv_vfwredusum_vs_rm_tum"
    ∷ codes "rvv_sf_vfnrclip_x_f_qf_rm_tum"
    ∷ codes "rvv_sf_vfnrclip_xu_f_qf_rm_tum"
    ∷ codes "rvv_vfadd_vv_rm_tumu"
    ∷ codes "rvv_vfadd_vf_rm_tumu"
    ∷ codes "rvv_vfsub_vv_rm_tumu"
    ∷ codes "rvv_vfsub_vf_rm_tumu"
    ∷ codes "rvv_vfrsub_vf_rm_tumu"
    ∷ codes "rvv_vfwadd_vv_rm_tumu"
    ∷ codes "rvv_vfwadd_vf_rm_tumu"
    ∷ codes "rvv_vfwsub_vv_rm_tumu"
    ∷ codes "rvv_vfwsub_vf_rm_tumu"
    ∷ codes "rvv_vfwadd_wv_rm_tumu"
    ∷ codes "rvv_vfwadd_wf_rm_tumu"
    ∷ codes "rvv_vfwsub_wv_rm_tumu"
    ∷ codes "rvv_vfwsub_wf_rm_tumu"
    ∷ codes "rvv_vfmul_vv_rm_tumu"
    ∷ codes "rvv_vfmul_vf_rm_tumu"
    ∷ codes "rvv_vfdiv_vv_rm_tumu"
    ∷ codes "rvv_vfdiv_vf_rm_tumu"
    ∷ codes "rvv_vfrdiv_vf_rm_tumu"
    ∷ codes "rvv_vfwmul_vv_rm_tumu"
    ∷ codes "rvv_vfwmul_vf_rm_tumu"
    ∷ codes "rvv_vfmacc_vv_rm_tumu"
    ∷ codes "rvv_vfmacc_vf_rm_tumu"
    ∷ codes "rvv_vfnmacc_vv_rm_tumu"
    ∷ codes "rvv_vfnmacc_vf_rm_tumu"
    ∷ codes "rvv_vfmsac_vv_rm_tumu"
    ∷ codes "rvv_vfmsac_vf_rm_tumu"
    ∷ codes "rvv_vfnmsac_vv_rm_tumu"
    ∷ codes "rvv_vfnmsac_vf_rm_tumu"
    ∷ codes "rvv_vfmadd_vv_rm_tumu"
    ∷ codes "rvv_vfmadd_vf_rm_tumu"
    ∷ codes "rvv_vfnmadd_vv_rm_tumu"
    ∷ codes "rvv_vfnmadd_vf_rm_tumu"
    ∷ codes "rvv_vfmsub_vv_rm_tumu"
    ∷ codes "rvv_vfmsub_vf_rm_tumu"
    ∷ codes "rvv_vfnmsub_vv_rm_tumu"
    ∷ codes "rvv_vfnmsub_vf_rm_tumu"
    ∷ codes "rvv_vfwmacc_vv_rm_tumu"
    ∷ codes "rvv_vfwmacc_vf_rm_tumu"
    ∷ codes "rvv_vfwnmacc_vv_rm_tumu"
    ∷ codes "rvv_vfwnmacc_vf_rm_tumu"
    ∷ codes "rvv_vfwmsac_vv_rm_tumu"
    ∷ codes "rvv_vfwmsac_vf_rm_tumu"
    ∷ codes "rvv_vfwnmsac_vv_rm_tumu"
    ∷ codes "rvv_vfwnmsac_vf_rm_tumu"
    ∷ codes "rvv_vfwmaccbf16_vv_rm_tumu"
    ∷ codes "rvv_vfwmaccbf16_vf_rm_tumu"
    ∷ codes "rvv_sf_vfnrclip_x_f_qf_rm_tumu"
    ∷ codes "rvv_sf_vfnrclip_xu_f_qf_rm_tumu"
    ∷ codes "rvv_vfadd_vv_rm_mu"
    ∷ codes "rvv_vfadd_vf_rm_mu"
    ∷ codes "rvv_vfsub_vv_rm_mu"
    ∷ codes "rvv_vfsub_vf_rm_mu"
    ∷ codes "rvv_vfrsub_vf_rm_mu"
    ∷ codes "rvv_vfwadd_vv_rm_mu"
    ∷ codes "rvv_vfwadd_vf_rm_mu"
    ∷ codes "rvv_vfwsub_vv_rm_mu"
    ∷ codes "rvv_vfwsub_vf_rm_mu"
    ∷ codes "rvv_vfwadd_wv_rm_mu"
    ∷ codes "rvv_vfwadd_wf_rm_mu"
    ∷ codes "rvv_vfwsub_wv_rm_mu"
    ∷ codes "rvv_vfwsub_wf_rm_mu"
    ∷ codes "rvv_vfmul_vv_rm_mu"
    ∷ codes "rvv_vfmul_vf_rm_mu"
    ∷ codes "rvv_vfdiv_vv_rm_mu"
    ∷ codes "rvv_vfdiv_vf_rm_mu"
    ∷ codes "rvv_vfrdiv_vf_rm_mu"
    ∷ codes "rvv_vfwmul_vv_rm_mu"
    ∷ codes "rvv_vfwmul_vf_rm_mu"
    ∷ codes "rvv_vfmacc_vv_rm_mu"
    ∷ codes "rvv_vfmacc_vf_rm_mu"
    ∷ codes "rvv_vfnmacc_vv_rm_mu"
    ∷ codes "rvv_vfnmacc_vf_rm_mu"
    ∷ codes "rvv_vfmsac_vv_rm_mu"
    ∷ codes "rvv_vfmsac_vf_rm_mu"
    ∷ codes "rvv_vfnmsac_vv_rm_mu"
    ∷ codes "rvv_vfnmsac_vf_rm_mu"
    ∷ codes "rvv_vfmadd_vv_rm_mu"
    ∷ codes "rvv_vfmadd_vf_rm_mu"
    ∷ codes "rvv_vfnmadd_vv_rm_mu"
    ∷ codes "rvv_vfnmadd_vf_rm_mu"
    ∷ codes "rvv_vfmsub_vv_rm_mu"
    ∷ codes "rvv_vfmsub_vf_rm_mu"
    ∷ codes "rvv_vfnmsub_vv_rm_mu"
    ∷ codes "rvv_vfnmsub_vf_rm_mu"
    ∷ codes "rvv_vfwmacc_vv_rm_mu"
    ∷ codes "rvv_vfwmacc_vf_rm_mu"
    ∷ codes "rvv_vfwnmacc_vv_rm_mu"
    ∷ codes "rvv_vfwnmacc_vf_rm_mu"
    ∷ codes "rvv_vfwmsac_vv_rm_mu"
    ∷ codes "rvv_vfwmsac_vf_rm_mu"
    ∷ codes "rvv_vfwnmsac_vv_rm_mu"
    ∷ codes "rvv_vfwnmsac_vf_rm_mu"
    ∷ codes "rvv_vfwmaccbf16_vv_rm_mu"
    ∷ codes "rvv_vfwmaccbf16_vf_rm_mu"
    ∷ codes "rvv_sf_vfnrclip_x_f_qf_rm_mu"
    ∷ codes "rvv_sf_vfnrclip_xu_f_qf_rm_mu"
    ∷ []
