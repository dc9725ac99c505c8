-- ===== src/Sema/RoundingLabels.antt =====
-- The case labels of `CheckBuiltinFunctionCall` of phase-1-llvm/clang/lib/Sema/SemaRISCV.cpp for the
-- rounding modes, but for those of `TailLabels` and `MaskedLabels`.
use spacemit_ime_iree_tcp.Shared.{List, [], ◌∷◌, Text, codes}

-- The fixed-point rounding mode is argument 2.
abbrev pub vxrm_2 : List Text
vxrm_2 =
    codes "rvv_vaaddu_vv"
    ∷ codes "rvv_vaaddu_vx"
    ∷ codes "rvv_vaadd_vv"
    ∷ codes "rvv_vaadd_vx"
    ∷ codes "rvv_vasubu_vv"
    ∷ codes "rvv_vasubu_vx"
    ∷ codes "rvv_vasub_vv"
    ∷ codes "rvv_vasub_vx"
    ∷ codes "rvv_vsmul_vv"
    ∷ codes "rvv_vsmul_vx"
    ∷ codes "rvv_vssra_vv"
    ∷ codes "rvv_vssra_vx"
    ∷ codes "rvv_vssrl_vv"
    ∷ codes "rvv_vssrl_vx"
    ∷ codes "rvv_vnclip_wv"
    ∷ codes "rvv_vnclip_wx"
    ∷ codes "rvv_vnclipu_wv"
    ∷ codes "rvv_vnclipu_wx"
    ∷ []

-- The fixed-point rounding mode is argument 3.
abbrev pub vxrm_3 : List Text
vxrm_3 =
    codes "rvv_vaaddu_vv_tu"
    ∷ codes "rvv_vaaddu_vx_tu"
    ∷ codes "rvv_vaadd_vv_tu"
    ∷ codes "rvv_vaadd_vx_tu"
    ∷ codes "rvv_vasubu_vv_tu"
    ∷ codes "rvv_vasubu_vx_tu"
    ∷ codes "rvv_vasub_vv_tu"
    ∷ codes "rvv_vasub_vx_tu"
    ∷ codes "rvv_vsmul_vv_tu"
    ∷ codes "rvv_vsmul_vx_tu"
    ∷ codes "rvv_vssra_vv_tu"
    ∷ codes "rvv_vssra_vx_tu"
    ∷ codes "rvv_vssrl_vv_tu"
    ∷ codes "rvv_vssrl_vx_tu"
    ∷ codes "rvv_vnclip_wv_tu"
    ∷ codes "rvv_vnclip_wx_tu"
    ∷ codes "rvv_vnclipu_wv_tu"
    ∷ codes "rvv_vnclipu_wx_tu"
    ∷ codes "rvv_vaaddu_vv_m"
    ∷ codes "rvv_vaaddu_vx_m"
    ∷ codes "rvv_vaadd_vv_m"
    ∷ codes "rvv_vaadd_vx_m"
    ∷ codes "rvv_vasubu_vv_m"
    ∷ codes "rvv_vasubu_vx_m"
    ∷ codes "rvv_vasub_vv_m"
    ∷ codes "rvv_vasub_vx_m"
    ∷ codes "rvv_vsmul_vv_m"
    ∷ codes "rvv_vsmul_vx_m"
    ∷ codes "rvv_vssra_vv_m"
    ∷ codes "rvv_vssra_vx_m"
    ∷ codes "rvv_vssrl_vv_m"
    ∷ codes "rvv_vssrl_vx_m"
    ∷ codes "rvv_vnclip_wv_m"
    ∷ codes "rvv_vnclip_wx_m"
    ∷ codes "rvv_vnclipu_wv_m"
    ∷ codes "rvv_vnclipu_wx_m"
    ∷ []

-- The fixed-point rounding mode is argument 4.
abbrev pub vxrm_4 : List Text
vxrm_4 =
    codes "rvv_vaaddu_vv_tum"
    ∷ codes "rvv_vaaddu_vv_tumu"
    ∷ codes "rvv_vaaddu_vv_mu"
    ∷ codes "rvv_vaaddu_vx_tum"
    ∷ codes "rvv_vaaddu_vx_tumu"
    ∷ codes "rvv_vaaddu_vx_mu"
    ∷ codes "rvv_vaadd_vv_tum"
    ∷ codes "rvv_vaadd_vv_tumu"
    ∷ codes "rvv_vaadd_vv_mu"
    ∷ codes "rvv_vaadd_vx_tum"
    ∷ codes "rvv_vaadd_vx_tumu"
    ∷ codes "rvv_vaadd_vx_mu"
    ∷ codes "rvv_vasubu_vv_tum"
    ∷ codes "rvv_vasubu_vv_tumu"
    ∷ codes "rvv_vasubu_vv_mu"
    ∷ codes "rvv_vasubu_vx_tum"
    ∷ codes "rvv_vasubu_vx_tumu"
    ∷ codes "rvv_vasubu_vx_mu"
    ∷ codes "rvv_vasub_vv_tum"
    ∷ codes "rvv_vasub_vv_tumu"
    ∷ codes "rvv_vasub_vv_mu"
    ∷ codes "rvv_vasub_vx_tum"
    ∷ codes "rvv_vasub_vx_tumu"
    ∷ codes "rvv_vasub_vx_mu"
    ∷ codes "rvv_vsmul_vv_mu"
    ∷ codes "rvv_vsmul_vx_mu"
    ∷ codes "rvv_vssra_vv_mu"
    ∷ codes "rvv_vssra_vx_mu"
    ∷ codes "rvv_vssrl_vv_mu"
    ∷ codes "rvv_vssrl_vx_mu"
    ∷ codes "rvv_vnclip_wv_mu"
    ∷ codes "rvv_vnclip_wx_mu"
    ∷ codes "rvv_vnclipu_wv_mu"
    ∷ codes "rvv_vnclipu_wx_mu"
    ∷ codes "rvv_vsmul_vv_tum"
    ∷ codes "rvv_vsmul_vx_tum"
    ∷ codes "rvv_vssra_vv_tum"
    ∷ codes "rvv_vssra_vx_tum"
    ∷ codes "rvv_vssrl_vv_tum"
    ∷ codes "rvv_vssrl_vx_tum"
    ∷ codes "rvv_vnclip_wv_tum"
    ∷ codes "rvv_vnclip_wx_tum"
    ∷ codes "rvv_vnclipu_wv_tum"
    ∷ codes "rvv_vnclipu_wx_tum"
    ∷ codes "rvv_vsmul_vv_tumu"
    ∷ codes "rvv_vsmul_vx_tumu"
    ∷ codes "rvv_vssra_vv_tumu"
    ∷ codes "rvv_vssra_vx_tumu"
    ∷ codes "rvv_vssrl_vv_tumu"
    ∷ codes "rvv_vssrl_vx_tumu"
    ∷ codes "rvv_vnclip_wv_tumu"
    ∷ codes "rvv_vnclip_wx_tumu"
    ∷ codes "rvv_vnclipu_wv_tumu"
    ∷ codes "rvv_vnclipu_wx_tumu"
    ∷ []

-- The floating-point rounding mode is argument 1.
abbrev pub frm_1 : List Text
frm_1 =
    codes "rvv_vfsqrt_v_rm"
    ∷ codes "rvv_vfrec7_v_rm"
    ∷ codes "rvv_vfcvt_x_f_v_rm"
    ∷ codes "rvv_vfcvt_xu_f_v_rm"
    ∷ codes "rvv_vfcvt_f_x_v_rm"
    ∷ codes "rvv_vfcvt_f_xu_v_rm"
    ∷ codes "rvv_vfwcvt_x_f_v_rm"
    ∷ codes "rvv_vfwcvt_xu_f_v_rm"
    ∷ codes "rvv_vfncvt_x_f_w_rm"
    ∷ codes "rvv_vfncvt_xu_f_w_rm"
    ∷ codes "rvv_vfncvt_f_x_w_rm"
    ∷ codes "rvv_vfncvt_f_xu_w_rm"
    ∷ codes "rvv_vfncvt_f_f_w_rm"
    ∷ codes "rvv_vfncvtbf16_f_f_w_rm"
    ∷ []

-- The floating-point rounding mode is argument 2.
abbrev pub frm_2 : List Text
frm_2 =
    codes "rvv_vfadd_vv_rm"
    ∷ codes "rvv_vfadd_vf_rm"
    ∷ codes "rvv_vfsub_vv_rm"
    ∷ codes "rvv_vfsub_vf_rm"
    ∷ codes "rvv_vfrsub_vf_rm"
    ∷ codes "rvv_vfwadd_vv_rm"
    ∷ codes "rvv_vfwadd_vf_rm"
    ∷ codes "rvv_vfwsub_vv_rm"
    ∷ codes "rvv_vfwsub_vf_rm"
    ∷ codes "rvv_vfwadd_wv_rm"
    ∷ codes "rvv_vfwadd_wf_rm"
    ∷ codes "rvv_vfwsub_wv_rm"
    ∷ codes "rvv_vfwsub_wf_rm"
    ∷ codes "rvv_vfmul_vv_rm"
    ∷ codes "rvv_vfmul_vf_rm"
    ∷ codes "rvv_vfdiv_vv_rm"
    ∷ codes "rvv_vfdiv_vf_rm"
    ∷ codes "rvv_vfrdiv_vf_rm"
    ∷ codes "rvv_vfwmul_vv_rm"
    ∷ codes "rvv_vfwmul_vf_rm"
    ∷ codes "rvv_vfredosum_vs_rm"
    ∷ codes "rvv_vfredusum_vs_rm"
    ∷ codes "rvv_vfwredosum_vs_rm"
    ∷ codes "rvv_vfwredusum_vs_rm"
    ∷ codes "rvv_sf_vfnrclip_x_f_qf_rm"
    ∷ codes "rvv_sf_vfnrclip_xu_f_qf_rm"
    ∷ codes "rvv_vfsqrt_v_rm_tu"
    ∷ codes "rvv_vfrec7_v_rm_tu"
    ∷ codes "rvv_vfcvt_x_f_v_rm_tu"
    ∷ codes "rvv_vfcvt_xu_f_v_rm_tu"
    ∷ codes "rvv_vfcvt_f_x_v_rm_tu"
    ∷ codes "rvv_vfcvt_f_xu_v_rm_tu"
    ∷ codes "rvv_vfwcvt_x_f_v_rm_tu"
    ∷ codes "rvv_vfwcvt_xu_f_v_rm_tu"
    ∷ codes "rvv_vfncvt_x_f_w_rm_tu"
    ∷ codes "rvv_vfncvt_xu_f_w_rm_tu"
    ∷ codes "rvv_vfncvt_f_x_w_rm_tu"
    ∷ codes "rvv_vfncvt_f_xu_w_rm_tu"
    ∷ codes "rvv_vfncvt_f_f_w_rm_tu"
    ∷ codes "rvv_vfncvtbf16_f_f_w_rm_tu"
    ∷ codes "rvv_vfsqrt_v_rm_m"
    ∷ codes "rvv_vfrec7_v_rm_m"
    ∷ codes "rvv_vfcvt_x_f_v_rm_m"
    ∷ codes "rvv_vfcvt_xu_f_v_rm_m"
    ∷ codes "rvv_vfcvt_f_x_v_rm_m"
    ∷ codes "rvv_vfcvt_f_xu_v_rm_m"
    ∷ codes "rvv_vfwcvt_x_f_v_rm_m"
    ∷ codes "rvv_vfwcvt_xu_f_v_rm_m"
    ∷ codes "rvv_vfncvt_x_f_w_rm_m"
    ∷ codes "rvv_vfncvt_xu_f_w_rm_m"
    ∷ codes "rvv_vfncvt_f_x_w_rm_m"
    ∷ codes "rvv_vfncvt_f_xu_w_rm_m"
    ∷ codes "rvv_vfncvt_f_f_w_rm_m"
    ∷ codes "rvv_vfncvtbf16_f_f_w_rm_m"
    ∷ []
