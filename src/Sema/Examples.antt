-- ===== src/Sema/Examples.antt =====
-- Tests of the semantic checks, and the theorems about them at concrete inputs.
use spacemit_ime_iree_tcp.Shared.{
  Bool-cases, inl, inr, ℕ, ◌*◌, ◌/◌, ◌≡◌, ◌≢◌, ◌≤◌, ◌<◌, ◌⊎◌, refl, ap, Bool, true, false, not,
  ◌&&◌, List, [], ◌∷◌, Option, none, some, Text, codes, text_eq, starts_with, consume_front,
  split_all, split_first, subst, trim, trim_left, trim_right, any, All, leb, ltb, if◌then◌else◌,
  arith,
}
use spacemit_ime_iree_tcp.Target.Attr.{
  parse_target_attr, parse_items, parse_item, arch_features, handle_arch_extension, add_extensions,
  extension,
}
use spacemit_ime_iree_tcp.Target.Examples.{library}
use spacemit_ime_iree_tcp.Sema.Version.{
  Item, Versions, accepted, rejected, item_of, is_valid_fmv_extension, see_all, see,
  check_target_version_attr, cloned, clone_items, check_target_clones_attr,
}
use spacemit_ime_iree_tcp.Sema.VersionLaws.{
  no_item, check_target_version_attr_lem, check_target_version_attr-unsupported,
}
use spacemit_ime_iree_tcp.Sema.CloneLaws.{check_target_clones_attr_lem}
use spacemit_ime_iree_tcp.Sema.Interrupt.{
  InterruptType, Function, duplicate_type, is_unary, handle_interrupt_attr, read_args, add_type,
  missing_extension, finish_types,
}
use spacemit_ime_iree_tcp.Sema.InterruptLoop.{NoRepeats}
use spacemit_ime_iree_tcp.Sema.InterruptLaws.{Interruptible, Permitted, handle_interrupt_attr_safe}
use spacemit_ime_iree_tcp.Sema.Calls.{
  ℤ, pos, negsuc, VectorInfo, SemaRef, Call, check_invalid_vlen_and_lmul, max_index,
}
use spacemit_ime_iree_tcp.Sema.Nontemporal.{Pointers}
use spacemit_ime_iree_tcp.Sema.Switch.{
  rounding_mode, check_builtin_function_call, check_switch, check_shape, lacks_required_feature,
  range,
}
use spacemit_ime_iree_tcp.Sema.CallLaws.{
  zvl, ChecksRanges, InRange, check_invalid_vlen_and_lmul-bounds, vget-bounds,
}
use spacemit_ime_iree_tcp.Sema.FixedPoint.{tumu, check_fixed_point}

abbrev versions : Versions ℕ
versions = record {
  lib = library;
  features_bit = λ name. some 0;
  get_as_integer = λ digits. elim digits [ [] ↦ none | c ∷ cs ↦ some c ];
}

repeated_arch_is_accepted :
    check_target_version_attr versions (codes "arch=+v;arch=+v;priority=1")
    ≡ some (accepted (codes "arch=+v;arch=+v;priority=1"))
unfolding item_of check_target_version_attr see_all see split_all trim trim_left trim_right
    starts_with consume_front text_eq parse_target_attr parse_items parse_item arch_features
    handle_arch_extension add_extensions extension is_valid_fmv_extension split_first
repeated_arch_is_accepted = refl

masked_vfnrclip_has_no_rounding_mode :
    (rounding_mode (codes "rvv_sf_vfnrclip_x_f_qf_rm_m") ≡ none)
    × (rounding_mode (codes "rvv_sf_vfnrclip_x_f_qf_rm_tum") ≡ some (4, 4))
unfolding rounding_mode text_eq
masked_vfnrclip_has_no_rounding_mode = (refl, refl)

check_target_version_attr_lem_example :
    check_target_version_attr versions (codes "arch=+v;priority=1")
    ≡ some (accepted (codes "arch=+v;priority=1"))
unfolding item_of check_target_version_attr see_all see split_all trim trim_left trim_right
    starts_with consume_front text_eq parse_target_attr parse_items parse_item arch_features
    handle_arch_extension add_extensions extension is_valid_fmv_extension split_first
check_target_version_attr_lem_example =
    check_target_version_attr_lem versions (codes "arch=+v;priority=1")
      (Item.arch ∷ Item.priority ∷ []) (refl, tt, (refl, tt, tt))

check_target_version_attr-unsupported_example :
    check_target_version_attr versions (codes "default;xyz") ≡ some (rejected (codes "xyz"))
unfolding item_of check_target_version_attr see_all see split_all trim trim_left trim_right
    starts_with consume_front text_eq parse_target_attr parse_items parse_item arch_features
    handle_arch_extension add_extensions extension is_valid_fmv_extension split_first
check_target_version_attr-unsupported_example =
    check_target_version_attr-unsupported versions (codes "default;xyz") (codes "default" ∷ [])
      (Item.default ∷ []) (codes "xyz") [] (codes "xyz") refl (refl, tt, tt)
      (no_item (codes "xyz") refl refl refl)

check_target_clones_attr_lem_example :
    check_target_clones_attr versions (codes "arch=+v" ∷ codes " default" ∷ []) []
    ≡ some (
        cloned (record {
          has_default = true;
          new_params = codes "arch=+v" ∷ codes "default" ∷ [];
          warnings = 0;
        }))
unfolding item_of check_target_version_attr see_all see split_all trim trim_left trim_right
    starts_with consume_front text_eq parse_target_attr parse_items parse_item arch_features
    handle_arch_extension add_extensions extension is_valid_fmv_extension split_first clone_items
check_target_clones_attr_lem_example =
    check_target_clones_attr_lem versions (codes "arch=+v" ∷ codes " default" ∷ []) []
      (((false, false), refl, refl), (((false, true), refl, refl), tt))

abbrev handler : Function
handler = record {
  interrupt_attr = false;
  is_function = true;
  has_proto = true;
  params = 0;
  returns_void = true;
}

-- "r" for rnmi, everything else for machine.
abbrev interrupt_type : Text → Option InterruptType
interrupt_type t =
    some (if text_eq t (codes "r") then InterruptType.rnmi else InterruptType.machine)

abbrev twice : List (Option Text)
twice = some (codes "r") ∷ some (codes "r") ∷ []

handle_interrupt_attr_safe_example :
    Interruptible handler
    × (2 ≤ 3)
    × (1 ≤ 1)
    × NoRepeats (InterruptType.rnmi ∷ [])
    × ((any is_unary (InterruptType.rnmi ∷ []) && ltb 1 1) ≡ false)
    × All (Permitted (λ f. true)) (InterruptType.rnmi ∷ [])
unfolding handle_interrupt_attr read_args add_type missing_extension finish_types text_eq
handle_interrupt_attr_safe_example =
    handle_interrupt_attr_safe interrupt_type (λ f. true) handler twice
      (duplicate_type (codes "r") ∷ []) (InterruptType.rnmi ∷ []) refl

-- An argument: the vector information of its type, and its constant value.
abbrev Arg : Type 0
Arg = VectorInfo × ℤ

abbrev within : ℤ → ℤ → ℤ → Bool
within (pos low) (pos high) (pos i) = leb low i && leb i high
within low high value = false

abbrev sema : SemaRef Arg
sema = record {
  vector_info = λ e. e.0;
  is_dependent = λ e. false;
  constant_arg = λ e. (false, e.1);
  constant_arg_range = λ e low high. not (within low high e.1);
  constant_arg_multiple = λ e n. false;
}

within-InRange : (x high : ℤ) → not (within (pos 0) high x) ≡ false → InRange x high
within-InRange (pos i) (pos n) h = ground arith
within-InRange (pos i) (negsuc n) h = cc
within-InRange (negsuc i) (pos n) h = cc
within-InRange (negsuc i) (negsuc n) h = cc

sema-ChecksRanges : ChecksRanges sema
sema-ChecksRanges e value high d c h =
    subst (λ x. InRange x high) (ap (λ (r : Bool × ℤ). r.1) c) (within-InRange e.1 high h)

abbrev pointers : Pointers Arg ℕ
pointers = record {
  converted = λ e. some e;
  pointee = λ e. none;
  is_loadable = λ q. true;
  copy_initialization = λ q e. some e;
  void_ty = 0;
}

abbrev info : ℕ → VectorInfo
info n = record { elem_size = 32; min_elem_count = n; num_vectors = 1 }

-- A target with zvl128b alone.
abbrev has_zvl128b : Text → Bool
has_zvl128b f = text_eq f (codes "zvl128b")

zvl128b_means : (n : ℕ) → has_zvl128b (zvl n) ≡ true → n ≤ 128
unfolding text_eq
zvl128b_means n h = elim (Bool-cases (ltb n 10)) [
  | inl a ↦ ground arith
  | inr a ↦ elim (Bool-cases (ltb n 100)) [
    | inl b ↦ ground arith
    | inr b ↦ elim (Bool-cases (ltb n 1000)) [
      | inl c ↦ ground (arith, rw (a, b, c) at h)
      | inr c ↦ elim (Bool-cases (ltb n 10000)) [
        | inl d ↦ absurd (ground (arith, rw (a, b, c, d) at h))
        | inr d ↦ absurd (ground (arith, rw (a, b, c, d) at h))
      ]
    ]
  ]
]

check_invalid_vlen_and_lmul-bounds_example : 128 ≤ 32 * 2 * (128 / 64)
unfolding check_invalid_vlen_and_lmul text_eq
check_invalid_vlen_and_lmul-bounds_example =
    check_invalid_vlen_and_lmul-bounds sema has_zvl128b (info 2) 128 4 128 (omega arith)
      (omega arith) refl (inr (2, refl)) (omega arith) zvl128b_means refl

abbrev vget : Call Arg
vget = record {
  builtin = codes "rvv_vget_v";
  arg = λ i. (info 8, pos i);
  num_args = 2;
  result = info 4;
  target_attr = none;
}

vget-bounds_example : ((◌≡◌ {A = ℕ} 1 1) × (2 * 4 ≤ 8)) ⊎ ((◌≢◌ {A = ℕ} 1 1) × (1 < 1))
unfolding check_builtin_function_call check_switch check_shape lacks_required_feature max_index
    text_eq
vget-bounds_example =
    vget-bounds sema pointers (λ f. true) vget 1 sema-ChecksRanges refl (omega arith) refl refl refl

abbrev vaadd : Call Arg
vaadd = record vget { builtin = codes "rvv_vaadd_vv_tumu"; num_args = 6 }

check_fixed_point_example :
    check_builtin_function_call sema pointers (λ f. true) vaadd
    ≡ (range sema pointers (λ f. true) vaadd 4 0 3, none)
unfolding lacks_required_feature text_eq
check_fixed_point_example =
    check_fixed_point sema pointers (λ f. true) vaadd (codes "rvv_vaadd_vv") tumu refl refl refl
      refl
