-- ===== src/Target/Examples.antt =====
-- The theorems on the RISC-V target (phase-1-llvm/clang/lib/Basic/Targets/RISCV.cpp) for a small
-- library of ISA strings: an ISA is the number of bits of its vectors.
use spacemit_ime_iree_tcp.Shared.{
  ℕ, ◌*◌, ◌%◌, ◌/◌, ◌≡◌, ◌≤◌, ◌⊎◌, refl, true, false, List, [], ◌∷◌, some, codes, inl, arith,
  text_eq, starts_with, trim, split_first, split_all, consume_front, trim_left, trim_right,
}
use spacemit_ime_iree_tcp.Target.Constraint.{
  allows_register, two_letters, validate_asm_constraint, convert_constraint,
  convert_constraint-validate,
}
use spacemit_ime_iree_tcp.Target.Isa.{
  IsaLibrary, TargetInfo, Diagnostic, with_isa, check_abi, get_vscale_range, handle_target_features,
  Configured, get_vscale_range-bounds, handle_target_features-success,
}
use spacemit_ime_iree_tcp.Target.Attr.{
  Parsed, nothing, arch_features, value, parse_item, parse_items, handle_arch_extension,
  add_extensions, extension,
}
use spacemit_ime_iree_tcp.Target.Defines.{fixed_vlen, fixed_vlen-bounds}
use spacemit_ime_iree_tcp.Target.ArchWins.{parse_items-arch}

abbrev pub library : IsaLibrary ℕ
library = record {
  min_vlen = λ n. n;
  max_vlen = λ n. n;
  has_extension = λ n e. false;
  compute_default_abi = λ n. codes "lp64d";
  to_features = λ n. codes "+v" ∷ [];
  to_all_features = λ n. codes "+v" ∷ codes "-d" ∷ [];
  parse_features = λ x fs. inl 256;
  parse_arch_string = λ a. some 256;
  target_feature_for_extension = λ e. e;
  march_from_mcpu = λ c. [];
}

abbrev target : TargetInfo ℕ
target = record {
  is_64_bit = true;
  isa_info = 256;
  abi = [];
  has_fast_half_type = false;
  fast_scalar_unaligned_access = false;
  has_experimental = false;
}

vd_is_valid : validate_asm_constraint (codes "vd") ≡ some (allows_register, codes "d")
unfolding validate_asm_constraint two_letters
vd_is_valid = refl

convert_constraint-validate_example : (convert_constraint (λ s. (s, s)) (codes "vd")).1 ≡ codes "d"
convert_constraint-validate_example =
    convert_constraint-validate (λ s. (s, s)) (codes "vd") (codes "d") allows_register (λ s. refl)
      vd_is_valid

vscale_range : get_vscale_range library target 2 3 ≡ some (4, 4)
unfolding get_vscale_range
vscale_range = refl

get_vscale_range-bounds_example : (1 ≤ 4) × (256 / 64 ≤ 4) × ((◌≡◌ {A = ℕ} 4 0) ⊎ (4 ≤ 4))
get_vscale_range-bounds_example =
    get_vscale_range-bounds library target 2 3 4 4 (omega arith) vscale_range

abbrev with_vectors : TargetInfo ℕ
with_vectors = record target { abi = codes "lp64d" }

handled : handle_target_features library (codes "+v" ∷ []) target ≡ (true, ([], with_vectors))
unfolding handle_target_features with_isa check_abi text_eq
handled = refl

handle_target_features-success_example :
    (◌≡◌ {A = List Diagnostic} [] []) × Configured library (codes "+v" ∷ []) target with_vectors
unfolding text_eq
handle_target_features-success_example =
    handle_target_features-success library (codes "+v" ∷ []) target with_vectors [] (λ i. refl)
      handled

abbrev parsed : Parsed
parsed = record {
  features = codes "+zbb" ∷ [];
  cpu = codes "spacemit-x60";
  tune = [];
  duplicate = [];
}

items_parsed :
    parse_items library (codes "arch=+zbb" ∷ codes "cpu=spacemit-x60" ∷ []) (nothing, false)
    ≡ some (parsed, true)
unfolding parse_items parse_item arch_features handle_arch_extension add_extensions extension
    starts_with consume_front text_eq trim trim_left trim_right split_first split_all
items_parsed = refl

arch_item : starts_with (codes "arch=") (trim (codes "arch=+zbb")) ≡ true
unfolding starts_with consume_front trim trim_left trim_right
arch_item = refl

cpu_item :
    (starts_with (codes "arch=") (trim (codes "cpu=spacemit-x60")) ≡ false)
    × (starts_with (codes "+") (trim (codes "cpu=spacemit-x60")) ≡ false)
unfolding starts_with consume_front trim trim_left trim_right
cpu_item = (refl, refl)

parse_items-arch_example :
    arch_features library (value library (trim (codes "arch=+zbb"))) ≡ some (codes "+zbb" ∷ [])
parse_items-arch_example =
    parse_items-arch library (codes "arch=+zbb") (codes "cpu=spacemit-x60" ∷ []) (nothing, false)
      (parsed, true) arch_item (cpu_item, tt) items_parsed

fixed_256 : fixed_vlen library target 2 3 ≡ some 256
unfolding fixed_vlen get_vscale_range
fixed_256 = refl

fixed_vlen-bounds_example : (64 ≤ 256) × (64 * (256 / 64) ≤ 256) × (◌≡◌ {A = ℕ} (256 % 64) 0)
fixed_vlen-bounds_example =
    fixed_vlen-bounds library target 2 3 256 (omega arith) (omega arith) fixed_256
