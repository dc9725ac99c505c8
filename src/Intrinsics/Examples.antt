-- ===== src/Intrinsics/Examples.antt =====
-- The theorems on the intrinsic manager (phase-1-llvm/clang/lib/Sema/SemaRISCV.cpp) for one record.
use mathlib.Core.Option
use mathlib.Core.Bool.{true≢false}
use mathlib.Core.Option.{some-injective}
use spacemit_ime_iree_tcp.Shared.{
  ℕ, ◌≡◌, ◌↔◌, refl, Bool, true, false, List, [], ◌∷◌, none, some, Text, codes, get_elem?, arith,
  zero, suc, text_eq, subst, if◌then◌else◌, ◌==◌, ◌++◌,
}
use spacemit_ime_iree_tcp.Intrinsics.Types.{
  RvvType, AstContext, ScalarTypeKind, rvv_type_to_qual, scalar_qual, vector_qual, qualify,
}
use spacemit_ime_iree_tcp.Intrinsics.Manager.{
  IntrinsicKind, Record, Support, Names, IntrinsicDef, Tables, insert, push_index,
  before_underscore, with_suffix, base_names, add_intrinsic, count_up, proto_seq_to_array_ref,
  init_rvv_intrinsic, policy_scheme, policy_types, init_policy, init_typed, init_policies,
  init_masked, construct_found, construct_lmul, construct_type, construct_record,
  construct_rvv_intrinsics,
}
use spacemit_ime_iree_tcp.Intrinsics.Decl.{
  PerKind, Manager, finish, init_kind, init_intrinsic_list, new_manager, LookupCall, quals,
  create_intrinsic_if_found,
}
use spacemit_ime_iree_tcp.Intrinsics.Layers.{bare, rvv_type_to_qual-layers}
use spacemit_ime_iree_tcp.Intrinsics.Indices.{InBounds, Listed, Extends}
use spacemit_ime_iree_tcp.Intrinsics.Init.{
  init_all, init_all-bounds, init_all-Listed, init_intrinsic_list-Extends,
  init_intrinsic_list-idempotent,
}
use spacemit_ime_iree_tcp.Intrinsics.Total.{Legal}
use spacemit_ime_iree_tcp.Intrinsics.Found.{Expressible, Intrinsic, create_intrinsic_if_found_iff}

abbrev pub int32_vector : RvvType
int32_vector = record {
  scalar_type = ScalarTypeKind.signed_integer;
  element_bitwidth = 32;
  scale = some 2;
  nf = 1;
  is_vector = true;
  is_tuple = false;
  is_constant = true;
  is_pointer = true;
}

-- A signed dot product of two LMULs, the second of which has no legal types, with a masked variant and
-- without policies.
abbrev pub vmadot : Record
vmadot = record {
  name = codes "vmadot";
  overloaded_name = none;
  required_extensions = codes "xsmtvdot";
  prototype_index = 0;
  prototype_length = 1;
  suffix_index = 0;
  suffix_length = 1;
  overloaded_suffix_index = 0;
  overloaded_suffix_size = 0;
  type_range_mask = 1;
  log2_lmul_mask = 24;
  nf = 1;
  has_masked = true;
  has_vl = true;
  has_masked_off_operand = false;
  has_tail_policy = false;
  has_mask_policy = false;
  has_frm_round_mode_op = false;
  alt_fmt = false;
  is_tuple = false;
  unmasked_policy_scheme = 0;
  masked_policy_scheme = 0;
}

abbrev pub records_of : IntrinsicKind → List Record
records_of IntrinsicKind.spacemit_vector = vmadot ∷ []
records_of _ = []

abbrev pub suffix_of : List ℕ → Text
suffix_of [] = []
suffix_of (p ∷ ps) = codes "i32m1"

abbrev pub with_mask : Names → Names
with_mask n = record n { name = n.name ++ codes "_m" }

abbrev pub support : Support ℕ ℕ
support = record {
  signature_table = λ k. 7 ∷ [];
  records = records_of;
  max_offset = 0;
  scheme_none = 0;
  default_policy = 0;
  supported_unmasked_policies = [];
  supported_masked_policies = λ t m. [];
  compute_builtin_types = λ ps m o v n s p t. if m then 1 ∷ ps else ps;
  compute_types = λ b l n ps. if l == 3 then some (int32_vector ∷ int32_vector ∷ []) else none;
  get_suffix_str = λ b l ps. suffix_of ps;
  update_names_and_policy = λ m h n p f a. if m then with_mask n else n;
}

abbrev pub declared : PerKind
declared = record { rvv = false; sifive = false; andes = false; spacemit = true }

abbrev pub vmadot_def : IntrinsicDef
vmadot_def = record {
  builtin_name = codes "vmadot";
  required_extensions = codes "xsmtvdot";
  signature = int32_vector ∷ int32_vector ∷ [];
}

abbrev pub tables : Tables
tables = record {
  intrinsic_list = vmadot_def ∷ vmadot_def ∷ [];
  intrinsics = (codes "vmadot_i32m1", 0) ∷ (codes "vmadot_i32m1_m", 1) ∷ [];
  overload_intrinsics = (codes "vmadot", 0 ∷ 1 ∷ []) ∷ [];
}

abbrev pub manager : Manager
manager = record { tables = tables; constructed = declared }

-- What the manager builds of the record.
pub initialized : init_intrinsic_list support declared new_manager ≡ some manager
unfolding init_intrinsic_list init_kind finish construct_rvv_intrinsics construct_record
    construct_type construct_lmul construct_found init_policies init_masked init_rvv_intrinsic
    base_names add_intrinsic insert push_index before_underscore with_suffix count_up policy_types
    policy_scheme proto_seq_to_array_ref init_policy init_typed text_eq
initialized = refl

pub all_initialized : init_all support (declared ∷ []) new_manager ≡ some manager
unfolding init_all init_intrinsic_list init_kind finish construct_rvv_intrinsics construct_record
    construct_type construct_lmul construct_found init_policies init_masked init_rvv_intrinsic
    base_names add_intrinsic insert push_index before_underscore with_suffix count_up policy_types
    policy_scheme proto_seq_to_array_ref init_policy init_typed text_eq
all_initialized = refl

init_all-bounds_example : InBounds tables
init_all-bounds_example = init_all-bounds support (declared ∷ []) manager all_initialized

init_all-Listed_example : Listed tables 0
init_all-Listed_example =
    init_all-Listed support (declared ∷ []) manager 0 all_initialized (omega arith) (omega arith)

init_intrinsic_list-Extends_example : Extends new_manager.tables tables
init_intrinsic_list-Extends_example =
    init_intrinsic_list-Extends support declared new_manager manager initialized

init_intrinsic_list-idempotent_example : init_intrinsic_list support declared manager ≡ some manager
init_intrinsic_list-idempotent_example =
    init_intrinsic_list-idempotent support declared new_manager manager initialized

pub support-Legal : Legal support
unfolding policy_types policy_scheme
support-Legal IntrinsicKind.rvv = tt
support-Legal IntrinsicKind.sifive_vector = tt
support-Legal IntrinsicKind.andes_vector = tt
support-Legal IntrinsicKind.spacemit_vector = (
  λ shift l types ranged fits found. (
    λ masked. ((types, found), λ scheme. absurd (true≢false scheme)),
    λ scheme. absurd (true≢false scheme),
  ),
  tt,
)

-- Types as the numbers of their widths.
abbrev pub ast : AstContext ℕ
ast = record {
  void_ty = 0;
  size_type = 64;
  pointer_diff_type = 64;
  unsigned_long_ty = 64;
  long_ty = 64;
  unsigned_long_long_ty = 64;
  long_long_ty = 64;
  bool_ty = 1;
  bfloat16_ty = 16;
  double_ty = 64;
  float_ty = 32;
  float16_ty = 16;
  int64_is_signed_long = true;
  int_type_for_bitwidth = λ w s. w;
  scalable_vector_type = λ q n f. q;
  const_type = λ q. q;
  pointer_type = λ q. 64;
  ofp8_types = [];
}

rvv_type_to_qual-layers_example :
    rvv_type_to_qual ast int32_vector
    ≡ Option.map
        (λ q. ast.pointer_type (ast.const_type q))
        (rvv_type_to_qual ast (bare int32_vector))
rvv_type_to_qual-layers_example = rvv_type_to_qual-layers ast int32_vector

vmadot-Expressible : Expressible ast vmadot_def
unfolding quals rvv_type_to_qual scalar_qual vector_qual qualify
vmadot-Expressible = (64, 64 ∷ [], refl)

pub tables-Expressible :
    (i : ℕ) (d : IntrinsicDef) → get_elem? tables.intrinsic_list i ≡ some d → Expressible ast d
tables-Expressible zero d h =
    subst (Expressible ast) (some-injective vmadot_def d h) vmadot-Expressible
tables-Expressible (suc zero) d h =
    subst (Expressible ast) (some-injective vmadot_def d h) vmadot-Expressible
tables-Expressible (suc (suc i)) d h = cc

create_intrinsic_if_found_iff_example :
    (r : Bool × List (LookupCall ℕ)) × (create_intrinsic_if_found ast tables
        (codes "__riscv_vmadot")
      ≡ some r)
    × ((r.0 ≡ true) ↔ Intrinsic tables (codes "__riscv_vmadot"))
create_intrinsic_if_found_iff_example =
    create_intrinsic_if_found_iff ast tables tables-Expressible (codes "__riscv_vmadot")
      (init_all-bounds support (declared ∷ []) manager all_initialized)
