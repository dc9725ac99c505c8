-- ===== src/Builtins/Examples.antt =====
-- The theorems on the Clang builtins (phase-1-llvm/clang/lib/Basic/Builtins.cpp) at a small table.
use spacemit_ime_iree_tcp.Shared.{
  ◌+◌, ◌-◌, ◌≡◌, ◌↔◌, ◌⊎◌, refl, true, false, List, [], ◌∷◌, none, some, codes, get_elem?, leb,
  Text, map, ◌++◌, arith, text_eq, consume_front, ◌≤◌,
}
use spacemit_ime_iree_tcp.Builtins.Table.{
  Info, Shard, Context, Header, get_shard_and_info, initialize_target, all_entries, full_name,
  WellFormed, get_shard_and_info-entries, initialize_target-WellFormed,
}
use spacemit_ime_iree_tcp.Builtins.Supported.{LangOptions, LanguageIds, builtin_is_supported}
use spacemit_ime_iree_tcp.Builtins.FpMath.{
  BuiltinKind, MathBuiltin, Compilation, should_generate_fp_math_intrinsic, ErrnoOff,
  ErrnoSwitchedOff, intrinsic_ErrnoOnly,
}
use spacemit_ime_iree_tcp.Builtins.Register.{
  Attributes, lookup, set_builtin_id, split_std, unregister, unregister_all, initialize_builtins,
}
use spacemit_ime_iree_tcp.Builtins.RegisterLaws.{initialize_builtins-names}
use spacemit_ime_iree_tcp.Builtins.Query.{parse_comma_separated_indices}
use spacemit_ime_iree_tcp.Builtins.Indices.{
  payload, index_of, parse_comma_separated_indices-payload,
}

abbrev info : Text → Text → Info
info name attributes = record {
  name = name;
  type_string = [];
  attributes = attributes;
  features = [];
  header = 0;
  langs = 64;
}

abbrev main_shards : List Shard
main_shards =
    record { name_prefix = []; infos = info [] [] ∷ info (codes "abs") (codes "fnc") ∷ [] } ∷ []

abbrev vector_shards : List Shard
vector_shards =
    record { name_prefix = codes "__builtin_rvv_"; infos = info (codes "vmadot") [] ∷ [] } ∷ []

abbrev header : Header
header = record {
  first_ts_builtin = 2;
  is_aux_builtin_id = λ c id. leb (2 + c.num_target) id;
  get_aux_builtin_id = λ c id. id - c.num_target;
}

abbrev before : Context
before = record {
  builtin_shards = main_shards;
  target_shards = [];
  aux_shards = [];
  num_target = 0;
  num_aux = 0;
}

abbrev context : Context
context = record before { target_shards = vector_shards; num_target = 1 }

context-WellFormed : WellFormed header context
context-WellFormed = record {
  first = refl;
  target = refl;
  aux = refl;
  is_aux = λ id. refl;
  aux_id = λ id. refl;
}

initialize_target-WellFormed_example :
    WellFormed header (initialize_target before vector_shards none)
initialize_target-WellFormed_example =
    initialize_target-WellFormed header main_shards vector_shards none refl (λ c id. refl)
      (λ c id. refl)

get_shard_and_info-entries_example :
    get_shard_and_info header context 2 ≡ get_elem? (all_entries context) 2
get_shard_and_info-entries_example = get_shard_and_info-entries header context 2 context-WellFormed

abbrev ids : LanguageIds
ids = record {
  cor_lang = 256;
  gnu_lang = 1;
  ms_lang = 16;
  hlsl_lang = 8192;
  objc_lang = 8;
  all_ocl_languages = 2048;
  ocl_gas = 512;
  ocl_pipe = 1024;
  ocl_dse = 4096;
  omp_lang = 32;
  cuda_lang = 128;
  cxx_lang = 4;
  c23_lang = 16384;
  c2y_lang = 32768;
  math_h = 9;
}

abbrev options : LangOptions
options = record {
  no_builtin = false;
  no_math_builtin = false;
  coroutines = false;
  gnu_mode = false;
  microsoft_ext = false;
  hlsl = false;
  obj_c = false;
  open_cl = false;
  open_cl_generic_address_space = false;
  open_cl_pipes = false;
  open_cl_compatible_version = 100;
  blocks = false;
  open_mp = false;
  cuda = false;
  c_plus_plus = false;
  c_plus_plus20 = false;
  c23 = false;
  c2y = false;
}

abs_is_supported : builtin_is_supported ids (info (codes "abs") (codes "fnc")) options ≡ true
unfolding builtin_is_supported
abs_is_supported = refl

abbrev attributes : Attributes
attributes = record { is_predefined_lib_function = λ id. true; is_in_std_namespace = λ id. false }

abbrev vmadot : Text
vmadot = codes "__builtin_rvv_vmadot"

vmadot_id :
    lookup vmadot (initialize_builtins ids attributes context options (codes "abs" ∷ []) [])
    ≡ some 2
unfolding initialize_builtins lookup unregister_all unregister builtin_is_supported set_builtin_id
    text_eq split_std consume_front
vmadot_id = refl

initialize_builtins-names_example :
    (r : Shard × Info) × (get_elem? (all_entries context) 2 ≡ some r) × (full_name r.0 r.1 ≡ vmadot)
initialize_builtins-names_example =
    initialize_builtins-names ids attributes context options (codes "abs" ∷ []) vmadot 2 (λ e. cc)
      vmadot_id

abbrev square_root : MathBuiltin
square_root = record {
  kind = BuiltinKind.other;
  is_const = false;
  const_without_errno_and_exceptions = true;
  const_without_exceptions = false;
}

abbrev plain : MathBuiltin
plain = record square_root { const_without_errno_and_exceptions = false }

abbrev compilation : Compilation
compilation = record {
  triple = record { is_gnu_environment = true; is_os_msvcrt = false };
  errno_overwritten = none;
  math_errno_enabled = false;
  has_opt_none = true;
  is_optimization_enabled = false;
}

intrinsic_ErrnoOnly_example :
    (should_generate_fp_math_intrinsic square_root compilation ≡ true)
    ↔ ((ErrnoOff compilation × (compilation.has_opt_none ≡ false)) ⊎ ErrnoSwitchedOff compilation)
intrinsic_ErrnoOnly_example = intrinsic_ErrnoOnly square_root compilation (refl, refl, refl)

one-IsDigit : (48 ≤ b'1') × (b'1' ≤ 57)
one-IsDigit = (omega arith, omega arith)

parse_comma_separated_indices-payload_example :
    parse_comma_separated_indices (b'<' ∷ (codes "1" ++ payload (codes "11" ∷ []) (codes "f")))
    ≡ some (map index_of (codes "1" ∷ (codes "11" ∷ [])))
parse_comma_separated_indices-payload_example =
    parse_comma_separated_indices-payload (codes "1") (codes "11" ∷ []) (codes "f")
      ((one-IsDigit, tt), omega arith) (((one-IsDigit, (one-IsDigit, tt)), omega arith), tt)
