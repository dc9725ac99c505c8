-- ===== src/Codegen/Examples.antt =====
-- The theorems on the code generator at concrete inputs.
use spacemit_ime_iree_tcp.Shared.{
  ◌++◌, any, ◌*◌, ◌%◌, ◌^◌, ℕ, none, ◌≡◌, refl, [], ◌∷◌, some, Option-cases, text_eq, codes, Bool,
  List, inl, inr, true, false, ◌==◌, arith,
}
use spacemit_ime_iree_tcp.Codegen.Gather.{
  MemRef, GatherOp, Chain, replaced, match_and_rewrite_gather, lane_value, gathered, linear,
  match_and_rewrite_gather_sound,
}
use spacemit_ime_iree_tcp.Codegen.Tiles.{
  LevelAttr, Items, LoweringConfigs, find_item, get_root_lowering_config, reset_distribution,
  get_config_with_zero_distribution_tiles, zero_items, is_level, zeroed, root_config-zeroed,
}
use spacemit_ime_iree_tcp.Codegen.Lowering.{
  Target, Pattern, is_vmadot, is_conditional_load, some_pattern, late_vmadot, applied,
  pipeline_options, lower_virtual_vectors, lower_virtual_vectors-xsmtvdot,
}
use spacemit_ime_iree_tcp.Codegen.Config.{
  Dictionary, has_xsmtvdot_feature, has_any_v_feature, integer, get, get_config_native_vector_size,
  add_config_native_vector_size, get_config_max_stack_allocation_size,
  get_max_vector_size_for_large_vector_check, add_config_native_vector_size-get,
}

abbrev config : Dictionary
config = (codes "max_stack_allocation_size", integer 32768) ∷ []

add_config_native_vector_size-get_example :
    (get_config_native_vector_size (add_config_native_vector_size 32 config) ≡ some 32)
    × (get_config_max_stack_allocation_size (add_config_native_vector_size 32 config)
        ≡ get_config_max_stack_allocation_size config)
    × (get_max_vector_size_for_large_vector_check 512
          (some (add_config_native_vector_size 32 config))
        ≡ (32 * 512) % 2 ^ 64)
unfolding get text_eq
add_config_native_vector_size-get_example = add_config_native_vector_size-get 32 512 config refl

-- Four lanes of a 2x8 array.
abbrev array : MemRef
array = record { shape = 2 ∷ 8 ∷ []; identity_layout = true; static_and_contiguous = false }

abbrev gather : GatherOp
gather = record {
  rank = 1;
  scalable = false;
  num_elements = 4;
  base = some array;
  offsets = 1 ∷ 2 ∷ [];
}

match_and_rewrite_gather_sound_example :
    (chain : Chain) × (match_and_rewrite_gather gather ≡ replaced chain)
    × (lane_value (λ p. p) (λ i. i == 3) (λ n. n) (λ i. 5) (λ i. 0) (2 ∷ 8 ∷ []) chain 3 ≡ 15)
unfolding gathered linear
match_and_rewrite_gather_sound_example =
    match_and_rewrite_gather_sound (λ p. p) (λ i. i == 3) (λ n. n) (λ i. 5) (λ i. 0) gather array 3
      refl refl refl (omega arith) refl refl (omega arith)

abbrev k1 : Target
k1 = record {
  is_x86 = false;
  is_riscv = true;
  is_aarch64 = false;
  has_feature = λ name. text_eq name (codes "+xsmtvdot");
  has_any_sve_feature = false;
}

-- A driver that only writes down which sets it is given.
abbrev log : List Pattern → List (List Pattern) → List (List Pattern)
log ps f = f ++ (ps ∷ [])

lower_virtual_vectors-xsmtvdot_example :
    (sets : List (List Pattern)) × (lower_virtual_vectors log some (some k1) (codes "none") true []
      ≡ some (applied log sets []))
    × (any (some_pattern is_vmadot) sets ≡ true)
    × (any (some_pattern is_conditional_load) sets ≡ true)
    × (late_vmadot sets ≡ false)
unfolding text_eq pipeline_options has_xsmtvdot_feature has_any_v_feature
lower_virtual_vectors-xsmtvdot_example =
    lower_virtual_vectors-xsmtvdot log some true false false k1 (codes "none") true []

-- Configurations as their items; level 0 is the distribution, and its sizes are the workgroup tiles.
abbrev workgroup_sizes : Items → List ℕ
workgroup_sizes c = elim (find_item 0 c) [ none ↦ [] | some a ↦ a.sizes ]

abbrev has_workgroup : Items → Bool
has_workgroup c = elim (find_item 0 c) [ none ↦ false | some a ↦ true ]

abbrev item_configs : LoweringConfigs
item_configs = record {
  Config = Items;
  tiling_level_attr = λ c i. find_item i c;
  workgroup_tile_sizes = workgroup_sizes;
  has_workgroup_tiling_level = has_workgroup;
  build = λ items. items;
  tiling_level_attr-build = λ items i. refl;
}

abbrev tile : List ℕ → LevelAttr
tile sizes = record { sizes = sizes; interchange = []; scalable_flags = [] }

abbrev tiles : Items
tiles = (0, tile (64 ∷ 32 ∷ [])) ∷ (1, tile (8 ∷ 4 ∷ [])) ∷ []

has_workgroup-kept :
    (c : Items)
    → has_workgroup c ≡ true
    → has_workgroup (get_config_with_zero_distribution_tiles item_configs (0 ∷ 1 ∷ []) 0 c) ≡ true
unfolding get_config_with_zero_distribution_tiles zero_items find_item
has_workgroup-kept c h = elim (Option-cases (find_item 0 c)) [
  | inl e ↦ absurd (ground (arith, rw (e, has_workgroup) at h))
  | inr (a, e) ↦ rw (e, zero_items, find_item) refl
]

root_config-zeroed_example :
    (d : Items) × (get_root_lowering_config item_configs
        (0 ∷ 1 ∷ [])
        0
        (reset_distribution item_configs (0 ∷ 1 ∷ []) 0 (none ∷ some tiles ∷ []))
      ≡ some d)
    × (find_item 0 d ≡ some (tile (0 ∷ 0 ∷ [])))
unfolding find_item get_root_lowering_config is_level zeroed
root_config-zeroed_example =
    root_config-zeroed item_configs (0 ∷ 1 ∷ []) 0 has_workgroup-kept (none ∷ some tiles ∷ []) tiles
      0 refl refl
