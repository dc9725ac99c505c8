-- ===== src/Codegen/Tiles.antt =====
-- Distribution tiles that are reset to zeros, in
-- phase-3-mlir/iree/compiler/src/iree/compiler/Codegen/LLVMCPU/LLVMCPULowerExecutableTarget.cpp.
use spacemit_ime_iree_tcp.Shared.{
  ℕ, zero, suc, length, ◌≡◌, refl, ap, ◌∙◌, Bool, true, false, not, ◌||◌, List, [], ◌∷◌, map,
  Option, none, some, ◌==◌, if◌then◌else◌, arith, Bool-cases, Option-cases, inl, inr,
}

-- `LoweringConfigTilingLevelAttr`.
pub record LevelAttr : Type 0 where
  pub sizes : List ℕ
  pub interchange : List ℕ
  pub scalable_flags : List Bool

-- The attributes of levels, by the number of a level, which stands for its name.
abbrev pub Items : Type 0
Items = List (ℕ × LevelAttr)

unfoldable pub find_item : ℕ → Items → Option LevelAttr
find_item i [] = none
find_item i ((j, a) ∷ items) = let rest = find_item i items in if i == j then some a else rest

-- `IREE::CPU::LoweringConfigAttr`: `hasTilingLevel` and `getTilingLevelAttr`, which give what a
-- configuration was built of; `getWorkgroupTileSizes` and `hasWorkgroupTilingLevel`.
pub record LoweringConfigs : Type 1 where
  pub Config : Type 0
  pub tiling_level_attr : Config → ℕ → Option LevelAttr
  pub workgroup_tile_sizes : Config → List ℕ
  pub has_workgroup_tiling_level : Config → Bool
  pub build : Items → Config
  pub tiling_level_attr-build :
      (items : Items) (i : ℕ) → tiling_level_attr (build items) i ≡ find_item i items

-- `getTilingLevelsAsInts`, and `TilingLevel::DistributionTiles` among them.
module _ (C : LoweringConfigs) (levels : List ℕ) (distribution : ℕ) where
  abbrev pub zero_level : C.Config → LevelAttr
  zero_level c = record {
    sizes = map (λ _. 0) (C.workgroup_tile_sizes c);
    interchange = [];
    scalable_flags = [];
  }

  -- The loop over the levels.
  unfoldable pub zero_items : C.Config → List ℕ → Items
  zero_items c [] = []
  zero_items c (i ∷ is) =
      let rest = zero_items c is in
      elim (C.tiling_level_attr c i) [
        | none ↦ rest
        | some a ↦ (i, if not (i == distribution) then a else zero_level c) ∷ rest
      ]

  unfoldable pub get_config_with_zero_distribution_tiles : C.Config → C.Config
  get_config_with_zero_distribution_tiles c = C.build (zero_items c levels)

  -- The walk over the operations, of which some have such a configuration.
  unfoldable pub reset_distribution : List (Option C.Config) → List (Option C.Config)
  reset_distribution [] = []
  reset_distribution (o ∷ os) =
      let rest = reset_distribution os in
      elim o [
        | none ↦ none ∷ rest
        | some c ↦
            (if C.has_workgroup_tiling_level c
              then some (get_config_with_zero_distribution_tiles c)
              else some c)
            ∷ rest
      ]

  -- The configurations of the compute operations.
  unfoldable pub get_root_lowering_config : List (Option C.Config) → Option C.Config
  get_root_lowering_config [] = none
  get_root_lowering_config (none ∷ os) = get_root_lowering_config os
  get_root_lowering_config (some c ∷ os) =
      let rest = get_root_lowering_config os in
      if C.has_workgroup_tiling_level c then some c else rest

  unfoldable pub is_level : ℕ → List ℕ → Bool
  is_level i [] = false
  is_level i (j ∷ js) = (i == j) || is_level i js

  abbrev pub no_tiles : ℕ → List ℕ
  no_tiles zero = []
  no_tiles (suc n) = 0 ∷ no_tiles n

  -- What a level should hold: the distribution level a zero for each workgroup tile.
  unfoldable pub zeroed : C.Config → ℕ → Option LevelAttr
  zeroed c i = elim (C.tiling_level_attr c i) [
    | none ↦ none
    | some a ↦ some (
        if i == distribution
        then record {
          sizes = no_tiles (length (C.workgroup_tile_sizes c));
          interchange = [];
          scalable_flags = [];
        }
        else a)
  ]

  if_same : (b : Bool) (x : Option LevelAttr) → (if b then x else x) ≡ x
  if_same true x = refl
  if_same false x = refl

  if_not : (b : Bool) (x y : LevelAttr) → some (if not b then x else y) ≡ some (if b then y else x)
  if_not true x y = refl
  if_not false x y = refl

  no_tiles-zeros : (sizes : List ℕ) → map (λ _. 0) sizes ≡ no_tiles (length sizes)
  no_tiles-zeros [] = refl
  no_tiles-zeros (n ∷ ns) = ap (λ zs. 0 ∷ zs) (no_tiles-zeros ns)

  find_item-zero_items :
      (c : C.Config) (i : ℕ) (is : List ℕ)
      → find_item i (zero_items c is) ≡ (if is_level i is then zeroed c i else none)
  unfolding find_item zero_items is_level zeroed
  find_item-zero_items c i [] = refl
  find_item-zero_items c i (j ∷ js) = elim (Bool-cases (i == j)) [
    | inl same ↦
        let at : i ≡ j = ground arith in
        elim (Option-cases (C.tiling_level_attr c j)) [
          | inl e ↦
              let e2 : C.tiling_level_attr c i ≡ none = ap (C.tiling_level_attr c) at ∙ e in
              let rest = find_item-zero_items c i js in
              let empty : zeroed c i ≡ none = rw (e2, zeroed) refl in
              rw (same, e, zero_items) (rest ∙ rw empty (if_same (is_level i js) none))
          | inr (a, e) ↦
              let e2 : C.tiling_level_attr c i ≡ some a = ap (C.tiling_level_attr c) at ∙ e in
              let alike : (i == distribution) ≡ (j == distribution) =
                ap (λ k. k == distribution) at in
              rw
                (
                  same,
                  e,
                  zero_items,
                  e2,
                  zeroed,
                  same,
                  alike,
                  no_tiles-zeros (C.workgroup_tile_sizes c),
                )
                (if_not (j == distribution) a _)
        ]
    | inr other ↦ elim (Option-cases (C.tiling_level_attr c j)) [
      | inl e ↦ rw (other, e, zero_items) (find_item-zero_items c i js)
      | inr (a, e) ↦ rw (other, e, zero_items, other) (find_item-zero_items c i js)
    ]
  ]

  get_config_with_zero_distribution_tiles-levels :
      (c : C.Config) (i : ℕ)
      → is_level i levels ≡ true
      → C.tiling_level_attr (get_config_with_zero_distribution_tiles c) i ≡ zeroed c i
  unfolding get_config_with_zero_distribution_tiles
  get_config_with_zero_distribution_tiles-levels c i h =
      C.tiling_level_attr-build (zero_items c levels) i
      ∙ find_item-zero_items c i levels
      ∙ rw h refl

  root-reset :
      ((c : C.Config)
        → C.has_workgroup_tiling_level c ≡ true
        → C.has_workgroup_tiling_level (get_config_with_zero_distribution_tiles c) ≡ true)
      → (os : List (Option C.Config)) (c : C.Config) → get_root_lowering_config os ≡ some c
      → get_root_lowering_config (reset_distribution os)
        ≡ some (get_config_with_zero_distribution_tiles c)
  unfolding get_root_lowering_config reset_distribution
  root-reset kept [] c h = absurd (ground (arith, h))
  root-reset kept (none ∷ os) c h = root-reset kept os c h
  root-reset kept (some d ∷ os) c h = elim (Bool-cases (C.has_workgroup_tiling_level d)) [
    | inl has ↦
        let same : d ≡ c = ap (λ o. elim o [ none ↦ d | some k ↦ k ]) (rw has at h) in
        rw (has, kept d has) (ap (λ k. some (get_config_with_zero_distribution_tiles k)) same)
    | inr not_yet ↦ rw (not_yet, not_yet) (root-reset kept os c (rw not_yet at h))
  ]

  -- Where the operations have a root configuration, the reset operations have one too: the reset
  -- configuration. It holds, for every level, what the old one holds, but for the distribution level:
  -- that has as many sizes as the workgroup tiles, all of them zero, no interchange and no scalable
  -- flags. A reset configuration with workgroup tiles is assumed to have workgroup tiles still.
  pub root_config-zeroed :
      ((c : C.Config)
        → C.has_workgroup_tiling_level c ≡ true
        → C.has_workgroup_tiling_level (get_config_with_zero_distribution_tiles c) ≡ true)
      → (os : List (Option C.Config)) (c : C.Config) (i : ℕ) → get_root_lowering_config os ≡ some c
      → is_level i levels ≡ true
      → (d : C.Config) × (get_root_lowering_config (reset_distribution os) ≡ some d)
        × (C.tiling_level_attr d i ≡ zeroed c i)
  root_config-zeroed kept os c i h level = (
    get_config_with_zero_distribution_tiles c,
    root-reset kept os c h,
    get_config_with_zero_distribution_tiles-levels c i level,
  )
