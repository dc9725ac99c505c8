-- ===== src/Target/Attr.antt =====
-- Target attributes: `parseTargetAttr`, `getFMVPriority` and the checks of names and conventions of
-- phase-1-llvm/clang/lib/Basic/Targets/RISCV.cpp.
use spacemit_ime_iree_tcp.Shared.{
  ℕ, Bool, true, false, not, ◌||◌, List, [], ◌∷◌, ◌++◌, Option, none, some, for_each, Text, codes,
  text_eq, starts_with, consume_front, split_first, split_all, trim, ◌==◌, if◌then◌else◌,
}
use mathlib.Core.Option
use spacemit_ime_iree_tcp.Target.Isa.{IsaLibrary}

-- `ParsedTargetAttr`; a text that is empty is not set.
pub record Parsed : Type 0 where
  pub features : List Text
  pub cpu : Text
  pub tune : Text
  pub duplicate : Text

abbrev pub nothing : Parsed
nothing = record { features = []; cpu = []; tune = []; duplicate = [] }

module _ {I : Type 0} (lib : IsaLibrary I) where
  -- `none` is the unreachable end, where "rv64i" is no ISA.
  unfoldable pub populate_negative_riscv_features : List Text → Option (List Text)
  populate_negative_riscv_features fs = elim (lib.parse_arch_string (codes "rv64i")) [
    | none ↦ none
    | some isa ↦ some (fs ++ lib.to_all_features isa)
  ]

  unfoldable pub handle_full_arch_string : Text → List Text → Option (List Text)
  unfolding populate_negative_riscv_features
  handle_full_arch_string arch fs = elim (lib.parse_arch_string arch) [
    | none ↦ some (fs ++ (arch ∷ []))
    | some isa ↦ elim (populate_negative_riscv_features fs) [
      | none ↦ none
      | some gs ↦ some (gs ++ lib.to_all_features isa)
    ]
  ]

  -- What one item of an extension list adds.
  unfoldable pub extension : Text → List Text
  extension [] = []
  extension (sign ∷ name) =
      let feature = lib.target_feature_for_extension name in
      if text_eq feature [] then (sign ∷ name) ∷ [] else (sign ∷ feature) ∷ []

  unfoldable pub add_extensions : List Text → List Text → List Text
  add_extensions [] fs = fs
  add_extensions (e ∷ es) fs = add_extensions es (fs ++ extension e)

  unfoldable pub handle_arch_extension : Text → List Text → List Text
  handle_arch_extension attr fs = add_extensions (split_all b',' attr) fs

  -- The features that an "arch=" gives.
  unfoldable pub arch_features : Text → Option (List Text)
  arch_features attr =
      if starts_with (codes "+") attr
      then some (handle_arch_extension attr [])
      else handle_full_arch_string attr []

  -- The features that a "cpu=" gives, where no "arch=" came before it.
  unfoldable pub cpu_features : Text → List Text → Option (List Text)
  cpu_features cpu fs =
      let march = lib.march_from_mcpu cpu in
      if text_eq march [] then some fs else handle_full_arch_string march []

  abbrev pub value : Text → Text
  value feature = trim (split_first b'=' feature).1

  -- One turn of the loop: the result, and whether an "arch=" was found.
  unfoldable pub parse_item : Text → Parsed × Bool → Option (Parsed × Bool)
  parse_item item st =
      let feature = trim item in
      let attr = value feature in
      let ret = st.0 in
      if starts_with (codes "arch=") feature
      then Option.map
          (λ fs. (
            record ret { features = fs; duplicate = if st.1 then codes "arch=" else ret.duplicate },
            true,
          ))
          (arch_features attr)
      else if starts_with (codes "cpu=") feature
      then Option.map
          (λ fs. (
            record ret {
              features = fs;
              cpu = attr;
              duplicate = if text_eq ret.cpu [] then ret.duplicate else codes "cpu=";
            },
            st.1,
          ))
          (if st.1 then some ret.features else cpu_features attr ret.features)
      else if starts_with (codes "tune=") feature
      then some (
        record ret {
          tune = attr;
          duplicate = if text_eq ret.tune [] then ret.duplicate else codes "tune=";
        },
        st.1,
      )
      else if starts_with (codes "priority") feature
      then some st
      else if starts_with (codes "+") feature
      then some (record ret { features = handle_arch_extension feature ret.features }, st.1)
      else some st

  unfoldable pub parse_items : List Text → Parsed × Bool → Option (Parsed × Bool)
  parse_items items st = for_each parse_item items st

  unfoldable pub parse_target_attr : Text → Option Parsed
  parse_target_attr features =
      if text_eq features (codes "default")
      then some nothing
      else Option.map (λ st. st.0) (parse_items (split_all b';' features) (nothing, false))

-- `StringRef::rsplit(Separator)`: the parts before and behind the last separator.
unfoldable pub rsplit : ℕ → Text → Text × Text
rsplit d s = elim (last d s) [ none ↦ (s, []) | some r ↦ r ]
  where
    last : ℕ → Text → Option (Text × Text)
    last d [] = none
    last d (c ∷ s) = elim (last d s) [
      | some r ↦ some (c ∷ r.0, r.1)
      | none ↦ if c == d then some ([], s) else none
    ]

-- The text behind "priority=" in one feature, if it has one.
unfoldable pub priority_text : Text → Option Text
priority_text feature =
    let parts = rsplit b';' feature in
    elim (consume_front (codes "priority=") parts.0) [
      | some s ↦ some s
      | none ↦ consume_front (codes "priority=") parts.1
    ]

-- `get_as_integer` is `StringRef::getAsInteger` with a radix that the text gives.
unfoldable pub get_fmv_priority : (Text → Option ℕ) → List Text → ℕ
get_fmv_priority get_as_integer [] = 0
get_fmv_priority get_as_integer (f ∷ fs) = elim (priority_text f) [
  | none ↦ get_fmv_priority get_as_integer fs
  | some s ↦ elim (get_as_integer s) [ none ↦ get_fmv_priority get_as_integer fs | some n ↦ n ]
]

-- The result, and whether the size is wrong.
unfoldable pub validate_global_register_variable : Bool → Text → ℕ → Bool × Option Bool
validate_global_register_variable is_64_bit name size =
    if text_eq name (codes "ra")
      || text_eq name (codes "sp")
      || text_eq name (codes "gp")
      || text_eq name (codes "tp")
      || starts_with (codes "x") name
      || starts_with (codes "a") name
      || starts_with (codes "s") name
      || starts_with (codes "t") name
    then (true, some (not (size == (if is_64_bit then 64 else 32))))
    else (false, none)
