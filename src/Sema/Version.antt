-- ===== src/Sema/Version.antt =====
-- Function multi-versioning: `isValidFMVExtension`, `checkTargetVersionAttr` and
-- `checkTargetClonesAttr` of phase-1-llvm/clang/lib/Sema/SemaRISCV.cpp.
use spacemit_ime_iree_tcp.Shared.{
  ℕ, Bool, true, false, not, ◌&&◌, ◌||◌, List, [], ◌∷◌, ◌++◌, Option, none, some, Text, codes,
  text_eq, starts_with, consume_front, split_all, trim, any, suc, if◌then◌else◌, ◌>>=◌,
}
use spacemit_ime_iree_tcp.Target.Isa.{IsaLibrary}
use spacemit_ime_iree_tcp.Target.Attr.{parse_target_attr}

-- What one item of an attribute asks for; `unsupported` with the text that is left of it.
pub data Item : Type 0 where
  arch default priority : Item
  unsupported : Text → Item

-- What the checks call: the library of ISA strings, `getRISCVFeaturesBitsInfo`, `none` for -1, and
-- `getAsInteger` with radix 0 into an `unsigned`.
pub record Versions (I : Type 0) : Type 0 where
  pub lib : IsaLibrary I
  pub features_bit : Text → Option ℕ
  pub get_as_integer : Text → Option ℕ

abbrev pub is_none {ℓ} : {A : Type ℓ} → Option A → Bool
is_none none = true
is_none (some a) = false

-- The flags of `checkTargetVersionAttr`.
pub record Seen : Type 0 where
  pub has_arch : Bool
  pub has_priority : Bool
  pub has_default : Bool
  pub duplicate_attr : Bool

abbrev pub nothing_seen : Seen
nothing_seen = record {
  has_arch = false;
  has_priority = false;
  has_default = false;
  duplicate_attr = false;
}

-- An accepted attribute, or one with a warning about the text.
pub data Verdict (A : Type 0) : Type 0 where
  accepted : A → Verdict A
  rejected : Text → Verdict A

unfoldable pub see : Item → Seen → Verdict Seen
see Item.arch f = accepted (record f { duplicate_attr = f.has_arch; has_arch = true })
see Item.default f = accepted (record f { duplicate_attr = f.has_default; has_default = true })
see Item.priority f = accepted (record f { duplicate_attr = f.has_priority; has_priority = true })
see (Item.unsupported t) f = rejected t

abbrev pub is_arch : Item → Bool
is_arch Item.arch = true
is_arch _ = false

abbrev pub is_default : Item → Bool
is_default Item.default = true
is_default _ = false

abbrev pub is_priority : Item → Bool
is_priority Item.priority = true
is_priority _ = false

module _ {I : Type 0} (v : Versions I) where
  unfoldable pub is_valid_fmv_extension : Text → Bool
  is_valid_fmv_extension [] = false
  is_valid_fmv_extension (c ∷ ext) = elim (consume_front (codes "+") (c ∷ ext)) [
    | none ↦ false
    | some name ↦ not (is_none (v.features_bit name))
  ]

  abbrev pub is_empty : List Text → Bool
  is_empty [] = true
  is_empty (f ∷ fs) = false

  -- One item, trimmed. `none`: `parseTargetAttr` does not return.
  unfoldable pub item_of : Text → Option Item
  item_of attr_str =
      if starts_with (codes "arch=+") attr_str
      then (parse_target_attr v.lib attr_str >>= λ parsed. some (
          if is_empty parsed.features
            || any (λ ext. not (is_valid_fmv_extension ext)) parsed.features
          then Item.unsupported attr_str
          else Item.arch))
      else if text_eq attr_str (codes "default")
      then some Item.default
      else elim (consume_front (codes "priority=") attr_str) [
        | some digits ↦
            some
              (if is_none (v.get_as_integer digits) then Item.unsupported digits else Item.priority)
        | none ↦ some (Item.unsupported attr_str)
      ]

  -- The loop of `checkTargetVersionAttr`.
  unfoldable pub see_all : List Text → Seen → Option (Verdict Seen)
  see_all [] f = some (accepted f)
  see_all (a ∷ rest) f = item_of (trim a) >>= λ item. elim (see item f) [
    | rejected t ↦ some (rejected t)
    | accepted g ↦ see_all rest g
  ]

  -- With the attribute's text in `NewParam` if it is accepted.
  unfoldable pub check_target_version_attr : Text → Option (Verdict Text)
  check_target_version_attr param = see_all (split_all b';' param) nothing_seen >>= λ verdict.
      elim verdict [
        | rejected t ↦ some (rejected t)
        | accepted f ↦ some (
            if ((f.has_priority || f.has_arch) && f.has_default)
              || (f.duplicate_attr || (f.has_priority && not f.has_arch))
            then rejected param
            else accepted param)
      ]

  -- The inner loop of `checkTargetClonesAttr`: whether a priority and a default are among the items.
  unfoldable pub clone_items : List Text → Bool × Bool → Option (Option (Bool × Bool))
  clone_items [] f = some (some f)
  clone_items (a ∷ rest) f = item_of (trim a) >>= λ item. elim item [
    | Item.arch ↦ clone_items rest f
    | Item.default ↦ clone_items rest (f.0, true)
    | Item.priority ↦ clone_items rest (true, f.1)
    | Item.unsupported t ↦ some none
  ]

-- `HasDefault`, the parameters taken over, and the warnings about duplicates.
pub record Clones : Type 0 where
  pub has_default : Bool
  pub new_params : List Text
  pub warnings : ℕ

pub data CloneVerdict : Type 0 where
  cloned : Clones → CloneVerdict
  -- warn_unsupported_target_attribute
  unsupported_param : Text → CloneVerdict
  -- err_target_clone_must_have_default
  no_default : CloneVerdict

module _ {I : Type 0} (v : Versions I) where
  -- One parameter, trimmed, with the flags of its items.
  abbrev pub take_param : Text → Bool × Bool → Clones → CloneVerdict
  take_param param f st =
      if f.0 && f.1
      then unsupported_param param
      else cloned (record {
        has_default = st.has_default || f.1;
        new_params = st.new_params ++ (param ∷ []);
        warnings = if any (text_eq param) st.new_params then suc st.warnings else st.warnings;
      })

  unfoldable pub clone_param : Text → Clones → Option CloneVerdict
  clone_param param st = clone_items v (split_all b';' (trim param)) (false, false) >>= λ r.
      elim r [
        | none ↦ some (unsupported_param (trim param))
        | some f ↦ some (take_param (trim param) f st)
      ]

  unfoldable pub clone_params : List Text → Clones → Option CloneVerdict
  clone_params [] st = some (cloned st)
  clone_params (p ∷ ps) st = clone_param p st >>= λ r. elim r [
    | cloned next ↦ clone_params ps next
    | unsupported_param t ↦ some (unsupported_param t)
    | no_default ↦ some no_default
  ]

  unfoldable pub check_target_clones_attr : List Text → List Text → Option CloneVerdict
  check_target_clones_attr params new_params =
      clone_params params (record { has_default = false; new_params = new_params; warnings = 0 })
      >>= λ r. elim r [
        | cloned st ↦ some (if st.has_default then cloned st else no_default)
        | unsupported_param t ↦ some (unsupported_param t)
        | no_default ↦ some no_default
      ]
