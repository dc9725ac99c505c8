-- ===== src/Sema/CloneLaws.antt =====
-- What the check of the clones attribute makes of its parameters
-- (phase-1-llvm/clang/lib/Sema/SemaRISCV.cpp).
use spacemit_ime_iree_tcp.Shared.{
  ℕ, suc, ◌+◌, ◌≡◌, refl, sym, ◌∙◌, Bool, true, false, ◌&&◌, ◌||◌, List, [], ◌∷◌, ◌++◌, map, Option,
  none, some, Text, text_eq, split_all, trim, any, All, if◌then◌else◌, arith, append_assoc,
  append-nil,
}
use spacemit_ime_iree_tcp.Sema.Version.{
  Versions, clone_items, Clones, cloned, no_default, clone_param, clone_params,
  check_target_clones_attr,
}

-- The parameters that stand before, trimmed, among those taken over.
abbrev pub repeats : List Text → List Text → ℕ
repeats taken [] = 0
repeats taken (p ∷ ps) =
    let rest = repeats (taken ++ (trim p ∷ [])) ps in
    if any (text_eq (trim p)) taken then suc rest else rest

Clones-congr :
    {a b : Bool} {s t : List Text} {m n : ℕ}
    → a ≡ b
    → s ≡ t
    → m ≡ n
    → some (cloned (record { has_default = a; new_params = s; warnings = m }))
      ≡ some (cloned (record { has_default = b; new_params = t; warnings = n }))
Clones-congr e f g = rw (e, f, g) refl

counted : (b : Bool) (m n : ℕ) → (if b then suc m else m) + n ≡ m + (if b then suc n else n)
counted b m n = ground arith

asked :
    (b : Bool) (s : List Text) (m n : ℕ)
    → m ≡ n
    → some (
        if b then cloned (record { has_default = b; new_params = s; warnings = m }) else no_default)
      ≡ some (
          if b
          then cloned (record { has_default = true; new_params = s; warnings = n })
          else no_default)
asked true s m n e = rw e refl
asked false s m n e = refl

module _ {I : Type 0} (v : Versions I) where
  -- All items are supported, and a priority and a default are not both among them.
  abbrev pub Acceptable : Text → Type 0
  Acceptable p =
      (f : Bool × Bool) × (clone_items v (split_all b';' (trim p)) (false, false) ≡ some (some f))
      × ((f.0 && f.1) ≡ false)

  abbrev pub flag_of : Option (Option (Bool × Bool)) → Bool
  flag_of (some (some f)) = f.1
  flag_of (some none) = false
  flag_of none = false

  abbrev pub asks_default : Text → Bool
  asks_default p = flag_of (clone_items v (split_all b';' (trim p)) (false, false))

  clone_param-Acceptable :
      (p : Text) (st : Clones)
      → Acceptable p
      → clone_param v p st
        ≡ some (
            cloned (record {
              has_default = st.has_default || asks_default p;
              new_params = st.new_params ++ (trim p ∷ []);
              warnings =
                  if any (text_eq (trim p)) st.new_params then suc st.warnings else st.warnings;
            }))
  unfolding clone_param
  clone_param-Acceptable p st (f, e, ok) = rw (e, ok) refl

  clone_params-Acceptable :
      (ps : List Text) (st : Clones)
      → All Acceptable ps
      → clone_params v ps st
        ≡ some (
            cloned (record {
              has_default = st.has_default || any asks_default ps;
              new_params = st.new_params ++ map trim ps;
              warnings = st.warnings + repeats st.new_params ps;
            }))
  unfolding clone_params
  clone_params-Acceptable [] st a =
      Clones-congr (ground arith) (sym (append-nil st.new_params)) (omega arith)
  clone_params-Acceptable (p ∷ ps) st a = rw (clone_param-Acceptable p st a.0) (
      clone_params-Acceptable ps _ a.1
      ∙ Clones-congr (ground arith) (append_assoc st.new_params (trim p ∷ []) (map trim ps)) (
          counted (any (text_eq (trim p)) st.new_params) st.warnings
            (repeats (st.new_params ++ (trim p ∷ [])) ps)))

  -- Where every parameter is acceptable: the check takes all parameters over, trimmed and in their
  -- order, with a warning for each that stood before, if one of them asks for the default version;
  -- otherwise it is an error.
  pub check_target_clones_attr_lem :
      (params taken : List Text)
      → All Acceptable params
      → check_target_clones_attr v params taken
        ≡ some (
            if any asks_default params
            then cloned (record {
              has_default = true;
              new_params = taken ++ map trim params;
              warnings = repeats taken params;
            })
            else no_default)
  unfolding check_target_clones_attr
  check_target_clones_attr_lem params taken a =
      rw
        (clone_params-Acceptable params
          (record { has_default = false; new_params = taken; warnings = 0 }) a)
        (asked (any asks_default params) (taken ++ map trim params) (0 + repeats taken params)
          (repeats taken params) (omega arith))
