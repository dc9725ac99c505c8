-- ===== src/Target/ArchWins.antt =====
-- Which attribute decides the features of a target attribute: `parseTargetAttr` of
-- phase-1-llvm/clang/lib/Basic/Targets/RISCV.cpp.
use mathlib.Core.Option.{some-injective}
use spacemit_ime_iree_tcp.Shared.{
  ◌≡◌, ap, sym, ◌∙◌, Bool, true, false, List, [], ◌∷◌, some, Text, codes, starts_with, trim,
  for_each, >>=-some, All, arith,
}
use spacemit_ime_iree_tcp.Target.Isa.{IsaLibrary}
use spacemit_ime_iree_tcp.Target.Attr.{Parsed, arch_features, value, parse_item, parse_items}

-- An item that names no features: no "arch=" and no list of extensions.
abbrev pub Quiet : Text → Type 0
Quiet item =
    (starts_with (codes "arch=") (trim item) ≡ false)
    × (starts_with (codes "+") (trim item) ≡ false)

-- An item that sets the ISA.
abbrev pub IsArch : Text → Type 0
IsArch item = starts_with (codes "arch=") (trim item) ≡ true

module _ {I : Type 0} (lib : IsaLibrary I) where
  parse_item-Quiet :
      (item : Text) (p : Parsed) (r : Parsed × Bool)
      → Quiet item
      → parse_item lib item (p, true) ≡ some r
      → (r.1 ≡ true) × (r.0.features ≡ p.features)
  unfolding parse_item
  parse_item-Quiet item p r q h = ground arith

  parse_items-Quiet :
      (items : List Text) (p : Parsed) (found : Bool) (r : Parsed × Bool)
      → found ≡ true
      → All Quiet items
      → parse_items lib items (p, found) ≡ some r
      → r.0.features ≡ p.features
  unfolding parse_items
  parse_items-Quiet [] p found r f q h =
      ap (λ (x : Parsed × Bool). x.0.features) (some-injective r (p, found) (sym h))
  parse_items-Quiet (i ∷ is) p found r f q h =
      let (u, e, rest) =
        >>=-some (parse_item lib i (p, found)) (λ v. for_each (parse_item lib) is v) h in
      let (g, k) = parse_item-Quiet i p u q.0 (ap (λ b. parse_item lib i (p, b)) (sym f) ∙ e) in
      parse_items-Quiet is u.0 u.1 r g q.1 rest ∙ k

  parse_item-IsArch :
      (item : Text) (st r : Parsed × Bool)
      → IsArch item
      → parse_item lib item st ≡ some r
      → (r.1 ≡ true) × (arch_features lib (value lib (trim item)) ≡ some r.0.features)
  unfolding parse_item
  parse_item-IsArch item st r a h = ground arith

  -- Whatever came before, an "arch=" item decides the features alone: if no further "arch=" and no
  -- list of extensions follows it, the features at the end are those of its value. A "cpu=" behind
  -- it and all that stood before it are of no effect on them.
  pub parse_items-arch :
      (item : Text) (items : List Text) (st r : Parsed × Bool)
      → IsArch item
      → All Quiet items
      → parse_items lib (item ∷ items) st ≡ some r
      → arch_features lib (value lib (trim item)) ≡ some r.0.features
  unfolding parse_items
  parse_items-arch item items st r a q h =
      let (u, e, rest) =
        >>=-some (parse_item lib item st) (λ v. for_each (parse_item lib) items v) h in
      let (g, k) = parse_item-IsArch item st u a e in
      k ∙ ap some (sym (parse_items-Quiet items u.0 u.1 r g q rest))
