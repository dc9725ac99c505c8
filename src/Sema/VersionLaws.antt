-- ===== src/Sema/VersionLaws.antt =====
-- Which attributes the checks of function multi-versioning accept
-- (phase-1-llvm/clang/lib/Sema/SemaRISCV.cpp).
use spacemit_ime_iree_tcp.Shared.{
  ◌≡◌, ◌⊎◌, inl, inr, refl, ◌∙◌, Bool, true, false, not, ◌&&◌, ◌||◌, List, [], ◌∷◌, ◌++◌, some,
  Text, split_all, starts_with, consume_front, text_eq, codes, none, trim, any, All, if◌then◌else◌,
  arith,
}
use spacemit_ime_iree_tcp.Sema.Version.{
  Item, Versions, Seen, nothing_seen, accepted, rejected, see, is_arch, is_default, is_priority,
  item_of, see_all, check_target_version_attr, is_valid_fmv_extension, is_empty,
}
use spacemit_ime_iree_tcp.Target.Attr.{Parsed, parse_target_attr}

abbrev same_item : Item → Item → Bool
same_item Item.arch i = is_arch i
same_item Item.default i = is_default i
same_item Item.priority i = is_priority i
same_item (Item.unsupported t) i = false

-- The last item occurs among those before it.
abbrev pub last_repeats : List Item → List Item → Bool
last_repeats before [] = false
last_repeats before (i ∷ []) = any (same_item i) before
last_repeats before (i ∷ j ∷ is) = last_repeats (i ∷ before) (j ∷ is)

-- The attribute has default with another item, or a priority without an ISA, or its last item twice.
abbrev pub ill_combined : List Item → Bool
ill_combined is =
    ((any is_priority is || any is_arch is) && any is_default is)
    || (last_repeats [] is || (any is_priority is && not (any is_arch is)))

abbrev pub Supported : Item → Type 0
Supported Item.arch = Unit
Supported Item.default = Unit
Supported Item.priority = Unit
Supported (Item.unsupported t) = ⊥

-- The flags after supported items.
abbrev noted : Item → Seen → Seen
noted Item.arch f = record f { duplicate_attr = f.has_arch; has_arch = true }
noted Item.default f = record f { duplicate_attr = f.has_default; has_default = true }
noted Item.priority f = record f { duplicate_attr = f.has_priority; has_priority = true }
noted (Item.unsupported t) f = f

abbrev seen_after : List Item → Seen → Seen
seen_after [] f = f
seen_after (i ∷ is) f = seen_after is (noted i f)

has_arch_after :
    (is : List Item) (f : Seen) → (seen_after is f).has_arch ≡ (f.has_arch || any is_arch is)
has_arch_after [] f = ground arith
has_arch_after (i ∷ is) f = has_arch_after is (noted i f) ∙ ground arith

has_default_after :
    (is : List Item) (f : Seen)
    → (seen_after is f).has_default ≡ (f.has_default || any is_default is)
has_default_after [] f = ground arith
has_default_after (i ∷ is) f = has_default_after is (noted i f) ∙ ground arith

has_priority_after :
    (is : List Item) (f : Seen)
    → (seen_after is f).has_priority ≡ (f.has_priority || any is_priority is)
has_priority_after [] f = ground arith
has_priority_after (i ∷ is) f = has_priority_after is (noted i f) ∙ ground arith

-- What the flags say of the items before.
abbrev Describes : Seen → List Item → Type 0
Describes f before =
    (f.has_arch ≡ any is_arch before)
    × (f.has_default ≡ any is_default before)
    × (f.has_priority ≡ any is_priority before)

noted-Describes :
    (i : Item) (f : Seen) (before : List Item)
    → Describes f before
    → Describes (noted i f) (i ∷ before)
noted-Describes Item.arch f before (a, d, p) = (refl, d, p)
noted-Describes Item.default f before (a, d, p) = (a, refl, p)
noted-Describes Item.priority f before (a, d, p) = (a, d, refl)
noted-Describes (Item.unsupported t) f before (a, d, p) = (a, d, p)

duplicate_after :
    (before : List Item) (i : Item) (is : List Item) (f : Seen)
    → All Supported (i ∷ is)
    → Describes f before
    → (seen_after (i ∷ is) f).duplicate_attr ≡ last_repeats before (i ∷ is)
duplicate_after before Item.arch [] f s (a, d, p) = a
duplicate_after before Item.default [] f s (a, d, p) = d
duplicate_after before Item.priority [] f s (a, d, p) = p
duplicate_after before (Item.unsupported t) [] f s d = elim s.0 [ ]
duplicate_after before i (j ∷ is) f s d =
    duplicate_after (i ∷ before) j is (noted i f) s.1 (noted-Describes i f before d)

duplicate_first :
    (is : List Item)
    → All Supported is
    → (seen_after is nothing_seen).duplicate_attr ≡ last_repeats [] is
duplicate_first [] s = refl
duplicate_first (i ∷ is) s = duplicate_after [] i is nothing_seen s (refl, refl, refl)

module _ {I : Type 0} (v : Versions I) where
  -- The items that the texts stand for.
  abbrev pub Reads : List Text → List Item → Type 0
  Reads [] [] = Unit
  Reads (a ∷ rest) (i ∷ is) = (item_of v (trim a) ≡ some i) × Supported i × Reads rest is
  Reads _ _ = ⊥

  see_all-Reads :
      (texts : List Text) (is : List Item) (f : Seen)
      → Reads texts is
      → see_all v texts f ≡ some (accepted (seen_after is f))
  unfolding see_all see
  see_all-Reads [] [] f r = refl
  see_all-Reads [] (i ∷ is) f r = elim r [ ]
  see_all-Reads (a ∷ rest) [] f r = elim r [ ]
  see_all-Reads (a ∷ rest) (Item.arch ∷ is) f (e, s, r) = rw e (see_all-Reads rest is _ r)
  see_all-Reads (a ∷ rest) (Item.default ∷ is) f (e, s, r) = rw e (see_all-Reads rest is _ r)
  see_all-Reads (a ∷ rest) (Item.priority ∷ is) f (e, s, r) = rw e (see_all-Reads rest is _ r)
  see_all-Reads (a ∷ rest) (Item.unsupported t ∷ is) f (e, s, r) = elim s [ ]

  Reads-Supported : (texts : List Text) (is : List Item) → Reads texts is → All Supported is
  Reads-Supported [] [] r = tt
  Reads-Supported [] (i ∷ is) r = elim r [ ]
  Reads-Supported (a ∷ rest) [] r = elim r [ ]
  Reads-Supported (a ∷ rest) (i ∷ is) (e, s, r) = (s, Reads-Supported rest is r)

  see_all-unsupported :
      (before : List Text) (is : List Item) (bad : Text) (behind : List Text) (t : Text) (f : Seen)
      → Reads before is
      → item_of v (trim bad) ≡ some (Item.unsupported t)
      → see_all v (before ++ (bad ∷ behind)) f ≡ some (rejected t)
  unfolding see_all see
  see_all-unsupported [] [] bad behind t f r u = rw u refl
  see_all-unsupported [] (i ∷ is) bad behind t f r u = elim r [ ]
  see_all-unsupported (a ∷ rest) [] bad behind t f r u = elim r [ ]
  see_all-unsupported (a ∷ rest) (Item.arch ∷ is) bad behind t f (e, s, r) u =
      rw e (see_all-unsupported rest is bad behind t _ r u)
  see_all-unsupported (a ∷ rest) (Item.default ∷ is) bad behind t f (e, s, r) u =
      rw e (see_all-unsupported rest is bad behind t _ r u)
  see_all-unsupported (a ∷ rest) (Item.priority ∷ is) bad behind t f (e, s, r) u =
      rw e (see_all-unsupported rest is bad behind t _ r u)
  see_all-unsupported (a ∷ rest) (Item.unsupported x ∷ is) bad behind t f (e, s, r) u = elim s [ ]

  -- Where all items, trimmed, are supported: the check of the version attribute accepts it unchanged,
  -- or warns, by the combination of the items: no default with a priority or an ISA, no priority
  -- without an ISA, and no last item that occurs before; an earlier repetition is not seen.
  pub check_target_version_attr_lem :
      (param : Text) (is : List Item)
      → Reads (split_all b';' param) is
      → check_target_version_attr v param
        ≡ some (if ill_combined is then rejected param else accepted param)
  unfolding check_target_version_attr
  check_target_version_attr_lem param is r =
      let f = seen_after is nothing_seen in
      rw (see_all-Reads (split_all b';' param) is nothing_seen r) (
        rw
          (
            has_arch_after is nothing_seen,
            has_default_after is nothing_seen,
            has_priority_after is nothing_seen,
            duplicate_first is (Reads-Supported (split_all b';' param) is r),
          )
          refl)

  -- The items that are not supported, with the text that the warning names: of a priority that is no
  -- number only the text behind "priority=", of any other item the whole of it.
  pub data Refused : Text → Text → Type 0 where
    no_item :
        (t : Text)
        → starts_with (codes "arch=+") t ≡ false
        → text_eq t (codes "default") ≡ false
        → consume_front (codes "priority=") t ≡ none
        → Refused t t
    no_number :
        (digits : Text)
        → v.get_as_integer digits ≡ none
        → Refused (codes "priority=" ++ digits) digits
    no_fmv_extension :
        (t : Text) (parsed : Parsed)
        → starts_with (codes "arch=+") t ≡ true
        → parse_target_attr v.lib t ≡ some parsed
        → (parsed.features ≡ [])
          ⊎ (any (λ ext. not (is_valid_fmv_extension v ext)) parsed.features ≡ true)
        → Refused t t

  either :
      (b : Bool) (t : Text)
      → some (if b || true then Item.unsupported t else Item.arch) ≡ some (Item.unsupported t)
  either true t = refl
  either false t = refl

  item_of-Refused : (item t : Text) → Refused item t → item_of v item ≡ some (Item.unsupported t)
  unfolding item_of starts_with consume_front text_eq
  item_of-Refused item t (no_item _ a d p) = rw (a, d, p) refl
  item_of-Refused item t (no_number _ n) = rw n refl
  item_of-Refused item t (no_fmv_extension _ parsed a e (inl none_left)) =
      rw (a, e) (rw none_left refl)
  item_of-Refused item t (no_fmv_extension _ parsed a e (inr invalid)) =
      rw (a, e) (rw invalid (either (is_empty v parsed.features) t))

  -- The first item of a version attribute that is not supported is named by the warning: the text
  -- behind "priority=" if it is a priority that is no number, and else the item, trimmed. The items
  -- before it are supported.
  pub check_target_version_attr-unsupported :
      (param : Text) (before : List Text) (is : List Item) (bad : Text) (behind : List Text)
      (t : Text)
      → split_all b';' param ≡ before ++ (bad ∷ behind)
      → Reads before is
      → Refused (trim bad) t
      → check_target_version_attr v param ≡ some (rejected t)
  unfolding check_target_version_attr
  check_target_version_attr-unsupported param before is bad behind t e r u =
      let seen =
        see_all-unsupported before is bad behind t nothing_seen r
          (item_of-Refused (trim bad) t u) in
      rw (e, seen) refl
