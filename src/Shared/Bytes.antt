-- ===== src/Shared/Bytes.antt =====
-- Byte strings (`llvm::StringRef`, `std::string`): the list of their bytes.
use Prim.Native.Char.{code}
use Prim.Native.String.{String}
use Prim.Native.Nat.{ℕ, ◌≤◌}
use mathlib.Core.Path.{◌≡◌, refl}
use mathlib.Core.Bool.{Bool, true, false, ◌&&◌, ◌||◌}
use mathlib.Core.List.{List, [], ◌∷◌, ◌++◌}
use mathlib.Core.Option.{Option, none, some}
use native.Mathlib.Omega.{arith}
use spacemit_ime_iree_tcp.Shared.Tests.{◌==◌, if◌then◌else◌}

abbrev pub Text : Type 0
Text = List ℕ

-- The bytes of a literal.
abbrev pub codes : String → Text
codes String.[] = []
codes (String.◌∷◌ c s) = code c ∷ codes s

unfoldable pub text_eq : Text → Text → Bool
text_eq [] [] = true
text_eq [] (d ∷ t) = false
text_eq (c ∷ s) [] = false
text_eq (c ∷ s) (d ∷ t) = c == d && text_eq s t

-- `StringRef::consume_front`: the rest behind the prefix, if the text has it.
unfoldable pub consume_front : Text → Text → Option Text
consume_front [] s = some s
consume_front (p ∷ ps) [] = none
consume_front (p ∷ ps) (c ∷ s) = if p == c then consume_front ps s else none

unfoldable pub starts_with : Text → Text → Bool
unfolding consume_front
starts_with p s = elim (consume_front p s) [ none ↦ false | some _ ↦ true ]

pub text_eq_refl : (s : Text) → text_eq s s ≡ true
unfolding text_eq
text_eq_refl [] = refl
text_eq_refl (c ∷ s) = ground (arith, text_eq_refl s)

pub text_eq_sound : (s t : Text) → text_eq s t ≡ true → s ≡ t
unfolding text_eq
text_eq_sound [] [] h = refl
text_eq_sound [] (d ∷ t) h = cc
text_eq_sound (c ∷ s) [] h = cc
text_eq_sound (c ∷ s) (d ∷ t) h = ground (arith, text_eq_sound s t)

pub consume_front-append : (p s : Text) → consume_front p (p ++ s) ≡ some s
unfolding consume_front
consume_front-append [] s = refl
consume_front-append (c ∷ p) s = ground (arith, consume_front-append p s)

pub consume_front_sound : (p s r : Text) → consume_front p s ≡ some r → s ≡ p ++ r
unfolding consume_front
consume_front_sound [] s r h = cc
consume_front_sound (p ∷ ps) [] r h = cc
consume_front_sound (p ∷ ps) (c ∷ s) r h = ground (arith, consume_front_sound ps s r)

-- `StringRef::split(Separator)`: the parts before and behind the first separator.
unfoldable pub split_first : ℕ → Text → Text × Text
split_first d [] = ([], [])
split_first d (c ∷ s) =
    let rest = split_first d s in if c == d then ([], s) else (c ∷ rest.0, rest.1)

-- `StringRef::split(Parts, Separator)`: all parts.
unfoldable pub split_all : ℕ → Text → List Text
split_all d [] = [] ∷ []
split_all d (c ∷ s) =
    let rest = split_all d s in
    if c == d then [] ∷ rest else elim rest [ [] ↦ (c ∷ []) ∷ [] | p ∷ ps ↦ (c ∷ p) ∷ ps ]

abbrev is_space : ℕ → Bool
is_space c = c == 32 || (c == 9 || (c == 10 || (c == 11 || (c == 12 || c == 13))))

unfoldable pub trim_left : Text → Text
trim_left [] = []
trim_left (c ∷ s) = let rest = trim_left s in if is_space c then rest else c ∷ s

unfoldable pub trim_right : Text → Text
trim_right [] = []
trim_right (c ∷ s) = elim (trim_right s) [
  | [] ↦ if is_space c then [] else c ∷ []
  | d ∷ t ↦ c ∷ (d ∷ t)
]

-- `StringRef::trim()`.
unfoldable pub trim : Text → Text
unfolding trim_left trim_right
trim s = trim_right (trim_left s)

pub trim_left-cons : (c : ℕ) (s : Text) → 33 ≤ c → trim_left (c ∷ s) ≡ c ∷ s
unfolding trim_left
trim_left-cons c s h = ground arith

pub text_eq-cons_ne : (c d : ℕ) (s t : Text) → (c == d) ≡ false → text_eq (c ∷ s) (d ∷ t) ≡ false
unfolding text_eq
text_eq-cons_ne c d s t h = rw h refl
