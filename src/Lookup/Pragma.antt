-- ===== src/Lookup/Pragma.antt =====
-- `PragmaRISCVHandler` of phase-1-llvm/clang/lib/Parse/ParsePragma.cpp.
use spacemit_ime_iree_tcp.Shared.{
  ◌≡◌, ◌⊎◌, inl, inr, refl, Bool, true, false, ◌||◌, List, [], ◌∷◌, Option, none, some, Text, codes,
  text_eq, text_eq_sound, if◌then◌else◌, Bool-cases,
}
use spacemit_ime_iree_tcp.Intrinsics.Manager.{
  IntrinsicKind, rvv, sifive_vector, andes_vector, spacemit_vector,
}
use spacemit_ime_iree_tcp.Intrinsics.Decl.{PerKind, set_flag}

-- A token of the line: one with an `IdentifierInfo`, or another by its spelling.
pub data Token : Type 0 where
  identifier : Text → Token
  other : Text → Token

pub data Warning : Type 0 where
  -- warn_pragma_invalid_argument: the spelling, what is expected
  invalid_argument : Text → Text → Warning
  -- warn_pragma_extra_tokens_at_eol
  extra_tokens : Warning

-- `PP.Lex`; `none` is `tok::eod`, behind the line's last token.
abbrev pub lex : List Token → Option Token × List Token
lex [] = (none, [])
lex (t ∷ ts) = (some t, ts)

abbrev pub identifier_info : Option Token → Option Text
identifier_info (some (identifier name)) = some name
identifier_info (some (other s)) = none
identifier_info none = none

abbrev pub spelling : Option Token → Text
spelling (some (identifier name)) = name
spelling (some (other s)) = s
spelling none = []

abbrev pub is_eod : Option Token → Bool
is_eod none = true
is_eod (some t) = false

-- `II && II->isStr(s)`
abbrev pub is_str : Option Text → Text → Bool
is_str none s = false
is_str (some name) s = text_eq name s

abbrev pub intrinsic : Text
intrinsic = codes "intrinsic"

abbrev pub vector_name : IntrinsicKind → Text
vector_name rvv = codes "vector"
vector_name sifive_vector = codes "sifive_vector"
vector_name andes_vector = codes "andes_vector"
vector_name spacemit_vector = codes "spacemit_vector"

abbrev pub vector_names : Text
vector_names = codes "'vector', 'sifive_vector', 'andes_vector' or 'spacemit_vector'"

abbrev pub is_vector_name : Option Text → Bool
is_vector_name ii =
    is_str ii (vector_name rvv)
    || (is_str ii (vector_name sifive_vector)
        || (is_str ii (vector_name andes_vector) || is_str ii (vector_name spacemit_vector)))

-- The flags `Declare...Builtins`, and the warnings.
unfoldable pub handle_pragma : List Token → PerKind → PerKind × List Warning
handle_pragma tokens declare =
    let (first, behind_first) = lex tokens in
    let (second, behind_second) = lex behind_first in
    let ii = identifier_info second in
    if is_str (identifier_info first) intrinsic
    then (if is_vector_name ii
        then (if is_eod (lex behind_second).0
            then (if is_str ii (vector_name rvv)
                then (set_flag rvv declare, [])
                else if is_str ii (vector_name sifive_vector)
                then (set_flag sifive_vector declare, [])
                else if is_str ii (vector_name andes_vector)
                then (set_flag andes_vector declare, [])
                else if is_str ii (vector_name spacemit_vector)
                then (set_flag spacemit_vector declare, [])
                else (declare, []))
            else (declare, extra_tokens ∷ []))
        else (declare, invalid_argument (spelling second) vector_names ∷ []))
    else (declare, invalid_argument (spelling first) (codes "'intrinsic'") ∷ [])

-- The tokens of `#pragma clang riscv intrinsic <name>` behind `riscv`.
abbrev pub line : IntrinsicKind → List Token
line k = identifier intrinsic ∷ identifier (vector_name k) ∷ []

abbrev Outcome : List Token → PerKind → Type 0
Outcome tokens declare =
    ((k : IntrinsicKind) × (tokens ≡ line k)
      × (handle_pragma tokens declare ≡ (set_flag k declare, [])))
    ⊎ ((w : Warning) × (handle_pragma tokens declare ≡ (declare, w ∷ [])))

identifier_line :
    (a b : Text) (k : IntrinsicKind)
    → text_eq a intrinsic ≡ true
    → text_eq b (vector_name k) ≡ true
    → identifier a ∷ identifier b ∷ [] ≡ line k
identifier_line a b k ha hb =
    rw (text_eq_sound a intrinsic ha, text_eq_sound b (vector_name k) hb) refl

two_words :
    (a b : Text) (declare : PerKind)
    → text_eq a intrinsic ≡ true
    → Outcome (identifier a ∷ identifier b ∷ []) declare
unfolding handle_pragma
two_words a b declare ha =
    go (Bool-cases (text_eq b (vector_name rvv)))
      (Bool-cases (text_eq b (vector_name sifive_vector)))
      (Bool-cases (text_eq b (vector_name andes_vector)))
      (Bool-cases (text_eq b (vector_name spacemit_vector)))
  where
    Is : IntrinsicKind → Bool → Type 0
    Is k t = text_eq b (vector_name k) ≡ t

    go :
        (Is rvv true ⊎ Is rvv false)
        → (Is sifive_vector true ⊎ Is sifive_vector false)
        → (Is andes_vector true ⊎ Is andes_vector false)
        → (Is spacemit_vector true ⊎ Is spacemit_vector false)
        → Outcome (identifier a ∷ identifier b ∷ []) declare
    go (inl e) _ _ _ = inl (rvv, identifier_line a b rvv ha e, rw (ha, e) refl)
    go (inr n) (inl e) _ _ =
        inl (sifive_vector, identifier_line a b sifive_vector ha e, rw (ha, n, e) refl)
    go (inr n) (inr m) (inl e) _ =
        inl (andes_vector, identifier_line a b andes_vector ha e, rw (ha, n, m, e) refl)
    go (inr n) (inr m) (inr l) (inl e) =
        inl (spacemit_vector, identifier_line a b spacemit_vector ha e, rw (ha, n, m, l, e) refl)
    go (inr n) (inr m) (inr l) (inr e) =
        inr (invalid_argument b vector_names, rw (ha, n, m, l, e) refl)

more_words :
    (a : Text) (tokens : List Token) (declare : PerKind)
    → text_eq a intrinsic ≡ true
    → Outcome (identifier a ∷ tokens) declare
unfolding handle_pragma
more_words a [] declare ha = inr (invalid_argument [] vector_names, rw ha refl)
more_words a (other s ∷ ts) declare ha = inr (invalid_argument s vector_names, rw ha refl)
more_words a (identifier b ∷ []) declare ha = two_words a b declare ha
more_words a (identifier b ∷ t ∷ ts) declare ha = elim (Bool-cases (is_vector_name (some b))) [
  | inl e ↦ inr (extra_tokens, rw (ha, e) refl)
  | inr e ↦ inr (invalid_argument b vector_names, rw (ha, e) refl)
]

-- On every line, the handler either reads the pragma of a kind, sets the flag of that kind and no
-- other and gives no warning; or it gives exactly one warning and sets no flag.
pub handle_pragma_cases :
    (tokens : List Token) (declare : PerKind)
    → ((k : IntrinsicKind) × (tokens ≡ line k)
        × (handle_pragma tokens declare ≡ (set_flag k declare, [])))
      ⊎ ((w : Warning) × (handle_pragma tokens declare ≡ (declare, w ∷ [])))
unfolding handle_pragma
handle_pragma_cases [] declare = inr (_, refl)
handle_pragma_cases (other s ∷ ts) declare = inr (_, refl)
handle_pragma_cases (identifier a ∷ ts) declare = elim (Bool-cases (text_eq a intrinsic)) [
  | inl e ↦ more_words a ts declare e
  | inr e ↦ inr (invalid_argument a (codes "'intrinsic'"), rw e refl)
]

-- The pragma of each kind sets the flag of that kind and no other, and gives no warning.
pub handle_pragma-line :
    (k : IntrinsicKind) (declare : PerKind)
    → handle_pragma (line k) declare ≡ (set_flag k declare, [])
unfolding handle_pragma text_eq
handle_pragma-line rvv declare = refl
handle_pragma-line sifive_vector declare = refl
handle_pragma-line andes_vector declare = refl
handle_pragma-line spacemit_vector declare = refl
