-- ===== src/Sema/RoundingLaws.antt =====
-- Which argument of a builtin is checked as its rounding mode
-- (phase-1-llvm/clang/lib/Sema/SemaRISCV.cpp).
use spacemit_ime_iree_tcp.Shared.{
  ℕ, ◌≡◌, inl, inr, refl, sym, subst, Bool, true, false, not, ◌&&◌, List, [], ◌∷◌, ◌++◌, Option,
  none, some, Text, codes, text_eq, text_eq_sound, any, ◌==◌, arith, Bool-cases,
}
use spacemit_ime_iree_tcp.Sema.Calls.{is_one_of}
use spacemit_ime_iree_tcp.Sema.Switch.{rounding_mode}

-- The rounding mode of the name with each policy's suffix.
abbrev pub Variants : Text → Option (ℕ × ℕ) → Option (ℕ × ℕ) → Option (ℕ × ℕ) → Type 0
Variants n tu m masked =
    (rounding_mode (n ++ codes "_tu") ≡ tu)
    × (rounding_mode (n ++ codes "_m") ≡ m)
    × (rounding_mode (n ++ codes "_tum") ≡ masked)
    × (rounding_mode (n ++ codes "_tumu") ≡ masked)
    × (rounding_mode (n ++ codes "_mu") ≡ masked)

abbrev pub same_mode : Option (ℕ × ℕ) → Option (ℕ × ℕ) → Bool
same_mode none none = true
same_mode none (some b) = false
same_mode (some a) none = false
same_mode (some a) (some b) = a.0 == b.0 && a.1 == b.1

pub same_mode_sound : (a b : Option (ℕ × ℕ)) → same_mode a b ≡ true → a ≡ b
same_mode_sound none none h = refl
same_mode_sound none (some b) h = cc
same_mode_sound (some a) none h = cc
same_mode_sound (some (i, m)) (some (j, n)) h =
    let e : i ≡ j = ground arith in let f : m ≡ n = ground arith in rw (e, f) refl

-- The test of a name that a list has is that of one of the list's own.
pub member_test :
    (test : Text → Bool) (names : List Text) (n : Text)
    → any (λ m. not (test m)) names ≡ false
    → is_one_of names n ≡ true
    → test n ≡ true
member_test test [] n all h = cc
member_test test (m ∷ ms) n all h = elim (Bool-cases (text_eq n m)) [
  | inl e ↦ subst (λ x. test x ≡ true) (sym (text_eq_sound n m e)) (ground arith)
  | inr e ↦ member_test test ms n (ground arith) (ground arith)
]

abbrev variants_test : Text → Option (ℕ × ℕ) → Option (ℕ × ℕ) → Option (ℕ × ℕ) → Bool
variants_test n tu m masked =
    same_mode (rounding_mode (n ++ codes "_tu")) tu
    && (same_mode (rounding_mode (n ++ codes "_m")) m
        && (same_mode (rounding_mode (n ++ codes "_tum")) masked
            && (same_mode (rounding_mode (n ++ codes "_tumu")) masked
                && same_mode (rounding_mode (n ++ codes "_mu")) masked)))
