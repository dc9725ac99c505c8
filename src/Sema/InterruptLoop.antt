-- ===== src/Sema/InterruptLoop.antt =====
-- What the loop over the arguments of an interrupt attribute keeps
-- (phase-1-llvm/clang/lib/Sema/SemaRISCV.cpp).
use spacemit_ime_iree_tcp.Shared.{
  ◌≡◌, ◌≤◌, ◌⊎◌, inl, inr, refl, sym, ap, ◌∙◌, subst, Bool, true, false, ◌||◌, List, [], ◌∷◌, ◌++◌,
  Option, none, some, Text, any, length, ◌==◌, arith, Bool-cases, length-append, Option-cases,
}
use spacemit_ime_iree_tcp.Sema.Interrupt.{
  InterruptType, code_of, Diagnostic, Loop, is_unary, holds, add_type, read_types, stopped,
  read_args,
}

abbrev pub NoRepeats : List InterruptType → Type 0
NoRepeats [] = Unit
NoRepeats (t ∷ ts) = (holds t ts ≡ false) × NoRepeats ts

-- What the loop keeps.
abbrev pub LoopOk : Loop → Type 0
LoopOk l = (l.has_unary_type ≡ any is_unary l.types) × NoRepeats l.types

read_types-injective : {l m : Loop} → read_types l ≡ read_types m → l ≡ m
read_types-injective h = cc

stopped≢read_types : (ds : List Diagnostic) (m : Loop) → stopped ds ≡ read_types m → ⊥
stopped≢read_types ds m h = cc

any-append :
    {A : Type 0} (p : A → Bool) (xs : List A) (y : A) → any p (xs ++ (y ∷ [])) ≡ (any p xs || p y)
any-append p [] y = ground arith
any-append p (x ∷ xs) y = ground (arith, any-append p xs y)

same_code : (t u : InterruptType) → (code_of t == code_of u) ≡ true → is_unary t ≡ is_unary u
same_code t u h = ground arith

holds_unary :
    (t : InterruptType) (ts : List InterruptType)
    → holds t ts ≡ true
    → (any is_unary ts || is_unary t) ≡ any is_unary ts
holds_unary t [] h = cc
holds_unary t (u ∷ us) h = elim (Bool-cases (code_of t == code_of u)) [
  | inl e ↦ ground (arith, same_code t u e)
  | inr e ↦ ground (arith, holds_unary t us)
]

NoRepeats-append :
    (ts : List InterruptType) (t : InterruptType)
    → holds t ts ≡ false
    → NoRepeats ts
    → NoRepeats (ts ++ (t ∷ []))
NoRepeats-append [] t h n = (refl, tt)
NoRepeats-append (u ∷ us) t h n = (
  any-append (λ x. code_of u == code_of x) us t ∙ ground (arith, n.0),
  NoRepeats-append us t (ground arith) n.1,
)

add_type-LoopOk :
    (text : Text) (t : InterruptType) (l : Loop) → LoopOk l → LoopOk (add_type text t l)
unfolding add_type
add_type-LoopOk text t l ok = elim (Bool-cases (holds t l.types)) [
  | inl e ↦ rw e (ap (λ b. b || is_unary t) ok.0 ∙ holds_unary t l.types e, ok.1)
  | inr e ↦ rw e (
    ap (λ b. b || is_unary t) ok.0 ∙ sym (any-append is_unary l.types t),
    NoRepeats-append l.types t e ok.1,
  )
]

holds-cons : (t : InterruptType) (ts : List InterruptType) → holds t ts ≡ true → 1 ≤ length ts
holds-cons t [] h = cc
holds-cons t (u ∷ us) h = omega arith

add_type-cons : (text : Text) (t : InterruptType) (l : Loop) → 1 ≤ length (add_type text t l).types
unfolding add_type
add_type-cons text t l = elim (Bool-cases (holds t l.types)) [
  | inl e ↦ rw e (holds-cons t l.types e)
  | inr e ↦ rw e (omega (arith, length-append l.types (t ∷ [])))
]

module _ (convert : Text → Option InterruptType) (has_feature : Text → Bool) where
  pub read_args-LoopOk :
      (args : List (Option Text)) (l m : Loop)
      → read_args convert has_feature args l ≡ read_types m
      → LoopOk l
      → LoopOk m
  unfolding read_args
  read_args-LoopOk [] l m h ok = subst LoopOk (read_types-injective h) ok
  read_args-LoopOk (none ∷ args) l m h ok = cc
  read_args-LoopOk (some text ∷ args) l m h ok = elim (Option-cases (convert text)) [
    | inl e ↦ absurd (
        stopped≢read_types (l.diagnostics ++ (Diagnostic.type_not_supported text ∷ [])) m
          (rw (e, read_args) at h))
    | inr (t, e) ↦
        read_args-LoopOk args (add_type text t l) m (rw (e, read_args) at h)
          (add_type-LoopOk text t l ok)
  ]

  pub read_args-cons :
      (args : List (Option Text)) (l m : Loop)
      → read_args convert has_feature args l ≡ read_types m
      → (1 ≤ length l.types) ⊎ ((length args == 0) ≡ false)
      → 1 ≤ length m.types
  unfolding read_args
  read_args-cons [] l m h ok =
      subst (λ n. 1 ≤ length n.types) (read_types-injective h) (elim ok [ inl n ↦ n | inr n ↦ cc ])
  read_args-cons (none ∷ args) l m h ok = cc
  read_args-cons (some text ∷ args) l m h ok = elim (Option-cases (convert text)) [
    | inl e ↦ absurd (
        stopped≢read_types (l.diagnostics ++ (Diagnostic.type_not_supported text ∷ [])) m
          (rw (e, read_args) at h))
    | inr (t, e) ↦
        read_args-cons args (add_type text t l) m (rw (e, read_args) at h)
          (inl (add_type-cons text t l))
  ]
