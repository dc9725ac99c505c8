-- ===== src/Sema/InterruptLaws.antt =====
-- Which interrupt attributes a function gets
-- (phase-1-llvm/clang/lib/Sema/SemaRISCV.cpp).
use mathlib.Core.Option.{some-injective}
use spacemit_ime_iree_tcp.Shared.{
  ◌≡◌, ◌≤◌, ◌⊎◌, inl, inr, refl, sym, ap, ◌∙◌, subst, Bool, true, false, not, ◌&&◌, List, [], ◌∷◌,
  ◌++◌, Option, none, some, Text, any, All, length, ltb, ◌==◌, if◌then◌else◌, arith, Bool-cases,
  Option-cases,
}
use spacemit_ime_iree_tcp.Sema.Interrupt.{
  InterruptType, Function, Diagnostic, Loop, loop_start, is_unary, Read, read_types, stopped,
  required, Handled, read_args, missing_extension, finish_types, handle_args, handle_interrupt_attr,
}
use spacemit_ime_iree_tcp.Sema.InterruptLoop.{NoRepeats, read_args-LoopOk, read_args-cons}

-- The function may have the attribute.
abbrev pub Interruptible : Function → Type 0
Interruptible d =
    (d.interrupt_attr ≡ false)
    × (d.is_function ≡ true)
    × ((d.has_proto && not (d.params == 0)) ≡ false)
    × (d.returns_void ≡ true)

abbrev pub Permitted : (Text → Bool) → InterruptType → Type 0
Permitted has_feature t =
    (required t ≡ none) ⊎ ((r : Text × Text) × (required t ≡ some r) × (has_feature r.0 ≡ true))

some≢none : {d : Diagnostic} → some d ≡ none → ⊥
some≢none h = cc

-- The types behind the checks, with the default.
types_safe :
    (no_args : Bool) (types : List InterruptType) (unary : Bool) (ts : List InterruptType)
    → (if no_args then InterruptType.machine ∷ [] else types) ≡ ts
    → unary ≡ any is_unary types
    → NoRepeats types
    → (unary && ltb 1 (length types)) ≡ false
    → (no_args ≡ false → 1 ≤ length types)
    → (1 ≤ length ts) × NoRepeats ts × ((any is_unary ts && ltb 1 (length ts)) ≡ false)
types_safe true types unary ts e u n a m =
    subst (λ x. (1 ≤ length x) × NoRepeats x × ((any is_unary x && ltb 1 (length x)) ≡ false)) e
      (omega arith, (refl, tt), refl)
types_safe false types unary ts e u n a m =
    subst (λ x. (1 ≤ length x) × NoRepeats x × ((any is_unary x && ltb 1 (length x)) ≡ false)) e
      (m refl, n, ap (λ b. b && ltb 1 (length types)) (sym u) ∙ a)

module _ (convert : Text → Option InterruptType) (has_feature : Text → Bool) where
  missing_extension-Permitted :
      (ts : List InterruptType)
      → missing_extension convert has_feature ts ≡ none
      → All (Permitted has_feature) ts
  unfolding missing_extension
  missing_extension-Permitted [] h = tt
  missing_extension-Permitted (t ∷ ts) h = elim (Option-cases (required t)) [
    | inl e ↦ (inl e, missing_extension-Permitted ts (rw (e, missing_extension) at h))
    | inr (r, e) ↦ elim (Bool-cases (has_feature r.0)) [
      | inl f ↦
          (inr (r, e, f), missing_extension-Permitted ts (rw f at (rw (e, missing_extension) at h)))
      | inr f ↦ absurd (some≢none (rw f at (rw (e, missing_extension) at h)))
    ]
  ]

  finish_types_safe :
      (no_args : Bool) (l : Loop) (ds : List Diagnostic) (ts : List InterruptType)
      → finish_types convert has_feature no_args l ≡ (ds, some ts)
      → ((if no_args then InterruptType.machine ∷ [] else l.types) ≡ ts)
        × ((l.has_unary_type && ltb 1 (length l.types)) ≡ false)
        × (missing_extension convert has_feature ts ≡ none)
  unfolding finish_types
  finish_types_safe no_args l ds ts h =
      go (l.has_unary_type && ltb 1 (length l.types)) (l.has_unary_type && l.has_sifive_clic_type)
        (missing_extension convert has_feature types) refl refl h
    where
      types : List InterruptType
      types = if no_args then InterruptType.machine ∷ [] else l.types

      go :
          (a b : Bool) (o : Option Diagnostic)
          → (l.has_unary_type && ltb 1 (length l.types)) ≡ a
          → missing_extension convert has_feature types ≡ o
          → ◌≡◌ {A = Handled}
              (if a
                then (l.diagnostics ++ (Diagnostic.invalid_combination ∷ []), none)
                else if b
                then (l.diagnostics ++ (Diagnostic.invalid_combination ∷ []), none)
                else elim o [
                  | some d ↦ (l.diagnostics ++ (d ∷ []), none)
                  | none ↦ (l.diagnostics, some types)
                ])
              (ds, some ts)
          → (types ≡ ts)
            × ((l.has_unary_type && ltb 1 (length l.types)) ≡ false)
            × (missing_extension convert has_feature ts ≡ none)
      go true b o e m q = cc
      go false true o e m q = cc
      go false false (some d) e m q = cc
      go false false none e m q =
          let same : types ≡ ts = some-injective types ts (ap (λ (x : Handled). x.1) q) in
          (same, e, subst (λ x. missing_extension convert has_feature x ≡ none) same m)

  handle_args_safe :
      (args : List (Option Text)) (ds : List Diagnostic) (ts : List InterruptType)
      → handle_args convert has_feature args ≡ (ds, some ts)
      → (1 ≤ length ts)
        × NoRepeats ts
        × ((any is_unary ts && ltb 1 (length ts)) ≡ false)
        × All (Permitted has_feature) ts
  handle_args_safe args ds ts h = go (read_args convert has_feature args loop_start) refl h
    where
      go :
          (r : Read)
          → read_args convert has_feature args loop_start ≡ r
          → elim r [
            | stopped es ↦ (es, none)
            | read_types l ↦ finish_types convert has_feature (length args == 0) l
          ]
            ≡ (ds, some ts)
          → (1 ≤ length ts)
            × NoRepeats ts
            × ((any is_unary ts && ltb 1 (length ts)) ≡ false)
            × All (Permitted has_feature) ts
      go (stopped es) e q = cc
      go (read_types l) e q =
          let (same, alone, permitted) = finish_types_safe (length args == 0) l ds ts q in
          let ok = read_args-LoopOk convert has_feature args loop_start l e (refl, tt) in
          let nonempty : (length args == 0) ≡ false → 1 ≤ length l.types =
            λ n. read_args-cons convert has_feature args loop_start l e (inr n) in
          let (some_type, once, single) =
            types_safe (length args == 0) l.types l.has_unary_type ts same ok.0 ok.1 alone
              nonempty in
          (some_type, once, single, missing_extension-Permitted ts permitted)

  handle_interrupt_attr-guards :
      (d : Function) (args : List (Option Text)) (ds : List Diagnostic) (ts : List InterruptType)
      → handle_interrupt_attr convert has_feature d args ≡ (ds, some ts)
      → Interruptible d × (length args ≤ 3) × (handle_args convert has_feature args ≡ (ds, some ts))
  unfolding handle_interrupt_attr
  handle_interrupt_attr-guards d args ds ts h = ground arith

  -- An interrupt attribute is added only to a function without parameters that returns void and has
  -- no such attribute yet; it has at least one type, none twice, at most three arguments were given,
  -- a type that cannot be combined stands alone, and the target or the function has the extension of
  -- each type.
  pub handle_interrupt_attr_safe :
      (d : Function) (args : List (Option Text)) (ds : List Diagnostic) (ts : List InterruptType)
      → handle_interrupt_attr convert has_feature d args ≡ (ds, some ts)
      → Interruptible d
        × (length args ≤ 3)
        × (1 ≤ length ts)
        × NoRepeats ts
        × ((any is_unary ts && ltb 1 (length ts)) ≡ false)
        × All (Permitted has_feature) ts
  unfolding handle_interrupt_attr
  handle_interrupt_attr_safe d args ds ts h =
      let (able, few, rest) = handle_interrupt_attr-guards d args ds ts h in
      let (enough, once, alone, permitted) = handle_args_safe args ds ts rest in
      (able, few, enough, once, alone, permitted)
