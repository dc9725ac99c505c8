-- ===== src/Intrinsics/Found.antt =====
-- What `CreateIntrinsicIfFound` (phase-1-llvm/clang/lib/Sema/SemaRISCV.cpp) finds and declares.
use Prim.Native.Nat.{suc}
use spacemit_ime_iree_tcp.Shared.{
  ℕ, ◌≡◌, ◌<◌, ◌⊎◌, ◌↔◌, sym, ◌∙◌, ap, refl, subst, Bool, true, false, List, [], ◌∷◌, ◌++◌, Option,
  none, some, Text, codes, consume_front, consume_front-append, consume_front_sound, length,
  get_elem?, get_elem?-some_lt, All, >>=-intro, inl, inr,
}
use mathlib.Core.Option.{some-injective}
use mathlib.Core.Bool.{true≢false}
use spacemit_ime_iree_tcp.Intrinsics.Types.{AstContext}
use spacemit_ime_iree_tcp.Intrinsics.Manager.{IntrinsicDef, Tables, find}
use spacemit_ime_iree_tcp.Intrinsics.Decl.{
  LookupCall, quals, decl_of, create_rvv_intrinsic_decl, resolve_kind, create_all,
  create_intrinsic_if_found,
}
use spacemit_ime_iree_tcp.Intrinsics.Indices.{InBounds, indexes}

-- A return type and argument types that the compiler has.
abbrev pub Expressible : {Q : Type 0} → AstContext Q → IntrinsicDef → Type 0
Expressible {Q = Q} c d = (q : Q) × (qs : List Q) × (quals c d.signature ≡ some (q ∷ qs))

-- The text names an intrinsic, with its prefix.
abbrev pub Intrinsic : Tables → Text → Type 0
Intrinsic t ident =
    (name : Text) × (ident ≡ codes "__riscv_" ++ name)
    × (((is : List ℕ) × (find name t.overload_intrinsics ≡ some is))
        ⊎ ((i : ℕ) × (find name t.intrinsics ≡ some i)))

none≢some : {A : Type 0} {a : A} → none ≡ some a → ⊥
none≢some h = cc

module _ {Q : Type 0} (c : AstContext Q) (t : Tables)
    (expressible : (i : ℕ) (d : IntrinsicDef)
      → get_elem? t.intrinsic_list i ≡ some d
      → Expressible c d) where
  create_rvv_intrinsic_decl-lt :
      (ident : Text) (i : ℕ) (overloaded : Bool)
      → i < length t.intrinsic_list
      → (d : LookupCall Q) × (create_rvv_intrinsic_decl c t ident i overloaded ≡ some d)
  unfolding create_rvv_intrinsic_decl decl_of
  create_rvv_intrinsic_decl-lt ident i overloaded lt =
      let (d, e) = get_elem?-some_lt t.intrinsic_list i lt in
      let (q, qs, f) = expressible i d e in
      (_, >>=-intro _ e (>>=-intro (decl_of ident overloaded d) f refl))

  create_all-lt :
      (ident : Text) (is : List ℕ)
      → All (λ i. i < length t.intrinsic_list) is
      → (ds : List (LookupCall Q)) × (create_all c t ident is ≡ some ds) × (length ds ≡ length is)
  unfolding create_all
  create_all-lt ident [] h = ([], refl, refl)
  create_all-lt ident (i ∷ is) h =
      let (d, e) = create_rvv_intrinsic_decl-lt ident i true h.0 in
      let (ds, f, l) = create_all-lt ident is h.1 in
      (d ∷ ds, >>=-intro _ e (>>=-intro (λ es. some (d ∷ es)) f refl), ap suc l)

  -- Where the maps hold indices of definitions only, and the types of all definitions are types of
  -- the compiler, `CreateIntrinsicIfFound` returns: true for "__riscv_" and a name of one of the maps,
  -- and false for any other identifier.
  pub create_intrinsic_if_found_iff :
      (ident : Text)
      → InBounds t
      → (r : Bool × List (LookupCall Q)) × (create_intrinsic_if_found c t ident ≡ some r)
        × ((r.0 ≡ true) ↔ Intrinsic t ident)
  unfolding create_intrinsic_if_found
  create_intrinsic_if_found_iff ident bounds =
      prefixed (consume_front (codes "__riscv_") ident) refl
    where
      Answer : Type 0
      Answer =
          (r : Bool × List (LookupCall Q)) × (create_intrinsic_if_found c t ident ≡ some r)
          × ((r.0 ≡ true) ↔ Intrinsic t ident)

      stripped : (x : Intrinsic t ident) → consume_front (codes "__riscv_") ident ≡ some x.0
      stripped x =
          ap (consume_front (codes "__riscv_")) x.1 ∙ consume_front-append (codes "__riscv_") x.0

      missing :
          (name : Text)
          → consume_front (codes "__riscv_") ident ≡ some name
          → find name t.overload_intrinsics ≡ none
          → find name t.intrinsics ≡ none
          → Intrinsic t ident
          → ⊥
      missing name e f g (n, at, found) =
          let same_name : n ≡ name = some-injective n name (sym (stripped (n, at, found)) ∙ e) in
          elim found [
            | inl (is, h) ↦
                none≢some (sym f ∙ ap (λ k. find k t.overload_intrinsics) (sym same_name) ∙ h)
            | inr (i, h) ↦ none≢some (sym g ∙ ap (λ k. find k t.intrinsics) (sym same_name) ∙ h)
          ]

      direct :
          (name : Text)
          → consume_front (codes "__riscv_") ident ≡ some name
          → find name t.overload_intrinsics ≡ none
          → (o : Option ℕ) → find name t.intrinsics ≡ o
          → Answer
      direct name e f (some i) g =
          let (d, h) = create_rvv_intrinsic_decl-lt ident i false (bounds.0 name i g) in
          (
            (true, d ∷ []),
            rw (e, create_intrinsic_if_found) (rw f (rw g (rw h refl))),
            (λ _. (name, consume_front_sound _ ident name e, inr (i, g)), λ _. refl),
          )
      direct name e f none g = (
        (false, []),
        rw (e, create_intrinsic_if_found) (rw f (rw g refl)),
        (λ q. absurd (true≢false (sym q)), λ x. absurd (missing name e f g x)),
      )

      overloaded :
          (name : Text)
          → consume_front (codes "__riscv_") ident ≡ some name
          → (o : Option (List ℕ)) → find name t.overload_intrinsics ≡ o
          → Answer
      overloaded name e (some is) f =
          let (ds, g, _) =
            create_all-lt ident is
              (subst (λ o. All (λ i. i < length t.intrinsic_list) (indexes o)) f (bounds.1 name)) in
          (
            (true, ds ++ (resolve_kind ∷ [])),
            rw (e, create_intrinsic_if_found) (rw f (rw g refl)),
            (λ _. (name, consume_front_sound _ ident name e, inl (is, f)), λ _. refl),
          )
      overloaded name e none f = direct name e f (find name t.intrinsics) refl

      prefixed : (o : Option Text) → consume_front (codes "__riscv_") ident ≡ o → Answer
      prefixed none e = (
        (false, []),
        rw (e, create_intrinsic_if_found) refl,
        (λ q. absurd (true≢false (sym q)), λ x. absurd (none≢some (sym e ∙ stripped x))),
      )
      prefixed (some name) e = overloaded name e (find name t.overload_intrinsics) refl
