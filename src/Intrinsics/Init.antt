-- ===== src/Intrinsics/Init.antt =====
-- What `InitIntrinsicList` (phase-1-llvm/clang/lib/Sema/SemaRISCV.cpp) leaves in the tables.
use spacemit_ime_iree_tcp.Shared.{
  ℕ, ◌^◌, ◌≡◌, ◌<◌, ◌≤◌, ◌⊎◌, ap, sym, ◌∙◌, refl, subst, Bool, true, false, not, ◌&&◌, List, [],
  ◌∷◌, Option, some, ◌>>=◌, >>=-some, for_each, for_each-keeps, if◌then◌else◌, length, arith, All,
  inl, inr,
}
use mathlib.Core.Option.{some-injective}
use spacemit_ime_iree_tcp.Intrinsics.Manager.{
  IntrinsicKind, rvv, sifive_vector, andes_vector, spacemit_vector, Support, find,
  construct_rvv_intrinsics,
}
use spacemit_ime_iree_tcp.Intrinsics.Decl.{
  PerKind, Manager, flag, set_flag, finish, init_kind, init_intrinsic_list, kinds, new_manager,
}
use spacemit_ime_iree_tcp.Intrinsics.Indices.{
  InBounds, add_intrinsic-InBounds, AllListed, Listed, add_intrinsic-AllListed, Extends,
  add_intrinsic-Extends,
}
use spacemit_ime_iree_tcp.Intrinsics.Preserve.{init_intrinsic_list-Keeps}

-- The calls of `InitIntrinsicList` over time, each with what the pragmas have declared until then.
unfoldable pub init_all :
    {Proto Policy : Type 0} → Support Proto Policy → List PerKind → Manager → Option Manager
init_all s declares m = for_each (init_intrinsic_list s) declares m

module _ {Proto Policy : Type 0} (s : Support Proto Policy) where
  -- After any calls of `InitIntrinsicList` on a new manager, whatever was declared before each, both
  -- maps hold indices of definitions only, even where the 32-bit index wraps.
  pub init_all-bounds :
      (declares : List PerKind) (m : Manager)
      → init_all s declares new_manager ≡ some m
      → InBounds m.tables
  unfolding init_all find
  init_all-bounds declares m h =
      for_each-keeps (λ n. InBounds n.tables) _
        (λ d. init_intrinsic_list-Keeps s InBounds add_intrinsic-InBounds d) declares new_manager m
        h ((λ n i e. cc), λ n. tt)

  -- After such calls, if there are at most 2^32 definitions, each of them is listed under some
  -- overloaded name.
  pub init_all-Listed :
      (declares : List PerKind) (m : Manager) (i : ℕ)
      → init_all s declares new_manager ≡ some m
      → length m.tables.intrinsic_list ≤ 2 ^ 32
      → i < length m.tables.intrinsic_list
      → Listed m.tables i
  unfolding init_all
  init_all-Listed declares m i h small lt =
      for_each-keeps (λ n. AllListed n.tables) _
        (λ d. init_intrinsic_list-Keeps s AllListed add_intrinsic-AllListed d) declares new_manager
        m h (λ q j l. absurd (omega (arith, l))) small i lt

  -- A later `InitIntrinsicList` keeps what is declared: each definition its index, each full name its
  -- index, and each overloaded name its indices.
  pub init_intrinsic_list-Extends :
      (declare : PerKind) (m n : Manager)
      → init_intrinsic_list s declare m ≡ some n
      → Extends m.tables n.tables
  init_intrinsic_list-Extends declare m n h =
      init_intrinsic_list-Keeps s (Extends m.tables) (add_intrinsic-Extends m.tables) declare m n h
        (record { list = λ i d e. e; names = λ k i e. e; overloads = λ k i e. e })

  -- Nothing is left to do for a kind.
  abbrev Done : PerKind → IntrinsicKind → Manager → Type 0
  Done declare k m = (flag k declare && not (flag k m.constructed)) ≡ false

  set_flag-Done :
      (declare f : PerKind) (j k : IntrinsicKind)
      → (flag j declare && not (flag j f)) ≡ false
      → (flag j declare && not (flag j (set_flag k f))) ≡ false
  set_flag-Done declare f rvv rvv h = ground (arith, h)
  set_flag-Done declare f sifive_vector sifive_vector h = ground (arith, h)
  set_flag-Done declare f andes_vector andes_vector h = ground (arith, h)
  set_flag-Done declare f spacemit_vector spacemit_vector h = ground (arith, h)
  set_flag-Done declare f rvv _ h = h
  set_flag-Done declare f sifive_vector _ h = h
  set_flag-Done declare f andes_vector _ h = h
  set_flag-Done declare f spacemit_vector _ h = h

  flag-set_flag : (k : IntrinsicKind) (f : PerKind) → flag k (set_flag k f) ≡ true
  flag-set_flag rvv f = refl
  flag-set_flag sifive_vector f = refl
  flag-set_flag andes_vector f = refl
  flag-set_flag spacemit_vector f = refl

  init_kind-cases :
      (declare : PerKind) (k : IntrinsicKind) (m n : Manager)
      → init_kind s declare k m ≡ some n
      → (n ≡ m) × Done declare k m ⊎ (n.constructed ≡ set_flag k m.constructed)
  unfolding init_kind finish
  init_kind-cases declare k m n h = go (flag k declare && not (flag k m.constructed)) refl h
    where
      go :
          (b : Bool)
          → (flag k declare && not (flag k m.constructed)) ≡ b
          → (if b
              then construct_rvv_intrinsics s (s.records k) k m.tables >>= finish k m
              else some m)
            ≡ some n
          → (n ≡ m) × Done declare k m ⊎ (n.constructed ≡ set_flag k m.constructed)
      go false e q = inl (sym (some-injective m n q), e)
      go true e q =
          let (t, _, r) = >>=-some _ (finish k m) q in
          inr (sym (ap (λ x. x.constructed) (some-injective _ n r)))

  init_kind-Done :
      (declare : PerKind) (k : IntrinsicKind) (m n : Manager)
      → init_kind s declare k m ≡ some n
      → Done declare k n
  init_kind-Done declare k m n h = elim (init_kind-cases declare k m n h) [
    | inl (e, d) ↦ subst (Done declare k) (sym e) d
    | inr e ↦ ground (arith, ap (flag k) e ∙ flag-set_flag k m.constructed)
  ]

  init_kind_keeps-Done :
      (declare : PerKind) (j k : IntrinsicKind) (m n : Manager)
      → init_kind s declare k m ≡ some n
      → Done declare j m
      → Done declare j n
  init_kind_keeps-Done declare j k m n h d = elim (init_kind-cases declare k m n h) [
    | inl (e, _) ↦ subst (Done declare j) (sym e) d
    | inr e ↦
        subst (λ f. (flag j declare && not (flag j f)) ≡ false) (sym e)
          (set_flag-Done declare m.constructed j k d)
  ]

  All-Done :
      (declare : PerKind) (ks : List IntrinsicKind) (m n : Manager)
      → for_each (init_kind s declare) ks m ≡ some n
      → All (λ k. Done declare k n) ks
  All-Done declare [] m n h = tt
  All-Done declare (k ∷ ks) m n h =
      let (u, e, rest) =
        >>=-some (init_kind s declare k m) (λ v. for_each (init_kind s declare) ks v) h in
      (
        for_each-keeps (Done declare k) _ (λ j. init_kind_keeps-Done declare k j) ks u n rest
            (init_kind-Done declare k m u e),
        All-Done declare ks u n rest,
      )

  for_each-Done :
      (declare : PerKind) (ks : List IntrinsicKind) (m : Manager)
      → All (λ k. Done declare k m) ks
      → for_each (init_kind s declare) ks m ≡ some m
  unfolding init_kind
  for_each-Done declare [] m h = refl
  for_each-Done declare (k ∷ ks) m h = rw h.0 (for_each-Done declare ks m h.1)

  -- A second `InitIntrinsicList` with nothing more declared does nothing.
  pub init_intrinsic_list-idempotent :
      (declare : PerKind) (m n : Manager)
      → init_intrinsic_list s declare m ≡ some n
      → init_intrinsic_list s declare n ≡ some n
  unfolding init_intrinsic_list
  init_intrinsic_list-idempotent declare m n h =
      for_each-Done declare kinds n (All-Done declare kinds m n h)
