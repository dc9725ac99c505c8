-- ===== src/Lookup/Finds.antt =====
-- What a lookup finds after the pragma of its intrinsics
-- (phase-1-llvm/clang/lib/Sema/SemaLookup.cpp, phase-1-llvm/clang/lib/Sema/SemaRISCV.cpp).
use spacemit_ime_iree_tcp.Shared.{
  ℕ, ◌≡◌, ◌⊎◌, ◌↔◌, inl, inr, refl, sym, ap, ◌∙◌, subst, Bool, true, false, List, [], ◌++◌, map,
  some, Text, codes, >>=-some, for_each-keeps, arith, get_elem?, Option-cases,
}
use mathlib.Core.Option.{some-injective}
use mathlib.Core.Bool.{true≢false}
use spacemit_ime_iree_tcp.Intrinsics.Manager.{IntrinsicKind, IntrinsicDef, Tables, find}
use spacemit_ime_iree_tcp.Intrinsics.Decl.{
  Manager, flag, init_intrinsic_list, LookupCall, create_intrinsic_if_found,
}
use spacemit_ime_iree_tcp.Intrinsics.Indices.{
  InBounds, add_intrinsic-InBounds, indexes, contains, Extends, add_intrinsic-Extends,
}
use spacemit_ime_iree_tcp.Intrinsics.Preserve.{init_intrinsic_list-Keeps}
use spacemit_ime_iree_tcp.Intrinsics.Total.{Legal, init_intrinsic_list-ends}
use spacemit_ime_iree_tcp.Intrinsics.Found.{Expressible, Intrinsic, create_intrinsic_if_found_iff}
use spacemit_ime_iree_tcp.Lookup.Builtin.{
  Found, intrinsic_call, LookupNameKind, SemaRiscv, Compiler, applies, manager_of, declares,
  lookup_target_builtin, after_manager, lookup_riscv_builtin, lookup_name, lookup_builtin,
}
use spacemit_ime_iree_tcp.Lookup.Session.{
  Event, pragma, lookup, start, step, run, HasPragma, Left, lookup_builtin-Left,
}
use spacemit_ime_iree_tcp.Lookup.Declared.{
  Sound, run-Sound, run_declared, step-Sound, step_keeps_declared,
}

-- A compilation of C: no templates, no tables of other languages.
abbrev pub PlainC : {Q : Type 0} → Compiler Q → Type 0
PlainC c = (c.c_plus_plus ≡ false) × (c.hlsl ≡ false) × (c.opencl ≡ false)

-- The types of all definitions in the tables are types of the compiler.
abbrev pub AllExpressible : {Q : Type 0} → Compiler Q → Tables → Type 0
AllExpressible c t =
    (i : ℕ) (d : IntrinsicDef) → get_elem? t.intrinsic_list i ≡ some d → Expressible c.context d

-- The text names a definition, with its prefix.
abbrev pub Named : Tables → Text → Type 0
Named t ident =
    (name : Text) × (ident ≡ codes "__riscv_" ++ name)
    × (i : ℕ) × ((contains i (indexes (find name t.overload_intrinsics)) ≡ true)
        ⊎ (find name t.intrinsics ≡ some i))

Named-Intrinsic : (t : Tables) (ident : Text) → Named t ident → Intrinsic t ident
Named-Intrinsic t ident (name, at, i, inl h) =
    elim (Option-cases (find name t.overload_intrinsics)) [
      | inl e ↦ absurd (true≢false (sym h ∙ ap (λ o. contains i (indexes o)) e))
      | inr is ↦ (name, at, inl is)
    ]
Named-Intrinsic t ident (name, e, i, inr h) = (name, e, inr (i, h))

flag-declares :
    {Q : Type 0} (c : Compiler Q) (k : IntrinsicKind) (s : SemaRiscv)
    → flag k s.declare ≡ true
    → declares c s ≡ true
flag-declares c k s h = ground arith

lookup_name-plain :
    {Q : Type 0} (c : Compiler Q) (kind : LookupNameKind) (name : Text) (r : Bool) (s : SemaRiscv)
    → PlainC c
    → applies kind ≡ true
    → lookup_builtin c kind (some name) r s ≡ lookup_riscv_builtin c name r s
unfolding lookup_builtin lookup_name
lookup_name-plain c LookupNameKind.ordinary_name name r s (cpp, hlsl, cl) h =
    rw (cpp, hlsl, cl) refl
lookup_name-plain c LookupNameKind.redeclaration_with_linkage name r s (cpp, hlsl, cl) h =
    rw cl refl
lookup_name-plain c LookupNameKind.another_kind name r s plain h = absurd (true≢false (sym h))

module _ {Q : Type 0} (c : Compiler Q) (legal : Legal c.support) where
  -- What the lookup of a name does, where a kind is declared.
  lookup_riscv_builtin-declared :
      (name : Text) (r : Bool) (s : SemaRiscv) (m : Manager) (found : Bool × List (LookupCall Q))
      → declares c s ≡ true
      → init_intrinsic_list c.support s.declare (manager_of s.manager) ≡ some m
      → create_intrinsic_if_found c.context m.tables name ≡ some found
      → lookup_riscv_builtin c name r s
        ≡ after_manager c name r (record s { manager = some m }) found
  unfolding lookup_riscv_builtin
  lookup_riscv_builtin-declared name r s m found on e f = rw (on, e) (rw f refl)

  -- For C, where for the records of the generated tables the masked and policy variants that a record
  -- asks for have types if the plain intrinsic has, and all types of the tables that the lookup leaves
  -- are the compiler's: after pragmas and lookups, that of
  -- kind `k` among them, a lookup of an ordinary name or a redeclaration that is no builtin of the
  -- target ends, with the manager's tables initialised, and with a result that is true exactly for
  -- "__riscv_" and a name in those tables.
  pub lookup_builtin_iff :
      (plain : PlainC c) (events : List Event) (s : SemaRiscv) (k : IntrinsicKind)
      (kind : LookupNameKind) (name : Text) (r : Bool)
      → run c events start ≡ some s
      → HasPragma k events
      → applies kind ≡ true
      → c.builtin_id name ≡ 0
      → ((m : Manager)
          → init_intrinsic_list c.support s.declare (manager_of s.manager) ≡ some m
          → AllExpressible c m.tables)
      → (m : Manager) × (b : Bool) × (ds : List (Found Q)) × (lookup_builtin c kind (some name) r s
          ≡ some ((b, ds), record s { manager = some m }))
        × (init_intrinsic_list c.support s.declare (manager_of s.manager) ≡ some m)
        × ((b ≡ true) ↔ Intrinsic m.tables name)
  unfolding lookup_target_builtin
  lookup_builtin_iff plain events s k kind name r ran had fits unbuilt expressible =
      let (m, e) = init_intrinsic_list-ends c.support legal s.declare (manager_of s.manager) in
      let sound = run-Sound c events s ran in
      let bounds =
        init_intrinsic_list-Keeps c.support InBounds add_intrinsic-InBounds s.declare
          (manager_of s.manager) m e sound.0 in
      let (found, f, iff) =
        create_intrinsic_if_found_iff c.context m.tables (expressible m e) name bounds in
      let on = flag-declares c k s (run_declared c events start s k ran had) in
      let all =
        lookup_name-plain c kind name r s plain fits
        ∙ lookup_riscv_builtin-declared name r s m found on e f in
      go m e found iff all
    where
      go :
          (m : Manager)
          → init_intrinsic_list c.support s.declare (manager_of s.manager) ≡ some m
          → (found : Bool × List (LookupCall Q)) → ((found.0 ≡ true) ↔ Intrinsic m.tables name)
          → lookup_builtin c kind (some name) r s
            ≡ after_manager c name r (record s { manager = some m }) found
          → (n : Manager) × (b : Bool) × (ds : List (Found Q)) × (lookup_builtin c kind
                (some name)
                r
                s
              ≡ some ((b, ds), record s { manager = some n }))
            × (init_intrinsic_list c.support s.declare (manager_of s.manager) ≡ some n)
            × ((b ≡ true) ↔ Intrinsic n.tables name)
      go m e (true, calls) iff all = (m, true, map intrinsic_call calls, all, e, iff)
      go m e (false, calls) iff all = (m, false, [], all ∙ rw unbuilt refl, e, iff)

  Extends-keeps :
      (base : Tables) (e : Event) (s t : SemaRiscv)
      → step c e s ≡ some t
      → Extends base (manager_of s.manager).tables
      → Extends base (manager_of t.manager).tables
  Extends-keeps base (pragma tokens) s t h x =
      subst (λ u. Extends base (manager_of u.manager).tables) (some-injective _ t h) x
  Extends-keeps base (lookup kind name r) s t h x =
      let (a, d, rest) = >>=-some (lookup_builtin c kind name r s) (λ y. some y.1) h in
      subst (λ u. Extends base (manager_of u.manager).tables) (some-injective a.1 t rest)
        (left a (lookup_builtin-Left c kind name r s a d))
    where
      left :
          (a : (Bool × List (Found Q)) × SemaRiscv)
          → Left c s a
          → Extends base (manager_of a.1.manager).tables
      left a (inl e) = subst (λ u. Extends base (manager_of u.manager).tables) (sym e) x
      left a (inr (m, i, e)) =
          subst (λ u. Extends base (manager_of u.manager).tables) (sym e)
            (init_intrinsic_list-Keeps c.support (Extends base) (add_intrinsic-Extends base)
              s.declare (manager_of s.manager) m i x)

  Named-keeps : (t u : Tables) (ident : Text) → Extends t u → Named t ident → Named u ident
  Named-keeps t u ident x (name, e, i, inl h) = (name, e, i, inl (x.overloads name i h))
  Named-keeps t u ident x (name, e, i, inr h) = (name, e, i, inr (x.names name i h))

  -- For C, after the pragma of a kind, a name that the manager knows at some time is found by every
  -- later lookup of an ordinary name or a redeclaration, whatever pragmas and lookups come between. For
  -- the records of the generated tables the masked and policy variants that a record asks for have
  -- types if the plain intrinsic has, and all types of the tables that the lookup leaves are the
  -- compiler's.
  pub lookup_builtin-stays :
      (plain : PlainC c) (before later : List Event) (s t : SemaRiscv) (k : IntrinsicKind)
      (kind : LookupNameKind) (name : Text) (r : Bool)
      → run c before start ≡ some s
      → HasPragma k before
      → Named (manager_of s.manager).tables name
      → run c later s ≡ some t
      → applies kind ≡ true
      → ((m : Manager)
          → init_intrinsic_list c.support t.declare (manager_of t.manager) ≡ some m
          → AllExpressible c m.tables)
      → (m : Manager) × (ds : List (LookupCall Q)) × (lookup_builtin c kind (some name) r t
          ≡ some ((true, map intrinsic_call ds), record t { manager = some m }))
  unfolding run
  lookup_builtin-stays plain before later s t k kind name r ran had named ran_later fits
        expressible =
      let base = (manager_of s.manager).tables in
      let on_s = run_declared c before start s k ran had in
      let on_t =
        for_each-keeps (λ u. flag k u.declare ≡ true) (step c) (step_keeps_declared c k) later s t
          ran_later on_s in
      let sound =
        for_each-keeps Sound (step c) (step-Sound c) later s t ran_later
          (run-Sound c before s ran) in
      let extends_t =
        for_each-keeps (λ u. Extends base (manager_of u.manager).tables) (step c)
          (Extends-keeps base) later s t ran_later
          (record { list = λ i d e. e; names = λ n i e. e; overloads = λ n i e. e }) in
      let (m, e) = init_intrinsic_list-ends c.support legal t.declare (manager_of t.manager) in
      let bounds =
        init_intrinsic_list-Keeps c.support InBounds add_intrinsic-InBounds t.declare
          (manager_of t.manager) m e sound.0 in
      let extends_m =
        init_intrinsic_list-Keeps c.support (Extends base) (add_intrinsic-Extends base) t.declare
          (manager_of t.manager) m e extends_t in
      let (found, f, iff) =
        create_intrinsic_if_found_iff c.context m.tables (expressible m e) name bounds in
      let known =
        iff.1 (Named-Intrinsic m.tables name (Named-keeps base m.tables name extends_m named)) in
      (
        m,
        found.1,
        lookup_name-plain c kind name r t plain fits
            ∙ lookup_riscv_builtin-declared name r t m found (flag-declares c k t on_t) e f
            ∙ rw known refl,
      )
