-- ===== src/Lookup/Session.antt =====
-- Pragmas and lookups in their order in a translation unit
-- (phase-1-llvm/clang/lib/Parse/ParsePragma.cpp, phase-1-llvm/clang/lib/Sema/SemaLookup.cpp).
use spacemit_ime_iree_tcp.Shared.{
  ◌≡◌, ◌⊎◌, inl, inr, refl, sym, ap, Bool, true, false, List, [], ◌∷◌, Option, none, some, Text,
  ◌>>=◌, >>=-some, for_each, arith, if◌then◌else◌,
}
use mathlib.Core.Option.{some-injective}
use spacemit_ime_iree_tcp.Intrinsics.Manager.{
  IntrinsicKind, rvv, sifive_vector, andes_vector, spacemit_vector,
}
use spacemit_ime_iree_tcp.Intrinsics.Decl.{
  PerKind, Manager, flag, set_flag, init_intrinsic_list, create_intrinsic_if_found,
}
use spacemit_ime_iree_tcp.Lookup.Pragma.{Token, handle_pragma, line}
use spacemit_ime_iree_tcp.Lookup.Builtin.{
  Found, LookupNameKind, SemaRiscv, Compiler, manager_of, declares, lookup_target_builtin,
  after_manager, lookup_riscv_builtin, lookup_name, lookup_builtin,
}

pub data Event : Type 0 where
  pragma : List Token → Event
  lookup : LookupNameKind → Option Text → Bool → Event

abbrev pub start : SemaRiscv
start = record {
  declare = record { rvv = false; sifive = false; andes = false; spacemit = false };
  manager = none;
}

abbrev pub step : {Q : Type 0} → Compiler Q → Event → SemaRiscv → Option SemaRiscv
step c (pragma tokens) s = some (record s { declare = (handle_pragma tokens s.declare).0 })
step c (lookup kind name redeclaration) s =
    lookup_builtin c kind name redeclaration s >>= λ r. some r.1

unfoldable pub run : {Q : Type 0} → Compiler Q → List Event → SemaRiscv → Option SemaRiscv
run c events s = for_each (step c) events s

-- The pragma of the kind is one of the events.
abbrev pub HasPragma : IntrinsicKind → List Event → Type 0
HasPragma k [] = ⊥
HasPragma k (e ∷ es) = (e ≡ pragma (line k)) ⊎ HasPragma k es

pub flag-set_flag :
    (j k : IntrinsicKind) (d : PerKind) → flag j (set_flag k d) ≡ true → (flag j d ≡ true) ⊎ (k ≡ j)
flag-set_flag rvv rvv d h = inr refl
flag-set_flag sifive_vector sifive_vector d h = inr refl
flag-set_flag andes_vector andes_vector d h = inr refl
flag-set_flag spacemit_vector spacemit_vector d h = inr refl
flag-set_flag rvv _ d h = ground arith
flag-set_flag sifive_vector _ d h = ground arith
flag-set_flag andes_vector _ d h = ground arith
flag-set_flag spacemit_vector _ d h = ground arith

pub set_flag_keeps :
    (j k : IntrinsicKind) (d : PerKind) → flag j d ≡ true → flag j (set_flag k d) ≡ true
set_flag_keeps j k d h = ground arith

pub set_flag_sets : (k : IntrinsicKind) (d : PerKind) → flag k (set_flag k d) ≡ true
set_flag_sets k d = ground arith

module _ {Q : Type 0} (c : Compiler Q) where
  -- A lookup leaves the state alone, or makes the manager construct what is declared.
  abbrev pub Left : SemaRiscv → (Bool × List (Found Q)) × SemaRiscv → Type 0
  Left s a =
      (a.1 ≡ s)
      ⊎ ((m : Manager) × (init_intrinsic_list c.support s.declare (manager_of s.manager) ≡ some m)
          × (a.1 ≡ record s { manager = some m }))

  lookup_target_builtin-Left :
      (name : Text) (r : Bool) (s : SemaRiscv) (a : (Bool × List (Found Q)) × SemaRiscv)
      → lookup_target_builtin c name r s ≡ some a
      → a.1 ≡ s
  unfolding lookup_target_builtin
  lookup_target_builtin-Left name r s a h = ground arith

  after_manager-Left :
      (name : Text) (r : Bool) (s : SemaRiscv) (b : Bool) (ds : _)
      (a : (Bool × List (Found Q)) × SemaRiscv)
      → after_manager c name r s (b, ds) ≡ some a
      → a.1 ≡ s
  after_manager-Left name r s true ds a h = ap (λ x. x.1) (sym (some-injective _ a h))
  after_manager-Left name r s false ds a h = lookup_target_builtin-Left name r s a h

  lookup_riscv_builtin-Left :
      (name : Text) (r : Bool) (s : SemaRiscv) (a : (Bool × List (Found Q)) × SemaRiscv)
      → lookup_riscv_builtin c name r s ≡ some a
      → Left s a
  unfolding lookup_riscv_builtin
  lookup_riscv_builtin-Left name r s a h = go (declares c s) h
    where
      go :
          (b : Bool)
          → (if b
              then (init_intrinsic_list c.support s.declare (manager_of s.manager) >>= λ m.
                  create_intrinsic_if_found c.context m.tables name
                  >>= after_manager c name r (record s { manager = some m }))
              else lookup_target_builtin c name r s)
            ≡ some a
          → Left s a
      go true q =
          let (m, e, rest) =
            >>=-some (init_intrinsic_list c.support s.declare (manager_of s.manager)) _ q in
          let (found, _, last) =
            >>=-some (create_intrinsic_if_found c.context m.tables name) _ rest in
          inr
            (m, e, after_manager-Left name r (record s { manager = some m }) found.0 found.1 a last)
      go false q = inl (lookup_target_builtin-Left name r s a q)

  pub lookup_builtin-Left :
      (kind : LookupNameKind) (name : Option Text) (r : Bool) (s : SemaRiscv)
      (a : (Bool × List (Found Q)) × SemaRiscv)
      → lookup_builtin c kind name r s ≡ some a
      → Left s a
  unfolding lookup_builtin lookup_name
  lookup_builtin-Left kind none r s a h = inl (ap (λ x. x.1) (sym (some-injective _ a h)))
  lookup_builtin-Left kind (some name) r s a h =
      ground (arith, lookup_riscv_builtin-Left name r s a)
