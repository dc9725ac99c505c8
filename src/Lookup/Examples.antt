-- ===== src/Lookup/Examples.antt =====
-- Tests of pragma and lookup, and the theorems about them for the manager of one record.
use spacemit_ime_iree_tcp.Shared.{
  ℕ, ◌≡◌, ◌⊎◌, ◌↔◌, inl, refl, sym, ◌∙◌, subst, Bool, true, false, not, ◌&&◌, List, [], ◌∷◌, map,
  none, some, codes, text_eq, consume_front,
}
use mathlib.Core.Option.{some-injective}
use spacemit_ime_iree_tcp.Intrinsics.Manager.{IntrinsicKind, spacemit_vector, sifive_vector, find}
use spacemit_ime_iree_tcp.Intrinsics.Decl.{
  Manager, flag, set_flag, init_intrinsic_list, new_manager, LookupCall, create_intrinsic_if_found,
  create_all, create_rvv_intrinsic_decl, decl_of, quals,
}
use spacemit_ime_iree_tcp.Intrinsics.Types.{rvv_type_to_qual, scalar_qual, vector_qual, qualify}
use spacemit_ime_iree_tcp.Intrinsics.Found.{Intrinsic}
use spacemit_ime_iree_tcp.Intrinsics.Examples.{
  support, declared, manager, ast, initialized, support-Legal, tables-Expressible,
}
use spacemit_ime_iree_tcp.Intrinsics.Init.{init_intrinsic_list-idempotent}
use spacemit_ime_iree_tcp.Lookup.Pragma.{
  Token, identifier, other, Warning, extra_tokens, handle_pragma, handle_pragma_cases, line,
  intrinsic,
}
use spacemit_ime_iree_tcp.Lookup.Builtin.{
  Found, intrinsic_call, LookupNameKind, SemaRiscv, Compiler, manager_of, lookup_builtin,
  lookup_name, lookup_riscv_builtin,
}
use spacemit_ime_iree_tcp.Lookup.Session.{Event, pragma, lookup, start, run, HasPragma}
use spacemit_ime_iree_tcp.Lookup.Declared.{run_declares_iff}
use spacemit_ime_iree_tcp.Lookup.Finds.{lookup_builtin_iff, lookup_builtin-stays, AllExpressible}

abbrev compiler : Compiler ℕ
compiler = record {
  Proto = ℕ;
  Policy = ℕ;
  support = support;
  context = ast;
  c_plus_plus = false;
  hlsl = false;
  opencl = false;
  declare_opencl_builtins = false;
  c_plus_plus_templates = [];
  hlsl_templates = [];
  opencl_builtin = λ name. (0, 0);
  builtin_id = λ name. 0;
  is_predefined_lib_function = λ id. false;
  lazily_create_builtin = λ name id r. true;
}

abbrev too_long : List Token
too_long = identifier intrinsic ∷ identifier (codes "vector") ∷ other (codes ";") ∷ []

handle_pragma_cases_example :
    ((k : IntrinsicKind) × (too_long ≡ line k)
      × (handle_pragma too_long declared ≡ (set_flag k declared, [])))
    ⊎ ((w : Warning) × (handle_pragma too_long declared ≡ (declared, w ∷ [])))
handle_pragma_cases_example = handle_pragma_cases too_long declared

too_long_warns_test : handle_pragma too_long declared ≡ (declared, extra_tokens ∷ [])
unfolding handle_pragma text_eq
too_long_warns_test = refl

abbrev pragma_seen : SemaRiscv
pragma_seen = record { declare = declared; manager = none }

abbrev looked_up : SemaRiscv
looked_up = record { declare = declared; manager = some manager }

abbrev vmadot_lookup : Event
vmadot_lookup = lookup LookupNameKind.ordinary_name (some (codes "__riscv_vmadot")) false

seen : run compiler (pragma (line spacemit_vector) ∷ []) start ≡ some pragma_seen
unfolding run handle_pragma text_eq
seen = refl

looks_up : run compiler (pragma (line spacemit_vector) ∷ vmadot_lookup ∷ []) start ≡ some looked_up
unfolding run handle_pragma text_eq lookup_builtin lookup_name lookup_riscv_builtin
    create_intrinsic_if_found create_all create_rvv_intrinsic_decl decl_of quals rvv_type_to_qual
    scalar_qual vector_qual qualify find consume_front
looks_up = rw initialized refl

run_declares_iff_example :
    ((flag sifive_vector declared ≡ true)
      ↔ HasPragma sifive_vector (pragma (line spacemit_vector) ∷ []))
    × ((flag sifive_vector (manager_of none).constructed && not (flag sifive_vector declared))
        ≡ false)
run_declares_iff_example =
    run_declares_iff compiler (pragma (line spacemit_vector) ∷ []) pragma_seen sifive_vector seen

expressible :
    (s : SemaRiscv)
    → init_intrinsic_list support declared (manager_of s.manager) ≡ some manager
    → (m : Manager) → init_intrinsic_list support declared (manager_of s.manager) ≡ some m
    → AllExpressible compiler m.tables
expressible s e m h =
    subst (λ n. AllExpressible compiler n.tables) (some-injective manager m (sym e ∙ h))
      tables-Expressible

lookup_builtin_iff_example :
    (m : Manager) × (b : Bool) × (ds : List (Found ℕ)) × (lookup_builtin compiler
        LookupNameKind.ordinary_name
        (some (codes "__riscv_vmadot"))
        false
        pragma_seen
      ≡ some ((b, ds), record pragma_seen { manager = some m }))
    × (init_intrinsic_list support declared new_manager ≡ some m)
    × ((b ≡ true) ↔ Intrinsic m.tables (codes "__riscv_vmadot"))
lookup_builtin_iff_example =
    lookup_builtin_iff compiler support-Legal (refl, refl, refl)
      (pragma (line spacemit_vector) ∷ []) pragma_seen spacemit_vector LookupNameKind.ordinary_name
      (codes "__riscv_vmadot") false seen (inl refl) refl refl (expressible pragma_seen initialized)

lookup_builtin-stays_example :
    (m : Manager) × (ds : List (LookupCall ℕ)) × (lookup_builtin compiler
        LookupNameKind.redeclaration_with_linkage
        (some (codes "__riscv_vmadot"))
        true
        looked_up
      ≡ some ((true, map intrinsic_call ds), record looked_up { manager = some m }))
unfolding find run text_eq
lookup_builtin-stays_example =
    lookup_builtin-stays compiler support-Legal (refl, refl, refl)
      (pragma (line spacemit_vector) ∷ vmadot_lookup ∷ []) [] looked_up looked_up spacemit_vector
      LookupNameKind.redeclaration_with_linkage (codes "__riscv_vmadot") true looks_up (inl refl)
      (codes "vmadot", refl, 0, inl refl) refl refl
      (expressible looked_up
        (init_intrinsic_list-idempotent support declared new_manager manager initialized))
