-- ===== src/Intrinsics/Decl.antt =====
-- `InitIntrinsicList`, `CreateRVVIntrinsicDecl` and `CreateIntrinsicIfFound` of
-- phase-1-llvm/clang/lib/Sema/SemaRISCV.cpp.
use spacemit_ime_iree_tcp.Shared.{
  ℕ, Bool, true, false, not, ◌&&◌, List, [], ◌∷◌, ◌++◌, Option, none, some, if◌then◌else◌, Text,
  codes, text_eq, consume_front, get_elem?, ◌>>=◌, for_each,
}
use spacemit_ime_iree_tcp.Intrinsics.Types.{RvvType, AstContext, rvv_type_to_qual}
use spacemit_ime_iree_tcp.Intrinsics.Manager.{
  IntrinsicKind, rvv, sifive_vector, andes_vector, spacemit_vector, Support, IntrinsicDef, Tables,
  find, construct_rvv_intrinsics,
}

-- One Boolean for each kind of vector intrinsics.
pub record PerKind : Type 0 where
  pub rvv : Bool
  pub sifive : Bool
  pub andes : Bool
  pub spacemit : Bool

-- The tables, and which of them are constructed.
pub record Manager : Type 0 where
  pub tables : Tables
  pub constructed : PerKind

abbrev pub flag : IntrinsicKind → PerKind → Bool
flag rvv f = f.rvv
flag sifive_vector f = f.sifive
flag andes_vector f = f.andes
flag spacemit_vector f = f.spacemit

abbrev pub set_flag : IntrinsicKind → PerKind → PerKind
set_flag rvv f = record f { rvv = true }
set_flag sifive_vector f = record f { sifive = true }
set_flag andes_vector f = record f { andes = true }
set_flag spacemit_vector f = record f { spacemit = true }

abbrev pub kinds : List IntrinsicKind
kinds = rvv ∷ sifive_vector ∷ andes_vector ∷ spacemit_vector ∷ []

unfoldable pub finish : IntrinsicKind → Manager → Tables → Option Manager
finish k m t = some (record { tables = t; constructed = set_flag k m.constructed })

-- One of the four tests of `InitIntrinsicList`; `declare` are the Declare...Builtins of `SemaRISCV`.
unfoldable pub init_kind :
    {Proto Policy : Type 0}
    → Support Proto Policy
    → PerKind
    → IntrinsicKind
    → Manager
    → Option Manager
init_kind s declare k m =
    if flag k declare && not (flag k m.constructed)
    then construct_rvv_intrinsics s (s.records k) k m.tables >>= finish k m
    else some m

unfoldable pub init_intrinsic_list :
    {Proto Policy : Type 0} → Support Proto Policy → PerKind → Manager → Option Manager
init_intrinsic_list s declare m = for_each (init_kind s declare) kinds m

abbrev pub no_tables : Tables
no_tables = record { intrinsic_list = []; intrinsics = []; overload_intrinsics = [] }

-- The manager that the constructor makes.
abbrev pub new_manager : Manager
new_manager = record {
  tables = no_tables;
  constructed = record { rvv = false; sifive = false; andes = false; spacemit = false };
}

-- A declared function: its name and type, and the attributes that the manager gives it.
pub record Decl (Q : Type 0) : Type 0 where
  pub name : Text
  pub return_type : Q
  pub arguments : List Q
  pub overloadable : Bool
  pub target : Option Text
  pub builtin_alias : Text

-- What the manager does with the `LookupResult`.
pub data LookupCall (Q : Type 0) : Type 0 where
  add_decl : Decl Q → LookupCall Q
  resolve_kind : LookupCall Q

-- `RVVType2Qual` of each type.
unfoldable pub quals : {Q : Type 0} → AstContext Q → List RvvType → Option (List Q)
quals c [] = some []
quals c (t ∷ ts) = rvv_type_to_qual c t >>= λ q. quals c ts >>= λ qs. some (q ∷ qs)

-- `none`: the index is out of bounds, the signature is empty, or a type has no `QualType`.
unfoldable pub decl_of : {Q : Type 0} → Text → Bool → IntrinsicDef → List Q → Option (LookupCall Q)
decl_of name overloaded d [] = none
decl_of name overloaded d (q ∷ qs) = some (
    add_decl (record {
      name = name;
      return_type = q;
      arguments = qs;
      overloadable = overloaded;
      target = if text_eq d.required_extensions [] then none else some d.required_extensions;
      builtin_alias = codes "__builtin_rvv_" ++ d.builtin_name;
    }))

unfoldable pub create_rvv_intrinsic_decl :
    {Q : Type 0} → AstContext Q → Tables → Text → ℕ → Bool → Option (LookupCall Q)
unfolding decl_of
create_rvv_intrinsic_decl c t name index overloaded =
    get_elem? t.intrinsic_list index >>= λ d. quals c d.signature >>= decl_of name overloaded d

-- The loop over the indices of an overloaded name.
unfoldable pub create_all :
    {Q : Type 0} → AstContext Q → Tables → Text → List ℕ → Option (List (LookupCall Q))
create_all c t name [] = some []
create_all c t name (i ∷ is) = create_rvv_intrinsic_decl c t name i true >>= λ d.
    create_all c t name is >>= λ ds. some (d ∷ ds)

-- The result of `CreateIntrinsicIfFound`, with its calls on the `LookupResult` in their order.
unfoldable pub create_intrinsic_if_found :
    {Q : Type 0} → AstContext Q → Tables → Text → Option (Bool × List (LookupCall Q))
create_intrinsic_if_found c t ident = elim (consume_front (codes "__riscv_") ident) [
  | none ↦ some (false, [])
  | some name ↦ elim (find name t.overload_intrinsics) [
    | some indexes ↦ create_all c t ident indexes >>= λ ds. some (true, ds ++ (resolve_kind ∷ []))
    | none ↦ elim (find name t.intrinsics) [
      | some index ↦ create_rvv_intrinsic_decl c t ident index false >>= λ d. some (true, d ∷ [])
      | none ↦ some (false, [])
    ]
  ]
]
