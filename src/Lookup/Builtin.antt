-- ===== src/Lookup/Builtin.antt =====
-- `Sema::LookupBuiltin` of phase-1-llvm/clang/lib/Sema/SemaLookup.cpp, with the manager that it
-- creates and asks.
use spacemit_ime_iree_tcp.Shared.{
  ℕ, Bool, true, false, ◌&&◌, ◌||◌, List, [], ◌∷◌, Option, none, some, if◌then◌else◌, Text, text_eq,
  any, map, ◌>>=◌, ◌==◌, not, ◌-◌,
}
use spacemit_ime_iree_tcp.Intrinsics.Types.{AstContext}
use spacemit_ime_iree_tcp.Intrinsics.Manager.{Support}
use spacemit_ime_iree_tcp.Intrinsics.Decl.{
  PerKind, Manager, new_manager, init_intrinsic_list, LookupCall, create_intrinsic_if_found,
}

pub data LookupNameKind : Type 0 where
  ordinary_name redeclaration_with_linkage another_kind : LookupNameKind

-- The part of `SemaRISCV` that the lookup reads and writes: the flags `Declare...Builtins`, and the
-- manager once it is created.
pub record SemaRiscv : Type 0 where
  pub declare : PerKind
  pub manager : Option Manager

-- What a lookup reads of the compiler: the language, the names of the builtin templates (of
-- BuiltinTemplates.inc), the table of the OpenCL builtins, and the builtins' IDs, 0 for none.
pub record Compiler (Q : Type 0) : Type 1 where
  pub Proto : Type 0
  pub Policy : Type 0
  pub support : Support Proto Policy
  pub context : AstContext Q
  pub c_plus_plus : Bool
  pub hlsl : Bool
  pub opencl : Bool
  pub declare_opencl_builtins : Bool
  pub c_plus_plus_templates : List Text
  pub hlsl_templates : List Text
  -- `isOpenCLBuiltin`
  pub opencl_builtin : Text → ℕ × ℕ
  pub builtin_id : Text → ℕ
  pub is_predefined_lib_function : ℕ → Bool
  -- `LazilyCreateBuiltin` by the name, the ID, and whether it is for a redeclaration
  pub lazily_create_builtin : Text → ℕ → Bool → Bool

-- What is added to the `LookupResult`.
pub data Found (Q : Type 0) : Type 0 where
  template_decl : Text → Found Q
  opencl_builtins : ℕ → ℕ → Found Q
  intrinsic_call : LookupCall Q → Found Q
  builtin_decl : ℕ → Found Q

-- The result of the lookup and what it adds, with the state behind it. `none` is the manager's.
abbrev pub Answer : Type 0 → Type 0
Answer Q = Option ((Bool × List (Found Q)) × SemaRiscv)

abbrev pub is_ordinary : LookupNameKind → Bool
is_ordinary LookupNameKind.ordinary_name = true
is_ordinary LookupNameKind.redeclaration_with_linkage = false
is_ordinary LookupNameKind.another_kind = false

abbrev pub applies : LookupNameKind → Bool
applies LookupNameKind.ordinary_name = true
applies LookupNameKind.redeclaration_with_linkage = true
applies LookupNameKind.another_kind = false

abbrev pub manager_of : Option Manager → Manager
manager_of none = new_manager
manager_of (some m) = m

module _ {Q : Type 0} (c : Compiler Q) where
  -- The part on the builtins of the target.
  unfoldable pub lookup_target_builtin : Text → Bool → SemaRiscv → Answer Q
  lookup_target_builtin name redeclaration s =
      let id = c.builtin_id name in
      if id == 0
      then some ((false, []), s)
      else if (c.c_plus_plus || c.opencl) && c.is_predefined_lib_function id
      then some ((false, []), s)
      else if c.lazily_create_builtin name id redeclaration
      then some ((true, builtin_decl id ∷ []), s)
      else some ((false, []), s)

  abbrev pub declares : SemaRiscv → Bool
  declares s = s.declare.rvv || (s.declare.sifive || (s.declare.andes || s.declare.spacemit))

  -- Behind `CreateIntrinsicIfFound`.
  abbrev pub after_manager : Text → Bool → SemaRiscv → Bool × List (LookupCall Q) → Answer Q
  after_manager name redeclaration s r =
      if r.0
      then some ((true, map intrinsic_call r.1), s)
      else lookup_target_builtin name redeclaration s

  unfoldable pub lookup_riscv_builtin : Text → Bool → SemaRiscv → Answer Q
  lookup_riscv_builtin name redeclaration s =
      if declares s
      then (init_intrinsic_list c.support s.declare (manager_of s.manager) >>= λ m.
          create_intrinsic_if_found c.context m.tables name
          >>= after_manager name redeclaration (record s { manager = some m }))
      else lookup_target_builtin name redeclaration s

  unfoldable pub lookup_name : LookupNameKind → Text → Bool → SemaRiscv → Answer Q
  lookup_name kind name redeclaration s =
      if is_ordinary kind && (c.c_plus_plus && any (text_eq name) c.c_plus_plus_templates)
      then some ((true, template_decl name ∷ []), s)
      else if is_ordinary kind && (c.hlsl && any (text_eq name) c.hlsl_templates)
      then some ((true, template_decl name ∷ []), s)
      else if c.opencl && (c.declare_opencl_builtins && not ((c.opencl_builtin name).0 == 0))
      then some (
        (true, opencl_builtins ((c.opencl_builtin name).0 - 1) (c.opencl_builtin name).1 ∷ []),
        s,
      )
      else lookup_riscv_builtin name redeclaration s

  -- `none` in place of the name: it is no identifier.
  unfoldable pub lookup_builtin : LookupNameKind → Option Text → Bool → SemaRiscv → Answer Q
  lookup_builtin kind none redeclaration s = some ((false, []), s)
  lookup_builtin kind (some name) redeclaration s =
      if applies kind then lookup_name kind name redeclaration s else some ((false, []), s)
