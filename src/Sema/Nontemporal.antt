-- ===== src/Sema/Nontemporal.antt =====
-- Nontemporal loads and stores in `CheckBuiltinFunctionCall` of
-- phase-1-llvm/clang/lib/Sema/SemaRISCV.cpp.
use spacemit_ime_iree_tcp.Shared.{
  ◌-◌, Bool, true, false, not, ◌&&◌, Option, none, some, ltb, ◌==◌, if◌then◌else◌,
}
use spacemit_ime_iree_tcp.Sema.Calls.{pos, SemaRef, Call}

-- What the checks ask of types: the pointer after the conversions, `none` where they fail; its
-- unqualified pointee, `none` for no pointer; whether that is an integer, pointer, block pointer,
-- floating-point, vector or sizeless vector type; and the copy-initialisation of a value of it.
pub record Pointers (E Q : Type 0) : Type 0 where
  pub converted : E → Option E
  pub pointee : E → Option Q
  pub is_loadable : Q → Bool
  pub copy_initialization : Q → E → Option E
  pub void_ty : Q

-- What a check leaves in the call: its type, and the argument to store.
abbrev pub Retyped : Type 0 → Type 0 → Type 0
Retyped E Q = Option (Q × Option E)

module _ {E Q : Type 0} (s : SemaRef E) (p : Pointers E Q) where
  -- Behind the checks of the pointee.
  unfoldable pub retype : Bool → Call E → Q → Bool × Retyped E Q
  retype is_store c val_type =
      if not is_store
      then (false, some (val_type, none))
      else elim (p.copy_initialization val_type (c.arg 1)) [
        | none ↦ (true, none)
        | some value ↦ (false, some (p.void_ty, some value))
      ]

  unfoldable pub check_pointer : Bool → Call E → Bool × Retyped E Q
  check_pointer is_store c = elim (p.converted (c.arg 0)) [
    | none ↦ (true, none)
    | some pointer ↦ elim (p.pointee pointer) [
      | none ↦ (true, none)
      | some val_type ↦ if p.is_loadable val_type then retype is_store c val_type else (true, none)
    ]
  ]

  unfoldable pub check_ntl : Bool → Call E → Bool × Retyped E Q
  check_ntl is_store c =
      let num_args = if is_store then 3 else 2 in
      if ltb c.num_args (num_args - 1)
      then (true, none)
      else if ltb num_args c.num_args
      then (true, none)
      else if c.num_args == num_args && s.constant_arg_range (c.arg (num_args - 1)) (pos 2) (pos 5)
      then (true, none)
      else check_pointer is_store c
