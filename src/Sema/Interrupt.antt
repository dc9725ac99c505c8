-- ===== src/Sema/Interrupt.antt =====
-- `handleInterruptAttr` of phase-1-llvm/clang/lib/Sema/SemaRISCV.cpp.
use spacemit_ime_iree_tcp.Shared.{
  ℕ, Bool, true, false, not, ◌&&◌, ◌||◌, List, [], ◌∷◌, ◌++◌, Option, none, some, Text, codes, any,
  length, ltb, ◌==◌, if◌then◌else◌,
}

pub data InterruptType : Type 0 where
  machine supervisor rnmi qcinest qcinonest : InterruptType
  sifive_clic_preemptible sifive_clic_stack_swap : InterruptType

abbrev pub code_of : InterruptType → ℕ
code_of InterruptType.machine = 0
code_of InterruptType.supervisor = 1
code_of InterruptType.rnmi = 2
code_of InterruptType.qcinest = 3
code_of InterruptType.qcinonest = 4
code_of InterruptType.sifive_clic_preemptible = 5
code_of InterruptType.sifive_clic_stack_swap = 6

-- What the handler reads of the declaration.
pub record Function : Type 0 where
  pub interrupt_attr : Bool
  pub is_function : Bool
  pub has_proto : Bool
  pub params : ℕ
  pub returns_void : Bool

pub data Diagnostic : Type 0 where
  repeated_attribute wrong_decl_type has_params not_void : Diagnostic
  too_many_args no_string_literal : Diagnostic
  type_not_supported : Text → Diagnostic
  duplicate_type : Text → Diagnostic
  invalid_combination : Diagnostic
  -- the extension
  requires_extension : InterruptType → Text → Diagnostic

pub record Loop : Type 0 where
  pub has_sifive_clic_type : Bool
  pub has_unary_type : Bool
  pub reported_duplicate_type : Bool
  pub types : List InterruptType
  pub diagnostics : List Diagnostic

abbrev pub loop_start : Loop
loop_start = record {
  has_sifive_clic_type = false;
  has_unary_type = false;
  reported_duplicate_type = false;
  types = [];
  diagnostics = [];
}

-- The types that cannot be combined with any other, and those of the SiFive CLIC.
abbrev pub is_unary : InterruptType → Bool
is_unary InterruptType.machine = false
is_unary InterruptType.supervisor = true
is_unary InterruptType.rnmi = true
is_unary InterruptType.qcinest = true
is_unary InterruptType.qcinonest = true
is_unary InterruptType.sifive_clic_preemptible = false
is_unary InterruptType.sifive_clic_stack_swap = false

abbrev pub is_sifive_clic : InterruptType → Bool
is_sifive_clic InterruptType.sifive_clic_preemptible = true
is_sifive_clic InterruptType.sifive_clic_stack_swap = true
is_sifive_clic _ = false

abbrev pub holds : InterruptType → List InterruptType → Bool
holds t = any (λ u. code_of t == code_of u)

-- A type behind its conversion: the flags, the set in the order of insertion, and the warning about
-- the first duplicate.
unfoldable pub add_type : Text → InterruptType → Loop → Loop
add_type text t l =
    let known = holds t l.types in
    record {
      has_sifive_clic_type = l.has_sifive_clic_type || is_sifive_clic t;
      has_unary_type = l.has_unary_type || is_unary t;
      reported_duplicate_type = l.reported_duplicate_type || known;
      types = if known then l.types else l.types ++ (t ∷ []);
      diagnostics =
          if known && not l.reported_duplicate_type
          then l.diagnostics ++ (duplicate_type text ∷ [])
          else l.diagnostics;
    }

-- What comes of the loop, or the diagnostics of an early return.
pub data Read : Type 0 where
  read_types : Loop → Read
  stopped : List Diagnostic → Read

-- The extension that a type needs, by its feature and the name in the diagnostic.
abbrev pub required : InterruptType → Option (Text × Text)
required InterruptType.qcinest = some (codes "xqciint", codes "Xqciint")
required InterruptType.qcinonest = some (codes "xqciint", codes "Xqciint")
required InterruptType.sifive_clic_preemptible =
    some (codes "experimental-xsfmclic", codes "XSfmclic")
required InterruptType.sifive_clic_stack_swap =
    some (codes "experimental-xsfmclic", codes "XSfmclic")
required InterruptType.rnmi = some (codes "smrnmi", codes "Smrnmi")
required InterruptType.machine = none
required InterruptType.supervisor = none

-- The result: the diagnostics, and the types of the attribute if it is added.
abbrev pub Handled : Type 0
Handled = List Diagnostic × Option (List InterruptType)

-- `convert` is `ConvertStrToInterruptType`; a `none` among the arguments is no string literal;
-- `has_feature` asks the target and the function.
module _ (convert : Text → Option InterruptType) (has_feature : Text → Bool) where
  unfoldable pub read_args : List (Option Text) → Loop → Read
  read_args [] l = read_types l
  read_args (none ∷ args) l = stopped (l.diagnostics ++ (no_string_literal ∷ []))
  read_args (some text ∷ args) l = elim (convert text) [
    | none ↦ stopped (l.diagnostics ++ (type_not_supported text ∷ []))
    | some t ↦ read_args args (add_type text t l)
  ]

  unfoldable pub missing_extension : List InterruptType → Option Diagnostic
  missing_extension [] = none
  missing_extension (t ∷ ts) =
      let rest = missing_extension ts in
      elim (required t) [
        | none ↦ rest
        | some r ↦ if has_feature r.0 then rest else some (requires_extension t r.1)
      ]

  -- Behind the loop, with whether the attribute has arguments.
  unfoldable pub finish_types : Bool → Loop → Handled
  finish_types no_args l =
      if l.has_unary_type && ltb 1 (length l.types)
      then (l.diagnostics ++ (invalid_combination ∷ []), none)
      else if l.has_unary_type && l.has_sifive_clic_type
      then (l.diagnostics ++ (invalid_combination ∷ []), none)
      else (let types = if no_args then InterruptType.machine ∷ [] else l.types in
          elim (missing_extension types) [
            | some d ↦ (l.diagnostics ++ (d ∷ []), none)
            | none ↦ (l.diagnostics, some types)
          ])

  abbrev pub handle_args : List (Option Text) → Handled
  handle_args args = elim (read_args args loop_start) [
    | stopped ds ↦ (ds, none)
    | read_types l ↦ finish_types (length args == 0) l
  ]

  unfoldable pub handle_interrupt_attr : Function → List (Option Text) → Handled
  handle_interrupt_attr d args =
      if d.interrupt_attr
      then (repeated_attribute ∷ [], none)
      else if not d.is_function
      then (wrong_decl_type ∷ [], none)
      else if d.has_proto && not (d.params == 0)
      then (has_params ∷ [], none)
      else if not d.returns_void
      then (not_void ∷ [], none)
      else if ltb 3 (length args)
      then (too_many_args ∷ [], none)
      else handle_args args
