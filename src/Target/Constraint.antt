-- ===== src/Target/Constraint.antt =====
-- Inline assembly constraints: `validateAsmConstraint` and `convertConstraint` of
-- phase-1-llvm/clang/lib/Basic/Targets/RISCV.cpp. A pointer into the constraint is the text from
-- there on; its end reads as the character 0.
use spacemit_ime_iree_tcp.Shared.{
  ℕ, ◌≡◌, Bool, ◌||◌, [], ◌∷◌, ◌++◌, Option, none, some, Text, codes, ◌==◌, if◌then◌else◌, arith,
  take, drop, get_or,
}

-- What the constraint tells the `ConstraintInfo`: an immediate from -`below` to `above`, a register,
-- or memory.
pub data Info : Type 0 where
  requires_immediate : (below above : ℕ) → Info
  allows_register allows_memory : Info

-- A two-letter constraint: the pointer moves on to its second letter.
unfoldable pub two_letters : Text → Bool → Option (Info × Text)
two_letters name b = if b then some (allows_register, drop 1 name) else none

unfoldable pub validate_asm_constraint : Text → Option (Info × Text)
unfolding two_letters
validate_asm_constraint name =
    let c = get_or name 0 0 in
    let d = get_or name 1 0 in
    if c == b'I'
    then some (requires_immediate 2048 2047, name)
    else if c == b'J'
    then some (requires_immediate 0 0, name)
    else if c == b'K'
    then some (requires_immediate 0 31, name)
    else if c == b'f'
    then some (allows_register, name)
    else if c == b'A'
    then some (allows_memory, name)
    else if c == b's' || c == b'S'
    then some (allows_register, name)
    else if c == b'c'
    then two_letters name (d == b'r' || (d == b'R' || d == b'f'))
    else if c == b'R'
    then some (allows_register, name)
    else if c == b'v'
    then two_letters name (d == b'r' || (d == b'd' || d == b'm'))
    else none

-- `convert` is `TargetInfo::convertConstraint`.
unfoldable pub convert_constraint : (Text → Text × Text) → Text → Text × Text
convert_constraint convert [] = convert []
convert_constraint convert (c ∷ s) =
    if c == b'c' || c == b'v' then (codes "^" ++ take 2 (c ∷ s), s) else convert (c ∷ s)

-- Where the target-independent conversion stays on its letter, the conversion of a constraint that is
-- valid leaves the pointer on the same letter as the validation.
pub convert_constraint-validate :
    (convert : Text → Text × Text) (name rest : Text) (i : Info)
    → ((s : Text) → (convert s).1 ≡ s)
    → validate_asm_constraint name ≡ some (i, rest)
    → (convert_constraint convert name).1 ≡ rest
unfolding validate_asm_constraint convert_constraint two_letters
convert_constraint-validate convert [] rest i stays h = ground arith
convert_constraint-validate convert (c ∷ s) rest i stays h = ground (arith, stays (c ∷ s))
