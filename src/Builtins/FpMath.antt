-- ===== src/Builtins/FpMath.antt =====
-- `isBuiltinConstForTriple` and `shouldGenerateFPMathIntrinsic` of
-- phase-1-llvm/clang/lib/Basic/Builtins.cpp.
use spacemit_ime_iree_tcp.Shared.{
  ◌≡◌, ◌↔◌, ◌⊎◌, Bool, true, false, not, ◌&&◌, ◌||◌, arith, if◌then◌else◌, Option, none, some, inl,
  inr,
}

-- The builtins that the switch names; `other` is every other one.
pub data BuiltinKind : Type 0 where
  builtin_fma builtin_fmaf builtin_fmal builtin_fmaf16 fma fmaf fmal other : BuiltinKind

pub record Triple : Type 0 where
  pub is_gnu_environment : Bool
  pub is_os_msvcrt : Bool

unfoldable pub is_builtin_const_for_triple : BuiltinKind → Triple → Bool
is_builtin_const_for_triple other t = false
is_builtin_const_for_triple _ t = t.is_gnu_environment || t.is_os_msvcrt

-- The attributes of a builtin that the test asks of the class (`isConst`,
-- `isConstWithoutErrnoAndExceptions`, `isConstWithoutExceptions`, of clang/Basic/Builtins.h).
pub record MathBuiltin : Type 0 where
  pub kind : BuiltinKind
  pub is_const : Bool
  pub const_without_errno_and_exceptions : Bool
  pub const_without_exceptions : Bool

pub record Compilation : Type 0 where
  pub triple : Triple
  -- A pragma's setting of math-errno, if one is in force.
  pub errno_overwritten : Option Bool
  pub math_errno_enabled : Bool
  pub has_opt_none : Bool
  pub is_optimization_enabled : Bool

abbrev pub overridden_to : Bool → Option Bool → Bool
overridden_to b none = false
overridden_to true (some v) = v
overridden_to false (some v) = not v

unfoldable pub should_generate_fp_math_intrinsic : MathBuiltin → Compilation → Bool
unfolding is_builtin_const_for_triple
should_generate_fp_math_intrinsic b c =
    let errno_overridden_to_false_with_opt =
      overridden_to false c.errno_overwritten && not c.has_opt_none && c.is_optimization_enabled in
    let const_always = b.is_const || is_builtin_const_for_triple b.kind c.triple in
    let const_without_errno_or_exceptions =
      b.const_without_errno_and_exceptions || b.const_without_exceptions in
    let errno_off = not c.math_errno_enabled && not (overridden_to true c.errno_overwritten) in
    if const_always && not c.has_opt_none || errno_off && not c.has_opt_none
    then true
    else if const_without_errno_or_exceptions && not b.const_without_errno_and_exceptions
    then true
    else if const_without_errno_or_exceptions && (errno_off && not c.has_opt_none)
    then true
    else const_without_errno_or_exceptions && errno_overridden_to_false_with_opt

-- A call that may touch neither errno nor exceptions once errno is off (sqrt and its like), and that
-- is not const on its own.
abbrev pub ErrnoOnly : MathBuiltin → Type 0
ErrnoOnly b =
    (b.is_const ≡ false)
    × (b.kind ≡ BuiltinKind.other)
    × (b.const_without_errno_and_exceptions ≡ true)

abbrev pub ErrnoOff : Compilation → Type 0
ErrnoOff c = (c.math_errno_enabled ≡ false) × (overridden_to true c.errno_overwritten ≡ false)

abbrev pub ErrnoSwitchedOff : Compilation → Type 0
ErrnoSwitchedOff c =
    (overridden_to false c.errno_overwritten ≡ true)
    × (c.has_opt_none ≡ false)
    × (c.is_optimization_enabled ≡ true)

-- Such a call becomes an intrinsic exactly when math-errno is off, no pragma turns it on and the
-- function has no optnone, or when a pragma turns math-errno off in an optimised function without
-- optnone.
pub intrinsic_ErrnoOnly :
    (b : MathBuiltin) (c : Compilation)
    → ErrnoOnly b
    → (should_generate_fp_math_intrinsic b c ≡ true)
      ↔ ((ErrnoOff c × (c.has_opt_none ≡ false)) ⊎ ErrnoSwitchedOff c)
unfolding should_generate_fp_math_intrinsic
intrinsic_ErrnoOnly b c h = (forward, backward)
  where
    forward :
        should_generate_fp_math_intrinsic b c ≡ true
        → (ErrnoOff c × (c.has_opt_none ≡ false)) ⊎ ErrnoSwitchedOff c
    forward e = ground arith

    backward :
        (ErrnoOff c × (c.has_opt_none ≡ false)) ⊎ ErrnoSwitchedOff c
        → should_generate_fp_math_intrinsic b c ≡ true
    backward (inl x) = ground arith
    backward (inr x) = ground arith

-- A builtin of no const attribute becomes an intrinsic exactly when math-errno is off, no pragma
-- turns it on and the function has no optnone.
pub intrinsic_unattributed :
    (b : MathBuiltin) (c : Compilation)
    → b.is_const ≡ false
    → b.kind ≡ BuiltinKind.other
    → b.const_without_errno_and_exceptions ≡ false
    → b.const_without_exceptions ≡ false
    → (should_generate_fp_math_intrinsic b c ≡ true) ↔ (ErrnoOff c × (c.has_opt_none ≡ false))
unfolding should_generate_fp_math_intrinsic
intrinsic_unattributed b c e1 e2 e3 e4 = (λ y. ground arith, λ y. ground arith)
