-- ===== src/Sema/FixedPoint.antt =====
-- Calls of the fixed-point builtins of the vector extension, whose rounding mode is checked
-- (phase-1-llvm/clang/lib/Sema/SemaRISCV.cpp, `CheckBuiltinFunctionCall`).
use spacemit_ime_iree_tcp.Shared.{
  ℕ, ◌+◌, ◌≡◌, refl, ◌∙◌, ap, Bool, true, false, not, ◌&&◌, List, [], ◌∷◌, ◌++◌, none, some, Text,
  codes, text_eq, any, ◌==◌,
}
use spacemit_ime_iree_tcp.Sema.Labels.{vmulh}
use spacemit_ime_iree_tcp.Sema.Calls.{SemaRef, Call, is_one_of}
use spacemit_ime_iree_tcp.Sema.Nontemporal.{Pointers}
use spacemit_ime_iree_tcp.Sema.RoundingLaws.{member_test, same_mode, same_mode_sound}
use spacemit_ime_iree_tcp.Sema.Immediates.{check_rounding_mode}
use spacemit_ime_iree_tcp.Sema.Switch.{
  rounding_mode, range, lacks_required_feature, check_builtin_function_call,
}

-- The names with each of two suffixes.
abbrev with_operands : Text → Text → List Text → List Text
with_operands v x [] = []
with_operands v x (n ∷ ns) = (n ++ v) ∷ (n ++ x) ∷ with_operands v x ns

-- Averaging additions and subtractions, saturating products and scaling shifts have operands of one
-- width, as vectors or with a scalar; narrowing clips have a wide first operand.
abbrev pub fixed_point : List Text
fixed_point =
    with_operands (codes "_vv") (codes "_vx") (
      codes "rvv_vaadd"
      ∷ codes "rvv_vaaddu"
      ∷ codes "rvv_vasub"
      ∷ codes "rvv_vasubu"
      ∷ codes "rvv_vsmul"
      ∷ codes "rvv_vssra"
      ∷ codes "rvv_vssrl"
      ∷ [])
    ++ with_operands (codes "_wv") (codes "_wx") (codes "rvv_vnclip" ∷ codes "rvv_vnclipu" ∷ [])

-- The variants of a builtin by their policy and mask.
pub data Variant : Type 0 where
  plain tu m tum tumu mu : Variant

abbrev pub suffix : Variant → Text
suffix plain = []
suffix tu = codes "_tu"
suffix m = codes "_m"
suffix tum = codes "_tum"
suffix tumu = codes "_tumu"
suffix mu = codes "_mu"

-- The rounding mode stands behind two operands, a mask if there is one, and a destination if elements
-- of it are kept.
abbrev has_mask : Variant → ℕ
has_mask plain = 0
has_mask tu = 0
has_mask _ = 1

abbrev keeps_destination : Variant → ℕ
keeps_destination plain = 0
keeps_destination m = 0
keeps_destination _ = 1

abbrev pub rounding_argument : Variant → ℕ
rounding_argument x = 2 + has_mask x + keeps_destination x

abbrev test : Variant → Text → Bool
test x n = same_mode (rounding_mode (n ++ suffix x)) (some (rounding_argument x, 3))

all_tests : (x : Variant) → any (λ n. not (test x n)) fixed_point ≡ false
unfolding rounding_mode text_eq
all_tests plain = refl
all_tests tu = refl
all_tests m = refl
all_tests tum = refl
all_tests tumu = refl
all_tests mu = refl

rounding_mode-fixed_point :
    (x : Variant) (n : Text)
    → is_one_of fixed_point n ≡ true
    → rounding_mode (n ++ suffix x) ≡ some (rounding_argument x, 3)
rounding_mode-fixed_point x n h =
    same_mode_sound _ _ (member_test (test x) fixed_point n (all_tests x) h)

-- A call of a variant of a fixed-point builtin, with the features that it requires and, for EEW=64,
-- "v" where Zve64* lacks the operation, is accepted exactly if the argument behind its operands, its
-- mask and its destination passes the check for a rounding mode from 0 to 3; nothing else of the call
-- is checked.
pub check_fixed_point :
    {E Q : Type 0} (s : SemaRef E) (p : Pointers E Q) (has_feature : Text → Bool) (c : Call E)
    (n : Text) (x : Variant)
    → is_one_of fixed_point n ≡ true
    → c.builtin ≡ n ++ suffix x
    → lacks_required_feature s p has_feature c ≡ false
    → (is_one_of vmulh c.builtin && (c.result.elem_size == 64 && not (has_feature (codes "v"))))
      ≡ false
    → check_builtin_function_call s p has_feature c
      ≡ (range s p has_feature c (rounding_argument x) 0 3, none)
check_fixed_point s p has_feature c n x member at features v =
    check_rounding_mode s p has_feature c (rounding_argument x) 3
      (ap rounding_mode at ∙ rounding_mode-fixed_point x n member) features v
