-- ===== src/Builtins/Query.antt =====
-- The queries of a builtin's attribute string in phase-1-llvm/clang/lib/Basic/Builtins.cpp. `none`
-- is a failed assertion or an unreachable case.
use mathlib.Core.Option
use spacemit_ime_iree_tcp.Shared.{
  ℕ, zero, suc, Bool, false, not, ◌&&◌, List, [], ◌∷◌, Option, none, some, Text, text_eq, same,
  consume_front, ◌==◌, if◌then◌else◌, length, ◌>>=◌,
}
use spacemit_ime_iree_tcp.Builtins.Table.{Info, Shard}
use spacemit_ime_iree_tcp.Builtins.Supported.{has_char}
use spacemit_ime_iree_tcp.Builtins.Register.{split_std}
use spacemit_ime_iree_tcp.Builtins.Strtol.{strchr, strpbrk, strtol, strtol_int, to_unsigned}

-- The position behind a ':'.
unfoldable pub expect_colon : Text → Option Text
expect_colon [] = none
expect_colon (c ∷ s) = if c == b':' then some s else none

unfoldable pub get_required_vector_width : Text → Option ℕ
unfolding expect_colon
get_required_vector_width attributes = elim (strchr attributes b'V') [
  | none ↦ some 0
  | some [] ↦ none
  | some (v ∷ s) ↦ expect_colon s >>= λ digits.
      (let r = strtol digits in expect_colon r.1 >>= λ end. some (to_unsigned r.0))
]

-- The second character of a format string is the one of the va_list variant. The result is the index
-- of the format and whether there is a va_list.
unfoldable pub is_like : ℕ → ℕ → Text → Option (Option (ℕ × Bool))
unfolding expect_colon
is_like plain va_list attributes = elim (strpbrk (plain ∷ va_list ∷ []) attributes) [
  | none ↦ some none
  | some [] ↦ none
  | some (c ∷ s) ↦ expect_colon s >>= λ like.
      elim (strchr like b':') as (λ _. Option (Option (ℕ × Bool))) [
        | none ↦ none
        | some _ ↦ some (some (to_unsigned (strtol like).0, c == va_list))
      ]
]

unfoldable pub is_printf_like : Text → Option (Option (ℕ × Bool))
is_printf_like = is_like b'p' b'P'

unfoldable pub is_scanf_like : Text → Option (Option (ℕ × Bool))
is_scanf_like = is_like b's' b'S'

-- The loop behind the first index. Each turn reads a ',' at least, so the length of the text is
-- enough fuel.
unfoldable pub parse_payload : ℕ → Text → Option (List (Bool × ℕ))
parse_payload zero s = none
parse_payload (suc n) [] = none
parse_payload (suc n) (c ∷ s) =
    let r = strtol_int s in
    let rest = parse_payload n r.1 in
    if c == b',' then Option.map (λ is. r.0 ∷ is) rest else if c == b'>' then some [] else none

unfoldable pub parse_comma_separated_indices : Text → Option (List (Bool × ℕ))
parse_comma_separated_indices [] = none
parse_comma_separated_indices (c ∷ s) =
    let r = strtol_int s in
    if c == b'<' && not r.0.0
    then Option.map (λ is. r.0 ∷ is) (parse_payload (length r.1) r.1)
    else none

pub data NonNullMode : Type 0 where
  non_optimizing optimizing : NonNullMode

unfoldable pub non_null_mode : ℕ → Option NonNullMode
non_null_mode c =
    if c == b'0' then some non_optimizing else if c == b'1' then some optimizing else none

-- The mode and the indices behind "N:".
unfoldable pub non_null_indices : Text → Option (NonNullMode × List (Bool × ℕ))
unfolding non_null_mode expect_colon
non_null_indices [] = none
non_null_indices (c ∷ s) = non_null_mode c >>= λ mode.
    expect_colon s >>= λ list. parse_comma_separated_indices list >>= λ is. some (mode, is)

unfoldable pub is_non_null : Text → Option (Option (NonNullMode × List (Bool × ℕ)))
unfolding expect_colon non_null_indices
is_non_null attributes = elim (strchr attributes b'N') [
  | none ↦ some none
  | some [] ↦ none
  | some (c ∷ s) ↦ expect_colon s >>= λ list. non_null_indices list >>= λ r. some (some r)
]

unfoldable pub performs_callback : Text → Option (Option (List (Bool × ℕ)))
performs_callback attributes = elim (strchr attributes b'C') [
  | none ↦ some none
  | some [] ↦ none
  | some (c ∷ s) ↦ Option.map some (parse_comma_separated_indices s)
]

-- The first record of the name decides.
unfoldable pub is_builtin_func_of : List Info → Text → Bool → Bool
is_builtin_func_of [] suffix in_std = false
is_builtin_func_of (i ∷ is) suffix in_std =
    let rest = is_builtin_func_of is suffix in_std in
    if text_eq suffix i.name && same (has_char b'z' i.attributes) in_std
    then has_char b'f' i.attributes
    else rest

-- `builtins` is the shard of the target-independent builtins.
unfoldable pub is_builtin_func : Shard → Text → Bool
is_builtin_func builtins func_name =
    let std = split_std func_name in
    elim (consume_front builtins.name_prefix std.1) [
      | none ↦ false
      | some suffix ↦ is_builtin_func_of builtins.infos suffix std.0
    ]
