-- ===== src/Codegen/Config.antt =====
-- The target configuration and the checks of operations in
-- phase-3-mlir/iree/compiler/src/iree/compiler/Codegen/LLVMCPU/Utils.cpp. An int64_t is its 64 bits.
use spacemit_ime_iree_tcp.Shared.{
  ℕ, ◌*◌, ◌%◌, ◌^◌, ◌≡◌, refl, Bool, true, false, ◌&&◌, ◌||◌, List, [], ◌∷◌, ◌++◌, Option, none,
  some, Text, codes, text_eq, ◌==◌, if◌then◌else◌, ap, ◌∙◌, text_eq_refl, text_eq-cons_ne, arith,
}
use spacemit_ime_iree_tcp.Contract.Ir.{AffineMap}

-- The attributes that a configuration holds under a name; `other` is of another kind.
pub data Attr : Type 0 where
  integer : ℕ → Attr
  boolean : Bool → Attr
  text : Text → Attr
  other : Attr

abbrev pub Dictionary : Type 0
Dictionary = List (Text × Attr)

-- `DictionaryAttr::get`.
unfoldable pub get : Text → Dictionary → Option Attr
get k [] = none
get k ((j, a) ∷ d) = let rest = get k d in if text_eq j k then some a else rest

-- `getAs<IntegerAttr>` and its value.
unfoldable pub get_integer : Text → Dictionary → Option ℕ
get_integer k d = elim (get k d) [ some (integer n) ↦ some n | _ ↦ none ]

abbrev pub max_stack_key : Text
max_stack_key = codes "max_stack_allocation_size"

abbrev pub native_vector_key : Text
native_vector_key = codes "native_vector_size"

unfoldable pub get_config_max_stack_allocation_size : Dictionary → Option ℕ
get_config_max_stack_allocation_size = get_integer max_stack_key

unfoldable pub add_config_max_stack_allocation_size : ℕ → Dictionary → Dictionary
add_config_max_stack_allocation_size n d = d ++ ((max_stack_key, integer n) ∷ [])

unfoldable pub get_config_native_vector_size : Dictionary → Option ℕ
get_config_native_vector_size = get_integer native_vector_key

unfoldable pub add_config_native_vector_size : ℕ → Dictionary → Dictionary
add_config_native_vector_size n d = d ++ ((native_vector_key, integer n) ∷ [])

unfoldable pub prefer_intrinsics_over_asm : Dictionary → Bool
prefer_intrinsics_over_asm d = elim (get (codes "prefer_intrinsics_over_asm") d) [
  | some (boolean b) ↦ b
  | _ ↦ false
]

-- `has_feature` is `hasFeature` of IREE's Codegen/Utils.
unfoldable pub has_any_v_feature : (Text → Bool) → Bool
has_any_v_feature has_feature =
    has_feature (codes "+v")
    || has_feature (codes "+zve32x")
    || has_feature (codes "+zve32f")
    || has_feature (codes "+zve64x")
    || has_feature (codes "+zve64f")
    || has_feature (codes "+zve64d")

unfoldable pub has_xsmtvdot_feature : (Text → Bool) → Bool
has_xsmtvdot_feature has_feature = has_feature (codes "+xsmtvdot")

-- The native vector size of a target, if there is one, times the option for the number of vectors.
unfoldable pub get_max_vector_size_for_large_vector_check : ℕ → Option Dictionary → ℕ
unfolding get_config_native_vector_size
get_max_vector_size_for_large_vector_check max_vectors target =
    let bytes : ℕ = elim target [
      | none ↦ 8
      | some d ↦ elim (get_config_native_vector_size d) [ none ↦ 8 | some n ↦ n ]
    ] in
    (bytes * max_vectors) % 2 ^ 64

-- What the check of a transpose reads of a `linalg.generic`. The yielded value is the number of a
-- block argument, and whether the block is the body itself.
pub record GenericOp : Type 0 where
  pub num_loops : ℕ
  pub num_dps_inputs : ℕ
  pub num_dps_inits : ℕ
  pub num_parallel_loops : ℕ
  pub input_map : AffineMap
  pub output_map : AffineMap
  pub body_ops : ℕ
  pub yielded_argument : Option (ℕ × Bool)

-- `is_permutation` and `is_identity` are those of `AffineMap`.
unfoldable pub is_linalg_generic_2d_transpose :
    (AffineMap → Bool) → (AffineMap → Bool) → GenericOp → Bool
is_linalg_generic_2d_transpose is_permutation is_identity g =
    (g.num_loops == 2)
    && ((g.num_dps_inputs == 1) && (g.num_dps_inits == 1))
    && (g.num_parallel_loops == g.num_loops)
    && ((is_permutation g.input_map && is_identity g.output_map)
        || (is_permutation g.output_map && is_identity g.input_map))
    && (g.body_ops == 1)
    && (elim g.yielded_argument [ none ↦ false | some r ↦ (r.0 == 0) && r.1 ])

pub data OpKind : Type 0 where
  rem_si rem_ui div_si div_ui ceil_div_si ceil_div_ui floor_div_si div_f rem_f other_op : OpKind

unfoldable pub may_have_undefined_behavior_in_masking : OpKind → Bool
may_have_undefined_behavior_in_masking other_op = false
may_have_undefined_behavior_in_masking _ = true

get-append : (k : Text) (d e : Dictionary) → get k d ≡ none → get k (d ++ e) ≡ get k e
unfolding get
get-append k [] e h = refl
get-append k ((j, a) ∷ d) e h = ground (arith, get-append k d e, h)

get-append_other :
    (k j : Text) (a : Attr) (d : Dictionary)
    → text_eq j k ≡ false
    → get k (d ++ ((j, a) ∷ [])) ≡ get k d
unfolding get
get-append_other k j a [] h = rw h refl
get-append_other k j a ((i, b) ∷ d) h =
    ap (λ o. if text_eq i k then some b else o) (get-append_other k j a d h)

own : (n : ℕ) → get native_vector_key ((native_vector_key, integer n) ∷ []) ≡ some (integer n)
unfolding get
own n = rw (text_eq_refl native_vector_key) refl

different : text_eq native_vector_key max_stack_key ≡ false
different = text_eq-cons_ne b'n' b'm' _ _ refl

-- A native vector size that is added to a configuration without one is the one that is read, and the
-- maximal stack allocation is read as before; and the bound on vector sizes is that size times the
-- option, to 64 bits.
pub add_config_native_vector_size-get :
    (n max_vectors : ℕ) (d : Dictionary)
    → get native_vector_key d ≡ none
    → (get_config_native_vector_size (add_config_native_vector_size n d) ≡ some n)
      × (get_config_max_stack_allocation_size (add_config_native_vector_size n d)
          ≡ get_config_max_stack_allocation_size d)
      × (get_max_vector_size_for_large_vector_check max_vectors
            (some (add_config_native_vector_size n d))
          ≡ (n * max_vectors) % 2 ^ 64)
unfolding get_config_native_vector_size add_config_native_vector_size
    get_config_max_stack_allocation_size get_max_vector_size_for_large_vector_check get_integer
add_config_native_vector_size-get n max_vectors d h =
    let added : get native_vector_key (d ++ ((native_vector_key, integer n) ∷ []))
        ≡ some (integer n) =
      get-append native_vector_key d ((native_vector_key, integer n) ∷ []) h ∙ own n in
    (
      rw (added, get_integer) refl,
      rw (get-append_other max_stack_key native_vector_key (integer n) d different, get_integer)
          refl,
      rw (added, get_integer) refl,
    )
