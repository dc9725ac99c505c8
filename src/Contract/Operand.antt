-- ===== src/Contract/Operand.antt =====
-- What `matchAndInit` makes of an operand: the i8 operand reads the same number as the contraction.
use native.Mathlib.Nat.{pow-le-pow_right}
use spacemit_ime_iree_tcp.Shared.{
  ℕ, ◌^◌, ◌<◌, ◌≤◌, ◌≡◌, refl, ap, subst, sym, ◌∙◌, Bool, true, false, some, none, arith, ltb,
  if◌then◌else◌, Bool-cases, inl, inr,
}
use spacemit_ime_iree_tcp.Contract.Ir.{
  ElementType, VectorType, Value, type_of, vector_type_of, bit_width, is_signless_i32, vector, i8,
}
use spacemit_ime_iree_tcp.Contract.Match.{
  Failure, success, sign_extension, zero_extension, defining_ext, is_narrow_integer,
  get_ext_operand, extended_operand, extend_small_int_vector, widen_to_i8, clone_element,
}
use spacemit_ime_iree_tcp.Contract.Semantics.{Machine, denote, extend, sign_extend}

-- The number that the contraction reads in an operand of element type `e`: an i32 as it is, a
-- narrower integer by implicit sign extension.
abbrev pub contract_reads : ElementType → ℕ → ℕ
contract_reads e x = if is_signless_i32 e then x else sign_extend (bit_width e) 32 x

sign_extend_twice :
    (w x : ℕ) → w ≤ 8 → x < 2 ^ w → sign_extend 8 32 (sign_extend w 8 x) ≡ sign_extend w 32 x
unfolding sign_extend
sign_extend_twice w x hw hx =
    let bound : 2 ^ w ≤ 2 ^ 8 = pow-le-pow_right {n = 2} (omega arith) hw in ground (arith, bound)

narrow_width : (e : ElementType) → is_narrow_integer e ≡ true → bit_width e ≤ 8
narrow_width e h = ground arith

abbrev extension : Bool → VectorType → Value → Value
extension true t w = Value.ext_si (vector t) w
extension false t w = Value.ext_ui (vector t) w

narrow-not-wide : (e : ElementType) → is_narrow_integer e ≡ true → is_signless_i32 e ≡ false
narrow-not-wide e h = ground arith

wide_width : (e : ElementType) → is_signless_i32 e ≡ true → bit_width e ≡ 32
wide_width e h = ground arith

wide-not-narrow : (e : ElementType) → is_signless_i32 e ≡ true → is_narrow_integer e ≡ false
wide-not-narrow e h = ground arith

get_ext_plain :
    (v : Value) (t : VectorType)
    → type_of v ≡ vector t
    → defining_ext sign_extension v ≡ none
    → is_narrow_integer t.element ≡ true
    → get_ext_operand sign_extension v ≡ some v
unfolding get_ext_operand
get_ext_plain v t e no_ext narrow = rw (no_ext, get_ext_operand) (rw e (rw narrow))

get_ext_signed :
    (w : Value) (s t : VectorType)
    → type_of w ≡ vector s
    → is_narrow_integer s.element ≡ true
    → is_signless_i32 t.element ≡ true
    → get_ext_operand sign_extension (Value.ext_si (vector t) w) ≡ some w
unfolding get_ext_operand
get_ext_signed w s t e narrow wide = rw e (rw (narrow, wide))

get_ext_unsigned :
    (w : Value) (s t : VectorType)
    → type_of w ≡ vector s
    → is_narrow_integer s.element ≡ true
    → is_signless_i32 t.element ≡ true
    → (get_ext_operand sign_extension (Value.ext_ui (vector t) w) ≡ none)
      × (get_ext_operand zero_extension (Value.ext_ui (vector t) w) ≡ some w)
unfolding get_ext_operand
get_ext_unsigned w s t e narrow wide =
    (rw (wide-not-narrow t.element wide), rw e (rw (narrow, wide)))

module _ (machine : Machine) (env : ℕ → machine.Vector) where
  abbrev pub element_at : Value → ℕ → ℕ → ℕ
  element_at v i j = machine.at2 (denote machine env v) i j

  -- Every element of a value fits its element type's width.
  abbrev pub HoldsWidth : Value → Type 0
  HoldsWidth v = (i j : ℕ) → element_at v i j < 2 ^ bit_width (vector_type_of v).element

  -- The operands that the rewrite accepts: a narrow integer vector that no `arith.extsi` defines,
  -- or the explicit extension of one to i32.
  pub data Accepted (v : Value) : Type 0 where
    plain :
        (t : VectorType)
        → type_of v ≡ vector t
        → defining_ext sign_extension v ≡ none
        → is_narrow_integer t.element ≡ true
        → HoldsWidth v
        → Accepted v
    sign_extended :
        (w : Value) (s t : VectorType)
        → v ≡ Value.ext_si (vector t) w
        → type_of w ≡ vector s
        → s.shape ≡ t.shape
        → is_narrow_integer s.element ≡ true
        → is_signless_i32 t.element ≡ true
        → HoldsWidth w
        → Accepted v
    zero_extended :
        (w : Value) (s t : VectorType)
        → v ≡ Value.ext_ui (vector t) w
        → type_of w ≡ vector s
        → s.shape ≡ t.shape
        → is_narrow_integer s.element ≡ true
        → is_signless_i32 t.element ≡ true
        → HoldsWidth w
        → Accepted v

  extended_elem :
      (w : Value) (flag : Bool) (s t : VectorType) (i j : ℕ)
      → type_of w ≡ vector s
      → element_at (extension flag t w) i j
        ≡ extend flag (bit_width s.element) (bit_width t.element) (element_at w i j)
  unfolding denote
  extended_elem w true s t i j e =
      subst
        (λ ty.
          machine.at2 (machine.extend_elements true ty (vector t) (denote machine env w)) i j
          ≡ sign_extend (bit_width s.element) (bit_width t.element) (element_at w i j))
        (sym e) (machine.extend_elements_at true s t (denote machine env w) i j)
  extended_elem w false s t i j e =
      subst
        (λ ty.
          machine.at2 (machine.extend_elements false ty (vector t) (denote machine env w)) i j
          ≡ element_at w i j)
        (sym e) (machine.extend_elements_at false s t (denote machine env w) i j)

  widened :
      (w : Value) (flag : Bool) (s : VectorType) (i j : ℕ)
      → type_of w ≡ vector s
      → element_at (extend_small_int_vector s w flag) i j
        ≡ extend flag (bit_width s.element) 8 (element_at w i j)
  unfolding extend_small_int_vector
  widened w true s i j e = extended_elem w true s (clone_element s i8) i j e
  widened w false s i j e = extended_elem w false s (clone_element s i8) i j e

  extend_twice :
      (flag : Bool) (w x : ℕ)
      → w ≤ 8
      → x < 2 ^ w
      → extend flag 8 32 (extend flag w 8 x) ≡ extend flag w 32 x
  extend_twice true w x h lt = sign_extend_twice w x h lt
  extend_twice false w x h lt = refl

  -- Widened to i8 and read as the instruction reads it, an operand keeps its numbers.
  widen_to_i8_elem :
      (w : Value) (flag : Bool) (s : VectorType) (i j : ℕ)
      → type_of w ≡ vector s
      → is_narrow_integer s.element ≡ true
      → HoldsWidth w
      → extend flag 8 32 (element_at (widen_to_i8 w flag) i j)
        ≡ extend flag (bit_width s.element) 32 (element_at w i j)
  unfolding widen_to_i8
  widen_to_i8_elem w flag s i j e narrow range =
      let range' : element_at w i j < 2 ^ bit_width s.element = rw e at (range i j) in
      let at_most : bit_width s.element ≤ 8 = narrow_width s.element narrow in
      elim (Bool-cases (ltb (bit_width s.element) 8)) [
        | inl small ↦
            rw (e, widen_to_i8)
              (rw small (
                ap (extend flag 8 32) (widened w flag s i j e)
                ∙ extend_twice flag _ _ at_most range'))
        | inr full ↦
            let e8 : bit_width s.element ≡ 8 = ground arith in rw (e, widen_to_i8) (rw full (rw e8))
      ]

  widen_to_i8-shape :
      (w : Value) (flag : Bool)
      → (vector_type_of (widen_to_i8 w flag)).shape ≡ (vector_type_of w).shape
  unfolding widen_to_i8 extend_small_int_vector
  widen_to_i8-shape w flag = ground arith

  -- The match finds an accepted operand, and the i8 operand that it makes has the operand's shape and
  -- the numbers that the contraction reads in it.
  abbrev pub Reads : Value → Value × Bool → Type 0
  Reads v l =
      ((vector_type_of (widen_to_i8 l.0 l.1)).shape ≡ (vector_type_of v).shape)
      × ((i j : ℕ)
          → extend l.1 8 32 (element_at (widen_to_i8 l.0 l.1) i j)
            ≡ contract_reads (vector_type_of v).element (element_at v i j))

  pub extended_operand-Accepted :
      (v : Value) (reason : Failure)
      → Accepted v
      → (l : Value × Bool) × (extended_operand v reason ≡ success l) × Reads v l
  unfolding extended_operand
  extended_operand-Accepted v reason (plain t e no_ext narrow range) = (
    (v, true),
    rw (get_ext_plain v t e no_ext narrow, extended_operand),
    (
      widen_to_i8-shape v true,
      λ i j.
          widen_to_i8_elem v true t i j e narrow range
          ∙ rw e (rw (narrow-not-wide t.element narrow)),
    ),
  )
  extended_operand-Accepted v reason (sign_extended w s t e ew shape narrow wide range) = rw e (
    (w, true),
    rw (get_ext_signed w s t ew narrow wide, extended_operand),
    (
      widen_to_i8-shape w true ∙ rw ew shape,
      λ i j.
          widen_to_i8_elem w true s i j ew narrow range
          ∙ rw (wide, extended_elem w true s t i j ew, wide_width t.element wide),
    ),
  )
  extended_operand-Accepted v reason (zero_extended w s t e ew shape narrow wide range) = rw e (
    (w, false),
    (let (sign, zero) = get_ext_unsigned w s t ew narrow wide in
        rw (sign, extended_operand) (rw zero)),
    (
      widen_to_i8-shape w false ∙ rw ew shape,
      λ i j.
          widen_to_i8_elem w false s i j ew narrow range
          ∙ rw (wide, extended_elem w false s t i j ew),
    ),
  )
