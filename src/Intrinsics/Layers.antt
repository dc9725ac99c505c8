-- ===== src/Intrinsics/Layers.antt =====
-- The layers of the types that `RVVType2Qual` makes (phase-1-llvm/clang/lib/Sema/SemaRISCV.cpp).
use mathlib.Core.Option
use spacemit_ime_iree_tcp.Shared.{◌≡◌, refl, ap, ◌∙◌, Bool, true, false, Option, none, some}
use spacemit_ime_iree_tcp.Intrinsics.Types.{
  ScalarTypeKind, void, float_e4m3, float_e5m2, RvvType, AstContext, qualify, scalar_qual,
  vector_qual, ofp8_qual, rvv_type_to_qual,
}

-- The type without its const qualifier and its pointer.
abbrev pub bare : RvvType → RvvType
bare t = record t { is_constant = false; is_pointer = false }

-- A type made const, if it is to be, and then a pointer, if it is to be.
abbrev pub layers : {Q : Type 0} → AstContext Q → Bool → Bool → Q → Q
layers c false false q = q
layers c true false q = c.const_type q
layers c false true q = c.pointer_type q
layers c true true q = c.pointer_type (c.const_type q)

layers-qualify :
    {Q : Type 0} (c : AstContext Q) (t : RvvType) (constant pointer : Bool) (q : Q)
    → t.is_constant ≡ constant
    → t.is_pointer ≡ pointer
    → qualify c t q ≡ layers c constant pointer q
unfolding qualify
layers-qualify c t true true q e p = rw (e, p) refl
layers-qualify c t true false q e p = rw (e, p) refl
layers-qualify c t false true q e p = rw (e, p) refl
layers-qualify c t false false q e p = rw (e, p) refl

map-layers :
    {Q : Type 0} (c : AstContext Q) (t : RvvType) (o : Option Q)
    → Option.map (qualify c t) o ≡ Option.map (layers c t.is_constant t.is_pointer) o
map-layers c t none = refl
map-layers c t (some q) = ap some (layers-qualify c t t.is_constant t.is_pointer q refl refl)

map-qualify :
    {Q : Type 0} (c : AstContext Q) (t : RvvType) (o : Option Q)
    → Option.map (qualify c t) o ≡ Option.map (qualify c t) (Option.map (qualify c (bare t)) o)
unfolding qualify
map-qualify c t none = refl
map-qualify c t (some q) = refl

rvv_type_to_qual-qualify :
    {Q : Type 0} (c : AstContext Q) (t : RvvType)
    → rvv_type_to_qual c t ≡ Option.map (qualify c t) (rvv_type_to_qual c (bare t))
unfolding rvv_type_to_qual scalar_qual vector_qual ofp8_qual
rvv_type_to_qual-qualify {Q = Q} c t = go t.scalar_type refl
  where
    plain :
        (o : Option Q)
        → elim o as (λ _. Option Q) [
          | none ↦ none
          | some q ↦ Option.map (qualify c t) (vector_qual c t q)
        ]
          ≡ Option.map (qualify c t) (elim o as (λ _. Option Q) [
            | none ↦ none
            | some q ↦ Option.map (qualify c (bare t)) (vector_qual c (bare t) q)
          ])
    plain none = refl
    plain (some q) = map-qualify c t (vector_qual c t q)

    go :
        (k : ScalarTypeKind)
        → t.scalar_type ≡ k
        → rvv_type_to_qual c t ≡ Option.map (qualify c t) (rvv_type_to_qual c (bare t))
    go float_e4m3 e = rw (e, rvv_type_to_qual) (map-qualify c t (ofp8_qual c false t))
    go float_e5m2 e = rw (e, rvv_type_to_qual) (map-qualify c t (ofp8_qual c true t))
    go void e = rw (e, rvv_type_to_qual) (plain _)
    go _ e = rw (e, rvv_type_to_qual) (plain _)

-- The type of an `RVVType` is that of the type without const and pointer, made const if it is
-- constant, and then a pointer if it is a pointer, and there is none where the bare type has none;
-- so a pointer never loses its pointee's const, for scalars, vectors, tuples and OFP8 vectors.
pub rvv_type_to_qual-layers :
    {Q : Type 0} (c : AstContext Q) (t : RvvType)
    → rvv_type_to_qual c t
      ≡ Option.map (layers c t.is_constant t.is_pointer) (rvv_type_to_qual c (bare t))
rvv_type_to_qual-layers c t =
    rvv_type_to_qual-qualify c t ∙ map-layers c t (rvv_type_to_qual c (bare t))
