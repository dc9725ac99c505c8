-- ===== src/Contract/Limits.antt =====
-- What a match guarantees, and which contractions the rewrite does not serve
-- (LowerContractionToRISCVIMEVMADOTPattern.cpp).
use spacemit_ime_iree_tcp.Shared.{
  ℕ, ◌≤◌, ◌⊎◌, if◌then◌else◌, not, subst, ◌≡◌, ◌≢◌, refl, ap, ◌∙◌, Bool, true, false, List, [], ◌∷◌,
  some, none, arith, foldl, Bool-cases, inl, inr, Option-cases,
}
use spacemit_ime_iree_tcp.Contract.Ir.{
  Value, Ty, vector, scalar, vector_type, bit_width, ElementType, type_of, vector_type_of,
  is_signless_i32, i8, i32, VectorType, ContractionOp, ImeOp,
}
use spacemit_ime_iree_tcp.Contract.Match.{
  Failure, Match, success, failure, Dims, Rewriter, Extension, match_dims, match_and_init,
  select_op, widen_to_i8, extend_small_int_vector, extended_operand, get_ext_operand,
  is_narrow_integer, implicit_operand, explicit_operand, defining_ext, >>=-eq-success, require,
  ◌>>=◌, ◌>>◌,
}
use spacemit_ime_iree_tcp.Contract.Lower.{Mlir, lower, lower_tile, match_and_rewrite, LoopState}
use spacemit_ime_iree_tcp.Contract.Sound.{select_op-ne-nop}

some-eq : {v w : Value} → some v ≡ some w → v ≡ w
some-eq h = cc

implicit-narrow :
    (ext : Extension) (v w : Value)
    → implicit_operand ext v ≡ some w
    → is_narrow_integer (vector_type_of w).element ≡ true
implicit-narrow Extension.sign_extension v w h = kept (Bool-cases narrow) h
  where
    narrow : Bool
    narrow = is_narrow_integer (vector_type_of v).element

    kept :
        (narrow ≡ true) ⊎ (narrow ≡ false)
        → (if narrow then some v else none) ≡ some w
        → is_narrow_integer (vector_type_of w).element ≡ true
    kept (inl e) q =
        let same : some v ≡ some w = rw e at q in
        subst (λ x. is_narrow_integer (vector_type_of x).element ≡ true) (some-eq same) e
    kept (inr e) q = ground arith
implicit-narrow Extension.zero_extension v w h = cc

explicit-narrow :
    (i o : Ty) (v w : Value)
    → explicit_operand i o v ≡ some w
    → (v ≡ w) × (is_narrow_integer (vector_type i).element ≡ true)
explicit-narrow (vector i) (vector o) v w h = ground arith
explicit-narrow (vector i) (scalar o) v w h = cc
explicit-narrow (scalar i) o v w h = cc

get_ext-narrow :
    (ext : Extension) (v w : Value)
    → get_ext_operand ext v ≡ some w
    → is_narrow_integer (vector_type_of w).element ≡ true
unfolding get_ext_operand
get_ext-narrow ext v w h = elim (Option-cases (defining_ext ext v)) [
  | inl e ↦ implicit-narrow ext v w (rw (e, get_ext_operand) at h)
  | inr (inner, e) ↦
      let (same, narrow) =
        explicit-narrow (type_of inner) (type_of v) inner w (rw (e, get_ext_operand) at h) in
      subst (λ x. is_narrow_integer (vector_type_of x).element ≡ true) same narrow
]

narrow_i8 : (e : ElementType) → is_narrow_integer e ≡ true → 8 ≤ bit_width e → e ≡ i8
narrow_i8 e narrow h = ground arith

widen-i8 :
    (w : Value) (flag : Bool)
    → is_narrow_integer (vector_type_of w).element ≡ true
    → (vector_type_of (widen_to_i8 w flag)).element ≡ i8
unfolding widen_to_i8 extend_small_int_vector
widen-i8 w flag narrow = ground (arith, narrow_i8 (vector_type_of w).element)

extended-narrow :
    (v : Value) (reason : Failure) (l : Value × Bool)
    → extended_operand v reason ≡ success l
    → is_narrow_integer (vector_type_of l.0).element ≡ true
unfolding extended_operand
extended-narrow v reason l h = ground (
  arith,
  get_ext-narrow Extension.sign_extension v l.0,
  get_ext-narrow Extension.zero_extension v l.0,
)

success-injective {ℓ} : {A : Type ℓ} {a b : A} → success a ≡ success b → a ≡ b
success-injective h = cc

i32_of : (t : VectorType) → is_signless_i32 t.element ≡ true → t.element ≡ i32
i32_of t h = ground arith

-- The end of `match_and_init` on what its calls return.
abbrev assembled : Value → Match Dims → Match (Value × Bool) → Match (Value × Bool) → Match Rewriter
assembled acc dims lhs rhs = do
  d ← dims
  l ← lhs
  r ← rhs
  require (is_signless_i32 (vector_type_of acc).element) Failure.acc_not_i32
  success (record {
    ime_op = select_op l.1 r.1;
    lhs = widen_to_i8 l.0 l.1;
    rhs = widen_to_i8 r.0 r.1;
    acc = acc;
    dims = d;
  })

abbrev HardwareTypes : Value → Rewriter → Type 0
HardwareTypes acc r =
    ((vector_type_of r.lhs).element ≡ i8)
    × ((vector_type_of r.rhs).element ≡ i8)
    × ((vector_type_of r.acc).element ≡ i32)
    × (r.acc ≡ acc)
    × (r.ime_op ≢ ImeOp.nop)

abbrev AllNarrow : Match (Value × Bool) → Type 0
AllNarrow m =
    (l : Value × Bool) → m ≡ success l → is_narrow_integer (vector_type_of l.0).element ≡ true

assembled_types :
    (acc : Value) (r : Rewriter) (d : Match Dims) (l x : Match (Value × Bool))
    → AllNarrow l
    → AllNarrow x
    → assembled acc d l x ≡ success r
    → HardwareTypes acc r
assembled_types acc r (success d) (success l) (success x) nl nx h =
    let built : Rewriter = record {
      ime_op = select_op l.1 x.1;
      lhs = widen_to_i8 l.0 l.1;
      rhs = widen_to_i8 x.0 x.1;
      acc = acc;
      dims = d;
    } in
    let (wide, same) = accepted (is_signless_i32 (vector_type_of acc).element) built h in
    subst (HardwareTypes acc) same (
      widen-i8 l.0 l.1 (nl l refl),
      widen-i8 x.0 x.1 (nx x refl),
      i32_of (vector_type_of acc) wide,
      refl,
      select_op-ne-nop l.1 x.1,
    )
  where
    accepted :
        (b : Bool) (q : Rewriter)
        → (require b Failure.acc_not_i32 >> success q) ≡ success r
        → (b ≡ true) × (q ≡ r)
    accepted true q e = (refl, cc)
    accepted false q e = cc
assembled_types acc r (failure e) l x nl nx h = cc
assembled_types acc r (success d) (failure e) x nl nx h = cc
assembled_types acc r (success d) (success l) (failure e) nl nx h = cc

-- A match hands over operands of element type i8, an i32 accumulator that is the operation's own, and
-- one of the four instructions.
pub match_and_init_types :
    (op : ContractionOp) (r : Rewriter)
    → match_and_init op ≡ success r
    → ((vector_type_of r.lhs).element ≡ i8)
      × ((vector_type_of r.rhs).element ≡ i8)
      × ((vector_type_of r.acc).element ≡ i32)
      × (r.acc ≡ op.acc)
      × (r.ime_op ≢ ImeOp.nop)
unfolding match_and_init
match_and_init_types op r h =
    assembled_types op.acc r (match_dims op) _ _ (extended-narrow op.lhs _)
      (extended-narrow op.rhs _) h

-- The loop only ever writes into the result, whatever tiles it is given.
lower_tiles_type :
    (mlir : Mlir) (r : Rewriter) (s : LoopState) (offs : List (List ℕ))
    → type_of (foldl (lower_tile mlir r) s offs).result ≡ type_of s.result
unfolding lower_tile
lower_tiles_type mlir r s [] = refl
lower_tiles_type mlir r s (o ∷ os) =
    lower_tiles_type mlir r (lower_tile mlir r s o) os ∙ ground arith

lower_type : (mlir : Mlir) (r : Rewriter) → type_of (lower mlir r) ≡ vector (vector_type_of r.acc)
unfolding lower
lower_type mlir r =
    lower_tiles_type mlir r
      (record { result = Value.zeros (vector_type_of r.acc); k_acc = Value.null })
      (mlir.tile_offsets (r.dims.m ∷ r.dims.n ∷ r.dims.k ∷ []) (4 ∷ 4 ∷ 8 ∷ []) (0 ∷ 1 ∷ 2 ∷ []))

-- The replacement has the accumulator's vector type, for every way to run through tiles.
pub match_and_rewrite_type :
    (mlir : Mlir) (op : ContractionOp) (v : Value)
    → match_and_rewrite mlir op ≡ success v
    → type_of v ≡ vector (vector_type_of op.acc)
unfolding match_and_rewrite
match_and_rewrite_type mlir op v h =
    let (_, _, h1) = >>=-eq-success (require (not op.is_masked) Failure.masked_contraction) _ h in
    let (r, er, h2) = >>=-eq-success (match_and_init op) _ h1 in
    let own : r.acc ≡ op.acc = (match_and_init_types op r er).3 in
    subst (λ x. type_of x ≡ vector (vector_type_of op.acc)) (success-injective h2)
      (lower_type mlir r ∙ ap (λ x. vector (vector_type_of x)) own)
