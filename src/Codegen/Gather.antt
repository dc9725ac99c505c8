-- ===== src/Codegen/Gather.antt =====
-- Gathers from contiguous memory: `ContiguousMemrefGather1DToConditionalLoads` of
-- phase-3-mlir/iree/compiler/src/iree/compiler/Codegen/LLVMCPU/LLVMCPUVirtualVectorLowering.cpp, and
-- the value of what it builds.
use spacemit_ime_iree_tcp.Shared.{
  ℕ, zero, suc, ◌+◌, ◌*◌, ◌%◌, ◌^◌, ◌<◌, ◌≤◌, ◌≡◌, inl, inr, refl, ap, ◌∙◌, Bool, true, false, not,
  ◌&&◌, List, [], ◌∷◌, ◌++◌, Option, none, some, length, product, map, ltb, leb, ◌==◌,
  if◌then◌else◌, arith, Bool-cases,
}

-- `MemRefType`: the shape, and what its layout is found to be.
pub record MemRef : Type 0 where
  pub shape : List ℕ
  pub identity_layout : Bool
  pub static_and_contiguous : Bool

-- `vector.gather`: its type, its base if that is a memref, and its offsets in the base.
pub record GatherOp : Type 0 where
  pub rank : ℕ
  pub scalable : Bool
  pub num_elements : ℕ
  pub base : Option MemRef
  pub offsets : List ℕ

-- An offset of a load: that of the gather, or that with `vector.extract` of the cast index vector at
-- a lane added (`arith.addi`).
pub data Offset : Type 0 where
  offset : ℕ → Offset
  add_index : ℕ → ℕ → Offset

-- `vector.extract` of the mask at a lane.
pub data Condition : Type 0 where
  extract_mask : ℕ → Condition

-- What is built: `scf.if`s over the value that passes through, each with its condition, the offsets of
-- its `vector.load`, and the lane that its `vector.insert` writes.
pub data Chain : Type 0 where
  pass_thru : Chain
  conditional_load : Condition → List Offset → ℕ → Chain → Chain

pub data Failure : Type 0 where
  unsupported_rank not_fixed_width non_memref_base rank_1_memref not_contiguous : Failure

pub data Match : Type 0 where
  replaced : Chain → Match
  failure : Failure → Match

abbrev pub is_row_major_contiguous_memref : MemRef → Bool
is_row_major_contiguous_memref t = if t.identity_layout then true else t.static_and_contiguous

-- `loadOffsets.back()`, and what stands before it.
abbrev pub back : List ℕ → ℕ
back [] = 0
back (o ∷ []) = o
back (o ∷ p ∷ ps) = back (p ∷ ps)

abbrev pub front : List ℕ → List ℕ
front [] = []
front (o ∷ []) = []
front (o ∷ p ∷ ps) = o ∷ front (p ∷ ps)

-- `loadOffsets` in the turn of lane `i`: the last one has the lane's index added.
abbrev pub load_offsets : ℕ → List ℕ → List Offset
load_offsets i offsets = map offset (front offsets) ++ (add_index (back offsets) i ∷ [])

-- The loop over the lanes below `n`, of which the last is outermost.
unfoldable pub conditional_loads : ℕ → List ℕ → Chain
conditional_loads zero offsets = pass_thru
conditional_loads (suc i) offsets =
    conditional_load (extract_mask i) (load_offsets i offsets) i (conditional_loads i offsets)

unfoldable pub rewrite_memref : GatherOp → MemRef → Match
rewrite_memref op t =
    if leb (length t.shape) 1
    then failure rank_1_memref
    else if not (is_row_major_contiguous_memref t)
    then failure not_contiguous
    else replaced (conditional_loads op.num_elements op.offsets)

unfoldable pub match_and_rewrite_gather : GatherOp → Match
match_and_rewrite_gather op =
    if not (op.rank == 1)
    then failure unsupported_rank
    else if op.scalable
    then failure not_fixed_width
    else elim op.base [ none ↦ failure non_memref_base | some t ↦ rewrite_memref op t ]

-- The position of an element in a row-major array. Offsets and positions are 64-bit words.
unfoldable pub linear : List ℕ → List ℕ → ℕ
linear (d ∷ ds) (o ∷ os) = o * product ds + linear ds os
linear _ _ = 0

-- Run-time values of the gather: the memory by position, the mask, the indices and the value that
-- passes through by lane, and `arith.index_cast` of an index.
module _ (memory : ℕ → ℕ) (mask : ℕ → Bool) (index_cast : ℕ → ℕ) (indices : ℕ → ℕ)
    (through : ℕ → ℕ) where
  abbrev pub value_of : Offset → ℕ
  value_of (offset o) = o
  value_of (add_index o i) = (o + index_cast (indices i)) % 2 ^ 64

  abbrev pub holds : Condition → Bool
  holds (extract_mask i) = mask i

  -- The value of lane `j`: `vector.load` reads at the linear position of its offsets.
  unfoldable pub lane_value : List ℕ → Chain → ℕ → ℕ
  lane_value shape pass_thru j = through j
  lane_value shape (conditional_load condition offsets i rest) j =
      let below = lane_value shape rest j in
      if holds condition && i == j
      then memory (linear shape (map value_of offsets) % 2 ^ 64)
      else below

  -- `vector.gather`, which reads at the linear position of the offsets plus the lane's index.
  unfoldable pub gathered : List ℕ → List ℕ → ℕ → ℕ
  gathered shape offsets j =
      if mask j
      then memory ((linear shape offsets + index_cast (indices j)) % 2 ^ 64)
      else through j

  map-value_of :
      (os : List ℕ) (o i : ℕ)
      → map value_of (map offset os ++ (add_index o i ∷ []))
        ≡ os ++ ((o + index_cast (indices i)) % 2 ^ 64 ∷ [])
  map-value_of [] o i = refl
  map-value_of (p ∷ ps) o i = ap (λ qs. p ∷ qs) (map-value_of ps o i)

  and_is : (b : Bool) (x y : ℕ) → (if b && true then x else y) ≡ (if b then x else y)
  and_is true x y = refl
  and_is false x y = refl

  linear-back :
      (shape offsets : List ℕ) (x : ℕ)
      → 1 ≤ length offsets
      → length shape ≡ length offsets
      → linear shape (front offsets ++ ((back offsets + x) % 2 ^ 64 ∷ [])) % 2 ^ 64
        ≡ (linear shape offsets + x) % 2 ^ 64
  unfolding linear
  linear-back shape [] x h e = absurd (omega arith)
  linear-back [] (o ∷ []) x h e = absurd (omega arith)
  linear-back (d ∷ []) (o ∷ []) x h e = omega arith
  linear-back (d ∷ f ∷ ds) (o ∷ []) x h e = absurd (omega arith)
  linear-back [] (o ∷ p ∷ ps) x h e = absurd (omega arith)
  linear-back (d ∷ ds) (o ∷ p ∷ ps) x h e =
      let rest = linear-back ds (p ∷ ps) x (omega arith) (omega arith) in omega (arith, rest)

  conditional_loads-gathered :
      (shape offsets : List ℕ) (n j : ℕ)
      → 1 ≤ length offsets
      → length shape ≡ length offsets
      → lane_value shape (conditional_loads n offsets) j
        ≡ (if ltb j n then gathered shape offsets j else through j)
  unfolding conditional_loads lane_value gathered
  conditional_loads-gathered shape offsets zero j h e = ground arith
  conditional_loads-gathered shape offsets (suc i) j h e = elim (Bool-cases (i == j)) [
    | inl same ↦
        let at : i ≡ j = ground arith in
        let lt : ltb j (suc i) ≡ true = ground arith in
        let not_below : ltb j i ≡ false = ground arith in
        let read = map-value_of (front offsets) (back offsets) i in
        let address = ap memory (linear-back shape offsets (index_cast (indices i)) h e) in
        let below : lane_value shape (conditional_loads i offsets) j ≡ through j =
          conditional_loads-gathered shape offsets i j h e ∙ rw not_below refl in
        rw (same, read, lt, below, address, at) (and_is (mask j) _ (through j))
    | inr other ↦
        let same_lt : ltb j (suc i) ≡ ltb j i = ground arith in
        let skipped : (mask i && i == j) ≡ false = ground arith in
        rw (skipped, same_lt) (conditional_loads-gathered shape offsets i j h e)
  ]

-- A gather of a fixed-width vector of rank 1 from a contiguous memref of more than one dimension,
-- with an offset for each dimension, is replaced, and every lane of the replacement has the value
-- of the gather: the element behind the offsets by the lane's index where the mask is set, and the
-- value that passes through elsewhere. Positions are modulo 2 ^ 64.
pub match_and_rewrite_gather_sound :
    (memory : ℕ → ℕ) (mask : ℕ → Bool) (index_cast : ℕ → ℕ) (indices : ℕ → ℕ) (through : ℕ → ℕ)
    (op : GatherOp) (t : MemRef) (j : ℕ)
    → op.base ≡ some t
    → op.rank ≡ 1
    → op.scalable ≡ false
    → 2 ≤ length t.shape
    → length t.shape ≡ length op.offsets
    → is_row_major_contiguous_memref t ≡ true
    → j < op.num_elements
    → (chain : Chain) × (match_and_rewrite_gather op ≡ replaced chain)
      × (lane_value memory mask index_cast indices through t.shape chain j
          ≡ gathered memory mask index_cast indices through t.shape op.offsets j)
unfolding match_and_rewrite_gather rewrite_memref
match_and_rewrite_gather_sound memory mask index_cast indices through op t j base rank fixed many
      offsets contiguous lt =
    let one : (op.rank == 1) ≡ true = ground arith in
    let few : leb (length t.shape) 1 ≡ false = ground arith in
    let inside : ltb j op.num_elements ≡ true = ground arith in
    (
      conditional_loads op.num_elements op.offsets,
      rw (one, fixed, base) (rw (few, contiguous) refl),
      conditional_loads-gathered memory mask index_cast indices through t.shape op.offsets
            op.num_elements j (omega arith) offsets
          ∙ rw inside refl,
    )
