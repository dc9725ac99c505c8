-- ===== src/Contract/Model.antt =====
-- A machine and an MLIR that meet the laws the pattern relies on: a value is a function of its
-- indices.
use spacemit_ime_iree_tcp.Shared.{
  ℕ, suc, ◌+◌, ◌-◌, ◌*◌, ◌/◌, ◌%◌, ◌^◌, ◌<◌, ◌≤◌, ◌≡◌, ◌⊎◌, refl, Bool, true, false, ◌&&◌, List, [],
  ◌∷◌, arith, get_or, leb, ltb, if◌then◌else◌,
}
use spacemit_ime_iree_tcp.Contract.Ir.{vector_type, bit_width, ImeOp}
use spacemit_ime_iree_tcp.Contract.Lower.{Mlir}
use spacemit_ime_iree_tcp.Contract.Semantics.{Machine, extend, reads_signed, sum_below}
use spacemit_ime_iree_tcp.Contract.Sound.{RowMajorTiles}
use spacemit_ime_iree_tcp.Contract.Tile.Rows.{m_tiles}

abbrev pub Elements : Type 0
Elements = List ℕ → ℕ

abbrev pub shifted : List ℕ → List ℕ → List ℕ
shifted (o ∷ os) (i ∷ is) = (o + i) ∷ shifted os is
shifted _ is = is

abbrev pub unshifted : List ℕ → List ℕ → List ℕ
unshifted (o ∷ os) (i ∷ is) = (i - o) ∷ unshifted os is
unshifted _ is = is

abbrev pub in_box : List ℕ → List ℕ → List ℕ → Bool
in_box (o ∷ os) (d ∷ ds) (i ∷ is) = leb o i && ltb i (o + d) && in_box os ds is
in_box _ _ _ = true

-- Row-major positions.
abbrev pub reshaped : List ℕ → List ℕ → Elements → Elements
reshaped (r ∷ c ∷ []) (n ∷ []) v (p ∷ []) = v (p / c ∷ p % c ∷ [])
reshaped (n ∷ []) (r ∷ c ∷ []) v (i ∷ j ∷ []) = v ((i * c + j) ∷ [])
reshaped _ _ v is = v is

abbrev pub multiplied : ImeOp → Elements → Elements → Elements → Elements
multiplied op acc l r (p ∷ []) =
    (acc (p ∷ [])
      + sum_below 8 (λ t.
        extend (reads_signed op).0 8 32 (l ((p / 4 * 8 + t) ∷ []))
        * extend (reads_signed op).1 8 32 (r ((p % 4 * 8 + t) ∷ []))))
    % 2 ^ 32
multiplied op acc l r is = acc is

pub row_of : (cols i j : ℕ) → j < cols → ((i * cols + j) / cols ≡ i) × ((i * cols + j) % cols ≡ j)
row_of cols i j h = (grind arith, grind arith)

abbrev pub test_box : List ℕ → ℕ → ℕ → ℕ → ℕ → Elements → Elements → ℕ
test_box shape m n i j v d =
    if in_box (m ∷ n ∷ []) shape (i ∷ j ∷ []) then v ((i - m) ∷ (j - n) ∷ []) else d (i ∷ j ∷ [])

pub written_inside :
    (shape : List ℕ) (v d : Elements) (m n a b i j : ℕ)
    → shape ≡ a ∷ b ∷ []
    → i < a
    → j < b
    → test_box shape m n (m + i) (n + j) v d ≡ v (i ∷ j ∷ [])
written_inside shape v d m n a b i j e hi hj =
    let here : in_box (m ∷ n ∷ []) (a ∷ b ∷ []) ((m + i) ∷ (n + j) ∷ []) ≡ true = ground arith in
    let ei : m + i - m ≡ i = omega arith in
    let ej : n + j - n ≡ j = omega arith in rw e (rw here (rw (ei, ej)))

pub written_outside :
    (shape : List ℕ) (v d : Elements) (m n a b i j : ℕ)
    → shape ≡ a ∷ b ∷ []
    → ((i < m) ⊎ (m + a ≤ i)) ⊎ ((j < n) ⊎ (n + b ≤ j))
    → test_box shape m n i j v d ≡ d (i ∷ j ∷ [])
written_outside shape v d m n a b i j e out =
    let away : in_box (m ∷ n ∷ []) (a ∷ b ∷ []) (i ∷ j ∷ []) ≡ false = ground arith in
    rw e (rw away)

pub flattened :
    (s t : List ℕ) (v : Elements) (rows cols i j : ℕ)
    → s ≡ rows ∷ cols ∷ []
    → t ≡ rows * cols ∷ []
    → j < cols
    → reshaped s t v ((i * cols + j) ∷ []) ≡ v (i ∷ j ∷ [])
flattened s t v rows cols i j es et h = let (q, r) = row_of cols i j h in rw (es, et) (rw (q, r))

pub unflattened :
    (s t : List ℕ) (v : Elements) (rows cols n i j : ℕ)
    → s ≡ n ∷ []
    → t ≡ rows ∷ cols ∷ []
    → reshaped s t v (i ∷ j ∷ []) ≡ v ((i * cols + j) ∷ [])
unflattened s t v rows cols n i j es et = rw (es, et)

pub multiplied_at :
    (op : ImeOp) (acc l r : Elements) (i j : ℕ)
    → j < 4
    → multiplied op acc l r ((i * 4 + j) ∷ [])
      ≡ (acc ((i * 4 + j) ∷ [])
          + sum_below 8 (λ t.
            extend (reads_signed op).0 8 32 (l ((i * 8 + t) ∷ []))
            * extend (reads_signed op).1 8 32 (r ((j * 8 + t) ∷ []))))
        % 2 ^ 32
multiplied_at op acc l r i j h = let (q, m) = row_of 4 i j h in simp (q, m)

abbrev pub machine : Machine
machine = record {
  Vector = Elements;
  at1 = λ v i. v (i ∷ []);
  at2 = λ v i j. v (i ∷ j ∷ []);
  zeros = λ t is. 0;
  poison = λ t is. 0;
  extend_elements = λ signed s t v is.
      extend signed (bit_width (vector_type s).element) (bit_width (vector_type t).element) (v is);
  extract_slice = λ s t off size strides v is. v (shifted off is);
  insert_slice =
      λ s t off strides v d is. if in_box off s.shape is then v (unshifted off is) else d is;
  shape_cast = λ s t. reshaped s.shape t.shape;
  scalable_insert = λ s t p v d. v;
  scalable_extract = λ s t p v. v;
  ime = λ op acc l r vl policy. multiplied op acc l r;
  extract_slice_at = λ s t v rows cols m n a b i j shape hm hn hi hj. refl;
  insert_slice_inside = λ s t v d rows cols m n a b i j es et hm hn hi hj.
      written_inside s.shape v d m n a b i j es hi hj;
  insert_slice_outside =
      λ s t v d rows cols m n a b i j es et out. written_outside s.shape v d m n a b i j es out;
  flatten_at =
      λ s t v rows cols i j es et hi hj. flattened s.shape t.shape v rows cols i j es et hj;
  unflatten_at = λ s t v rows cols i j es et hi hj.
      unflattened s.shape t.shape v rows cols (rows * cols) i j es et;
  scalable_insert_at = λ s t v d n i shape lt. refl;
  scalable_extract_at = λ s t v n i shape lt. refl;
  extend_elements_at = λ signed s t v i j. refl;
  ime_at = λ op acc l r policy i j chosen hi hj. multiplied_at op acc l r i j hj;
}

-- `StaticTileOffsetRange` and the inferred slice type, for the one use that the lowering makes.
abbrev pub mlir : Mlir
mlir = record {
  tile_offsets = λ shape tile order.
      m_tiles 0 (get_or shape 2 0 / 8) (get_or shape 1 0 / 4) (get_or shape 0 0 / 4);
  slice_type = λ t off sizes. record t { shape = sizes };
}

pub row_major : RowMajorTiles mlir
row_major a b c m n k em en ek =
    let ea : m / 4 ≡ a = omega arith in
    let eb : n / 4 ≡ b = omega arith in let ec : k / 8 ≡ suc c = omega arith in rw (ea, eb, ec)
