-- ===== src/Intrinsics/Preserve.antt =====
-- What holds of the intrinsic manager's tables (phase-1-llvm/clang/lib/Sema/SemaRISCV.cpp) and
-- survives the addition of any intrinsic survives `InitIntrinsicList`.
use spacemit_ime_iree_tcp.Shared.{
  ℕ, ◌≡◌, subst, Bool, true, false, List, Option, none, some, ◌>>=◌, >>=-some, for_each, if_found,
  for_each-keeps, Text, if◌then◌else◌,
}
use mathlib.Core.Option.{some-injective}
use spacemit_ime_iree_tcp.Intrinsics.Types.{RvvType}
use spacemit_ime_iree_tcp.Intrinsics.Manager.{
  IntrinsicKind, Record, Names, Support, IntrinsicDef, Tables, add_intrinsic, init_rvv_intrinsic,
  init_policy, policy_types, init_typed, init_policies, init_masked, construct_found,
  construct_lmul, construct_type, construct_record, construct_rvv_intrinsics,
}
use spacemit_ime_iree_tcp.Intrinsics.Decl.{PerKind, init_kind, finish, init_intrinsic_list, kinds}

-- A step that may fail takes tables of the property to tables of the property.
abbrev Keeps {ℓ} : {S : Type 0} → (S → Type ℓ) → (S → Option S) → Type ℓ
Keeps P f = (t u : _) → f t ≡ some u → P t → P u

some-Keeps {ℓ} : {S : Type 0} (P : S → Type ℓ) → Keeps P some
some-Keeps P t u h p = subst P (some-injective t u h) p

>>=-Keeps {ℓ} :
    {S : Type 0} (P : S → Type ℓ) (f g : S → Option S)
    → Keeps P f
    → Keeps P g
    → Keeps P (λ t. f t >>= g)
>>=-Keeps P f g kf kg t u h p = let (v, e, rest) = >>=-some (f t) g h in kg v u rest (kf t v e p)

if-Keeps {ℓ} :
    {S : Type 0} (P : S → Type ℓ) (b : Bool) (f g : S → Option S)
    → Keeps P f
    → Keeps P g
    → Keeps P (λ t. if b then f t else g t)
if-Keeps P true f g kf kg = kf
if-Keeps P false f g kf kg = kg

if_found-Keeps {ℓ} :
    {A S : Type 0} (P : S → Type ℓ) (o : Option A) (step : A → S → Option S)
    → ((x : A) → Keeps P (step x))
    → Keeps P (if_found o step)
if_found-Keeps P none step keep = some-Keeps P
if_found-Keeps P (some x) step keep = keep x

for_each-Keeps {ℓ} :
    {A S : Type 0} (P : S → Type ℓ) (step : A → S → Option S)
    → ((x : A) → Keeps P (step x))
    → (xs : List A) → Keeps P (for_each step xs)
for_each-Keeps P step keep xs t u h p = for_each-keeps P step keep xs t u h p

module _ {ℓ} {Proto Policy : Type 0} (s : Support Proto Policy) (P : Tables → Type ℓ)
    (added : (n : Names) (d : IntrinsicDef) (t : Tables) → P t → P (add_intrinsic n d t)) where
  init_rvv_intrinsic-keeps :
      (r : Record) (x o : Text) (m : Bool) (sig : List RvvType) (hp : Bool) (p : Policy)
      (t : Tables)
      → P t
      → P (init_rvv_intrinsic s r x o m sig hp p t)
  unfolding init_rvv_intrinsic
  init_rvv_intrinsic-keeps r x o m sig hp p t h = added _ _ t h

  init_policy-Keeps :
      (k : IntrinsicKind) (r : Record) (b l : ℕ) (x o : Text) (m : Bool) (p : Policy)
      → Keeps P (init_policy s k r b l x o m p)
  unfolding init_policy init_typed
  init_policy-Keeps k r b l x o m p t u h q =
      let (types, e, rest) = >>=-some (policy_types s k r b l m p) (init_typed s r x o m p t) h in
      subst P (some-injective _ u rest) (init_rvv_intrinsic-keeps r x o m types _ p t q)

  init_policies-Keeps :
      (k : IntrinsicKind) (r : Record) (b l : ℕ) (x o : Text) (m : Bool)
      → Keeps P (init_policies s k r b l x o m)
  unfolding init_policies
  init_policies-Keeps k r b l x o m =
      if-Keeps P _ some _ (some-Keeps P) (for_each-Keeps P _ (init_policy-Keeps k r b l x o m) _)

  init_masked-Keeps :
      (k : IntrinsicKind) (r : Record) (b l : ℕ) (x o : Text) → Keeps P (init_masked s k r b l x o)
  unfolding init_masked
  init_masked-Keeps k r b l x o =
      if-Keeps P _ _ some
        (>>=-Keeps P _ _ (init_policy-Keeps k r b l x o true s.default_policy)
          (init_policies-Keeps k r b l x o true))
        (some-Keeps P)

  construct_found-Keeps :
      (k : IntrinsicKind) (r : Record) (b l : ℕ) (x o : Text) (types : List RvvType)
      → Keeps P (construct_found s k r b l x o types)
  unfolding construct_found
  construct_found-Keeps k r b l x o types t u h p =
      let (v, e, rest) = >>=-some _ (init_masked s k r b l x o) h in
      init_masked-Keeps k r b l x o v u rest (
        init_policies-Keeps k r b l x o false _ v e
          (init_rvv_intrinsic-keeps r x o false types _ _ t p))

  construct_lmul-Keeps :
      (k : IntrinsicKind) (r : Record) (b l : ℕ) → Keeps P (construct_lmul s k r b l)
  unfolding construct_lmul
  construct_lmul-Keeps k r b l = if-Keeps P _ some _ (some-Keeps P) (
      if_found-Keeps P (policy_types s k r b l false s.default_policy) _
        (construct_found-Keeps k r b l _ _))

  construct_type-Keeps :
      (k : IntrinsicKind) (r : Record) (shift : ℕ) → Keeps P (construct_type s k r shift)
  unfolding construct_type
  construct_type-Keeps k r shift =
      if-Keeps P _ _ some (for_each-Keeps P _ (construct_lmul-Keeps k r _) _) (some-Keeps P)

  construct_record-Keeps : (k : IntrinsicKind) (r : Record) → Keeps P (construct_record s k r)
  unfolding construct_record
  construct_record-Keeps k r = for_each-Keeps P _ (construct_type-Keeps k r) _

  pub construct_rvv_intrinsics-Keeps :
      (rs : List Record) (k : IntrinsicKind) → Keeps P (construct_rvv_intrinsics s rs k)
  unfolding construct_rvv_intrinsics
  construct_rvv_intrinsics-Keeps rs k = for_each-Keeps P _ (construct_record-Keeps k) rs

  init_kind-Keeps :
      (declare : PerKind) (k : IntrinsicKind) → Keeps (λ m. P m.tables) (init_kind s declare k)
  unfolding init_kind finish
  init_kind-Keeps declare k m =
      if-Keeps (λ n. P n.tables) _ _ some
        (λ m u h p.
          let (t, e, rest) = >>=-some _ (finish k m) h in
          subst (λ n. P n.tables) (some-injective _ u rest)
            (construct_rvv_intrinsics-Keeps (s.records k) k m.tables t e p))
        (some-Keeps (λ n. P n.tables)) m

  pub init_intrinsic_list-Keeps :
      (declare : PerKind) → Keeps (λ m. P m.tables) (init_intrinsic_list s declare)
  unfolding init_intrinsic_list
  init_intrinsic_list-Keeps declare =
      for_each-Keeps (λ m. P m.tables) _ (init_kind-Keeps declare) kinds
