-- ===== src/Intrinsics/Total.antt =====
-- When the construction of the tables (phase-1-llvm/clang/lib/Sema/SemaRISCV.cpp) comes to its end.
use Prim.Native.Nat.{bit_and}
use spacemit_ime_iree_tcp.Shared.{
  All, ◌==◌, ◌^◌, ℕ, ◌≡◌, refl, Bool, true, false, not, ◌&&◌, List, [], ◌∷◌, Option, none, some,
  ◌>>=◌, >>=-intro, for_each, if_found, Text, if◌then◌else◌,
}
use spacemit_ime_iree_tcp.Intrinsics.Types.{RvvType}
use spacemit_ime_iree_tcp.Intrinsics.Manager.{
  IntrinsicKind, Record, Support, policy_types, policy_scheme, init_typed, init_policy,
  init_policies, init_masked, construct_found, construct_lmul, construct_type, construct_record,
  construct_rvv_intrinsics,
}
use spacemit_ime_iree_tcp.Intrinsics.Decl.{
  PerKind, Manager, flag, finish, init_kind, init_intrinsic_list, kinds,
}

abbrev Total : {S : Type 0} → (S → Option S) → Type 0
Total f = (t : _) → (u : _) × (f t ≡ some u)

>>=-Total : {S : Type 0} (f g : S → Option S) → Total f → Total g → Total (λ t. f t >>= g)
>>=-Total f g tf tg t = let (u, e) = tf t in let (v, d) = tg u in (v, rw e d)

-- Each branch is needed where the test takes it.
if-Total :
    {S : Type 0} (b : Bool) (f g : S → Option S)
    → (b ≡ true → Total f)
    → (b ≡ false → Total g)
    → Total (λ t. if b then f t else g t)
if-Total true f g tf tg = tf refl
if-Total false f g tf tg = tg refl

for_each-Total :
    {A S : Type 0} (P : A → Type 0) (step : A → S → Option S)
    → ((x : A) → P x → Total (step x))
    → (xs : List A) → All P xs
    → Total (for_each step xs)
for_each-Total P step total [] all t = (t, refl)
for_each-Total P step total (x ∷ xs) all t =
    let (u, e) = total x all.0 t in
    let (v, d) = for_each-Total P step total xs all.1 u in (v, rw e d)

abbrev Anything : {A : Type 0} → A → Type 0
Anything x = Unit

All-Anything : {A : Type 0} (xs : List A) → All Anything xs
All-Anything [] = tt
All-Anything (x ∷ xs) = (tt, All-Anything xs)

some-Total : {S : Type 0} → Total {S = S} some
some-Total t = (t, refl)

-- `computeTypes` finds the types of a variant.
abbrev pub HasTypes :
    {Proto Policy : Type 0}
    → Support Proto Policy
    → IntrinsicKind
    → Record
    → ℕ
    → ℕ
    → Bool
    → Policy
    → Type 0
HasTypes s k r b l masked p = (ts : List RvvType) × (policy_types s k r b l masked p ≡ some ts)

abbrev pub policies_of :
    {Proto Policy : Type 0} → Support Proto Policy → Record → Bool → List Policy
policies_of s r masked =
    if masked
    then s.supported_masked_policies r.has_tail_policy r.has_mask_policy
    else s.supported_unmasked_policies

-- The variants with a policy that the record's scheme asks for have types.
abbrev pub PoliciesLegal :
    {Proto Policy : Type 0} → Support Proto Policy → IntrinsicKind → Record → ℕ → ℕ → Bool → Type 0
PoliciesLegal s k r b l masked =
    (policy_scheme s r masked == s.scheme_none) ≡ false
    → All (HasTypes s k r b l masked) (policies_of s r masked)

abbrev pub VariantsLegal :
    {Proto Policy : Type 0} → Support Proto Policy → IntrinsicKind → Record → ℕ → ℕ → Type 0
VariantsLegal s k r b l =
    (r.has_masked ≡ true → HasTypes s k r b l true s.default_policy × PoliciesLegal s k r b l true)
    × PoliciesLegal s k r b l false

-- A record of the tables: for the basic types and LMULs of its masks, where the plain intrinsic has
-- types, the variants that the record asks for have types.
abbrev pub RecordLegal :
    {Proto Policy : Type 0} → Support Proto Policy → IntrinsicKind → Record → Type 0
RecordLegal s k r =
    (shift l : ℕ) (types : List RvvType)
    → (bit_and (2 ^ shift) r.type_range_mask == 2 ^ shift) ≡ true
    → (bit_and r.log2_lmul_mask (2 ^ l) == 0) ≡ false
    → policy_types s k r (2 ^ shift) l false s.default_policy ≡ some types
    → VariantsLegal s k r (2 ^ shift) l

-- What the generated tables are relied on for: each of their records is legal.
abbrev pub Legal : {Proto Policy : Type 0} → Support Proto Policy → Type 0
Legal s = (k : IntrinsicKind) → All (RecordLegal s k) (s.records k)

module _ {Proto Policy : Type 0} (s : Support Proto Policy) (legal : Legal s) where
  module _ (k : IntrinsicKind) (r : Record) (b l : ℕ) (x o : Text) where
    init_policy-Total :
        (m : Bool) (p : Policy) → HasTypes s k r b l m p → Total (init_policy s k r b l x o m p)
    unfolding init_policy init_typed
    init_policy-Total m p (ts, e) t = (_, >>=-intro (init_typed s r x o m p t) e refl)

    init_policies-Total :
        (m : Bool) → PoliciesLegal s k r b l m → Total (init_policies s k r b l x o m)
    unfolding init_policies
    init_policies-Total m h =
        if-Total _ some _ (λ e. some-Total)
          (λ e. for_each-Total (HasTypes s k r b l m) _ (init_policy-Total m) _ (h e))

    init_masked-Total : VariantsLegal s k r b l → Total (init_masked s k r b l x o)
    unfolding init_masked
    init_masked-Total h =
        if-Total _ _ some
          (λ e.
            >>=-Total _ _ (init_policy-Total true s.default_policy (h.0 e).0)
              (init_policies-Total true (h.0 e).1))
          (λ e. some-Total)

    construct_found-Total :
        (types : List RvvType)
        → VariantsLegal s k r b l
        → Total (construct_found s k r b l x o types)
    unfolding construct_found
    construct_found-Total types h t =
        >>=-Total _ (init_masked s k r b l x o) (init_policies-Total false h.1)
          (init_masked-Total h) _

    if_found-Total :
        (found : Option (List RvvType))
        → ((types : List RvvType) → found ≡ some types → VariantsLegal s k r b l)
        → Total (if_found found (construct_found s k r b l x o))
    if_found-Total none h = some-Total
    if_found-Total (some types) h = construct_found-Total types (h types refl)

  construct_lmul-Total :
      (k : IntrinsicKind) (r : Record) (shift l : ℕ)
      → RecordLegal s k r
      → (bit_and (2 ^ shift) r.type_range_mask == 2 ^ shift) ≡ true
      → Total (construct_lmul s k r (2 ^ shift) l)
  unfolding construct_lmul
  construct_lmul-Total k r shift l h ranged =
      if-Total _ some _ (λ e. some-Total)
        (λ e.
          if_found-Total k r (2 ^ shift) l _ _ _ (λ types found. h shift l types ranged e found))

  construct_type-Total :
      (k : IntrinsicKind) (r : Record) (shift : ℕ)
      → RecordLegal s k r
      → Total (construct_type s k r shift)
  unfolding construct_type
  construct_type-Total k r shift h =
      if-Total _ _ some
        (λ e.
          for_each-Total Anything _ (λ l any. construct_lmul-Total k r shift l h e) _
            (All-Anything _))
        (λ e. some-Total)

  construct_rvv_intrinsics-Total :
      (rs : List Record) (k : IntrinsicKind)
      → All (RecordLegal s k) rs
      → Total (construct_rvv_intrinsics s rs k)
  unfolding construct_rvv_intrinsics construct_record
  construct_rvv_intrinsics-Total rs k =
      for_each-Total (RecordLegal s k) _
        (λ r h.
          for_each-Total Anything _ (λ shift any. construct_type-Total k r shift h) _
            (All-Anything _))
        rs

  init_kind-Total : (declare : PerKind) (k : IntrinsicKind) → Total (init_kind s declare k)
  unfolding init_kind finish
  init_kind-Total declare k m = go (flag k declare && not (flag k m.constructed))
    where
      go :
          (b : Bool)
          → (n : Manager) × ((if b
                then construct_rvv_intrinsics s (s.records k) k m.tables >>= finish k m
                else some m)
              ≡ some n)
      go false = (m, refl)
      go true =
          let (t, e) = construct_rvv_intrinsics-Total (s.records k) k (legal k) m.tables in
          (_, >>=-intro (finish k m) e refl)

  -- If the records of the tables are legal, `InitIntrinsicList` ends: it never dereferences types that
  -- were not computed.
  pub init_intrinsic_list-ends :
      (declare : PerKind) (m : Manager) → (n : Manager) × (init_intrinsic_list s declare m ≡ some n)
  unfolding init_intrinsic_list
  init_intrinsic_list-ends declare m =
      for_each-Total Anything _ (λ k any. init_kind-Total declare k) kinds (All-Anything kinds) m
