-- ===== src/Intrinsics/Manager.antt =====
-- `RISCVIntrinsicManagerImpl` of phase-1-llvm/clang/lib/Sema/SemaRISCV.cpp: the tables of the vector
-- intrinsics and their construction from the generated records. `none` is the dereference of types
-- that `computeTypes` did not find.
use Prim.Native.Nat.{bit_and}
use spacemit_ime_iree_tcp.Shared.{
  ℕ, zero, suc, ◌+◌, ◌%◌, ◌^◌, Bool, true, false, not, ◌&&◌, List, [], ◌∷◌, ◌++◌, Option, none,
  some, if◌then◌else◌, ◌==◌, Text, codes, text_eq, length, take, drop, ◌>>=◌, for_each, if_found,
}
use spacemit_ime_iree_tcp.Intrinsics.Types.{RvvType}

pub data IntrinsicKind : Type 0 where
  rvv sifive_vector andes_vector spacemit_vector : IntrinsicKind

pub record Record : Type 0 where
  pub name : Text
  pub overloaded_name : Option Text
  pub required_extensions : Text
  pub prototype_index : ℕ
  pub prototype_length : ℕ
  pub suffix_index : ℕ
  pub suffix_length : ℕ
  pub overloaded_suffix_index : ℕ
  pub overloaded_suffix_size : ℕ
  pub type_range_mask : ℕ
  pub log2_lmul_mask : ℕ
  pub nf : ℕ
  pub has_masked : Bool
  pub has_vl : Bool
  pub has_masked_off_operand : Bool
  pub has_tail_policy : Bool
  pub has_mask_policy : Bool
  pub has_frm_round_mode_op : Bool
  pub alt_fmt : Bool
  pub is_tuple : Bool
  pub unmasked_policy_scheme : ℕ
  pub masked_policy_scheme : ℕ

-- The three names of an intrinsic that `updateNamesAndPolicy` may change.
pub record Names : Type 0 where
  pub name : Text
  pub builtin_name : Text
  pub overloaded_name : Text

-- The library of the vector types (RISCVVIntrinsicUtils) and the generated tables. A basic type is
-- its bit, and an LMUL is its Log2LMUL + 3.
pub record Support (Proto Policy : Type 0) : Type 0 where
  pub signature_table : IntrinsicKind → List Proto
  pub records : IntrinsicKind → List Record
  pub max_offset : ℕ
  pub scheme_none : ℕ
  pub default_policy : Policy
  pub supported_unmasked_policies : List Policy
  pub supported_masked_policies : Bool → Bool → List Policy
  pub compute_builtin_types : List Proto → Bool → Bool → Bool → ℕ → ℕ → Policy → Bool → List Proto
  pub compute_types : ℕ → ℕ → ℕ → List Proto → Option (List RvvType)
  pub get_suffix_str : ℕ → ℕ → List Proto → Text
  pub update_names_and_policy : Bool → Bool → Names → Policy → Bool → Bool → Names

pub record IntrinsicDef : Type 0 where
  pub builtin_name : Text
  pub required_extensions : Text
  pub signature : List RvvType

-- IntrinsicList, Intrinsics and OverloadIntrinsics.
pub record Tables : Type 0 where
  pub intrinsic_list : List IntrinsicDef
  pub intrinsics : List (Text × ℕ)
  pub overload_intrinsics : List (Text × List ℕ)

-- `StringMap::find`.
unfoldable pub find {ℓ} : {A : Type ℓ} → Text → List (Text × A) → Option A
find k [] = none
find k ((j, a) ∷ t) = if text_eq j k then some a else find k t

-- `StringMap::insert`, which keeps the value of a key that is there.
unfoldable pub insert {ℓ} : {A : Type ℓ} → Text → A → List (Text × A) → List (Text × A)
insert k a [] = (k, a) ∷ []
insert k a ((j, b) ∷ t) =
    let rest = insert k a t in if text_eq j k then (j, b) ∷ t else (j, b) ∷ rest

-- `OverloadIntrinsics[k].Indexes.push_back(i)`.
unfoldable pub push_index : Text → ℕ → List (Text × List ℕ) → List (Text × List ℕ)
push_index k i [] = (k, i ∷ []) ∷ []
push_index k i ((j, is) ∷ t) =
    let rest = push_index k i t in if text_eq j k then (j, is ++ (i ∷ [])) ∷ t else (j, is) ∷ rest

-- `StringRef::split("_").first`.
unfoldable pub before_underscore : Text → Text
before_underscore [] = []
before_underscore (c ∷ s) = if c == b'_' then [] else c ∷ before_underscore s

unfoldable pub with_suffix : Text → Text → Text
with_suffix name [] = name
with_suffix name (c ∷ s) = name ++ (codes "_" ++ (c ∷ s))

-- The names before `updateNamesAndPolicy`.
unfoldable pub base_names : Record → Text → Text → Names
unfolding before_underscore with_suffix
base_names r suffix overloaded_suffix =
    let overloaded : Text = elim r.overloaded_name [
      | none ↦ before_underscore r.name
      | some n ↦ n
    ] in
    record {
      name = with_suffix r.name suffix;
      builtin_name = r.name;
      overloaded_name = with_suffix overloaded overloaded_suffix;
    }

-- The part of `InitRVVIntrinsic` behind the names. The index is a uint32_t; the
-- assertion that it does not wrap is no part of a release build.
unfoldable pub add_intrinsic : Names → IntrinsicDef → Tables → Tables
add_intrinsic n d t =
    let index = length t.intrinsic_list % (2 ^ 32) in
    record {
      intrinsic_list = t.intrinsic_list ++ (d ∷ []);
      intrinsics = insert n.name index t.intrinsics;
      overload_intrinsics = push_index n.overloaded_name index t.overload_intrinsics;
    }

unfoldable pub count_up : ℕ → ℕ → List ℕ
count_up from zero = []
count_up from (suc n) = from ∷ count_up (from + 1) n

module _ {Proto Policy : Type 0} (s : Support Proto Policy) where
  unfoldable pub proto_seq_to_array_ref : IntrinsicKind → ℕ → ℕ → List Proto
  proto_seq_to_array_ref k index len = take len (drop index (s.signature_table k))

  unfoldable pub init_rvv_intrinsic :
      Record → Text → Text → Bool → List RvvType → Bool → Policy → Tables → Tables
  unfolding base_names
  init_rvv_intrinsic r suffix overloaded_suffix masked signature has_policy p t =
      let names =
        s.update_names_and_policy masked has_policy (base_names r suffix overloaded_suffix) p
          r.has_frm_round_mode_op r.alt_fmt in
      add_intrinsic names
        (record {
          builtin_name = names.builtin_name;
          required_extensions = r.required_extensions;
          signature = signature;
        })
        t

  unfoldable pub policy_scheme : Record → Bool → ℕ
  policy_scheme r masked = if masked then r.masked_policy_scheme else r.unmasked_policy_scheme

  -- The types of an intrinsic of a policy.
  unfoldable pub policy_types :
      IntrinsicKind → Record → ℕ → ℕ → Bool → Policy → Option (List RvvType)
  unfolding policy_scheme proto_seq_to_array_ref
  policy_types k r base l masked p = s.compute_types base l r.nf (
      s.compute_builtin_types (proto_seq_to_array_ref k r.prototype_index r.prototype_length) masked
        (masked && r.has_masked_off_operand) r.has_vl r.nf (policy_scheme r masked) p r.is_tuple)

  unfoldable pub init_typed :
      Record → Text → Text → Bool → Policy → Tables → List RvvType → Option Tables
  unfolding policy_scheme
  init_typed r suffix overloaded_suffix masked p t types = some (
      init_rvv_intrinsic r suffix overloaded_suffix masked types
        (not (policy_scheme r masked == s.scheme_none)) p t)

  -- One turn of the loops over the policies.
  unfoldable pub init_policy :
      IntrinsicKind → Record → ℕ → ℕ → Text → Text → Bool → Policy → Tables → Option Tables
  init_policy k r base l suffix overloaded_suffix masked p t =
      policy_types k r base l masked p >>= init_typed r suffix overloaded_suffix masked p t

  -- The intrinsics with a policy, if the scheme asks for them.
  unfoldable pub init_policies :
      IntrinsicKind → Record → ℕ → ℕ → Text → Text → Bool → Tables → Option Tables
  init_policies k r base l suffix overloaded_suffix masked t =
      let policies =
        if masked
        then s.supported_masked_policies r.has_tail_policy r.has_mask_policy
        else s.supported_unmasked_policies in
      if policy_scheme r masked == s.scheme_none
      then some t
      else for_each (init_policy k r base l suffix overloaded_suffix masked) policies t

  -- The masked intrinsics, if the record has them.
  unfoldable pub init_masked : IntrinsicKind → Record → ℕ → ℕ → Text → Text → Tables → Option Tables
  init_masked k r base l suffix overloaded_suffix t =
      if r.has_masked
      then init_policy k r base l suffix overloaded_suffix true s.default_policy t
        >>= init_policies k r base l suffix overloaded_suffix true
      else some t

  -- The intrinsics of a basic type and an LMUL whose types are legal.
  unfoldable pub construct_found :
      IntrinsicKind → Record → ℕ → ℕ → Text → Text → List RvvType → Tables → Option Tables
  construct_found k r base l suffix overloaded_suffix types t =
      init_policies k r base l suffix overloaded_suffix false (
        init_rvv_intrinsic r suffix overloaded_suffix false types
          (not (r.unmasked_policy_scheme == s.scheme_none)) s.default_policy t)
      >>= init_masked k r base l suffix overloaded_suffix

  -- One turn of the loop over the LMULs.
  unfoldable pub construct_lmul : IntrinsicKind → Record → ℕ → ℕ → Tables → Option Tables
  unfolding proto_seq_to_array_ref
  construct_lmul k r base l t =
      let seq = proto_seq_to_array_ref k in
      let suffix = s.get_suffix_str base l (seq r.suffix_index r.suffix_length) in
      let overloaded_suffix =
        s.get_suffix_str base l (seq r.overloaded_suffix_index r.overloaded_suffix_size) in
      if bit_and r.log2_lmul_mask (2 ^ l) == 0
      then some t
      else if_found (policy_types k r base l false s.default_policy)
          (construct_found k r base l suffix overloaded_suffix) t

  -- One turn of the loop over the basic types.
  unfoldable pub construct_type : IntrinsicKind → Record → ℕ → Tables → Option Tables
  construct_type k r shift t =
      let base = 2 ^ shift in
      if bit_and base r.type_range_mask == base
      then for_each (construct_lmul k r base) (count_up 0 7) t
      else some t

  unfoldable pub construct_record : IntrinsicKind → Record → Tables → Option Tables
  construct_record k r t = for_each (construct_type k r) (count_up 0 (s.max_offset + 1)) t

  unfoldable pub construct_rvv_intrinsics : List Record → IntrinsicKind → Tables → Option Tables
  construct_rvv_intrinsics rs k t = for_each (construct_record k) rs t
