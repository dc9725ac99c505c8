-- ===== src/Intrinsics/Indices.antt =====
-- The maps of the intrinsic manager (phase-1-llvm/clang/lib/Sema/SemaRISCV.cpp): what they hold
-- after an insertion.
use Prim.Native.Nat.{zero, suc}
use spacemit_ime_iree_tcp.Shared.{
  ℕ, ◌+◌, ◌%◌, ◌^◌, ◌≡◌, ◌<◌, ◌≤◌, ◌⊎◌, ap, sym, ◌∙◌, refl, subst, Bool, true, false, List, [], ◌∷◌,
  ◌++◌, Option, none, some, Text, text_eq, text_eq_refl, text_eq_sound, ◌==◌, if◌then◌else◌,
  Bool-cases, inl, inr, length, get_elem?, length-append, All, any, arith, ◌||◌,
}
use mathlib.Core.Bool.{true≢false}
use mathlib.Core.Option.{some-injective}
use spacemit_ime_iree_tcp.Intrinsics.Manager.{
  Names, IntrinsicDef, Tables, find, insert, push_index, add_intrinsic,
}

-- The indices of a key that may be missing.
abbrev pub indexes : Option (List ℕ) → List ℕ
indexes none = []
indexes (some is) = is

abbrev pub kept {ℓ} : {A : Type ℓ} → A → Option A → A
kept a none = a
kept a (some b) = b

other_key : (i k j : Text) → text_eq i k ≡ false → text_eq i j ≡ true → text_eq k j ≡ false
other_key i k j e f = elim (Bool-cases (text_eq k j)) [
  | inl g ↦ absurd (
      true≢false (
        sym (text_eq_refl i)
        ∙ ap (text_eq i) (text_eq_sound i j f ∙ sym (text_eq_sound k j g))
        ∙ e))
  | inr g ↦ g
]

pub find-insert {ℓ} :
    {A : Type ℓ} (k j : Text) (a : A) (t : List (Text × A))
    → find j (insert k a t) ≡ (if text_eq k j then some (kept a (find j t)) else find j t)
unfolding find insert
find-insert k j a [] = refl
find-insert k j a ((i, b) ∷ t) = elim (Bool-cases (text_eq i k)) [
  | inl e ↦
      let same_key : i ≡ k = text_eq_sound i k e in
      rw e (rw same_key (elim (Bool-cases (text_eq k j)) [ inl f ↦ rw f refl | inr f ↦ rw f refl ]))
  | inr e ↦
      let rest = find-insert k j a t in
      rw e (elim (Bool-cases (text_eq i j)) [
        | inl f ↦ rw (f, other_key i k j e f) refl
        | inr f ↦ rw f rest
      ])
]

pub find-push_index :
    (k j : Text) (n : ℕ) (t : List (Text × List ℕ))
    → find j (push_index k n t)
      ≡ (if text_eq k j then some (indexes (find j t) ++ (n ∷ [])) else find j t)
unfolding find push_index
find-push_index k j n [] = refl
find-push_index k j n ((i, b) ∷ t) = elim (Bool-cases (text_eq i k)) [
  | inl e ↦
      let same_key : i ≡ k = text_eq_sound i k e in
      rw e (rw same_key (elim (Bool-cases (text_eq k j)) [ inl f ↦ rw f refl | inr f ↦ rw f refl ]))
  | inr e ↦
      let rest = find-push_index k j n t in
      rw e (elim (Bool-cases (text_eq i j)) [
        | inl f ↦ rw (f, other_key i k j e f) refl
        | inr f ↦ rw f rest
      ])
]

-- Every index that the maps hold is the index of a definition.
abbrev pub InBounds : Tables → Type 0
InBounds t =
    ((n : Text) (i : ℕ) → find n t.intrinsics ≡ some i → i < length t.intrinsic_list)
    × ((n : Text) → All (λ i. i < length t.intrinsic_list) (indexes (find n t.overload_intrinsics)))

index_lt : (n : ℕ) → n % (2 ^ 32) < n + 1
index_lt n = omega arith

All-push :
    (m n i : ℕ) (is : List ℕ)
    → m ≤ n
    → i < n
    → All (λ j. j < m) is
    → All (λ j. j < n) (is ++ (i ∷ []))
All-push m n i [] le lt h = (lt, tt)
All-push m n i (j ∷ is) le lt h = (omega (arith, h.0), All-push m n i is le lt h.1)

All-weaken : (m n : ℕ) (is : List ℕ) → m ≤ n → All (λ j. j < m) is → All (λ j. j < n) is
All-weaken m n [] le h = tt
All-weaken m n (j ∷ is) le h = (omega (arith, h.0), All-weaken m n is le h.1)

-- A lookup behind a choice by a Boolean.
find-if {ℓ} :
    {A : Type ℓ} (b : Bool) (new old : Option A) (a : A)
    → (if b then new else old) ≡ some a
    → (new ≡ some a) ⊎ (old ≡ some a)
find-if true new old a h = inl h
find-if false new old a h = inr h

pub add_intrinsic-InBounds :
    (n : Names) (d : IntrinsicDef) (t : Tables) → InBounds t → InBounds (add_intrinsic n d t)
unfolding add_intrinsic
add_intrinsic-InBounds n d t h = (direct, overloaded)
  where
    new : ℕ
    new = length t.intrinsic_list % (2 ^ 32)

    larger : length (t.intrinsic_list ++ (d ∷ [])) ≡ length t.intrinsic_list + 1
    larger = length-append t.intrinsic_list (d ∷ []) ∙ omega arith

    fresh : new < length (t.intrinsic_list ++ (d ∷ []))
    fresh = subst (λ m. new < m) (sym larger) (index_lt (length t.intrinsic_list))

    old_index :
        (k : Text) (i : ℕ) (o : Option ℕ)
        → find k t.intrinsics ≡ o
        → kept new o ≡ i
        → i < length (t.intrinsic_list ++ (d ∷ []))
    old_index k i none e q = subst (λ m. m < length (t.intrinsic_list ++ (d ∷ []))) q fresh
    old_index k i (some j) e q = omega (arith, h.0 k j e, larger, q)

    direct :
        (k : Text) (i : ℕ)
        → find k (insert n.name new t.intrinsics) ≡ some i
        → i < length (t.intrinsic_list ++ (d ∷ []))
    direct k i e =
        elim (find-if (text_eq n.name k) _ _ i (sym (find-insert n.name k new t.intrinsics) ∙ e)) [
          | inl q ↦ old_index k i (find k t.intrinsics) refl (some-injective _ i q)
          | inr q ↦ omega (arith, h.0 k i q, larger)
        ]

    overloaded :
        (k : Text)
        → All
            (λ i. i < length (t.intrinsic_list ++ (d ∷ [])))
            (indexes (find k (push_index n.overloaded_name new t.overload_intrinsics)))
    overloaded k = rw find-push_index (elim (Bool-cases (text_eq n.overloaded_name k)) [
      | inl e ↦ rw e (All-push _ _ new _ (omega (arith, larger)) fresh (h.1 k))
      | inr e ↦ rw e (All-weaken _ _ _ (omega (arith, larger)) (h.1 k))
    ])

abbrev pub contains : ℕ → List ℕ → Bool
contains i = any (λ j. j == i)

contains-push : (i j : ℕ) (is : List ℕ) → contains i (is ++ (j ∷ [])) ≡ (contains i is || j == i)
contains-push i j [] = ground arith
contains-push i j (k ∷ is) = ground (arith, contains-push i j is)

-- An index that a key has stays when another is pushed.
push-contains :
    (b : Bool) (i j : ℕ) (o : Option (List ℕ))
    → contains i (indexes o) ≡ true
    → contains i (indexes (if b then some (indexes o ++ (j ∷ [])) else o)) ≡ true
push-contains true i j o e = contains-push i j (indexes o) ∙ ground (arith, e)
push-contains false i j o e = e

-- Every definition is under some overloaded name.
abbrev pub Listed : Tables → ℕ → Type 0
Listed t i = (n : Text) × (contains i (indexes (find n t.overload_intrinsics)) ≡ true)

abbrev pub AllListed : Tables → Type 0
AllListed t = length t.intrinsic_list ≤ 2 ^ 32 → (i : ℕ) → i < length t.intrinsic_list → Listed t i

pub add_intrinsic-AllListed :
    (n : Names) (d : IntrinsicDef) (t : Tables) → AllListed t → AllListed (add_intrinsic n d t)
unfolding add_intrinsic
add_intrinsic-AllListed n d t h small i lt =
    let m = length t.intrinsic_list in
    let larger : length (t.intrinsic_list ++ (d ∷ [])) ≡ m + 1 =
      length-append t.intrinsic_list (d ∷ []) ∙ omega arith in
    let same_index : m % (2 ^ 32) ≡ m = omega (arith, larger, small) in
    let before : (i < m) ⊎ (i ≡ m) = omega (arith, larger, lt) in
    elim before [
      | inl old ↦
          let (k, e) = h (omega (arith, larger, small)) i old in
          (
            k,
            rw find-push_index (
                push-contains (text_eq n.overloaded_name k) i (m % (2 ^ 32))
                  (find k t.overload_intrinsics) e),
          )
      | inr new ↦ (
        n.overloaded_name,
        rw find-push_index (
            rw (text_eq_refl n.overloaded_name)
              (contains-push i _ _ ∙ ground (arith, new, same_index))),
      )
    ]

if_same {ℓ} : {A : Type ℓ} (b : Bool) (a : A) → (if b then a else a) ≡ a
if_same true a = refl
if_same false a = refl

-- Whatever the maps and the list held before, they hold still.
pub record Extends (s t : Tables) : Type 0 where
  pub list :
      (i : ℕ) (d : IntrinsicDef)
      → get_elem? s.intrinsic_list i ≡ some d
      → get_elem? t.intrinsic_list i ≡ some d
  pub names : (n : Text) (i : ℕ) → find n s.intrinsics ≡ some i → find n t.intrinsics ≡ some i
  pub overloads :
      (n : Text) (i : ℕ)
      → contains i (indexes (find n s.overload_intrinsics)) ≡ true
      → contains i (indexes (find n t.overload_intrinsics)) ≡ true

get_elem?-append_some {ℓ} :
    {A : Type ℓ} (xs ys : List A) (i : ℕ) (a : A)
    → get_elem? xs i ≡ some a
    → get_elem? (xs ++ ys) i ≡ some a
get_elem?-append_some [] ys i a h = cc
get_elem?-append_some (x ∷ xs) ys zero a h = h
get_elem?-append_some (x ∷ xs) ys (suc i) a h = get_elem?-append_some xs ys i a h

pub add_intrinsic-Extends :
    (s : Tables) (n : Names) (d : IntrinsicDef) (t : Tables)
    → Extends s t
    → Extends s (add_intrinsic n d t)
unfolding add_intrinsic
add_intrinsic-Extends s n d t h = record {
  list = λ i x e. get_elem?-append_some _ (d ∷ []) i x (h.list i x e);
  names = λ k i e.
      rw (find-insert n.name k (length t.intrinsic_list % (2 ^ 32)) t.intrinsics)
        (rw (h.names k i e) (if_same (text_eq n.name k) (some i)));
  overloads = λ k i e. rw find-push_index (
      push-contains (text_eq n.overloaded_name k) i (length t.intrinsic_list % (2 ^ 32))
        (find k t.overload_intrinsics) (h.overloads k i e));
}
