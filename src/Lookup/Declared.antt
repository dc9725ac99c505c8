-- ===== src/Lookup/Declared.antt =====
-- Which intrinsics are declared and constructed after pragmas and lookups
-- (phase-1-llvm/clang/lib/Parse/ParsePragma.cpp, phase-1-llvm/clang/lib/Sema/SemaLookup.cpp).
use spacemit_ime_iree_tcp.Shared.{
  ◌≡◌, ◌⊎◌, ◌↔◌, inl, inr, refl, sym, ap, ◌∙◌, subst, Bool, true, false, not, ◌&&◌, List, [], ◌∷◌,
  some, ◌>>=◌, >>=-some, for_each, for_each-keeps, arith, if◌then◌else◌,
}
use mathlib.Core.Option.{some-injective}
use mathlib.Core.Bool.{true≢false}
use spacemit_ime_iree_tcp.Intrinsics.Manager.{
  IntrinsicKind, Support, find, construct_rvv_intrinsics,
}
use spacemit_ime_iree_tcp.Intrinsics.Decl.{
  PerKind, Manager, flag, set_flag, finish, init_kind, init_intrinsic_list, kinds,
}
use spacemit_ime_iree_tcp.Intrinsics.Indices.{InBounds, add_intrinsic-InBounds}
use spacemit_ime_iree_tcp.Intrinsics.Preserve.{init_intrinsic_list-Keeps}
use spacemit_ime_iree_tcp.Lookup.Pragma.{
  Token, handle_pragma, handle_pragma_cases, handle_pragma-line, line,
}
use spacemit_ime_iree_tcp.Lookup.Builtin.{Found, SemaRiscv, Compiler, manager_of, lookup_builtin}
use spacemit_ime_iree_tcp.Lookup.Session.{
  Event, pragma, lookup, start, step, run, HasPragma, flag-set_flag, set_flag_keeps, set_flag_sets,
  Left, lookup_builtin-Left,
}

-- What is constructed is declared, or was constructed before.
abbrev Within : PerKind → Manager → Manager → Type 0
Within declare m n =
    (j : IntrinsicKind)
    → flag j n.constructed ≡ true
    → (flag j declare ≡ true) ⊎ (flag j m.constructed ≡ true)

module _ {Proto Policy : Type 0} (s : Support Proto Policy) where
  init_kind-Within :
      (declare : PerKind) (k : IntrinsicKind) (m n o : Manager)
      → init_kind s declare k n ≡ some o
      → Within declare m n
      → Within declare m o
  unfolding init_kind finish
  init_kind-Within declare k m n o h within =
      go (flag k declare && not (flag k n.constructed)) refl h
    where
      go :
          (b : Bool)
          → (flag k declare && not (flag k n.constructed)) ≡ b
          → (if b
              then construct_rvv_intrinsics s (s.records k) k n.tables >>= finish k n
              else some n)
            ≡ some o
          → Within declare m o
      go false e q = subst (Within declare m) (some-injective n o q) within
      go true e q =
          let (t, _, r) = >>=-some _ (finish k n) q in
          let same : set_flag k n.constructed ≡ o.constructed =
            ap (λ x. x.constructed) (some-injective _ o r) in
          λ j on. elim (flag-set_flag j k n.constructed (ap (flag j) same ∙ on)) [
            | inl old ↦ within j old
            | inr is ↦ inl (subst (λ i. flag i declare ≡ true) is (ground arith))
          ]

  init_intrinsic_list-Within :
      (declare : PerKind) (m n : Manager)
      → init_intrinsic_list s declare m ≡ some n
      → Within declare m n
  unfolding init_intrinsic_list
  init_intrinsic_list-Within declare m n h =
      for_each-keeps (Within declare m) _ (λ k. init_kind-Within declare k m) kinds m n h
        (λ j on. inr on)

-- The tables are in bounds, and what is constructed is declared.
abbrev pub Sound : SemaRiscv → Type 0
Sound s =
    InBounds (manager_of s.manager).tables
    × ((k : IntrinsicKind)
        → flag k (manager_of s.manager).constructed ≡ true
        → flag k s.declare ≡ true)

start-Sound : Sound start
unfolding find
start-Sound = ((λ n i e. cc, λ n. tt), λ k h. absurd (true≢false (ground arith)))

handle_pragma_keeps :
    (tokens : List Token) (d : PerKind) (k : IntrinsicKind)
    → flag k d ≡ true
    → flag k (handle_pragma tokens d).0 ≡ true
handle_pragma_keeps tokens d k h = elim (handle_pragma_cases tokens d) [
  | inl (j, _, e) ↦ ap (λ x. flag k x.0) e ∙ set_flag_keeps k j d h
  | inr (w, e) ↦ ap (λ x. flag k x.0) e ∙ h
]

off_at_start : (k : IntrinsicKind) → flag k start.declare ≡ false
off_at_start k = ground arith

within : (a b : Bool) → (a ≡ true → b ≡ true) → (a && not b) ≡ false
within true b h = ground (arith, h refl)
within false b h = refl

module _ {Q : Type 0} (c : Compiler Q) where
  Left-Sound :
      (s : SemaRiscv) (a : (Bool × List (Found Q)) × SemaRiscv) → Left c s a → Sound s → Sound a.1
  Left-Sound s a (inl e) sound = subst Sound (sym e) sound
  Left-Sound s a (inr (m, h, e)) sound = subst Sound (sym e) (
    init_intrinsic_list-Keeps c.support InBounds add_intrinsic-InBounds s.declare
        (manager_of s.manager) m h sound.0,
    λ k on. elim (init_intrinsic_list-Within c.support s.declare (manager_of s.manager) m h k on) [
      | inl d ↦ d
      | inr old ↦ sound.1 k old
    ],
  )

  Left-declare :
      (s : SemaRiscv) (a : (Bool × List (Found Q)) × SemaRiscv)
      → Left c s a
      → a.1.declare ≡ s.declare
  Left-declare s a (inl e) = ap (λ u. u.declare) e
  Left-declare s a (inr (m, h, e)) = ap (λ u. u.declare) e

  pub step-Sound : (e : Event) (s t : SemaRiscv) → step c e s ≡ some t → Sound s → Sound t
  step-Sound (pragma tokens) s t h sound =
      subst Sound (some-injective _ t h)
        (sound.0, λ k on. handle_pragma_keeps tokens s.declare k (sound.1 k on))
  step-Sound (lookup kind name r) s t h sound =
      let (a, e, rest) = >>=-some (lookup_builtin c kind name r s) (λ x. some x.1) h in
      subst Sound (some-injective a.1 t rest)
        (Left-Sound s a (lookup_builtin-Left c kind name r s a e) sound)

  -- After any pragmas and lookups, the intrinsics of a kind are constructed only if the kind is
  -- declared, and both maps of the manager hold indices of definitions only.
  pub run-Sound : (events : List Event) (s : SemaRiscv) → run c events start ≡ some s → Sound s
  unfolding run
  run-Sound events s h = for_each-keeps Sound (step c) step-Sound events start s h start-Sound

  step_declares :
      (e : Event) (s t : SemaRiscv) (k : IntrinsicKind)
      → step c e s ≡ some t
      → flag k t.declare ≡ true
      → (flag k s.declare ≡ true) ⊎ (e ≡ pragma (line k))
  step_declares (pragma tokens) s t k h on =
      let now : flag k (handle_pragma tokens s.declare).0 ≡ true =
        ap (λ u. flag k u.declare) (some-injective _ t h) ∙ on in
      elim (handle_pragma_cases tokens s.declare) [
        | inl (j, at, e) ↦ elim (flag-set_flag k j s.declare (sym (ap (λ x. flag k x.0) e) ∙ now)) [
          | inl old ↦ inl old
          | inr is ↦ inr (ap pragma at ∙ ap (λ i. pragma (line i)) is)
        ]
        | inr (w, e) ↦ inl (sym (ap (λ x. flag k x.0) e) ∙ now)
      ]
  step_declares (lookup kind name r) s t k h on =
      let (a, e, rest) = >>=-some (lookup_builtin c kind name r s) (λ x. some x.1) h in
      let same : t.declare ≡ s.declare =
        ap (λ u. u.declare) (sym (some-injective a.1 t rest))
        ∙ Left-declare s a (lookup_builtin-Left c kind name r s a e) in
      inl (ap (flag k) (sym same) ∙ on)

  run_declares :
      (events : List Event) (s t : SemaRiscv) (k : IntrinsicKind)
      → run c events s ≡ some t
      → flag k t.declare ≡ true
      → (flag k s.declare ≡ true) ⊎ HasPragma k events
  unfolding run
  run_declares [] s t k h on = inl (ap (λ u. flag k u.declare) (some-injective s t h) ∙ on)
  run_declares (e ∷ es) s t k h on =
      let (u, d, rest) = >>=-some (step c e s) (λ v. for_each (step c) es v) h in
      elim (run_declares es u t k rest on) [
        | inl before ↦ elim (step_declares e s u k d before) [
          | inl old ↦ inl old
          | inr at ↦ inr (inl at)
        ]
        | inr later ↦ inr (inr later)
      ]

  pub step_keeps_declared :
      (k : IntrinsicKind) (e : Event) (s t : SemaRiscv)
      → step c e s ≡ some t
      → flag k s.declare ≡ true
      → flag k t.declare ≡ true
  step_keeps_declared k (pragma tokens) s t h on =
      ap (λ u. flag k u.declare) (sym (some-injective _ t h))
      ∙ handle_pragma_keeps tokens s.declare k on
  step_keeps_declared k (lookup kind name r) s t h on =
      let (a, e, rest) = >>=-some (lookup_builtin c kind name r s) (λ x. some x.1) h in
      ap (λ u. flag k u.declare) (sym (some-injective a.1 t rest))
      ∙ ap (flag k) (Left-declare s a (lookup_builtin-Left c kind name r s a e))
      ∙ on

  pub run_declared :
      (events : List Event) (s t : SemaRiscv) (k : IntrinsicKind)
      → run c events s ≡ some t
      → HasPragma k events
      → flag k t.declare ≡ true
  unfolding run
  run_declared [] s t k h p = elim p [ ]
  run_declared (e ∷ es) s t k h p =
      let (u, d, rest) = >>=-some (step c e s) (λ v. for_each (step c) es v) h in
      elim p [
        | inl at ↦
            for_each-keeps (λ v. flag k v.declare ≡ true) (step c) (step_keeps_declared k) es u t
              rest
              (let here : step c (pragma (line k)) s ≡ some u = ap (λ x. step c x s) (sym at) ∙ d in
                ap (λ v. flag k v.declare) (sym (some-injective _ u here))
                ∙ ap (λ x. flag k x.0) (handle_pragma-line k s.declare)
                ∙ set_flag_sets k s.declare)
        | inr later ↦ run_declared es u t k rest later
      ]

  -- After pragmas and lookups that come to an end, a kind is declared exactly if its pragma was among
  -- them, and its intrinsics are constructed only then.
  pub run_declares_iff :
      (events : List Event) (s : SemaRiscv) (k : IntrinsicKind)
      → run c events start ≡ some s
      → ((flag k s.declare ≡ true) ↔ HasPragma k events)
        × ((flag k (manager_of s.manager).constructed && not (flag k s.declare)) ≡ false)
  run_declares_iff events s k h = (
    (
      λ on. elim (run_declares events start s k h on) [
        | inl off ↦ absurd (true≢false (sym off ∙ off_at_start k))
        | inr p ↦ p
      ],
      run_declared events start s k h,
    ),
    within (flag k (manager_of s.manager).constructed) (flag k s.declare)
        ((run-Sound events s h).1 k),
  )
