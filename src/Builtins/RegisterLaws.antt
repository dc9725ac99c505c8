-- ===== src/Builtins/RegisterLaws.antt =====
-- The identifier table after `initializeBuiltins`
-- (phase-1-llvm/clang/lib/Basic/Builtins.cpp): an ID names the identifier that carries it.
use spacemit_ime_iree_tcp.Shared.{
  ℕ, ◌+◌, ◌≡◌, ◌≢◌, ◌⊎◌, refl, sym, ap, ◌∙◌, subst, Bool, true, false, not, ◌&&◌, List, [], ◌∷◌,
  ◌++◌, Option, none, some, arith, Text, text_eq, text_eq_refl, text_eq_sound, append-nil, length,
  get_elem?, length-append, get_elem?-append_right, append_assoc, ◌==◌, if◌then◌else◌, Bool-cases,
  inl, inr,
}
use mathlib.Core.Bool.{true≢false}
use spacemit_ime_iree_tcp.Builtins.Table.{
  Info, Shard, Context, full_name, entries, tagged, all_entries, length-tagged,
}
use spacemit_ime_iree_tcp.Builtins.Supported.{LangOptions, LanguageIds, builtin_is_supported}
use spacemit_ime_iree_tcp.Builtins.Register.{
  IdentifierTable, lookup, set_builtin_id, register_infos, register_shards, Attributes, unregister,
  split_std, unregister_all, initialize_builtins,
}

lookup-set_builtin_id :
    (k j : Text) (id : ℕ) (t : IdentifierTable)
    → lookup j (set_builtin_id k id t) ≡ (if text_eq k j then some id else lookup j t)
unfolding lookup set_builtin_id
lookup-set_builtin_id k j id [] = refl
lookup-set_builtin_id k j id ((i, old) ∷ t) = elim (Bool-cases (text_eq i k)) [
  | inl e ↦
      let same_key : i ≡ k = text_eq_sound i k e in
      rw e (rw same_key (elim (Bool-cases (text_eq k j)) [ inl f ↦ rw f refl | inr f ↦ rw f refl ]))
  | inr e ↦
      let rest : lookup j (set_builtin_id k id t) ≡ (if text_eq k j then some id else lookup j t) =
        lookup-set_builtin_id k j id t in
      rw e (elim (Bool-cases (text_eq i j)) [
        | inl f ↦ rw f (elim (Bool-cases (text_eq k j)) [
          | inl g ↦ absurd (
              true≢false (
                sym (text_eq_refl i)
                ∙ ap (text_eq i) (text_eq_sound i j f ∙ sym (text_eq_sound k j g))
                ∙ e))
          | inr g ↦ rw g refl
        ])
        | inr f ↦ rw f rest
      ])
]

-- Each entry of a table that is not 0 is the position of a record with the entry's name.
abbrev Named : List (Shard × Info) → IdentifierTable → Type 0
Named es t =
    (k : Text) (id : ℕ)
    → lookup k t ≡ some id
    → (id ≡ 0) ⊎ ((r : Shard × Info) × (get_elem? es id ≡ some r) × (full_name r.0 r.1 ≡ k))

-- What `Named` says of one entry.
abbrev Names : List (Shard × Info) → Text → ℕ → Type 0
Names es k id =
    (id ≡ 0) ⊎ ((r : Shard × Info) × (get_elem? es id ≡ some r) × (full_name r.0 r.1 ≡ k))

set_builtin_id-Named :
    (es : List (Shard × Info)) (k : Text) (id : ℕ) (t : IdentifierTable)
    → Names es k id
    → Named es t
    → Named es (set_builtin_id k id t)
set_builtin_id-Named es k id t new old j n h =
    choose (Bool-cases (text_eq k j)) (sym (lookup-set_builtin_id k j id t) ∙ h)
  where
    choose :
        (text_eq k j ≡ true) ⊎ (text_eq k j ≡ false)
        → (if text_eq k j then some id else lookup j t) ≡ some n
        → Names es j n
    choose (inl e) q =
        let same_id : id ≡ n = ground (arith, q, e) in
        subst (λ i. Names es j i) same_id (subst (λ i. Names es i id) (text_eq_sound k j e) new)
    choose (inr e) q = let before : lookup j t ≡ some n = ground (arith, q, e) in old j n before

set_if-Named :
    (b : Bool) (es : List (Shard × Info)) (k : Text) (id : ℕ) (t : IdentifierTable)
    → Names es k id
    → Named es t
    → Named es (if b then set_builtin_id k id t else t)
set_if-Named true es k id t new old = set_builtin_id-Named es k id t new old
set_if-Named false es k id t new old = old

register_infos-Named :
    (wanted : ℕ → Info → Bool) (s : Shard) (is : List Info) (t : IdentifierTable)
    (es pre post : List (Shard × Info)) (id : ℕ)
    → es ≡ pre ++ (tagged s is ++ post)
    → id ≡ length pre
    → Named es t
    → Named es (register_infos wanted s is id t).1
      × ((register_infos wanted s is id t).0 ≡ id + length is)
unfolding register_infos
register_infos-Named wanted s [] t es pre post id at len h = (h, omega arith)
register_infos-Named wanted s (i ∷ is) t es pre post id at len h =
    let here : get_elem? es id ≡ some (s, i) =
      ap (λ l. get_elem? l id) at
      ∙ get_elem?-append_right pre _ id (omega arith)
      ∙ ap (get_elem? ((s, i) ∷ (tagged s is ++ post))) {y = 0} (omega arith) in
    let next : Named es (if wanted id i then set_builtin_id (full_name s i) id t else t) =
      set_if-Named (wanted id i) es (full_name s i) id t (inr ((s, i), here, refl)) h in
    let rest =
      register_infos-Named wanted s is _ es (pre ++ ((s, i) ∷ [])) post (id + 1)
        (at ∙ sym (append_assoc pre ((s, i) ∷ []) (tagged s is ++ post)))
        (omega (arith, length-append pre ((s, i) ∷ []))) next in
    (rest.0, omega (arith, rest.1))

register_shards-Named :
    (wanted : ℕ → Info → Bool) (ss : List Shard) (st : ℕ × IdentifierTable)
    (es pre post : List (Shard × Info))
    → es ≡ pre ++ (entries ss ++ post)
    → st.0 ≡ length pre
    → Named es st.1
    → Named es (register_shards wanted ss st).1
      × ((register_shards wanted ss st).0 ≡ length (pre ++ entries ss))
unfolding register_shards
register_shards-Named wanted [] st es pre post at len h = (h, omega (arith, length-append pre []))
register_shards-Named wanted (s ∷ ss) st es pre post at len h =
    let here = tagged s s.infos in
    let one =
      register_infos-Named wanted s s.infos st.1 es pre (entries ss ++ post) st.0
        (at ∙ ap (λ l. pre ++ l) (append_assoc here (entries ss) post)) len h in
    let rest =
      register_shards-Named wanted ss (register_infos wanted s s.infos st.0 st.1) es (pre ++ here)
        post
        (at
          ∙ ap (λ l. pre ++ l) (append_assoc here (entries ss) post)
          ∙ sym (append_assoc pre here (entries ss ++ post)))
        (omega (arith, one.1, length-append pre here, length-tagged s s.infos)) one.0 in
    (rest.0, rest.1 ∙ ap length (append_assoc pre here (entries ss)))

unregister-Named :
    (a : Attributes) (name : Text) (es : List (Shard × Info)) (t : IdentifierTable)
    → Named es t
    → Named es (unregister a name t)
unfolding unregister
unregister-Named a name es t h = choose (lookup (split_std name).1 t) refl
  where
    choose :
        (found : Option ℕ) → lookup (split_std name).1 t ≡ found → Named es (unregister a name t)
    choose none e = rw (e, unregister) h
    choose (some id) e = rw (e, unregister) (set_if-Named _ es (split_std name).1 0 t (inl refl) h)

unregister_all-Named :
    (a : Attributes) (names : List Text) (es : List (Shard × Info)) (t : IdentifierTable)
    → Named es t
    → Named es (unregister_all a names t)
unfolding unregister_all
unregister_all-Named a [] es t h = h
unregister_all-Named a (n ∷ ns) es t h =
    unregister_all-Named a ns es (unregister a n t) (unregister-Named a n es t h)

empty-Named : (es : List (Shard × Info)) → Named es []
unfolding lookup
empty-Named es k id h = cc

-- After the builtins are registered into a table of no builtins, each identifier that carries an ID
-- other than 0 carries the position of a builtin of that very name, its shard's prefix included, in
-- the sequence of all records: the target-independent ones, the target's and the auxiliary target's.
-- So whatever -fno-builtin asks for, no identifier ever names another builtin.
pub initialize_builtins-names :
    (l : LanguageIds) (a : Attributes) (ctx : Context) (o : LangOptions)
    (no_builtin_funcs : List Text) (k : Text) (id : ℕ)
    → id ≢ 0
    → lookup k (initialize_builtins l a ctx o no_builtin_funcs []) ≡ some id
    → (r : Shard × Info) × (get_elem? (all_entries ctx) id ≡ some r) × (full_name r.0 r.1 ≡ k)
unfolding initialize_builtins
initialize_builtins-names l a ctx o no_builtin_funcs k id nonzero h =
    let es = all_entries ctx in
    let main = entries ctx.builtin_shards in
    let target = entries ctx.target_shards in
    let aux = entries ctx.aux_shards in
    let one =
      register_shards-Named (λ n i. not (n == 0) && builtin_is_supported l i o) ctx.builtin_shards
        (0, []) es [] (target ++ aux) refl refl (empty-Named es) in
    let two =
      register_shards-Named (λ n i. builtin_is_supported l i o) ctx.target_shards _ es main aux refl
        one.1 one.0 in
    let three =
      register_shards-Named (λ n i. true) ctx.aux_shards _ es (main ++ target) []
        (sym (append_assoc main target aux)
          ∙ sym (ap (λ l. (main ++ target) ++ l) (append-nil aux)))
        two.1 two.0 in
    elim (unregister_all-Named a no_builtin_funcs es _ three.0 k id h) [
      | inl z ↦ absurd (nonzero z)
      | inr r ↦ r
    ]
