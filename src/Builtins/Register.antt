-- ===== src/Builtins/Register.antt =====
-- `Builtin::Context::initializeBuiltins` of phase-1-llvm/clang/lib/Basic/Builtins.cpp: the identifier
-- table gets the ID of each supported builtin, and loses those of -fno-builtin-foo.
use spacemit_ime_iree_tcp.Shared.{
  ℕ, ◌+◌, Bool, true, false, not, ◌&&◌, List, [], ◌∷◌, Option, none, some, Text, codes, text_eq,
  consume_front, ◌==◌, if◌then◌else◌, same,
}
use spacemit_ime_iree_tcp.Builtins.Table.{Info, Shard, Context, full_name}
use spacemit_ime_iree_tcp.Builtins.Supported.{LangOptions, LanguageIds, builtin_is_supported}

-- The identifiers seen so far, each with its builtin ID; 0 is `NotBuiltin`.
abbrev pub IdentifierTable : Type 0
IdentifierTable = List (Text × ℕ)

unfoldable pub lookup : Text → IdentifierTable → Option ℕ
lookup k [] = none
lookup k ((j, id) ∷ t) = if text_eq j k then some id else lookup k t

-- `Table.get(name).setBuiltinID(id)`.
unfoldable pub set_builtin_id : Text → ℕ → IdentifierTable → IdentifierTable
set_builtin_id k id [] = (k, id) ∷ []
set_builtin_id k id ((j, old) ∷ t) =
    if text_eq j k then (j, id) ∷ t else (j, old) ∷ set_builtin_id k id t

-- The loops over the records of a list of shards: the counter and the table.
unfoldable pub register_infos :
    (ℕ → Info → Bool) → Shard → List Info → ℕ → IdentifierTable → ℕ × IdentifierTable
register_infos wanted s [] id t = (id, t)
register_infos wanted s (i ∷ is) id t =
    register_infos wanted s is (id + 1)
      (if wanted id i then set_builtin_id (full_name s i) id t else t)

unfoldable pub register_shards :
    (ℕ → Info → Bool) → List Shard → ℕ × IdentifierTable → ℕ × IdentifierTable
unfolding register_infos
register_shards wanted [] st = st
register_shards wanted (s ∷ ss) st =
    register_shards wanted ss (register_infos wanted s s.infos st.0 st.1)

-- What Builtins.h computes from a builtin's attributes.
pub record Attributes : Type 0 where
  pub is_predefined_lib_function : ℕ → Bool
  pub is_in_std_namespace : ℕ → Bool

-- The name without its prefix "std-", and whether it had one.
unfoldable pub split_std : Text → Bool × Text
split_std name = elim (consume_front (codes "std-") name) [
  | none ↦ (false, name)
  | some rest ↦ (true, rest)
]

-- Step 4 for one name of -fno-builtin.
unfoldable pub unregister : Attributes → Text → IdentifierTable → IdentifierTable
unregister a name t =
    let key = split_std name in
    elim (lookup key.1 t) [
      | none ↦ t
      | some id ↦
          if not (id == 0)
            && (a.is_predefined_lib_function id && same (a.is_in_std_namespace id) key.0)
          then set_builtin_id key.1 0 t
          else t
    ]

unfoldable pub unregister_all : Attributes → List Text → IdentifierTable → IdentifierTable
unregister_all a [] t = t
unregister_all a (n ∷ ns) t = unregister_all a ns (unregister a n t)

unfoldable pub initialize_builtins :
    LanguageIds → Attributes → Context → LangOptions → List Text → IdentifierTable → IdentifierTable
unfolding register_shards
initialize_builtins l a ctx o no_builtin_funcs t =
    let generic =
      register_shards (λ id i. not (id == 0) && builtin_is_supported l i o) ctx.builtin_shards
        (0, t) in
    let target = register_shards (λ id i. builtin_is_supported l i o) ctx.target_shards generic in
    let aux = register_shards (λ id i. true) ctx.aux_shards target in
    unregister_all a no_builtin_funcs aux.1
