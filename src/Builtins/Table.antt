-- ===== src/Builtins/Table.antt =====
-- Shards of builtin records and the lookup of a record by its ID: `Builtin::Context` of
-- phase-1-llvm/clang/lib/Basic/Builtins.cpp. A record holds the strings that its offsets name in the
-- generated string table of its shard.
use spacemit_ime_iree_tcp.Shared.{
  ℕ, zero, suc, ◌+◌, ◌-◌, ◌<◌, ◌≤◌, ◌≡◌, refl, ap, ◌∙◌, Bool, List, [], ◌∷◌, ◌++◌, Option, none,
  some, arith, Text, codes, length, get_elem?, length-append, get_elem?-append_left,
  get_elem?-append_right, ltb, leb, if◌then◌else◌, Bool-cases, inl, inr, sym, ltb→lt,
}
use mathlib.Core.Option

pub record Info : Type 0 where
  pub name : Text
  pub type_string : Text
  pub attributes : Text
  pub features : Text
  pub header : ℕ
  pub langs : ℕ

pub record Shard : Type 0 where
  pub name_prefix : Text
  pub infos : List Info

pub record Context : Type 0 where
  pub builtin_shards : List Shard
  pub target_shards : List Shard
  pub aux_shards : List Shard
  pub num_target : ℕ
  pub num_aux : ℕ

-- What the class takes from the header clang/Basic/Builtins.h: the first target-specific ID, and how
-- an ID of the auxiliary target is told and mapped to the target's numbering.
pub record Header : Type 0 where
  pub first_ts_builtin : ℕ
  pub is_aux_builtin_id : Context → ℕ → Bool
  pub get_aux_builtin_id : Context → ℕ → ℕ

-- The linear search over the shards; `none` is the unreachable end.
unfoldable pub find_info : List Shard → ℕ → Option (Shard × Info)
find_info [] id = none
find_info (s ∷ ss) id =
    let rest = find_info ss (id - length s.infos) in
    if ltb id (length s.infos) then Option.map (λ i. (s, i)) (get_elem? s.infos id) else rest

unfoldable pub get_shard_and_info : Header → Context → ℕ → Option (Shard × Info)
get_shard_and_info h ctx id =
    if h.is_aux_builtin_id ctx id
    then find_info ctx.aux_shards (h.get_aux_builtin_id ctx id - h.first_ts_builtin)
    else if leb h.first_ts_builtin id
    then find_info ctx.target_shards (id - h.first_ts_builtin)
    else find_info ctx.builtin_shards id

abbrev pub full_name : Shard → Info → Text
full_name s i = s.name_prefix ++ i.name

unfoldable pub get_name : Header → Context → ℕ → Option Text
get_name h ctx id = Option.map (λ r. full_name r.0 r.1) (get_shard_and_info h ctx id)

unfoldable pub get_quoted_name : Header → Context → ℕ → Option Text
get_quoted_name h ctx id =
    Option.map (λ r. codes "'" ++ (r.0.name_prefix ++ (r.1.name ++ codes "'")))
      (get_shard_and_info h ctx id)

unfoldable pub count_infos : ℕ → List Shard → ℕ
count_infos n [] = n
count_infos n (s ∷ ss) = count_infos (n + length s.infos) ss

-- `Builtin::Context::InitializeTarget`, on a context without target shards: the target's shards and
-- those of the auxiliary target, if there is one.
unfoldable pub initialize_target : Context → List Shard → Option (List Shard) → Context
initialize_target ctx target none = record ctx {
  target_shards = target;
  num_target = count_infos ctx.num_target target;
}
initialize_target ctx target (some aux) = record ctx {
  target_shards = target;
  num_target = count_infos ctx.num_target target;
  aux_shards = aux;
  num_aux = count_infos ctx.num_aux aux;
}

-- The records of a shard, each with the shard.
abbrev pub tagged : Shard → List Info → List (Shard × Info)
tagged s [] = []
tagged s (i ∷ is) = (s, i) ∷ tagged s is

-- All records in the order of their IDs.
abbrev pub entries : List Shard → List (Shard × Info)
entries [] = []
entries (s ∷ ss) = tagged s s.infos ++ entries ss

abbrev pub all_entries : Context → List (Shard × Info)
all_entries ctx =
    entries ctx.builtin_shards ++ (entries ctx.target_shards ++ entries ctx.aux_shards)

-- What Builtins.h promises, and the counts that the static assertions and `InitializeTarget` give.
pub record WellFormed (h : Header) (ctx : Context) : Type 0 where
  pub first : h.first_ts_builtin ≡ length (entries ctx.builtin_shards)
  pub target : ctx.num_target ≡ length (entries ctx.target_shards)
  pub aux : ctx.num_aux ≡ length (entries ctx.aux_shards)
  pub is_aux : (id : ℕ) → h.is_aux_builtin_id ctx id ≡ leb (h.first_ts_builtin + ctx.num_target) id
  pub aux_id : (id : ℕ) → h.get_aux_builtin_id ctx id ≡ id - ctx.num_target

get_elem?-tagged :
    (s : Shard) (is : List Info) (i : ℕ)
    → Option.map {B = Shard × Info} (λ x. (s, x)) (get_elem? is i) ≡ get_elem? (tagged s is) i
get_elem?-tagged s [] i = refl
get_elem?-tagged s (x ∷ is) zero = refl
get_elem?-tagged s (x ∷ is) (suc i) = get_elem?-tagged s is i

pub length-tagged : (s : Shard) (is : List Info) → length (tagged s is) ≡ length is
length-tagged s [] = refl
length-tagged s (x ∷ is) = ap suc (length-tagged s is)

find_info-entries : (ss : List Shard) (id : ℕ) → find_info ss id ≡ get_elem? (entries ss) id
unfolding find_info
find_info-entries [] id = refl
find_info-entries (s ∷ ss) id = elim (Bool-cases (ltb id (length s.infos))) [
  | inl here ↦ rw here (
      get_elem?-tagged s s.infos id
      ∙ sym (
          get_elem?-append_left _ (entries ss) id
            (omega (arith, length-tagged s s.infos, ltb→lt _ _ here))))
  | inr later ↦
      let past : length s.infos ≤ id = ground arith in
      let e : length (tagged s s.infos) ≡ length s.infos = length-tagged s s.infos in
      rw later (
        find_info-entries ss (id - length s.infos)
        ∙ ap (λ n. get_elem? (entries ss) (id - n)) (sym e)
        ∙ sym (get_elem?-append_right _ (entries ss) id (omega (arith, e))))
]

count_infos-entries : (n : ℕ) (ss : List Shard) → count_infos n ss ≡ n + length (entries ss)
unfolding count_infos
count_infos-entries n [] = omega arith
count_infos-entries n (s ∷ ss) =
    count_infos-entries (n + length s.infos) ss
    ∙ omega (arith, length-append (tagged s s.infos) (entries ss), length-tagged s s.infos)

-- In a well-formed context the record of an ID is the one at that position in the sequence of all
-- records: the target-independent ones, the target's and the auxiliary target's, shard by shard. So
-- every ID below their number has a record, and none is found from there on.
pub get_shard_and_info-entries :
    (h : Header) (ctx : Context) (id : ℕ)
    → WellFormed h ctx
    → get_shard_and_info h ctx id ≡ get_elem? (all_entries ctx) id
unfolding get_shard_and_info
get_shard_and_info-entries h ctx id w =
    let main = entries ctx.builtin_shards in
    let target = entries ctx.target_shards in
    let aux = entries ctx.aux_shards in
    rw (w.is_aux id, w.aux_id id)
      (elim (Bool-cases (leb (h.first_ts_builtin + ctx.num_target) id)) [
        | inl far ↦
            let past : h.first_ts_builtin + ctx.num_target ≤ id = ground arith in
            rw (far, find_info-entries)
              (sym (
                get_elem?-append_right main _ id (omega (arith, w.first))
                ∙ get_elem?-append_right target aux _ (omega (arith, w.first, w.target))
                ∙ ap (get_elem? aux) (omega (arith, w.first, w.target))))
        | inr near ↦
            let below : id < h.first_ts_builtin + ctx.num_target = ground arith in
            rw near (elim (Bool-cases (leb h.first_ts_builtin id)) [
              | inl ts ↦
                  let past : h.first_ts_builtin ≤ id = ground arith in
                  rw (ts, find_info-entries)
                    (sym (
                      get_elem?-append_right main _ id (omega (arith, w.first))
                      ∙ get_elem?-append_left target aux _ (omega (arith, w.first, w.target))
                      ∙ ap (get_elem? target) (omega (arith, w.first))))
              | inr generic ↦
                  let early : id < h.first_ts_builtin = ground arith in
                  rw (generic, find_info-entries)
                    (sym (get_elem?-append_left main _ id (omega (arith, w.first))))
            ])
      ])

-- The context that `InitializeTarget` leaves is counted right: a context with no shards and counts of
-- zero before it becomes well formed, if Builtins.h numbers the auxiliary builtins behind the target's.
pub initialize_target-WellFormed :
    (h : Header) (main target : List Shard) (aux : Option (List Shard))
    → h.first_ts_builtin ≡ length (entries main)
    → ((c : Context) (id : ℕ)
        → h.is_aux_builtin_id c id ≡ leb (h.first_ts_builtin + c.num_target) id)
    → ((c : Context) (id : ℕ) → h.get_aux_builtin_id c id ≡ id - c.num_target)
    → WellFormed h (
        initialize_target
          (record {
            builtin_shards = main;
            target_shards = [];
            aux_shards = [];
            num_target = 0;
            num_aux = 0;
          })
          target
          aux)
unfolding initialize_target
initialize_target-WellFormed h main target none first is_aux aux_id = record {
  first = first;
  target = count_infos-entries 0 target ∙ omega arith;
  aux = refl;
  is_aux = λ id. is_aux _ id;
  aux_id = λ id. aux_id _ id;
}
initialize_target-WellFormed h main target (some aux) first is_aux aux_id = record {
  first = first;
  target = count_infos-entries 0 target ∙ omega arith;
  aux = count_infos-entries 0 aux ∙ omega arith;
  is_aux = λ id. is_aux _ id;
  aux_id = λ id. aux_id _ id;
}
