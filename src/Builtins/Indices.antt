-- ===== src/Builtins/Indices.antt =====
-- The index lists of attribute strings are read back (`parseCommaSeparatedIndices` of
-- phase-1-llvm/clang/lib/Basic/Builtins.cpp).
use mathlib.Core.Option
use spacemit_ime_iree_tcp.Shared.{
  ℕ, zero, suc, ◌≡◌, ◌≤◌, ◌<◌, ◌^◌, refl, ap, Bool, false, List, [], ◌∷◌, ◌++◌, some, Text, length,
  length-append, All, map, arith,
}
use spacemit_ime_iree_tcp.Builtins.Strtol.{strtol_int, Numeral, number_from, strtol_int-append}
use spacemit_ime_iree_tcp.Builtins.Query.{parse_payload, parse_comma_separated_indices}

-- What is written behind the first index: each further one behind a ',', and the '>'.
abbrev pub payload : List Text → Text → Text
payload [] rest = b'>' ∷ rest
payload (d ∷ ds) rest = b',' ∷ (d ++ payload ds rest)

-- A numeral of an `int`.
abbrev pub IntNumeral : Text → Type 0
IntNumeral d = Numeral d × (number_from 0 d < 2 ^ 31)

abbrev pub index_of : Text → Bool × ℕ
index_of d = (false, number_from 0 d)

-- A numeral in front of the payload is read up to it.
strtol_int-payload :
    (d : Text) (ds : List Text) (rest : Text)
    → IntNumeral d
    → strtol_int (d ++ payload ds rest) ≡ (index_of d, payload ds rest)
strtol_int-payload d [] rest h = strtol_int-append d b'>' rest h.0 h.1 refl
strtol_int-payload d (e ∷ es) rest h = strtol_int-append d b',' (e ++ payload es rest) h.0 h.1 refl

parse_payload-payload :
    (n : ℕ) (ds : List Text) (rest : Text)
    → length (payload ds rest) ≤ n
    → All IntNumeral ds
    → parse_payload n (payload ds rest) ≡ some (map index_of ds)
unfolding parse_payload
parse_payload-payload zero [] rest le h = absurd (omega (arith, le))
parse_payload-payload zero (d ∷ ds) rest le h = absurd (omega (arith, le))
parse_payload-payload (suc n) [] rest le h = refl
parse_payload-payload (suc n) (d ∷ ds) rest le h = rw (strtol_int-payload d ds rest h.0) (
    ap (Option.map (λ is. index_of d ∷ is))
      (parse_payload-payload n ds rest (omega (arith, le, length-append d (payload ds rest))) h.1))

-- A list of indices below 2 ^ 31 that is written as "<1,2,3>" is read back as those numbers, whatever
-- follows it; the loop ends.
pub parse_comma_separated_indices-payload :
    (d : Text) (ds : List Text) (rest : Text)
    → IntNumeral d
    → All IntNumeral ds
    → parse_comma_separated_indices (b'<' ∷ (d ++ payload ds rest)) ≡ some (map index_of (d ∷ ds))
unfolding parse_comma_separated_indices
parse_comma_separated_indices-payload d ds rest h hs = rw (strtol_int-payload d ds rest h) (
    ap (Option.map (λ is. index_of d ∷ is))
      (parse_payload-payload (length (payload ds rest)) ds rest (omega arith) hs))
