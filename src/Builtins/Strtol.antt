-- ===== src/Builtins/Strtol.antt =====
-- The C functions that phase-1-llvm/clang/lib/Basic/Builtins.cpp reads attribute strings with:
-- `strchr`, `strpbrk` and `strtol` in base 10. A position is the text from there on.
use spacemit_ime_iree_tcp.Shared.{
  ◌^◌, ◌%◌, ◌<◌, ltb, ℕ, ◌+◌, ◌-◌, ◌*◌, ◌≡◌, ◌≤◌, refl, Bool, true, false, ◌&&◌, [], ◌∷◌, ◌++◌,
  Option, none, some, Text, any, trim_left, trim_left-cons, ◌==◌, leb, if◌then◌else◌, All, arith,
}

unfoldable pub strpbrk : Text → Text → Option Text
strpbrk accept [] = none
strpbrk accept (c ∷ s) =
    let rest = strpbrk accept s in if any (λ d. d == c) accept then some (c ∷ s) else rest

unfoldable pub strchr : Text → ℕ → Option Text
unfolding strpbrk
strchr s c = strpbrk (c ∷ []) s

abbrev pub is_digit : ℕ → Bool
is_digit c = leb 48 c && leb c 57

-- The digits of a text in front of it, behind a number that is read.
unfoldable pub digits : ℕ → Text → ℕ × Text
digits n [] = (n, [])
digits n (c ∷ s) =
    let rest = digits (10 * n + (c - 48)) s in if is_digit c then rest else (n, c ∷ s)

unfoldable pub signed : Text → (Bool × ℕ) × Text
unfolding digits
signed [] = ((false, 0), [])
signed (c ∷ s) =
    if c == b'-'
    then (let r = digits 0 s in ((true, r.0), r.1))
    else if c == b'+'
    then (let r = digits 0 s in ((false, r.0), r.1))
    else (let r = digits 0 (c ∷ s) in ((false, r.0), r.1))

-- The nearest `long` of 64 bits to a number, which is its sign and its size.
unfoldable pub to_long : Bool × ℕ → Bool × ℕ
to_long (true, n) = (true, if leb n (2 ^ 63) then n else 2 ^ 63)
to_long (false, n) = (false, if ltb n (2 ^ 63) then n else 2 ^ 63 - 1)

-- `strtol`: the number, and the position behind it. (A text without a number gives 0.)
unfoldable pub strtol : Text → (Bool × ℕ) × Text
unfolding signed to_long
strtol s = let r = signed (trim_left s) in (to_long r.0, r.1)

-- The conversion of a `long` to an `unsigned` of 32 bits, and that to an `int`.
unfoldable pub to_unsigned : Bool × ℕ → ℕ
to_unsigned (true, n) = (2 ^ 32 - n % 2 ^ 32) % 2 ^ 32
to_unsigned (false, n) = n % 2 ^ 32

unfoldable pub to_int : Bool × ℕ → Bool × ℕ
unfolding to_unsigned
to_int r = let n = to_unsigned r in if ltb n (2 ^ 31) then (false, n) else (true, 2 ^ 32 - n)

-- `int i = strtol(s, &end, 10);`
unfoldable pub strtol_int : Text → (Bool × ℕ) × Text
unfolding strtol to_int
strtol_int s = let r = strtol s in (to_int r.0, r.1)

abbrev pub IsDigit : ℕ → Type 0
IsDigit c = (48 ≤ c) × (c ≤ 57)

-- The number that digits write.
abbrev pub number_from : ℕ → Text → ℕ
number_from n [] = n
number_from n (d ∷ ds) = number_from (10 * n + (d - 48)) ds

-- A text of one digit or more.
abbrev pub Numeral : Text → Type 0
Numeral [] = ⊥
Numeral (d ∷ ds) = IsDigit d × All IsDigit ds

digits-append :
    (n : ℕ) (ds : Text) (c : ℕ) (s : Text)
    → All IsDigit ds
    → is_digit c ≡ false
    → digits n (ds ++ (c ∷ s)) ≡ (number_from n ds, c ∷ s)
unfolding digits
digits-append n [] c s h e = rw e refl
digits-append n (d ∷ ds) c s h e =
    let digit : is_digit d ≡ true = ground (arith, h.0.0, h.0.1) in
    rw digit (digits-append (10 * n + (d - 48)) ds c s h.1 e)

-- `signed` reads a numeral up to the character behind it.
signed-append :
    (ds : Text) (c : ℕ) (s : Text)
    → Numeral ds
    → is_digit c ≡ false
    → signed (trim_left (ds ++ (c ∷ s))) ≡ ((false, number_from 0 ds), c ∷ s)
unfolding signed
signed-append [] c s h e = absurd h
signed-append (d ∷ ds) c s h e =
    let read : digits 0 (d ∷ (ds ++ (c ∷ s))) ≡ (number_from 0 (d ∷ ds), c ∷ s) =
      digits-append 0 (d ∷ ds) c s h e in
    let minus : (d == b'-') ≡ false = ground (arith, h.0.0) in
    let plus : (d == b'+') ≡ false = ground (arith, h.0.0) in
    rw (trim_left-cons d (ds ++ (c ∷ s)) (omega (arith, h.0.0))) (rw (minus, plus) (rw read refl))

to_int-small : (n : ℕ) → n < 2 ^ 31 → to_int (to_long (false, n)) ≡ (false, n)
unfolding to_int to_long to_unsigned
to_int-small n h =
    let fits : ltb n (2 ^ 63) ≡ true = ground arith in
    let same : n % 2 ^ 32 ≡ n = omega arith in
    let positive : ltb n (2 ^ 31) ≡ true = ground arith in rw fits (rw same (rw positive refl))

-- A numeral below 2 ^ 31 is read as its number, up to the character behind it.
pub strtol_int-append :
    (ds : Text) (c : ℕ) (s : Text)
    → Numeral ds
    → number_from 0 ds < 2 ^ 31
    → is_digit c ≡ false
    → strtol_int (ds ++ (c ∷ s)) ≡ ((false, number_from 0 ds), c ∷ s)
unfolding strtol_int strtol
strtol_int-append ds c s h small e =
    rw (signed-append ds c s h e) (rw (to_int-small (number_from 0 ds) small) refl)
