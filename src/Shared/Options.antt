-- ===== src/Shared/Options.antt =====
-- Steps that may have no result: the Option monad, and a loop of such steps.
use mathlib.Core.Path.{◌≡◌, refl, subst}
use mathlib.Core.List.{List, [], ◌∷◌}
use mathlib.Core.Option.{Option, none, some, some-injective}

infixl 5 ◌>>=◌
abbrev pub ◌>>=◌ {ℓ κ} : {A : Type ℓ} {B : Type κ} → Option A → (A → Option B) → Option B
some a >>= f = f a
none >>= f = none

module _ {ℓ κ} {A : Type ℓ} {S : Type κ} where
  abbrev pub for_each : (A → S → Option S) → List A → S → Option S
  for_each step [] s = some s
  for_each step (x ∷ xs) s = step x s >>= λ t. for_each step xs t

-- The step with a value that is there; without one, nothing happens.
abbrev pub if_found {ℓ κ} : {A : Type ℓ} {S : Type κ} → Option A → (A → S → Option S) → S → Option S
if_found none step s = some s
if_found (some a) step s = step a s

pub >>=-some {ℓ κ} :
    {A : Type ℓ} {B : Type κ} (o : Option A) (f : A → Option B) {b : B}
    → (o >>= f) ≡ some b
    → (a : A) × (o ≡ some a) × (f a ≡ some b)
>>=-some (some a) f h = (a, refl, h)
>>=-some none f h = cc

pub >>=-intro {ℓ κ} :
    {A : Type ℓ} {B : Type κ} {o : Option A} {a : A} (f : A → Option B) {r : Option B}
    → o ≡ some a
    → f a ≡ r
    → (o >>= f) ≡ r
>>=-intro f e d = rw e d

-- What each step of a loop keeps, the loop keeps.
pub for_each-keeps {ℓ κ μ} :
    {A : Type ℓ} {S : Type κ} (P : S → Type μ) (step : A → S → Option S)
    → ((x : A) (s t : S) → step x s ≡ some t → P s → P t)
    → (xs : List A) (s t : S) → for_each step xs s ≡ some t
    → P s
    → P t
for_each-keeps P step keep [] s t h p = subst P (some-injective s t h) p
for_each-keeps P step keep (x ∷ xs) s t h p =
    let (u, e, rest) = >>=-some (step x s) (λ v. for_each step xs v) h in
    for_each-keeps P step keep xs u t rest (keep x s u e p)
