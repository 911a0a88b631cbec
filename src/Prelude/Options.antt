-- ===== src/Prelude/Options.antt =====
-- Chains of optional results, and what a chain that gives a value says of its parts.
use mathlib.Core.Path.{◌≡◌, refl}
use mathlib.Core.Bool.{Bool, true, false}
use mathlib.Core.Option.{Option, none, some}

infixl 10 ◌>>=◌ ◌>>◌
abbrev pub ◌>>=◌ : {A B : Type 0} → Option A → (A → Option B) → Option B
none >>= f = none
some a >>= f = f a

abbrev pub ◌>>◌ : {A B : Type 0} → Option A → Option B → Option B
m >> n = m >>= λ _. n

-- a value only if the test holds
abbrev pub ensure : Bool → Option (Unit {0})
ensure true = some tt
ensure false = none

pub >>=-some :
    {A B : Type 0} (o : Option A) (f : A → Option B) (b : B)
    → (o >>= f) ≡ some b
    → (a : A) × (o ≡ some a) × (f a ≡ some b)
>>=-some none f b h = cc
>>=-some (some a) f b h = (a, refl, h)

pub ensure->>-some :
    {B : Type 0} (t : Bool) (m : Option B) (b : B)
    → (ensure t >> m) ≡ some b
    → (t ≡ true) × (m ≡ some b)
ensure->>-some true m b h = (refl, h)
ensure->>-some false m b h = cc

pub some-injective {ℓ} : {A : Type ℓ} {a b : A} → some a ≡ some b → a ≡ b
some-injective h = cc
