-- ===== src/Prelude/Options.antt =====
-- Chains of steps that may give nothing.
use mathlib.Core.Bool.{Bool, true, false}
use mathlib.Core.Path.{◌≡◌, refl}
use mathlib.Core.Option.{Option, none, some}

infixl 5 ◌>>=◌ ◌>>◌
abbrev pub ◌>>=◌ {ℓ κ} : {A : Type ℓ} {B : Type κ} → Option A → (A → Option B) → Option B
none >>= f = none
some a >>= f = f a

abbrev pub ◌>>◌ {ℓ} : {B : Type ℓ} → Option (Unit {0}) → Option B → Option B
m >> k = m >>= λ _. k

-- `if (!good) return null`
abbrev pub guard : Bool → Option (Unit {0})
guard true = some tt
guard false = none

-- What a chain that gives something has gone through.
pub some_of_bind {ℓ κ} :
    {A : Type ℓ} {B : Type κ} (m : Option A) (f : A → Option B) (b : B)
    → m >>= f ≡ some b
    → (a : A) × (m ≡ some a) × (f a ≡ some b)
some_of_bind (some a) f b h = (a, refl, h)
some_of_bind none f b h = cc

pub some_of_guard {ℓ} :
    {B : Type ℓ} (good : Bool) (k : Option B) (b : B)
    → guard good >> k ≡ some b
    → (good ≡ true) × (k ≡ some b)
some_of_guard false k b h = cc
some_of_guard true k b h = (refl, h)
