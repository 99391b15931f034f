-- ===== src/Prelude/Exec.antt =====
-- Methods that change a state and may throw. What was written before a throw stays written, so the
-- state comes back beside the error too.
use mathlib.Core.Path.{◌≡◌, refl}
use mathlib.Core.Bool.{Bool, true, false}

pub data Result {ℓ κ} (E : Type ℓ) (A : Type κ) : Type (ℓ ⊔ κ) where
  ok : A → Result E A
  err : E → Result E A

abbrev pub Exec {ℓ} : Type ℓ → Type ℓ → Type ℓ → Type ℓ
Exec S E A = S → Result E A × S

module _ {ℓ} {S E A : Type ℓ} where
  abbrev pub pure : A → Exec S E A
  pure a s = (ok a, s)

  abbrev pub throw : E → Exec S E A
  throw e s = (err e, s)

  -- the result of a function that changes nothing
  abbrev pub lift : Result E A → Exec S E A
  lift r s = (r, s)

  -- a value of the state
  abbrev pub gets : (S → A) → Exec S E A
  gets f s = (ok (f s), s)

module _ {ℓ} {S E : Type ℓ} where
  abbrev pub modify : (S → S) → Exec S E Unit
  modify f s = (ok tt, f s)

  -- `if (bad) throw e`
  abbrev pub reject : Bool → E → Exec S E Unit
  reject true e s = (err e, s)
  reject false e s = (ok tt, s)

module _ {ℓ} {S E A B : Type ℓ} where
  abbrev pub continue : Result E A → (A → Exec S E B) → Exec S E B
  continue (ok a) f s = f a s
  continue (err e) f s = (err e, s)

  infixl 5 ◌>>=◌ ◌>>◌
  abbrev pub ◌>>=◌ : Exec S E A → (A → Exec S E B) → Exec S E B
  ◌>>=◌ m f s = let (r, s') = m s in continue r f s'

  abbrev pub ◌>>◌ : Exec S E A → Exec S E B → Exec S E B
  m >> n = m >>= λ _. n

module _ {ℓ} {S E A : Type ℓ} where
  abbrev pub handled : Result E A → (E → Exec S E A) → Exec S E A
  handled (ok a) f s = (ok a, s)
  handled (err e) f s = f e s

  -- `try { return m } catch (e) { f(e) }`
  abbrev pub catch : Exec S E A → (E → Exec S E A) → Exec S E A
  catch m f s = let (r, s') = m s in handled r f s'

-- `m` keeps `P`, whether it returns or throws
pub record Keeps {ℓ} {S E A : Type ℓ} (P : S → Type ℓ) (m : Exec S E A) : Type ℓ where
  pub at : (s : S) → P s → P (m s).1

module _ {ℓ} {S E A B : Type ℓ} {P : S → Type ℓ} where
  pub Keeps-continue :
      (r : Result E A) (f : A → Exec S E B) → ((a : A) → Keeps P (f a)) → Keeps P (continue r f)
  Keeps-continue (ok a) f k = k a
  Keeps-continue (err e) f k = record { at = λ s h. h }

  pub Keeps-bind :
      (m : Exec S E A) (f : A → Exec S E B)
      → Keeps P m
      → ((a : A) → Keeps P (f a))
      → Keeps P (λ s. continue (m s).0 f (m s).1)
  Keeps-bind m f km kf = record { at = λ s h. (Keeps-continue (m s).0 f kf).at (m s).1 (km.at s h) }

  pub Keeps-gets :
      (g : S → A) (f : A → Exec S E B) → ((a : A) → Keeps P (f a)) → Keeps P (λ s. f (g s) s)
  Keeps-gets g f k = record { at = λ s h. (k (g s)).at s h }

-- `m` returns nothing but what `Q` holds of
pub record Returns {ℓ} {S E A : Type ℓ} (Q : A → Type ℓ) (m : Exec S E A) : Type ℓ where
  pub at : (s : S) (a : A) → (m s).0 ≡ ok a → Q a

module _ {ℓ} {S E A B : Type ℓ} {Q : B → Type ℓ} where
  Returns-continue :
      (r : Result E A) (f : A → Exec S E B) → ((a : A) → Returns Q (f a)) → Returns Q (continue r f)
  Returns-continue (ok a) f k = k a
  Returns-continue (err e) f k = record { at = λ s b h. cc }

  pub Returns-bind :
      (m : Exec S E A) (f : A → Exec S E B)
      → ((a : A) → Returns Q (f a))
      → Returns Q (λ s. continue (m s).0 f (m s).1)
  Returns-bind m f k = record { at = λ s b h. (Returns-continue (m s).0 f k).at (m s).1 b h }

  pub Returns-gets :
      (g : S → A) (f : A → Exec S E B) → ((a : A) → Returns Q (f a)) → Returns Q (λ s. f (g s) s)
  Returns-gets g f k = record { at = λ s b h. (k (g s)).at s b h }

-- What a chain that returns has gone through.
pub ok_of_continue {ℓ} :
    {S E A B : Type ℓ} (r : Result E A) (f : A → Exec S E B) (s : S) (b : B)
    → (continue r f s).0 ≡ ok b
    → (a : A) × (r ≡ ok a) × ((f a s).0 ≡ ok b)
ok_of_continue (ok a) f s b h = (a, refl, h)
ok_of_continue (err e) f s b h = cc

pub ok_of_reject {ℓ} :
    {S E : Type ℓ} (bad : Bool) (e : E) (s : S) (u : Unit {ℓ})
    → (reject bad e s).0 ≡ ok u
    → bad ≡ false
ok_of_reject true e s u h = cc
ok_of_reject false e s u h = refl
