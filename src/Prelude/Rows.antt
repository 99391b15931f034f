-- ===== src/Prelude/Rows.antt =====
-- Tables as lists of rows: rewriting and counting the rows that fit a test.
use Prim.Native.Nat.{ℕ, ◌+◌}
use mathlib.Core.Path.{◌≡◌, refl, subst}
use mathlib.Core.Bool.{Bool, true, false, ◌&&◌}
use mathlib.Core.Option.{some}
use mathlib.Core.Option.{some-injective}
use mathlib.Core.Logic.{inl, inr}
use mathlib.Core.List.{List, [], ◌∷◌}
use native.Mathlib.Omega.{arith}
use nextpanel.Prelude.Tests.{if◌then◌else◌, Bool-cases}
use nextpanel.Prelude.Lists.{find, any, All}
use nextpanel.Prelude.Strings.Laws.{Text, text_eq, text_eq_refl, text_eq_iff}

module _ {ℓ} {A : Type ℓ} where
  -- `updateMany`: every row that fits is rewritten
  unfoldable pub update_where : (A → Bool) → (A → A) → List A → List A
  update_where p f [] = []
  update_where p f (x ∷ xs) = (if p x then f x else x) ∷ update_where p f xs

  unfoldable pub count_where : (A → Bool) → List A → ℕ
  count_where p [] = 0
  count_where p (x ∷ xs) = (if p x then 1 else 0) + count_where p xs

  -- A rewrite that keeps the tested column leaves the search where it was.
  pub find-update_where :
      (p q : A → Bool) (f : A → A) (xs : List A) (x : A)
      → ((y : A) → p (f y) ≡ p y)
      → find p xs ≡ some x
      → q x ≡ true
      → find p (update_where q f xs) ≡ some (f x)
  unfolding update_where
  find-update_where p q f [] x same e h = cc
  find-update_where p q f (y ∷ xs) x same e h =
      ground (arith, same y, find-update_where p q f xs x same)

  pub find_holds : (p : A → Bool) (xs : List A) (x : A) → find p xs ≡ some x → p x ≡ true
  find_holds p [] x e = cc
  find_holds p (y ∷ xs) x e = ground (arith, find_holds p xs x)

  -- A row that is found and fits another test is there for that test.
  pub any_of_find :
      (p q : A → Bool) (xs : List A) (x : A) → find p xs ≡ some x → q x ≡ true → any q xs ≡ true
  any_of_find p q [] x e h = cc
  any_of_find p q (y ∷ xs) x e h = ground (arith, any_of_find p q xs x)

  pub update_where_none :
      (p : A → Bool) (f : A → A) (xs : List A) → any p xs ≡ false → update_where p f xs ≡ xs
  unfolding update_where
  update_where_none p f [] h = refl
  update_where_none p f (x ∷ xs) h = ground (arith, update_where_none p f xs)

-- A column that is a primary key.
module _ {ℓ} {A : Type ℓ} (key : A → Text) where
  abbrev pub has_key : Text → A → Bool
  has_key k x = text_eq (key x) k

  abbrev pub Keyed : List A → Type 0
  Keyed [] = Unit
  Keyed (x ∷ xs) = (any (has_key (key x)) xs ≡ false) × Keyed xs

  ne_of_find :
      (p : A → Bool) (k : Text) (xs : List A) (x : A)
      → find p xs ≡ some x
      → any (has_key k) xs ≡ false
      → text_eq k (key x) ≡ false
  ne_of_find p k [] x e h = cc
  ne_of_find p k (y ∷ xs) x e h =
      ground (arith, ne_of_find p k xs x, text_eq_iff (key x) k, text_eq_iff k (key x))

  -- A row that some search finds is the one that its key finds.
  pub find_of_key :
      (p : A → Bool) (xs : List A) (x : A)
      → Keyed xs
      → find p xs ≡ some x
      → find (has_key (key x)) xs ≡ some x
  find_of_key p [] x d e = cc
  find_of_key p (y ∷ xs) x d e =
      ground (arith, find_of_key p xs x, text_eq_refl (key y), ne_of_find p (key y) xs x)

  any_absent :
      (k : Text) (r : A → Bool) (xs : List A)
      → any (has_key k) xs ≡ false
      → any (λ y. has_key k y && r y) xs ≡ false
  any_absent k r [] h = refl
  any_absent k r (y ∷ xs) h = ground (arith, any_absent k r xs)

  -- If the row under a key fails a test, no row has the key and passes it.
  pub any_of_key :
      (k : Text) (r : A → Bool) (xs : List A) (x : A)
      → Keyed xs
      → find (has_key k) xs ≡ some x
      → r x ≡ false
      → any (λ y. has_key k y && r y) xs ≡ false
  any_of_key k r [] x d e h = cc
  any_of_key k r (y ∷ xs) x d e h =
      ground (arith, any_of_key k r xs x, text_eq_iff (key y) k, any_absent k r xs)

module _ {ℓ} {A : Type ℓ} where
  pub count_where_none : (p : A → Bool) (xs : List A) → any p xs ≡ false → count_where p xs ≡ 0
  unfolding count_where
  count_where_none p [] h = refl
  count_where_none p (x ∷ xs) h = ground (arith, count_where_none p xs)

module _ {ℓ κ} {A : Type ℓ} (P : A → Type κ) where
  pub All_find : (p : A → Bool) (xs : List A) (x : A) → All P xs → find p xs ≡ some x → P x
  All_find p [] x h e = cc
  All_find p (y ∷ xs) x h e = elim (Bool-cases (p y)) [
    | inl here ↦ subst P (some-injective y x (rw here at e)) h.0
    | inr there ↦ All_find p xs x h.1 (rw there at e)
  ]
