-- ===== src/Prelude/Trim.antt =====
-- Trimming, and the search for a character from either end.
use Prim.Native.Nat.{ℕ, suc, ◌+◌, ◌≤◌}
use mathlib.Core.Path.{◌≡◌, refl, sym, ap, subst, ◌∙◌}
use mathlib.Core.Logic.{inl, inr}
use mathlib.Core.Bool.{false}
use mathlib.Core.Option.{none, some}
use mathlib.Core.List.{List, [], ◌∷◌, ◌++◌, reverse, reverse-append, reverse-cons, reverse-reverse}
use native.Mathlib.Omega.{arith}
use native.Mathlib.Numerals.{add-one, add-two}
use nextpanel.Prelude.Tests.{Bool-cases}
use nextpanel.Prelude.Lists.{All, All-append, length, take, drop, get_elem?}
use nextpanel.Prelude.Strings.{trim, trim_start, is_space, index_of, last_index_of, includes}

-- A text with no white space in it.
abbrev pub NoSpace : List ℕ → Type 0
NoSpace s = All (λ c. is_space c ≡ false) s

trim_start-NoSpace : (s : List ℕ) → NoSpace s → trim_start s ≡ s
unfolding trim_start
trim_start-NoSpace [] h = refl
trim_start-NoSpace (c ∷ s) h = ground arith

pub All-reverse {ℓ κ} : {A : Type ℓ} (P : A → Type κ) (xs : List A) → All P xs → All P (reverse xs)
All-reverse P [] h = h
All-reverse P (x ∷ xs) (p, h) =
    rw reverse-cons (All-append P (reverse xs) (x ∷ []) (All-reverse P xs h) (p, tt))

pub trim-NoSpace : (s : List ℕ) → NoSpace s → trim s ≡ s
unfolding trim
trim-NoSpace s h =
    ap (λ t. reverse (trim_start (reverse t))) (trim_start-NoSpace s h)
    ∙ ap reverse (trim_start-NoSpace (reverse s) (All-reverse (λ c. is_space c ≡ false) s h))
    ∙ reverse-reverse s

-- `indexOf` stops at the first occurrence, `lastIndexOf` at the last.
pub index_of-append :
    (s t : List ℕ) (c : ℕ) → includes s c ≡ false → index_of (s ++ c ∷ t) c ≡ some (length s)
unfolding index_of
index_of-append [] t c h = ground arith
index_of-append (d ∷ s) t c h = ground (arith, index_of-append s t c)

pub last_index_of-none : (t : List ℕ) (c : ℕ) → includes t c ≡ false → last_index_of t c ≡ none
unfolding last_index_of
last_index_of-none [] c h = refl
last_index_of-none (d ∷ t) c h = ground (arith, last_index_of-none t c)

pub last_index_of-append :
    (s t : List ℕ) (c : ℕ) → includes t c ≡ false → last_index_of (s ++ c ∷ t) c ≡ some (length s)
unfolding last_index_of
last_index_of-append [] t c h = rw (last_index_of-none t c h) (ground arith)
last_index_of-append (d ∷ s) t c h = rw (last_index_of-append s t c h) refl

module _ {ℓ} {A : Type ℓ} where
  pub take-append : (s t : List A) → take (length s) (s ++ t) ≡ s
  take-append [] t = refl
  take-append (x ∷ s) t = ap (λ r. x ∷ r) (take-append s t)

  drop-append_suc : (s : List A) (x : A) (t : List A) → drop (suc (length s)) (s ++ x ∷ t) ≡ t
  drop-append_suc [] x t = refl
  drop-append_suc (y ∷ s) x t = drop-append_suc s x t

  pub drop_past : (s : List A) (x : A) (t : List A) → drop (length s + 1) (s ++ x ∷ t) ≡ t
  drop_past s x t = rw add-one (drop-append_suc s x t)

  drop-append_two :
      (s : List A) (x y : A) (t : List A) → drop (suc (suc (length s))) (s ++ x ∷ y ∷ t) ≡ t
  drop-append_two [] x y t = refl
  drop-append_two (z ∷ s) x y t = drop-append_two s x y t

  pub drop_past_two : (s : List A) (x y : A) (t : List A) → drop (length s + 2) (s ++ x ∷ y ∷ t) ≡ t
  drop_past_two s x y t = rw add-two (drop-append_two s x y t)

  get_elem?-append_suc :
      (s : List A) (x y : A) (t : List A) → get_elem? (s ++ x ∷ y ∷ t) (suc (length s)) ≡ some y
  get_elem?-append_suc [] x y t = refl
  get_elem?-append_suc (z ∷ s) x y t = get_elem?-append_suc s x y t

  pub get_elem?_past :
      (s : List A) (x y : A) (t : List A) → get_elem? (s ++ x ∷ y ∷ t) (length s + 1) ≡ some y
  get_elem?_past s x y t = rw add-one (get_elem?-append_suc s x y t)

trim_start-trim_start : (s : List ℕ) → trim_start (trim_start s) ≡ trim_start s
unfolding trim_start
trim_start-trim_start [] = refl
trim_start-trim_start (c ∷ s) = ground (arith, trim_start-trim_start s)

trim_start-length : (s : List ℕ) → length (trim_start s) ≤ length s
unfolding trim_start
trim_start-length [] = omega arith
trim_start-length (c ∷ s) = ground (arith, trim_start-length s)

-- What `trim_start` cuts off.
trim_start-suffix : (s : List ℕ) → (q : List ℕ) × (s ≡ q ++ trim_start s)
unfolding trim_start
trim_start-suffix [] = ([], refl)
trim_start-suffix (c ∷ s) = elim (Bool-cases (is_space c)) [
  | inl space ↦ let (q, e) = trim_start-suffix s in (c ∷ q, rw space (ap (λ r. c ∷ r) e))
  | inr other ↦ ([], rw other refl)
]

head_is_no_space : (c : ℕ) (s : List ℕ) → trim_start (c ∷ s) ≡ c ∷ s → is_space c ≡ false
unfolding trim_start
head_is_no_space c s h = elim (Bool-cases (is_space c)) [
  | inl space ↦
      let shorter : trim_start s ≡ c ∷ s = rw space at h in
      let le : length (trim_start s) ≤ length s = trim_start-length s in
      let same : length (trim_start s) ≡ suc (length s) = ap length shorter in absurd (omega arith)
  | inr other ↦ other
]

trim_start-prefix : (p q : List ℕ) → trim_start (p ++ q) ≡ p ++ q → trim_start p ≡ p
unfolding trim_start
trim_start-prefix [] q h = refl
trim_start-prefix (c ∷ p) q h = rw (head_is_no_space c (p ++ q) h) refl

-- Trimming is done once.
pub trim-trim : (s : List ℕ) → trim (trim s) ≡ trim s
unfolding trim
trim-trim s =
    let x = trim_start s in
    let y = trim_start (reverse x) in
    let (q, cut) = trim_start-suffix (reverse x) in
    let parts : x ≡ reverse y ++ reverse q =
      sym (reverse-reverse x) ∙ ap reverse cut ∙ reverse-append q y in
    let whole : trim_start (reverse y ++ reverse q) ≡ reverse y ++ reverse q =
      subst (λ t. trim_start t ≡ t) parts (trim_start-trim_start s) in
    let kept : trim_start (reverse y) ≡ reverse y =
      trim_start-prefix (reverse y) (reverse q) whole in
    ap (λ t. reverse (trim_start (reverse t))) kept
    ∙ ap (λ t. reverse (trim_start t)) (reverse-reverse y)
    ∙ ap reverse (trim_start-trim_start (reverse x))
