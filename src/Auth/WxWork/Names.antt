-- ===== src/Auth/WxWork/Names.antt =====
-- The search for a free user name ends, and ends at a free one.
use mathlib.Core.List.{tail}
use nextpanel.Prelude.{
  ℕ, zero, suc, ◌+◌, ◌≤◌, ◌<◌, ◌≡◌, ◌≢◌, refl, true, false, not, List, [], ◌∷◌, none, some, arith,
  Text, text_eq_iff, keep, any, Bool-cases, Option-cases, inl, inr, length, decimal-injective, ap,
  sym, ◌∙◌,
}
use nextpanel.Auth.Model.{User, has_username}
use nextpanel.Auth.WxWork.{suffixed, free_suffix, free_name}

suffixed-injective : (name : Text) (m n : ℕ) → suffixed name m ≡ suffixed name n → m ≡ n
suffixed-injective [] m n e = decimal-injective (ap tail e)
suffixed-injective (c ∷ name) m n e = suffixed-injective name m n (ap tail e)

abbrev without : Text → List User → List User
without name us = keep (λ u. not (has_username name u)) us

any-without :
    (a b : Text) (us : List User)
    → a ≢ b
    → any (has_username a) (without b us) ≡ any (has_username a) us
any-without a b [] h = refl
any-without a b (u ∷ us) h =
    ground (arith, any-without a b us h, text_eq_iff u.username a, text_eq_iff u.username b)

length-without : (b : Text) (us : List User) → length (without b us) ≤ length us
length-without b [] = omega arith
length-without b (u ∷ us) = ground (arith, length-without b us)

length-without_taken :
    (b : Text) (us : List User)
    → any (has_username b) us ≡ true
    → length (without b us) + 1 ≤ length us
length-without_taken b [] h = cc
length-without_taken b (u ∷ us) h = ground (arith, length-without_taken b us, length-without b us)

free_suffix-without :
    (fuel : ℕ) (us : List User) (name : Text) (s k : ℕ)
    → s < k
    → free_suffix fuel us name k ≡ free_suffix fuel (without (suffixed name s) us) name k
unfolding free_suffix
free_suffix-without zero us name s k h = refl
free_suffix-without (suc fuel) us name s k h =
    let apart : suffixed name k ≢ suffixed name s =
      λ e. let same : k ≡ s = suffixed-injective name k s e in omega arith in
    rw
      (
        any-without (suffixed name k) (suffixed name s) us apart,
        free_suffix-without fuel us name s (k + 1) (omega arith),
      )
      refl

-- The fuel runs out only where every round met a user of its own.
fuel_le_length :
    (fuel : ℕ) (us : List User) (name : Text) (s : ℕ)
    → free_suffix fuel us name s ≡ none
    → fuel ≤ length us
unfolding free_suffix
fuel_le_length zero us name s h = omega arith
fuel_le_length (suc fuel) us name s h =
    elim (Bool-cases (any (has_username (suffixed name s)) us)) [
      | inl taken ↦
          let rest : free_suffix fuel us name (s + 1) ≡ none = ground arith in
          let fewer =
            fuel_le_length fuel (without (suffixed name s) us) name (s + 1)
              (sym (free_suffix-without fuel us name s (s + 1) (omega arith)) ∙ rest) in
          omega (arith, length-without_taken (suffixed name s) us taken)
      | inr free ↦ ground arith
    ]

free_suffix-free :
    (fuel : ℕ) (us : List User) (name : Text) (s n : ℕ)
    → free_suffix fuel us name s ≡ some n
    → any (has_username (suffixed name n)) us ≡ false
unfolding free_suffix
free_suffix-free zero us name s n h = cc
free_suffix-free (suc fuel) us name s n h = ground (arith, free_suffix-free fuel us name (s + 1) n)

-- A name is found for every table of users, and no user has it yet.
pub free_name-free :
    (us : List User) (name : Text)
    → (found : Text) × (free_name us name ≡ some found) × (any (has_username found) us ≡ false)
unfolding free_name
free_name-free us name = elim (Bool-cases (any (has_username name) us)) [
  | inl taken ↦ elim (Option-cases (free_suffix (length us + 1) us name 2)) [
    | inl out ↦ absurd (let many = fuel_le_length (length us + 1) us name 2 out in omega arith)
    | inr (n, found) ↦ (
      suffixed name n,
      rw (taken, found) refl,
      free_suffix-free (length us + 1) us name 2 n found,
    )
  ]
  | inr free ↦ (name, rw free refl, free)
]
