-- ===== src/Health/Choice.antt =====
-- Which provider answers.
use nextpanel.Prelude.{
  ℕ, ◌≡◌, refl, not, List, [], ◌∷◌, Option, none, some, keep, Bool-cases, Option-cases, inl, inr,
}
use nextpanel.Health.{ProviderState, Attempt, check_inbound, is_cooling}

-- The answer of the first provider of a list that gives one.
abbrev pub first_answer : {P R : Type 0} → (P → Attempt R) → List (ProviderState P) → Option R
first_answer ask [] = none
first_answer ask (state ∷ states) = elim (ask state.provider).result [
  | some answer ↦ some answer
  | none ↦ first_answer ask states
]

-- A check returns the answer of the first provider that does not cool and gives one, and null if
-- there is none.
pub check_inbound-first :
    {P R : Type 0} (ask : P → Attempt R) (now : ℕ) (states : List (ProviderState P))
    → (check_inbound ask now states).0
      ≡ first_answer ask (keep (λ s. not (is_cooling now s)) states)
unfolding check_inbound
check_inbound-first ask now [] = refl
check_inbound-first ask now (state ∷ states) = elim (Bool-cases (is_cooling now state)) [
  | inl cooling ↦ rw cooling (check_inbound-first ask now states)
  | inr healthy ↦ elim (Option-cases (ask state.provider).result) [
    | inl failed ↦ rw (healthy, failed) (check_inbound-first ask now states)
    | inr (answer, given) ↦ rw (healthy, given) refl
  ]
]
