-- ===== src/Health/Tests.antt =====
-- The theorems on providers at small inputs.
use nextpanel.Prelude.{
  ℕ, ◌*◌, ◌==◌, if◌then◌else◌, ◌≡◌, refl, arith, not, inr, List, [], ◌∷◌, none, some,
}
use nextpanel.Health.{ProviderState, Attempt}
use nextpanel.Health.Cooling.{Check, check_all, with_provider, third_failure_rests}

-- The provider 2 answers 20, and the others fail.
abbrev ask : ℕ → Attempt ℕ
ask provider = record {
  result = if not (provider == 2) then none else some (provider * 10);
  at = 1000;
}

abbrev state_of : ℕ → ℕ → ProviderState ℕ
state_of provider failures = record {
  provider = provider;
  fail_count = failures;
  cooling_until = 0;
  last_success = 0;
}

-- The provider 3 fails first, then 1 for the third time; two checks follow within five minutes.
abbrev first : Check ℕ ℕ
first = record { ask = ask; now = 900 }

abbrev checks : List (Check ℕ ℕ)
checks = record { ask = ask; now = 2000 } ∷ record { ask = ask; now = 300_000 } ∷ []

abbrev resting : ProviderState ℕ
resting = record { provider = 1; fail_count = 3; cooling_until = 301_000; last_success = 0 }

third_failure_rests_example :
    check_all (first ∷ checks) (state_of 3 0 ∷ state_of 1 2 ∷ state_of 2 0 ∷ []) ≡ (
      (check_all (first ∷ checks) (state_of 3 0 ∷ state_of 2 0 ∷ [])).0,
      with_provider 1 resting (check_all (first ∷ checks) (state_of 3 0 ∷ state_of 2 0 ∷ [])).1,
    )
third_failure_rests_example =
    third_failure_rests first checks (state_of 3 0 ∷ []) (state_of 2 0 ∷ []) (state_of 1 2)
      (inr (refl, refl), tt) refl refl (omega arith) (omega arith, (omega arith, tt))
