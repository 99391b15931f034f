-- ===== src/Health/Cooling.antt =====
-- When a provider rests.
use nextpanel.Prelude.{
  ap, zero, Option, none, ◌++◌, ◌⊎◌, ◌∙◌, length, false, ℕ, suc, ◌+◌, ◌≤◌, ◌<◌, ◌≡◌, refl, arith,
  true, false, List, [], ◌∷◌, none, leb, All, Bool-cases, Option-cases, inl, inr,
}
use nextpanel.Health.{
  ProviderState, Attempt, check_inbound, is_cooling, counted, cooldown_ms, fail_threshold,
}

-- A provider has a rest only after three failures since its last success.
abbrev pub IsTracked : {P : Type 0} → ProviderState P → Type 0
IsTracked state = 0 < state.cooling_until → fail_threshold ≤ state.fail_count

counted-IsTracked :
    {P : Type 0} (state : ProviderState P) (time : ℕ)
    → IsTracked state
    → IsTracked (counted state time)
counted-IsTracked state time h = elim (Bool-cases (leb fail_threshold (suc state.fail_count))) [
  | inl many ↦ rw many (λ _. ground arith)
  | inr few ↦ rw few (λ rests. ground (arith, h rests))
]

-- A check keeps it so that a provider is passed over only after three failures since it last
-- succeeded: no provider rests that did not fail so often.
pub check_inbound-IsTracked :
    {P R : Type 0} (ask : P → Attempt R) (now : ℕ) (states : List (ProviderState P))
    → All IsTracked states
    → All IsTracked (check_inbound ask now states).1
unfolding check_inbound
check_inbound-IsTracked ask now [] h = tt
check_inbound-IsTracked ask now (state ∷ states) (tracked, rest) =
    elim (Bool-cases (is_cooling now state)) [
      | inl cooling ↦ rw cooling (tracked, check_inbound-IsTracked ask now states rest)
      | inr healthy ↦ elim (Option-cases (ask state.provider).result) [
        | inl failed ↦
            rw (healthy, failed)
              (
                counted-IsTracked state (ask state.provider).at tracked,
                check_inbound-IsTracked ask now states rest,
              )
        | inr (answer, given) ↦ rw (healthy, given) ((λ rests. ground arith), rest)
      ]
    ]

-- One check of a series: its time, and what the providers answer to it.
pub record Check (P R : Type 0) : Type 0 where
  pub ask : P → Attempt R
  pub now : ℕ

module _ {P : Type 0} where
  -- The list with one more provider behind the first so many.
  abbrev pub with_provider : ℕ → ProviderState P → List (ProviderState P) → List (ProviderState P)
  with_provider zero state states = state ∷ states
  with_provider (suc n) state [] = state ∷ []
  with_provider (suc n) state (other ∷ states) = other ∷ with_provider n state states

  with_provider-length :
      (before after : List (ProviderState P)) (state : ProviderState P)
      → with_provider (length before) state (before ++ after) ≡ before ++ state ∷ after
  with_provider-length [] after state = refl
  with_provider-length (other ∷ before) after state =
      ap (λ rest. other ∷ rest) (with_provider-length before after state)

module _ {P R : Type 0} where
  abbrev pub check : Check P R → List (ProviderState P) → Option R × List (ProviderState P)
  check c states = check_inbound c.ask c.now states

  -- the answers of a series of checks, one after another, and the providers after it
  abbrev pub check_all :
      List (Check P R) → List (ProviderState P) → List (Option R) × List (ProviderState P)
  check_all [] states = ([], states)
  check_all (c ∷ checks) states =
      let (answer, states') = check c states in
      let (answers, last) = check_all checks states' in (answer ∷ answers, last)

  -- The provider gives no answer to the check: it rests, or it is asked and fails.
  abbrev pub IsSilent : Check P R → ProviderState P → Type 0
  IsSilent c state =
      (is_cooling c.now state ≡ true)
      ⊎ ((is_cooling c.now state ≡ false) × ((c.ask state.provider).result ≡ none))

  -- A check at which a provider rests is as if it were not there.
  check-with_provider :
      (c : Check P R) (n : ℕ) (state : ProviderState P) (states : List (ProviderState P))
      → is_cooling c.now state ≡ true
      → check c (with_provider n state states)
        ≡ ((check c states).0, with_provider n state (check c states).1)
  unfolding check_inbound
  check-with_provider c zero state states h = rw h refl
  check-with_provider c (suc n) state [] h = rw h refl
  check-with_provider c (suc n) state (other ∷ states) h =
      let rest = check-with_provider c n state states h in
      elim (Bool-cases (is_cooling c.now other)) [
        | inl cooling ↦ rw (cooling, rest) refl
        | inr healthy ↦ elim (Option-cases (c.ask other.provider).result) [
          | inl failed ↦ rw (healthy, failed, rest) refl
          | inr (answer, given) ↦ rw (healthy, given) refl
        ]
      ]

  rests_on :
      (checks : List (Check P R)) (n : ℕ) (state : ProviderState P)
      (states : List (ProviderState P))
      → All (λ c. c.now < state.cooling_until) checks
      → check_all checks (with_provider n state states)
        ≡ ((check_all checks states).0, with_provider n state (check_all checks states).1)
  rests_on [] n state states h = refl
  rests_on (c ∷ checks) n state states (early, h) =
      let cooling : is_cooling c.now state ≡ true = ground arith in
      rw
        (check-with_provider c n state states cooling, rests_on checks n state (check c states).1 h)
        refl

  -- The check at which the provider is asked and fails.
  failing_check :
      (c : Check P R) (before after : List (ProviderState P)) (state : ProviderState P)
      → All (IsSilent c) before
      → is_cooling c.now state ≡ false
      → (c.ask state.provider).result ≡ none
      → check c (before ++ state ∷ after) ≡ (
        (check c (before ++ after)).0,
        with_provider
            (length before)
            (counted state (c.ask state.provider).at)
            (check c (before ++ after)).1,
      )
  unfolding check_inbound
  failing_check c [] after state silent healthy failed = rw (healthy, failed) refl
  failing_check c (other ∷ before) after state (inl cooling, silent) healthy failed =
      rw (cooling, failing_check c before after state silent healthy failed) refl
  failing_check c (other ∷ before) after state (inr (asked, no_answer), silent) healthy failed =
      rw (asked, no_answer, failing_check c before after state silent healthy failed) refl

  -- Once a provider fails for the third time or more since it last succeeded, wherever it stands in the
  -- list, it rests for five minutes: a series of checks within that time, however many, answers as if
  -- only the other providers were there and changes them as if it were not, and leaves its own state
  -- as the failure left it. The check at which it fails comes to it, as no provider before it answers.
  pub third_failure_rests :
      (c : Check P R) (checks : List (Check P R)) (before after : List (ProviderState P))
      (state : ProviderState P)
      → All (IsSilent c) before
      → is_cooling c.now state ≡ false
      → (c.ask state.provider).result ≡ none
      → 2 ≤ state.fail_count
      → All (λ later. later.now < (c.ask state.provider).at + cooldown_ms) checks
      → check_all (c ∷ checks) (before ++ state ∷ after) ≡ (
        (check_all (c ∷ checks) (before ++ after)).0,
        with_provider
            (length before)
            (record state {
              fail_count = suc state.fail_count;
              cooling_until = (c.ask state.provider).at + cooldown_ms;
            })
            (check_all (c ∷ checks) (before ++ after)).1,
      )
  third_failure_rests c checks before after state silent healthy failed twice soon =
      let many : leb fail_threshold (suc state.fail_count) ≡ true = ground arith in
      let resting : ProviderState P = record state {
        fail_count = suc state.fail_count;
        cooling_until = (c.ask state.provider).at + cooldown_ms;
      } in
      let first : check c (before ++ state ∷ after) ≡ (
        (check c (before ++ after)).0,
        with_provider (length before) resting (check c (before ++ after)).1,
      ) =
        failing_check c before after state silent healthy failed ∙ rw many refl in
      rw (first, rests_on checks (length before) resting (check c (before ++ after)).1 soon) refl
