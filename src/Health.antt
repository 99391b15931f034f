-- ===== src/Health.antt =====
-- `ProviderHealthManager` of apps/server/src/ip-check/route-check/provider-health.manager.ts: a list
-- of providers in the order of their priority, with a rest for those that keep failing. A provider's
-- answer and the time at which it comes are given for each call. A check is one step: checks that
-- overlap, and share the list while they wait for answers, are not modelled.
pub mod Choice
pub mod Cooling
mod Tests
use nextpanel.Prelude.{
  ℕ, zero, suc, ◌+◌, ◌*◌, Bool, true, false, List, [], ◌∷◌, Option, none, some, leb, ltb,
  if◌then◌else◌, map,
}

abbrev pub fail_threshold : ℕ
fail_threshold = 3

abbrev pub cooldown_ms : ℕ
cooldown_ms = 5 * 60 * 1000

-- `ProviderState`; the provider is one of any type, and times are in milliseconds, 0 for none
pub record ProviderState (P : Type 0) : Type 0 where
  pub provider : P
  pub fail_count : ℕ
  pub cooling_until : ℕ
  pub last_success : ℕ

-- what comes of asking a provider: its answer or its error, and when
pub record Attempt (R : Type 0) : Type 0 where
  pub result : Option R
  pub at : ℕ

unfoldable pub new_manager : {P : Type 0} → List P → List (ProviderState P)
new_manager [] = []
new_manager (p ∷ ps) =
    record { provider = p; fail_count = 0; cooling_until = 0; last_success = 0 } ∷ new_manager ps

module _ {P : Type 0} where
  abbrev pub succeeded : ProviderState P → ℕ → ProviderState P
  succeeded state time = record state { fail_count = 0; cooling_until = 0; last_success = time }

  abbrev pub counted : ProviderState P → ℕ → ProviderState P
  counted state time =
      if leb fail_threshold (suc state.fail_count)
      then record state { fail_count = suc state.fail_count; cooling_until = time + cooldown_ms }
      else record state { fail_count = suc state.fail_count }

  abbrev pub is_cooling : ℕ → ProviderState P → Bool
  is_cooling now state = ltb now state.cooling_until

module _ {P R : Type 0} (ask : P → Attempt R) (now : ℕ) where
  -- the body of the loop: an answer ends it, an error or a rest goes on with the next provider
  abbrev pub after_ask :
      ProviderState P
      → List (ProviderState P)
      → Attempt R
      → Option R × List (ProviderState P)
      → Option R × List (ProviderState P)
  after_ask state states attempt rest = elim attempt.result [
    | some answer ↦ (some answer, succeeded state attempt.at ∷ states)
    | none ↦ (rest.0, counted state attempt.at ∷ rest.1)
  ]

  unfoldable pub check_inbound : List (ProviderState P) → Option R × List (ProviderState P)
  check_inbound [] = (none, [])
  check_inbound (state ∷ states) =
      let rest = check_inbound states in
      if is_cooling now state
      then (rest.0, state ∷ rest.1)
      else after_ask state states (ask state.provider) rest

-- a provider of `healthSnapshot`; `last_success` is none where there was none
pub record Snapshot (P : Type 0) : Type 0 where
  pub provider : P
  pub healthy : Bool
  pub fail_count : ℕ
  pub last_success : Option ℕ

abbrev pub time_or_none : ℕ → Option ℕ
time_or_none zero = none
time_or_none (suc n) = some (suc n)

unfoldable pub health_snapshot : {P : Type 0} → ℕ → List (ProviderState P) → List (Snapshot P)
health_snapshot now [] = []
health_snapshot now (state ∷ states) =
    record {
      provider = state.provider;
      healthy = leb state.cooling_until now;
      fail_count = state.fail_count;
      last_success = time_or_none state.last_success;
    }
    ∷ health_snapshot now states
