-- ===== src/Agent.antt =====
-- apps/server/src/agent/network-rate.ts: the rates between two heartbeats of a server. Times are whole
-- milliseconds, and a rate is the pair that is divided.
pub mod Pruning
pub mod Release
pub mod Pending
pub mod Rows
pub mod Heartbeat
pub mod Closed
pub mod Expiry
pub mod Answers
pub mod Offers
pub mod Signed
mod Tests
use nextpanel.Prelude.{
  ℕ, ◌+◌, ◌-◌, ◌*◌, Bool, true, false, Option, none, some, List, [], ◌∷◌, Text, text_eq, leb, ltb,
  if◌then◌else◌,
}

abbrev pub max_gap_ms : ℕ
max_gap_ms = 5 * 60 * 1000

pub record Baseline : Type 0 where
  pub input : ℕ
  pub output : ℕ
  pub at : ℕ

abbrev pub Previous : Type 0
Previous = Text → Option Baseline

pub record NetworkRateTracker : Type 0 where
  pub previous : Previous
  pub last_prune : ℕ

pub record Sample : Type 0 where
  pub id : Text
  pub counters : Baseline

-- the bytes of either direction, and the milliseconds that they took
pub record Rates : Type 0 where
  pub input : ℕ
  pub output : ℕ
  pub millis : ℕ

abbrev pub kept_baseline : ℕ → Option Baseline → Option Baseline
kept_baseline at none = none
kept_baseline at (some v) = if ltb max_gap_ms (at - v.at) then none else some v

abbrev pub prune : ℕ → Previous → Previous
prune at previous id = kept_baseline at (previous id)

abbrev pub pruned : ℕ → NetworkRateTracker → NetworkRateTracker
pruned at t =
    if ltb max_gap_ms (at - t.last_prune)
    then record { previous = prune at t.previous; last_prune = at }
    else t

-- what is answered, where none is a rate of zero, and whether the sample becomes the baseline; the
-- subtraction stops at zero, as `Math.max` does
unfoldable pub compare_with : Baseline → Option Baseline → Option Rates × Bool
compare_with s none = (none, true)
compare_with s (some prev) =
    if leb s.at prev.at
    then (none, false)
    else if ltb max_gap_ms (s.at - prev.at)
    then (none, true)
    else (
      some (record {
        input = s.input - prev.input;
        output = s.output - prev.output;
        millis = s.at - prev.at;
      }),
      true,
    )

abbrev pub store : Bool → Text → Baseline → Previous → Previous
store true id v previous k = if text_eq k id then some v else previous k
store false id v previous k = previous k

abbrev pub measure : Sample → Previous → Option Rates × Previous
measure s previous =
    let (rates, is_newer) = compare_with s.counters (previous s.id) in
    (rates, store is_newer s.id s.counters previous)

unfoldable pub sample : Sample → NetworkRateTracker → Option Rates × NetworkRateTracker
sample s t =
    let t' = pruned s.counters.at t in
    let (rates, previous) = measure s t'.previous in (rates, record t' { previous = previous })

unfoldable pub sample_all : List Sample → NetworkRateTracker → List (Option Rates)
sample_all [] t = []
sample_all (s ∷ ss) t = let (rates, t') = sample s t in rates ∷ sample_all ss t'

abbrev pub new_tracker : NetworkRateTracker
new_tracker = record { previous = λ id. none; last_prune = 0 }
