-- ===== src/Usage.antt =====
-- apps/server/src/usage: the tables, and usage.util.ts (counterDelta, usageStatus), which turns the
-- counters that a node reports into the bytes of each credential. The counters are the numbers whose
-- canonical digits the request carries, and a rate is the pair that is divided.
pub mod Ingest
pub mod Later
pub mod Once
mod Tests
use nextpanel.Prelude.{
  ℕ, zero, suc, ◌+◌, ◌-◌, ◌*◌, ◌/◌, ◌==◌, Bool, true, false, not, ◌&&◌, ◌||◌, Option, none, some,
  is_some, List, [], ◌∷◌, ◌++◌, Text, text, text_eq, find, any, keep, leb, ltb, update_where,
  if◌then◌else◌,
}

abbrev pub usage_fresh_ms : ℕ
usage_fresh_ms = 90000

abbrev pub usage_active_ms : ℕ
usage_active_ms = 60000

abbrev pub legacy_email : Text
legacy_email = text "np-legacy"

abbrev pub usage_email : Text → Text
usage_email id = text "np-usage-" ++ id

-- `Math.abs(a - b)`
abbrev pub distance : ℕ → ℕ → ℕ
distance a b = (a - b) + (b - a)

-- `Number(bytes) / seconds`
pub record Rate : Type 0 where
  pub bytes : ℕ
  pub millis : ℕ

pub record Delta : Type 0 where
  pub bytes : ℕ
  pub rate : Option Rate

unfoldable pub counter_delta : ℕ → ℕ → ℕ → Bool → Delta
counter_delta current previous millis reset =
    if reset || (millis == 0 || (ltb usage_fresh_ms millis || ltb current previous))
    then record { bytes = 0; rate = none }
    else record {
      bytes = current - previous;
      rate = some (record { bytes = current - previous; millis = millis });
    }

pub data UsageStatus : Type 0 where
  pending stale active idle : UsageStatus

-- a time that is there and at most so long ago
abbrev pub is_within : ℕ → ℕ → Option ℕ → Bool
is_within span now none = false
is_within span now (some t) = leb (now - t) span

unfoldable pub usage_status : Option ℕ → Option ℕ → Bool → ℕ → UsageStatus
usage_status sampled_at active_at installed now =
    if not installed
    then pending
    else if not (is_within usage_fresh_ms now sampled_at)
    then stale
    else if is_within usage_active_ms now active_at
    then active
    else idle

-- The row of UsageNode, with the server of its node; of the two rates of the legacy user, none is zero.
pub record UsageNode : Type 0 where
  pub node_id : Text
  pub server_id : Text
  pub prepared_at : Option ℕ
  pub sampled_at : Option ℕ
  pub sample_id : Option Text
  pub core_uptime : Option ℕ
  pub legacy_up : ℕ
  pub legacy_down : ℕ
  pub legacy_active_at : Option ℕ
  pub legacy_up_rate : Option Rate
  pub legacy_down_rate : Option Rate

pub record UsageCredential : Type 0 where
  pub id : Text
  pub node_id : Text
  pub subscription_id : Text
  pub installed_at : Option ℕ
  pub removed_at : Option ℕ
  pub sampled_at : Option ℕ
  pub last_active_at : Option ℕ
  pub up_bytes : ℕ
  pub down_bytes : ℕ
  pub up_rate : Option Rate
  pub down_rate : Option Rate

pub record UsageBucket : Type 0 where
  pub credential_id : Text
  pub timestamp : ℕ
  pub up_bytes : ℕ
  pub down_bytes : ℕ

-- `enabled_subs`: the subscriptions whose `usageEnabled` is set
pub record Db : Type 0 where
  pub nodes : List UsageNode
  pub credentials : List UsageCredential
  pub buckets : List UsageBucket
  pub enabled_subs : List Text

pub record UserStat : Type 0 where
  pub email : Text
  pub up_bytes : ℕ
  pub down_bytes : ℕ

-- `sampled_at` is none for a date that cannot be read.
pub record UsageSample : Type 0 where
  pub node_id : Text
  pub sample_id : Text
  pub sampled_at : Option ℕ
  pub uptime : ℕ
  pub has_error : Bool
  pub users : List UserStat
