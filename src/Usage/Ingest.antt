-- ===== src/Usage/Ingest.antt =====
-- apps/server/src/usage/usage.service.ts: `ingest`.
use nextpanel.Prelude.{
  ℕ, ◌+◌, ◌-◌, ◌*◌, ◌/◌, ◌==◌, Bool, true, false, not, ◌&&◌, ◌||◌, Option, none, some, is_some,
  List, [], ◌∷◌, Text, text_eq, find, any, keep, leb, ltb, update_where, if◌then◌else◌,
}
use nextpanel.Usage.{
  usage_fresh_ms, legacy_email, usage_email, distance, Delta, counter_delta, UsageNode,
  UsageCredential, UsageBucket, Db, UserStat, UsageSample,
}

abbrev pub is_state_of : Text → Text → UsageNode → Bool
is_state_of node server n = text_eq n.node_id node && text_eq n.server_id server

abbrev pub equals_text : Text → Option Text → Bool
equals_text t none = false
equals_text t (some u) = text_eq u t

abbrev pub equals_time : ℕ → Option ℕ → Bool
equals_time t none = false
equals_time t (some u) = u == t

-- `state.sampledAt && at <= state.sampledAt`
abbrev pub is_reached : ℕ → Option ℕ → Bool
is_reached at none = false
is_reached at (some t) = leb at t

abbrev pub is_ignored : UsageSample → ℕ → UsageNode → Bool
is_ignored sample at state =
    not (is_some state.prepared_at)
    || (equals_text sample.sample_id state.sample_id || is_reached at state.sampled_at)

abbrev pub millis_since : ℕ → Option ℕ → ℕ
millis_since at none = 0
millis_since at (some t) = at - t

-- the core was restarted, or its clock and that of the samples disagree by over three seconds
abbrev pub is_reset : ℕ → Option ℕ → ℕ → Bool
is_reset uptime none millis = true
is_reset uptime (some u) millis = ltb uptime u || ltb 3000 (distance (1000 * (uptime - u)) millis)

unfoldable pub are_distinct : List UserStat → Bool
are_distinct [] = true
are_distinct (u ∷ us) = not (any (λ v. text_eq v.email u.email) us) && are_distinct us

abbrev pub stat_of : Text → List UserStat → Option UserStat
stat_of email users = find (λ u. text_eq u.email email) users

abbrev pub up_of : Option UserStat → ℕ
up_of none = 0
up_of (some u) = u.up_bytes

abbrev pub down_of : Option UserStat → ℕ
down_of none = 0
down_of (some u) = u.down_bytes

abbrev pub has_moved : Delta → Delta → Bool
has_moved u d = ltb 0 u.bytes || ltb 0 d.bytes

abbrev pub bucket_of : ℕ → ℕ
bucket_of at = (at / 3600000) * 3600000

abbrev pub is_bucket : Text → ℕ → UsageBucket → Bool
is_bucket id t b = text_eq b.credential_id id && b.timestamp == t

-- `usageBucket.upsert`
unfoldable pub add_to_bucket : Text → ℕ → ℕ → ℕ → List UsageBucket → List UsageBucket
add_to_bucket id t up down buckets =
    if any (is_bucket id t) buckets
    then update_where (is_bucket id t)
        (λ b. record b { up_bytes = b.up_bytes + up; down_bytes = b.down_bytes + down }) buckets
    else record { credential_id = id; timestamp = t; up_bytes = up; down_bytes = down } ∷ buckets

-- the delta of one direction of a credential
abbrev pub is_baseline : UsageNode → Bool → Option ℕ → Bool
is_baseline state reset none = true
is_baseline state reset (some t) = reset || not (equals_time t state.sampled_at)

abbrev pub counted_credential : ℕ → ℕ → ℕ → Delta → Delta → UsageCredential → UsageCredential
counted_credential at up down u d c = record c {
  sampled_at = some at;
  up_bytes = up;
  down_bytes = down;
  up_rate = u.rate;
  down_rate = d.rate;
  last_active_at = if has_moved u d then some at else c.last_active_at;
}

abbrev pub write_credential : Text → ℕ → ℕ → ℕ → Delta → Delta → Db → Db
write_credential id at up down u d db = record db {
  credentials =
      update_where (λ c. text_eq c.id id) (counted_credential at up down u d) db.credentials;
  buckets =
      if has_moved u d
      then add_to_bucket id (bucket_of at) u.bytes d.bytes db.buckets
      else db.buckets;
}

-- one turn of the loop over the credentials
unfoldable pub count_credential : UsageSample → ℕ → UsageNode → ℕ → Bool → UsageCredential → Db → Db
count_credential sample at state millis reset row db =
    let stat = stat_of (usage_email row.id) sample.users in
    let baseline = is_baseline state reset row.sampled_at in
    if any (text_eq row.subscription_id) db.enabled_subs
    then write_credential row.id at (up_of stat) (down_of stat)
        (counter_delta (up_of stat) row.up_bytes millis baseline)
        (counter_delta (down_of stat) row.down_bytes millis baseline) db
    else db

unfoldable pub count_all : UsageSample → ℕ → UsageNode → ℕ → Bool → List UsageCredential → Db → Db
count_all sample at state millis reset [] db = db
count_all sample at state millis reset (row ∷ rows) db =
    count_all sample at state millis reset rows
      (count_credential sample at state millis reset row db)

-- no traffic of the node's own user: its rates are zero
abbrev pub counted_legacy : ℕ → Delta → Delta → Option UserStat → UsageNode → UsageNode
counted_legacy at u d none n = record n { legacy_up_rate = none; legacy_down_rate = none }
counted_legacy at u d (some s) n = record n {
  legacy_up = s.up_bytes;
  legacy_down = s.down_bytes;
  legacy_up_rate = u.rate;
  legacy_down_rate = d.rate;
  legacy_active_at = if has_moved u d then some at else n.legacy_active_at;
}

abbrev pub counted_node : UsageSample → ℕ → UsageNode → ℕ → Bool → UsageNode → UsageNode
counted_node sample at state millis reset n =
    let legacy = stat_of legacy_email sample.users in
    let u = counter_delta (up_of legacy) state.legacy_up millis reset in
    let d = counter_delta (down_of legacy) state.legacy_down millis reset in
    record (counted_legacy at u d legacy n) {
      sampled_at = some at;
      sample_id = some sample.sample_id;
      core_uptime = some sample.uptime;
    }

abbrev pub is_recorded : Text → UsageCredential → Bool
is_recorded node c =
    text_eq c.node_id node && (is_some c.installed_at && not (is_some c.removed_at))

-- the transaction
unfoldable pub count_sample : UsageSample → ℕ → UsageNode → Db → Db
count_sample sample at state db =
    let millis = millis_since at state.sampled_at in
    let reset = is_reset sample.uptime state.core_uptime millis in
    let db' =
      count_all sample at state millis reset (keep (is_recorded sample.node_id) db.credentials)
        db in
    record db' {
      nodes =
          update_where (λ n. text_eq n.node_id sample.node_id)
            (counted_node sample at state millis reset) db'.nodes;
    }

unfoldable pub ingest_found : UsageSample → ℕ → Option UsageNode → Db → Db
ingest_found sample at none db = db
ingest_found sample at (some state) db =
    if is_ignored sample at state || (sample.has_error || not (are_distinct sample.users))
    then db
    else count_sample sample at state db

unfoldable pub ingest_dated : ℕ → Text → UsageSample → Option ℕ → Db → Db
ingest_dated now server sample none db = db
ingest_dated now server sample (some at) db =
    if ltb usage_fresh_ms (distance now at)
    then db
    else ingest_found sample at (find (is_state_of sample.node_id server) db.nodes) db

abbrev pub ingest_sample : Text → ℕ × UsageSample → Db → Db
ingest_sample server (now, sample) db = ingest_dated now server sample sample.sampled_at db

-- Each sample comes with the time at which it is looked at.
unfoldable pub ingest : Bool → Text → List (ℕ × UsageSample) → Db → Db
ingest false server samples db = db
ingest true server [] db = db
ingest true server (sample ∷ samples) db =
    ingest true server samples (ingest_sample server sample db)
