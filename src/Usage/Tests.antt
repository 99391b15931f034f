-- ===== src/Usage/Tests.antt =====
-- Concrete runs of the model of apps/server/src/usage.
use nextpanel.Prelude.{
  ◌∷◌, [], ◌≡◌, ◌≢◌, refl, true, false, none, some, text, text_eq, update_where, map, ap,
}
use nextpanel.Usage.{
  UsageNode, UsageCredential, UsageSample, active, Db, counter_delta, usage_status,
}
use nextpanel.Usage.Ingest.{
  ingest, ingest_dated, ingest_found, count_sample, count_all, count_credential, are_distinct,
  add_to_bucket,
}
use nextpanel.Usage.Once.{counted_once}

abbrev node : UsageNode
node = record {
  node_id = text "n1";
  server_id = text "s1";
  prepared_at = some 0;
  sampled_at = some 7200000;
  sample_id = some (text "a");
  core_uptime = some 100;
  legacy_up = 0;
  legacy_down = 0;
  legacy_active_at = none;
  legacy_up_rate = none;
  legacy_down_rate = none;
}

abbrev credential : UsageCredential
credential = record {
  id = text "c1";
  node_id = text "n1";
  subscription_id = text "p1";
  installed_at = some 0;
  removed_at = none;
  sampled_at = some 7200000;
  last_active_at = none;
  up_bytes = 500;
  down_bytes = 0;
  up_rate = none;
  down_rate = none;
}

abbrev db : Db
db = record {
  nodes = node ∷ [];
  credentials = credential ∷ [];
  buckets = [];
  enabled_subs = text "p1" ∷ [];
}

-- Ten seconds later the counter is up by 120.
abbrev sample : UsageSample
sample = record {
  node_id = text "n1";
  sample_id = text "b";
  sampled_at = some 7210000;
  uptime = 110;
  has_error = false;
  users = record { email = text "np-usage-c1"; up_bytes = 620; down_bytes = 0 } ∷ [];
}

-- The next one comes from a core that was restarted, so that it is only a new baseline.
abbrev restarted : UsageSample
restarted = record sample {
  sample_id = text "c";
  sampled_at = some 7220000;
  uptime = 3;
  users = record { email = text "np-usage-c1"; up_bytes = 40; down_bytes = 0 } ∷ [];
}

counted :
    map
      (λ b. b.up_bytes)
      (ingest true (text "s1") ((7211000, sample) ∷ (7221000, restarted) ∷ []) db).buckets
    ≡ 120 ∷ []
unfolding ingest ingest_dated ingest_found count_sample count_all count_credential counter_delta
    are_distinct add_to_bucket text_eq update_where
counted = refl

shown : usage_status (some 7210000) (some 7210000) true 7220000 ≡ active
unfolding usage_status
shown = refl

changes : ingest true (text "s1") ((7211000, sample) ∷ []) db ≢ db
unfolding ingest ingest_dated ingest_found count_sample count_all count_credential counter_delta
    are_distinct add_to_bucket text_eq update_where
changes e = cc (ap (λ d. d.buckets) e)

counted_once_example :
    ingest true (text "s1") ((7211000, sample) ∷ (7221000, restarted) ∷ (7222000, sample) ∷ []) db
    ≡ ingest true (text "s1") ((7211000, sample) ∷ (7221000, restarted) ∷ []) db
counted_once_example =
    counted_once (text "s1") sample 7211000 7222000 ((7221000, restarted) ∷ []) db changes
