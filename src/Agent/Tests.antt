-- ===== src/Agent/Tests.antt =====
-- Concrete runs of the model of apps/server/src/agent.
use nextpanel.Prelude.{
  ℕ, List, [], ◌∷◌, ◌≡◌, refl, inl, true, false, Option, none, some, text, text_eq, arith,
  starts_with, find, has_key, ◌++◌, update_where, count_where,
}
use nextpanel.Prelude.Exec.{Result, ok, err, pure}
use nextpanel.Uri.Numbers.{span_digits}
use nextpanel.Agent.Release.{Release, get_latest_version}
use nextpanel.Agent.Pending.{
  HeartbeatPayload, AgentService, UpdateCommand, check_pending, follow_pending,
}
use nextpanel.Agent.Rows.{
  ServerRow, ServerStatus, online, deleting, Tables, Surroundings, HeartbeatError, HeartbeatAnswer,
}
use nextpanel.Agent.Heartbeat.{handle_heartbeat, take_report, write_heartbeat}
use nextpanel.Agent.Closed.{IsDismissed, handle_heartbeat-IsDismissed}
use nextpanel.Agent.Expiry.{pending_expires}
use nextpanel.Agent.Offers.{IsFetched}
use nextpanel.Agent.Signed.{IsSigned, handle_heartbeat-IsSigned}
use nextpanel.Agent.{Sample, sample_all, sample, compare_with, new_tracker}
use nextpanel.Agent.Pruning.{measure_all, sample_all-unpruned}

-- of one server
abbrev beat : ℕ → ℕ → Sample
beat input at = record { id = text "s1"; counters = record { input = input; output = 0; at = at } }

-- The third comes after a gap of over five minutes, the fourth in time, and the counter went back.
abbrev beats : List Sample
beats = beat 100 1000 ∷ beat 400 11000 ∷ beat 900 400000 ∷ beat 50 410000 ∷ []

measured :
    sample_all beats new_tracker
    ≡ none
      ∷ some (record { input = 300; output = 0; millis = 10000 })
      ∷ none
      ∷ some (record { input = 0; output = 0; millis = 10000 })
      ∷ []
unfolding sample_all sample compare_with text_eq
measured = refl

sample_all-unpruned_example : sample_all beats new_tracker ≡ measure_all beats (λ id. none)
sample_all-unpruned_example =
    sample_all-unpruned beats (omega arith, (omega arith, (omega arith, (omega arith, tt))))

-- A release whose asset for amd64 has a digest, and a clock that stands at twenty minutes.
abbrev sha256_hex : List ℕ
sha256_hex = text "0123456789abcdef0123456789abcdef0123456789abcdef0123456789abcdef"

abbrev latest : Release
latest = record {
  tag_name = text "agent/v1.4.0";
  assets = some (
      record { name = text "agent-linux-amd64"; digest = some (text "sha256:" ++ sha256_hex) }
      ∷ record { name = text "agent-linux-arm64"; digest = some (text "md5:00") }
      ∷ []);
}

abbrev surroundings : Surroundings Unit
surroundings = record {
  github = record {
    repo = none;
    now = λ w. (1200000, w);
    latest_release = λ repo w. (some latest, w);
  };
  write = pure tt;
  observe_services = λ id names. pure tt;
  has_usage = false;
  usage_enabled = false;
  enqueue = λ id samples. pure tt;
  get_pending_task = λ token. pure none;
}

abbrev payload : HeartbeatPayload
payload = record {
  agent_token = text "t1";
  agent_version = text "1.3.9";
  architecture = some (text "amd64");
  cpu = 5;
  mem = 40;
  disk = 60;
  network_in = 100;
  network_out = 200;
  node_statuses = some [];
  node_traffic = none;
  usage_samples = none;
}

abbrev row_at : ServerStatus → ServerRow
row_at status = record {
  id = text "s1";
  agent_token = text "t1";
  status = status;
  agent_version = none;
  pending_agent_update = true;
  cpu_usage = none;
  mem_usage = none;
  disk_usage = none;
  network = none;
  last_seen_at = none;
}

abbrev tables_at : ServerStatus → Tables Unit
tables_at status = record { servers = row_at status ∷ []; nodes = []; metrics = []; world = tt }

-- a service that was just started, and one that has waited for over fifteen minutes
abbrev started_service : AgentService
started_service = record {
  network_rates = new_tracker;
  latest_version_cache = none;
  pending_update_since = λ id. none;
}

abbrev waiting_service : AgentService
waiting_service = record started_service { pending_update_since = λ id. some 1000 }

abbrev command_of : Result HeartbeatError HeartbeatAnswer → Option UpdateCommand
command_of (err e) = none
command_of (ok answer) = answer.update_command

sent :
    command_of (handle_heartbeat surroundings 5000 payload started_service (tables_at online)).0
    ≡ some (record {
      version = text "1.4.0";
      download_url =
          text
            "https://github.com/tripplemay/nextpanel-releases/releases/download/agent/v1.4.0/agent-linux-amd64";
      sha256 = sha256_hex;
    })
unfolding handle_heartbeat write_heartbeat take_report follow_pending check_pending
    get_latest_version sample compare_with text_eq starts_with span_digits update_where count_where
sent = refl

handle_heartbeat-IsSigned_example :
    let (r, (a', _)) =
      handle_heartbeat surroundings 5000 payload started_service (tables_at online) in
    IsFetched surroundings.github a'.latest_version_cache
    × ((answer : HeartbeatAnswer)
        → r ≡ ok answer
        → IsSigned surroundings.github payload answer.update_command)
handle_heartbeat-IsSigned_example =
    handle_heartbeat-IsSigned surroundings 5000 payload started_service (tables_at online) tt

handle_heartbeat-IsDismissed_example :
    let (r, (_, s')) =
      handle_heartbeat surroundings 5000 payload started_service (tables_at deleting) in
    IsDismissed (tables_at deleting) (r, s')
unfolding text_eq
handle_heartbeat-IsDismissed_example =
    handle_heartbeat-IsDismissed surroundings 5000 payload started_service (tables_at deleting)
      (row_at deleting) (refl, tt) refl (inl refl)

pending_expires_example :
    let (_, (a', s')) =
      handle_heartbeat surroundings 5000 payload waiting_service (tables_at online) in
    (a'.pending_update_since (text "s1") ≡ none)
    × ((row' : ServerRow) × (find (has_key (λ r. r.id) (text "s1")) s'.servers ≡ some row')
        × (row'.pending_agent_update ≡ false))
unfolding text_eq
pending_expires_example =
    pending_expires surroundings 5000 payload waiting_service (tables_at online) (row_at online)
      1000 (λ w. refl) (λ w. omega arith) (refl, tt) refl refl refl refl
