-- ===== src/Agent/Pending.antt =====
-- apps/server/src/agent/agent.service.ts (handleHeartbeat): what becomes of an update of the agent that
-- is pending.
use nextpanel.Prelude.{
  ℕ, ◌-◌, ◌*◌, Bool, true, false, ◌||◌, Option, none, some, List, [], ◌∷◌, ◌++◌, Text, text,
  text_eq, is_empty, ltb, if◌then◌else◌,
}
use nextpanel.Nodes.Model.{NodeStatus}
use nextpanel.Usage.{UsageSample}
use nextpanel.Agent.{NetworkRateTracker}
use nextpanel.Agent.Release.{LatestVersionCache, Github, github_repo, digest_of, get_latest_version}

abbrev pub pending_update_timeout_ms : ℕ
pending_update_timeout_ms = 15 * 60 * 1000

pub record StatusReport : Type 0 where
  pub node_id : Text
  pub status : NodeStatus

pub record TrafficReport : Type 0 where
  pub node_id : Text
  pub up_bytes : ℕ
  pub down_bytes : ℕ

-- The numbers `cpu`, `mem` and `disk` are only stored.
pub record HeartbeatPayload : Type 0 where
  pub agent_token : Text
  pub agent_version : Text
  pub architecture : Option Text
  pub cpu : ℕ
  pub mem : ℕ
  pub disk : ℕ
  pub network_in : ℕ
  pub network_out : ℕ
  pub node_statuses : Option (List StatusReport)
  pub node_traffic : Option (List TrafficReport)
  pub usage_samples : Option (List UsageSample)

pub record UpdateCommand : Type 0 where
  pub version : Text
  pub download_url : Text
  pub sha256 : Text

-- `pendingAgentUpdate` is set to false, and the command that is sent
pub record PendingUpdate : Type 0 where
  pub is_cleared : Bool
  pub command : Option UpdateCommand

abbrev pub PendingSince : Type 0
PendingSince = Text → Option ℕ

-- what the service holds in memory between two requests
pub record AgentService : Type 0 where
  pub network_rates : NetworkRateTracker
  pub latest_version_cache : Option LatestVersionCache
  pub pending_update_since : PendingSince

abbrev pub is_architecture : Text → Bool
is_architecture a = text_eq a (text "amd64") || text_eq a (text "arm64")

abbrev pub update_asset : Option Text → Text
update_asset none = []
update_asset (some arch) = if is_architecture arch then text "agent-linux-" ++ arch else []

abbrev pub cleared : PendingUpdate
cleared = record { is_cleared = true; command = none }

abbrev pub waiting : PendingUpdate
waiting = record { is_cleared = false; command = none }

abbrev pub download_url_of : Text → Text → Text → Text
download_url_of repo tag asset =
    text "https://github.com/" ++ repo ++ text "/releases/download/" ++ tag ++ 47 ∷ asset

abbrev pub deliver : Text → Text → Text → Text → Option Text → PendingUpdate
deliver repo version tag asset none = waiting
deliver repo version tag asset (some sha256) =
    if is_empty asset || is_empty sha256 then waiting else record {
      is_cleared = false;
      command = some (record {
        version = version;
        download_url = download_url_of repo tag asset;
        sha256 = sha256;
      });
    }

abbrev pub give_up : ℕ → PendingUpdate
give_up elapsed = if ltb pending_update_timeout_ms elapsed then cleared else waiting

unfoldable pub check_pending :
    Text → HeartbeatPayload → ℕ → Text → Option LatestVersionCache → PendingUpdate
check_pending repo payload elapsed version none = give_up elapsed
check_pending repo payload elapsed version (some c) =
    let asset = update_asset payload.architecture in
    if is_empty version || is_empty c.tag_name
    then give_up elapsed
    else if text_eq payload.agent_version version
    then cleared
    else if ltb pending_update_timeout_ms elapsed
    then cleared
    else deliver repo version c.tag_name asset (digest_of asset c.digests)

abbrev pub since_or : ℕ → Option ℕ → ℕ
since_or now none = now
since_or now (some at) = at

abbrev pub set_since : Text → Option ℕ → PendingSince → PendingSince
set_since id at since k = if text_eq k id then at else since k

module _ {W : Type 0} (github : Github W) where
  unfoldable pub follow_pending :
      Text → HeartbeatPayload → Bool → AgentService → W → PendingUpdate × (AgentService × W)
  follow_pending id payload false a w =
      (waiting, (record a { pending_update_since = set_since id none a.pending_update_since }, w))
  follow_pending id payload true a w =
      let (now, w1) = github.now w in
      let since = since_or now (a.pending_update_since id) in
      let (version, (cache, w2)) = get_latest_version github a.latest_version_cache w1 in
      let update = check_pending (github_repo github.repo) payload (now - since) version cache in
      (
        update,
        (
          record a {
            latest_version_cache = cache;
            pending_update_since =
                set_since id (if update.is_cleared then none else some since)
                  a.pending_update_since;
          },
          w2,
        ),
      )
