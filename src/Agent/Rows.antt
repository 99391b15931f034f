-- ===== src/Agent/Rows.antt =====
-- apps/server/src/agent/agent.service.ts (handleHeartbeat): the columns that a heartbeat reads and
-- writes, what is answered, and the services that are called, which are the fields of a record.
use nextpanel.Prelude.{ℕ, Bool, Option, List, Text}
use nextpanel.Prelude.Exec.{Exec}
use nextpanel.Nodes.Model.{NodeStatus}
use nextpanel.Usage.{UsageSample}
use nextpanel.Agent.{Rates}
use nextpanel.Agent.Release.{Github}
use nextpanel.Agent.Pending.{UpdateCommand}

pub data ServerStatus : Type 0 where
  unknown_status online offline deleting failed_status : ServerStatus

-- The columns `networkIn` and `networkOut` are the two rates, where none is a rate of zero.
pub record ServerRow : Type 0 where
  pub id : Text
  pub agent_token : Text
  pub status : ServerStatus
  pub agent_version : Option Text
  pub pending_agent_update : Bool
  pub cpu_usage : Option ℕ
  pub mem_usage : Option ℕ
  pub disk_usage : Option ℕ
  pub network : Option Rates
  pub last_seen_at : Option ℕ

-- The last two are of the rows beside the node: whether its usageState has a `preparedAt`, and whether
-- it is in a subscription whose usage is observed.
pub record NodeRow : Type 0 where
  pub id : Text
  pub server_id : Text
  pub exit_server_id : Option Text
  pub status : NodeStatus
  pub stats_port : Option ℕ
  pub traffic_up_bytes : ℕ
  pub traffic_down_bytes : ℕ
  pub is_prepared : Bool
  pub is_observed : Bool

pub record ServerMetric : Type 0 where
  pub server_id : Text
  pub cpu : ℕ
  pub mem : ℕ
  pub disk : ℕ
  pub network : Option Rates

pub record Tables (W : Type 0) : Type 0 where
  pub servers : List ServerRow
  pub nodes : List NodeRow
  pub metrics : List ServerMetric
  pub world : W

-- `service_failed` is what a call_service of another service or of the database throws.
pub data HeartbeatError : Type 0 where
  unknown_agent_token service_failed : HeartbeatError

pub record XrayNode : Type 0 where
  pub node_id : Text
  pub stats_port : ℕ
  pub usage : Bool

pub record HeartbeatAnswer : Type 0 where
  pub xray_nodes : List XrayNode
  pub ip_check_task : Option Text
  pub update_command : Option UpdateCommand

abbrev pub Called : Type 0 → Type 0 → Type 0
Called W A = Exec W HeartbeatError A

abbrev pub Reporting : Type 0 → Type 0 → Type 0
Reporting W A = Exec (Tables W) HeartbeatError A

-- ResourceLifecycleService, UsageService, which is optional, IpCheckService, and whether a write to the
-- database throws; reads do not
pub record Surroundings (W : Type 0) : Type 1 where
  pub github : Github W
  pub write : Called W Unit
  pub observe_services : Text → List Text → Called W Unit
  pub has_usage : Bool
  pub usage_enabled : Bool
  pub enqueue : Text → List UsageSample → Called W Unit
  pub get_pending_task : Text → Called W (Option Text)
