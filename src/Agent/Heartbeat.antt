-- ===== src/Agent/Heartbeat.antt =====
-- apps/server/src/agent/agent.service.ts (handleHeartbeat): what a heartbeat writes, and the answer.
-- No other request writes the tables, or the memory of the service, between two steps of one heartbeat.
use nextpanel.Prelude.{
  ℕ, Bool, true, false, ◌&&◌, ◌||◌, Option, none, some, List, [], ◌∷◌, ◌++◌, Text, text, text_eq,
  find, map, update_where, count_where, ◌==◌, if◌then◌else◌,
}
use nextpanel.Prelude.Exec.{Result, err, pure, gets, modify, ◌>>=◌, ◌>>◌}
use nextpanel.Nodes.Model.{NodeStatus, running}
use nextpanel.Usage.{UsageSample}
use nextpanel.Agent.{Rates, sample}
use nextpanel.Agent.Pending.{
  StatusReport, TrafficReport, HeartbeatPayload, UpdateCommand, PendingUpdate, AgentService,
  follow_pending,
}
use nextpanel.Agent.Rows.{
  ServerStatus, unknown_status, online, offline, deleting, failed_status, ServerRow, NodeRow,
  Tables, HeartbeatError, unknown_agent_token, XrayNode, HeartbeatAnswer, Called, Reporting,
  Surroundings,
}

-- the columns that the accepted heartbeat sets
abbrev pub seen_server : HeartbeatPayload → Option Rates → ℕ → PendingUpdate → ServerRow → ServerRow
seen_server payload rates at update row = record row {
  agent_version = some payload.agent_version;
  cpu_usage = some payload.cpu;
  mem_usage = some payload.mem;
  disk_usage = some payload.disk;
  network = rates;
  status = online;
  last_seen_at = some at;
  pending_agent_update = if update.is_cleared then false else row.pending_agent_update;
}

-- `notIn: ['DELETING', 'ERROR']`
abbrev pub is_open : ServerStatus → Bool
is_open unknown_status = true
is_open online = true
is_open offline = true
is_open deleting = false
is_open failed_status = false

abbrev pub accepts : Text → ServerRow → Bool
accepts id row = text_eq row.id id && is_open row.status

abbrev is_exit_on : Text → Option Text → Bool
is_exit_on id none = false
is_exit_on id (some server) = text_eq server id

abbrev is_hosted : Text → StatusReport → NodeRow → Bool
is_hosted id r node =
    text_eq node.id r.node_id && (text_eq node.server_id id || is_exit_on id node.exit_server_id)

abbrev is_entry : Text → TrafficReport → NodeRow → Bool
is_entry id r node = text_eq node.id r.node_id && text_eq node.server_id id

abbrev is_running : NodeStatus → Bool
is_running running = true
is_running _ = false

abbrev pub xray_nodes : Text → Bool → List NodeRow → List XrayNode
xray_nodes id counts [] = []
xray_nodes id counts (node ∷ nodes) =
    let rest = xray_nodes id counts nodes in
    elim node.stats_port [
      | none ↦ rest
      | some port ↦
          if text_eq node.server_id id && is_running node.status
          then record {
            node_id = node.id;
            stats_port = port;
            usage = counts && node.is_prepared && node.is_observed;
          }
            ∷ rest
          else rest
    ]

abbrev pub has_token : Text → ServerRow → Bool
has_token token row = text_eq row.agent_token token

abbrev pub dismissed : HeartbeatAnswer
dismissed = record { xray_nodes = []; ip_check_task = none; update_command = none }

module _ {W : Type 0} (o : Surroundings W) where
  abbrev pub call_service : {A : Type 0} → Called W A → Reporting W A
  call_service m s = let (r, w) = m s.world in (r, record s { world = w })

  -- `node.updateMany`
  abbrev pub write_nodes : (NodeRow → Bool) → (NodeRow → NodeRow) → Reporting W Unit
  write_nodes p f = do
    call_service o.write
    modify (λ s. record s { nodes = update_where p f s.nodes })

  abbrev pub write_statuses : Text → List StatusReport → Reporting W Unit
  write_statuses id [] = pure tt
  write_statuses id (r ∷ rs) =
      write_nodes (is_hosted id r) (λ node. record node { status = r.status })
      >> write_statuses id rs

  abbrev pub report_statuses : Text → Option (List StatusReport) → Reporting W Unit
  report_statuses id none = pure tt
  report_statuses id (some rs) =
      call_service (o.observe_services id (map (λ r. text "nextpanel-chain-" ++ r.node_id) rs))
      >> write_statuses id rs

  abbrev pub write_traffic : Text → List TrafficReport → Reporting W Unit
  write_traffic id [] = pure tt
  write_traffic id (r ∷ rs) =
      write_nodes (is_entry id r)
        (λ node. record node { traffic_up_bytes = r.up_bytes; traffic_down_bytes = r.down_bytes })
      >> write_traffic id rs

  abbrev pub report_traffic : Text → Option (List TrafficReport) → Reporting W Unit
  report_traffic id none = pure tt
  report_traffic id (some rs) = write_traffic id rs

  abbrev pub report_usage : Text → Option (List UsageSample) → Reporting W Unit
  report_usage id none = pure tt
  report_usage id (some samples) =
      if o.has_usage then call_service (o.enqueue id samples) else pure tt

  abbrev pub record_metric : Text → HeartbeatPayload → Option Rates → Reporting W Unit
  record_metric id payload rates = do
    call_service o.write
    modify (λ s. record s {
      metrics =
          record {
            server_id = id;
            cpu = payload.cpu;
            mem = payload.mem;
            disk = payload.disk;
            network = rates;
          }
          ∷ s.metrics;
    })

  abbrev pub answer_heartbeat :
      Text → Option UpdateCommand → List XrayNode → Reporting W HeartbeatAnswer
  answer_heartbeat token command listed = do
    task ← call_service (o.get_pending_task token)
    pure (record { xray_nodes = listed; ip_check_task = task; update_command = command })

  -- what follows once the row of the server is written
  unfoldable pub take_report :
      Text → HeartbeatPayload → Option Rates → Option UpdateCommand → Reporting W HeartbeatAnswer
  take_report id payload rates command = do
    record_metric id payload rates
    report_statuses id payload.node_statuses
    report_traffic id payload.node_traffic
    report_usage id payload.usage_samples
    listed ← gets (λ s. xray_nodes id (o.has_usage && o.usage_enabled) s.nodes)
    answer_heartbeat payload.agent_token command listed

  unfoldable pub write_heartbeat :
      Text → HeartbeatPayload → Option Rates → ℕ → PendingUpdate → Reporting W HeartbeatAnswer
  unfolding update_where count_where
  write_heartbeat id payload rates at update = do
    call_service o.write
    count ← gets (λ s. count_where (accepts id) s.servers)
    modify (λ s. record s {
      servers = update_where (accepts id) (seen_server payload rates at update) s.servers;
    })
    if count == 1 then take_report id payload rates update.command else pure dismissed

  abbrev pub handle_known :
      ℕ
      → HeartbeatPayload
      → ServerRow
      → AgentService
      → Tables W
      → Result HeartbeatError HeartbeatAnswer × (AgentService × Tables W)
  handle_known received payload row a s =
      let (rates, tracker) =
        sample
          (record {
            id = row.id;
            counters = record {
              input = payload.network_in;
              output = payload.network_out;
              at = received;
            };
          })
          a.network_rates in
      let (at, w1) = o.github.now s.world in
      let (update, (a', w2)) =
        follow_pending o.github row.id payload row.pending_agent_update
          (record a { network_rates = tracker }) w1 in
      let (r, s') = write_heartbeat row.id payload rates at update (record s { world = w2 }) in
      (r, (a', s'))

  unfoldable pub handle_heartbeat :
      ℕ
      → HeartbeatPayload
      → AgentService
      → Tables W
      → Result HeartbeatError HeartbeatAnswer × (AgentService × Tables W)
  handle_heartbeat received payload a s = elim (find (has_token payload.agent_token) s.servers) [
    | none ↦ (err unknown_agent_token, (a, s))
    | some row ↦ handle_known received payload row a s
  ]
