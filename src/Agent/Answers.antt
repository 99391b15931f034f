-- ===== src/Agent/Answers.antt =====
-- apps/server/src/agent/agent.service.ts (handleHeartbeat): an answer carries the command that was decided
-- on, or none.
use nextpanel.Prelude.{
  ℕ, Bool, true, false, ◌&&◌, ◌≡◌, ap, sym, subst, Option, none, List, Text, if◌then◌else◌,
  count_where, update_where, ◌==◌,
}
use nextpanel.Prelude.Exec.{pure, modify, ◌>>◌, Returns, Returns-bind, Returns-gets}
use nextpanel.Prelude.Results.{ok-injective}
use nextpanel.Agent.{Rates}
use nextpanel.Agent.Pending.{HeartbeatPayload, UpdateCommand, PendingUpdate}
use nextpanel.Agent.Rows.{XrayNode, Tables, Surroundings, HeartbeatAnswer}
use nextpanel.Agent.Heartbeat.{
  call_service, answer_heartbeat, xray_nodes, record_metric, report_statuses, report_traffic,
  report_usage, dismissed, accepts, seen_server, take_report, write_heartbeat,
}

abbrev Gives : Option UpdateCommand → HeartbeatAnswer → Type 0
Gives c answer = answer.update_command ≡ c

module _ {W : Type 0} (o : Surroundings W) (Q : Option UpdateCommand → Type 0)
    (nothing : Q none) where
  answer_heartbeat-Returns :
      (token : Text) (c : Option UpdateCommand) (listed : List XrayNode)
      → Returns (Gives c) (answer_heartbeat o token c listed)
  answer_heartbeat-Returns token c listed =
      Returns-bind (call_service o (o.get_pending_task token))
        (λ task. pure (record { xray_nodes = listed; ip_check_task = task; update_command = c }))
        (λ task. record { at = λ s a h. sym (ap (λ b. b.update_command) (ok-injective h)) })

  take_report-Returns :
      (id : Text) (payload : HeartbeatPayload) (rates : Option Rates) (c : Option UpdateCommand)
      → Returns (Gives c) (take_report o id payload rates c)
  unfolding take_report
  take_report-Returns id payload rates c = Returns-bind (record_metric o id payload rates) _ (λ _.
      Returns-bind (report_statuses o id payload.node_statuses) _ (λ _.
        Returns-bind (report_traffic o id payload.node_traffic) _ (λ _.
          Returns-bind (report_usage o id payload.usage_samples) _ (λ _.
            Returns-gets (λ s. xray_nodes id (o.has_usage && o.usage_enabled) s.nodes)
              (answer_heartbeat o payload.agent_token c)
              (answer_heartbeat-Returns payload.agent_token c)))))

  counted-Returns :
      (id : Text) (payload : HeartbeatPayload) (rates : Option Rates) (u : PendingUpdate)
      (is_one : Bool)
      → Q u.command
      → Returns
          (λ a. Q a.update_command)
          (if is_one then take_report o id payload rates u.command else pure dismissed)
  counted-Returns id payload rates u true allowed = record {
    at = λ s a h. subst Q (sym ((take_report-Returns id payload rates u.command).at s a h)) allowed;
  }
  counted-Returns id payload rates u false allowed = record {
    at = λ s a h. subst (λ a. Q a.update_command) (ok-injective h) nothing;
  }

  pub write_heartbeat-Returns :
      (id : Text) (payload : HeartbeatPayload) (rates : Option Rates) (at : ℕ) (u : PendingUpdate)
      → Q u.command
      → Returns (λ a. Q a.update_command) (write_heartbeat o id payload rates at u)
  unfolding write_heartbeat
  write_heartbeat-Returns id payload rates at u allowed =
      let write = λ (s : Tables W). record s {
        servers = update_where (accepts id) (seen_server payload rates at u) s.servers;
      } in
      Returns-bind (call_service o o.write) _ (λ _.
        Returns-gets (λ s. count_where (accepts id) s.servers)
          (λ count.
            modify write
            >> (if count == 1 then take_report o id payload rates u.command else pure dismissed))
          (λ count.
            Returns-bind (modify write) _
              (λ _. counted-Returns id payload rates u (count == 1) allowed)))
