-- ===== src/Agent/Expiry.antt =====
-- apps/server/src/agent/agent.service.ts (handleHeartbeat): an update that stays pending.
use nextpanel.Prelude.{
  ℕ, ◌+◌, ◌-◌, ◌<◌, Bool, true, false, ◌&&◌, ◌||◌, ◌≡◌, refl, ap, ◌∙◌, arith, Option, none, some,
  List, [], ◌∷◌, Text, text_eq, text_eq_refl, ltb, ◌==◌, if◌then◌else◌, is_empty, Bool-cases, find,
  inl, inr, has_key, Keyed, find_of_key, find-update_where, update_where, count_where,
}
use nextpanel.Prelude.Exec.{ok, Keeps, pure, Keeps-bind, Keeps-gets}
use nextpanel.Usage.{UsageSample}
use nextpanel.Agent.{Rates}
use nextpanel.Agent.Release.{LatestVersionCache, github_repo, get_latest_version}
use nextpanel.Agent.Pending.{
  StatusReport, TrafficReport, HeartbeatPayload, UpdateCommand, PendingUpdate, AgentService,
  check_pending, cleared, follow_pending, pending_update_timeout_ms,
}
use nextpanel.Agent.Rows.{ServerRow, NodeRow, Tables, Surroundings, Called, XrayNode}
use nextpanel.Agent.Heartbeat.{
  accepts, is_open, has_token, seen_server, call_service, answer_heartbeat, xray_nodes, write_nodes,
  write_statuses, report_statuses, write_traffic, report_traffic, report_usage, record_metric,
  take_report, xray_nodes, write_heartbeat, handle_heartbeat,
}

abbrev Serves : {W : Type 0} → List ServerRow → Tables W → Type 0
Serves rows s = s.servers ≡ rows

module _ {W : Type 0} (o : Surroundings W) (rows : List ServerRow) where
  call_service-Serves : {A : Type 0} (m : Called W A) → Keeps (Serves rows) (call_service o m)
  call_service-Serves m = record { at = λ s h. h }

  write_nodes-Serves :
      (p : NodeRow → Bool) (f : NodeRow → NodeRow) → Keeps (Serves rows) (write_nodes o p f)
  write_nodes-Serves p f =
      Keeps-bind (call_service o o.write) _ (call_service-Serves o.write)
        (λ _. record { at = λ s h. h })

  write_statuses-Serves :
      (id : Text) (rs : List StatusReport) → Keeps (Serves rows) (write_statuses o id rs)
  write_statuses-Serves id [] = record { at = λ s h. h }
  write_statuses-Serves id (r ∷ rs) =
      Keeps-bind (write_nodes o _ _) _ (write_nodes-Serves _ _) (λ _. write_statuses-Serves id rs)

  write_traffic-Serves :
      (id : Text) (rs : List TrafficReport) → Keeps (Serves rows) (write_traffic o id rs)
  write_traffic-Serves id [] = record { at = λ s h. h }
  write_traffic-Serves id (r ∷ rs) =
      Keeps-bind (write_nodes o _ _) _ (write_nodes-Serves _ _) (λ _. write_traffic-Serves id rs)

  report_statuses-Serves :
      (id : Text) (rs : Option (List StatusReport)) → Keeps (Serves rows) (report_statuses o id rs)
  report_statuses-Serves id none = record { at = λ s h. h }
  report_statuses-Serves id (some rs) =
      Keeps-bind (call_service o (o.observe_services id _)) _
        (call_service-Serves (o.observe_services id _)) (λ _. write_statuses-Serves id rs)

  report_traffic-Serves :
      (id : Text) (rs : Option (List TrafficReport)) → Keeps (Serves rows) (report_traffic o id rs)
  report_traffic-Serves id none = record { at = λ s h. h }
  report_traffic-Serves id (some rs) = write_traffic-Serves id rs

  report_usage-Serves :
      (id : Text) (us : Option (List UsageSample)) → Keeps (Serves rows) (report_usage o id us)
  report_usage-Serves id none = record { at = λ s h. h }
  report_usage-Serves id (some us) = elim (Bool-cases o.has_usage) [
    | inl used ↦ rw used (call_service-Serves (o.enqueue id us))
    | inr unused ↦ rw unused (record { at = λ s h. h })
  ]

  answer_heartbeat-Serves :
      (token : Text) (c : Option UpdateCommand) (listed : List XrayNode)
      → Keeps (Serves rows) (answer_heartbeat o token c listed)
  answer_heartbeat-Serves token c listed =
      Keeps-bind (call_service o (o.get_pending_task token))
        (λ task. pure (record { xray_nodes = listed; ip_check_task = task; update_command = c }))
        (call_service-Serves (o.get_pending_task token)) (λ _. record { at = λ s h. h })

  take_report-Serves :
      (id : Text) (payload : HeartbeatPayload) (rates : Option Rates) (c : Option UpdateCommand)
      → Keeps (Serves rows) (take_report o id payload rates c)
  unfolding take_report
  take_report-Serves id payload rates c =
      Keeps-bind (record_metric o id payload rates) _
        (Keeps-bind (call_service o o.write) _ (call_service-Serves o.write)
          (λ _. record { at = λ s h. h }))
        (λ _.
          Keeps-bind (report_statuses o id payload.node_statuses) _
            (report_statuses-Serves id payload.node_statuses)
            (λ _.
              Keeps-bind (report_traffic o id payload.node_traffic) _
                (report_traffic-Serves id payload.node_traffic)
                (λ _.
                  Keeps-bind (report_usage o id payload.usage_samples) _
                    (report_usage-Serves id payload.usage_samples)
                    (λ _.
                      Keeps-gets (λ s. xray_nodes id (o.has_usage && o.usage_enabled) s.nodes)
                        (answer_heartbeat o payload.agent_token c)
                        (answer_heartbeat-Serves payload.agent_token c)))))

-- the decision after the time is over
check_pending-expired :
    (repo : Text) (payload : HeartbeatPayload) (elapsed : ℕ) (version : Text)
    (cache : Option LatestVersionCache)
    → pending_update_timeout_ms < elapsed
    → check_pending repo payload elapsed version cache ≡ cleared
unfolding check_pending
check_pending-expired repo payload elapsed version none h =
    let late : ltb pending_update_timeout_ms elapsed ≡ true = ground arith in rw late refl
check_pending-expired repo payload elapsed version (some c) h =
    let late : ltb pending_update_timeout_ms elapsed ≡ true = ground arith in
    elim (Bool-cases (is_empty version || is_empty c.tag_name)) [
      | inl unknown ↦ rw (unknown, late) refl
      | inr known ↦ elim (Bool-cases (text_eq payload.agent_version version)) [
        | inl reached ↦ rw (known, reached) refl
        | inr older ↦ rw (known, older, late) refl
      ]
    ]

module _ {W : Type 0} (o : Surroundings W) where
  follow_pending-expired :
      (id : Text) (payload : HeartbeatPayload) (a : AgentService) (w : W) (since : ℕ)
      → ((w : W) → since + pending_update_timeout_ms < (o.github.now w).0)
      → a.pending_update_since id ≡ some since
      → let (u, (a', _)) = follow_pending o.github id payload true a w in
        (u ≡ cleared) × (a'.pending_update_since id ≡ none)
  unfolding follow_pending
  follow_pending-expired id payload a w since late started =
      let expired =
        check_pending-expired (github_repo o.github.repo) payload ((o.github.now w).0 - since)
          (get_latest_version o.github a.latest_version_cache (o.github.now w).1).0
          (get_latest_version o.github a.latest_version_cache (o.github.now w).1).1.0
          (ground (arith, late w)) in
      rw (started, expired, text_eq_refl id) (refl, refl)

  write_heartbeat-row :
      (id : Text) (payload : HeartbeatPayload) (rates : Option Rates) (at : ℕ) (u : PendingUpdate)
      (s : Tables W) (row : ServerRow)
      → ((w : W) → (o.write w).0 ≡ ok tt)
      → find (has_key (λ r. r.id) id) s.servers ≡ some row
      → accepts id row ≡ true
      → find (has_key (λ r. r.id) id) (write_heartbeat o id payload rates at u s).1.servers
        ≡ some (seen_server payload rates at u row)
  unfolding write_heartbeat
  write_heartbeat-row id payload rates at u s row works found is_live =
      let kept =
        find-update_where (has_key (λ r. r.id) id) (accepts id) (seen_server payload rates at u)
          s.servers row (λ r. refl) found is_live in
      let rows = update_where (accepts id) (seen_server payload rates at u) s.servers in
      elim (Bool-cases (count_where (accepts id) s.servers == 1)) [
        | inl one ↦
            rw (works s.world, one)
              (ap (find (has_key (λ r. r.id) id)) (
                  (take_report-Serves o rows id payload rates u.command).at
                    (record s { servers = rows; world = (o.write s.world).1 }) refl)
                ∙ kept)
        | inr other ↦ rw (works s.world, other) kept
      ]

  -- Once an update has been pending for over fifteen minutes by the clock, the next heartbeat of the
  -- server ends it, whatever GitHub answers and whatever the agent reports: its row is marked as no
  -- longer pending, and the start is forgotten. The identifiers of the servers are distinct, the
  -- server is neither being deleted nor failed, and writes to the database do not fail.
  pub pending_expires :
      (received : ℕ) (payload : HeartbeatPayload) (a : AgentService) (s : Tables W)
      (row : ServerRow) (since : ℕ)
      → ((w : W) → (o.write w).0 ≡ ok tt)
      → ((w : W) → since + pending_update_timeout_ms < (o.github.now w).0)
      → Keyed (λ r. r.id) s.servers
      → find (has_token payload.agent_token) s.servers ≡ some row
      → is_open row.status ≡ true
      → row.pending_agent_update ≡ true
      → a.pending_update_since row.id ≡ some since
      → let (_, (a', s')) = handle_heartbeat o received payload a s in
        (a'.pending_update_since row.id ≡ none)
        × ((row' : ServerRow) × (find (has_key (λ r. r.id) row.id) s'.servers ≡ some row')
            × (row'.pending_agent_update ≡ false))
  unfolding handle_heartbeat
  pending_expires received payload a s row since works late keyed found is_live pending started =
      let b = record a { network_rates = _ } in
      let ended =
        follow_pending-expired row.id payload b (o.github.now s.world).1 since late started in
      let u = follow_pending o.github row.id payload true b (o.github.now s.world).1 in
      rw (handle_heartbeat, found, pending)
        (
          ended.1,
          (
            seen_server payload _ (o.github.now s.world).0 u.0 row,
            write_heartbeat-row row.id payload _ (o.github.now s.world).0 u.0
                (record s { world = u.1.1 }) row works
                (find_of_key (λ r. r.id) (has_token payload.agent_token) s.servers row keyed found)
                (rw (text_eq_refl row.id) is_live),
            ap (λ u. if u.is_cleared then false else row.pending_agent_update) ended.0,
          ),
        )
