-- ===== src/Agent/Closed.antt =====
-- apps/server/src/agent/agent.service.ts (handleHeartbeat): servers that are being deleted, or failed.
use nextpanel.Prelude.{
  ℕ, false, ◌≡◌, ◌⊎◌, inl, inr, refl, ap, Option, some, Text, find, any, Keyed, any_of_key,
  find_of_key, count_where_none, update_where_none,
}
use nextpanel.Prelude.Exec.{Result, ok, err}
use nextpanel.Prelude.Results.{Result-cases}
use nextpanel.Agent.{Rates}
use nextpanel.Agent.Pending.{HeartbeatPayload, PendingUpdate, AgentService}
use nextpanel.Agent.Rows.{
  ServerRow, ServerStatus, deleting, failed_status, Tables, HeartbeatError, HeartbeatAnswer,
  Surroundings,
}
use nextpanel.Agent.Heartbeat.{
  accepts, is_open, has_token, dismissed, write_heartbeat, handle_heartbeat,
}

-- Nothing is written, and nothing is asked of the agent.
abbrev pub IsDismissed :
    {W : Type 0} → Tables W → Result HeartbeatError HeartbeatAnswer × Tables W → Type 0
IsDismissed s (r, s') =
    (s'.servers ≡ s.servers)
    × (s'.nodes ≡ s.nodes)
    × (s'.metrics ≡ s.metrics)
    × ((r ≡ ok dismissed) ⊎ ((e : HeartbeatError) × (r ≡ err e)))

closing : (s : ServerStatus) → (s ≡ deleting) ⊎ (s ≡ failed_status) → is_open s ≡ false
closing s (inl h) = ap is_open h
closing s (inr h) = ap is_open h

module _ {W : Type 0} (o : Surroundings W) where
  write_heartbeat-IsDismissed :
      (id : Text) (payload : HeartbeatPayload) (rates : Option Rates) (at : ℕ) (u : PendingUpdate)
      (s : Tables W)
      → any (accepts id) s.servers ≡ false
      → IsDismissed s (write_heartbeat o id payload rates at u s)
  unfolding write_heartbeat
  write_heartbeat-IsDismissed id payload rates at u s h = elim (Result-cases (o.write s.world).0) [
    | inl (e, failed) ↦ rw failed (refl, refl, refl, inr (e, refl))
    | inr (_, written) ↦
        rw
          (
            written,
            count_where_none (accepts id) s.servers h,
            update_where_none (accepts id) _ s.servers h,
          )
          (refl, refl, refl, inl refl)
  ]

  -- A heartbeat with the token of a server that is being deleted, or failed, changes no row of the
  -- tables of servers, nodes and metrics, whatever it reports, and an answer to it lists no nodes and
  -- has neither a task nor an update. The identifiers of the servers are distinct.
  pub handle_heartbeat-IsDismissed :
      (received : ℕ) (payload : HeartbeatPayload) (a : AgentService) (s : Tables W)
      (row : ServerRow)
      → Keyed (λ r. r.id) s.servers
      → find (has_token payload.agent_token) s.servers ≡ some row
      → (row.status ≡ deleting) ⊎ (row.status ≡ failed_status)
      → let (r, (_, s')) = handle_heartbeat o received payload a s in IsDismissed s (r, s')
  unfolding handle_heartbeat
  handle_heartbeat-IsDismissed received payload a s row keyed found closed =
      let unique =
        find_of_key (λ r. r.id) (has_token payload.agent_token) s.servers row keyed found in
      let none_open =
        any_of_key (λ r. r.id) row.id (λ r. is_open r.status) s.servers row keyed unique
          (closing row.status closed) in
      rw (handle_heartbeat, found)
        (write_heartbeat-IsDismissed row.id payload _ _ _ (record s { world = _ }) none_open)
