-- ===== src/Nodes/Sound/Presets.antt =====
-- apps/server/src/nodes/nodes.service.ts: a node that is created from a preset takes no
-- port of another.
use nextpanel.Prelude.{
  ℕ, ◌≡◌, subst, not, ◌&&◌, ◌||◌, Option, none, some, List, [], ◌∷◌, Text, All, All-map, ◌==◌,
}
use mathlib.Core.Option.{some-injective}
use nextpanel.Prelude.Exec.{ok, lift, reject}
use nextpanel.Nodes.Model.{Node, origin_unavailable, wrapped, pilot_disabled}
use nextpanel.Nodes.Ports.{node_ports, to_list, taken_stats_port}
use nextpanel.Nodes.Ports.Free.{Misses}
use nextpanel.Nodes.Ports.Tables.{IsSound}
use nextpanel.Nodes.Presets.{SupportedProtocol, protocol_presets}
use nextpanel.Nodes.Credentials.{credential_generators}
use nextpanel.Nodes.Identity.{CfXhttpMode, is_cf_xhttp_preset, apply_cf_xhttp_mode}
use nextpanel.Nodes.World.{Outside, ask, with_database_locks}
use nextpanel.Nodes.Dns.{assert_owned_server, assert_active_cloudflare, check_xhttp_edge}
use nextpanel.Nodes.Create.{
  when, server_port_lock, pick_port, pick_chain_exit_port, provision_or_remove,
}
use nextpanel.Nodes.FromPreset.{
  CreateNodeFromPresetDto, Exit, no_exit, exit_port_for, own_exit, origin_preflight,
  create_preset_row, preset_node, preset_credentials, create_from_preset, is_cloudflare_preset,
  is_strict_dns_preset, is_ws_preset, is_mapped,
}
use nextpanel.Nodes.Leads.{
  Table, Leads, Leads-bind, Leads-weak, Leads-catch, Leads-ask, Leads-lift, Leads-falls,
  Leads-insert_node, Leads-with_database_locks,
}
use nextpanel.Nodes.Leads.Quiet.{
  Holds, Holds-pure, Holds-throw, Holds-reject, Holds-lift, assert_owned_server-Holds,
  assert_active_cloudflare-Holds, check_xhttp_edge-Holds, when-Holds,
}
use nextpanel.Nodes.Sound.{pick_port-Clear, pick_chain_exit_port-Clear}
use nextpanel.Nodes.Sound.Creations.{insert-IsSound, provision_or_remove-Holds, own-Holds}

All-pair :
    (P Q : Node → Type 0) (nodes : List Node)
    → All P nodes
    → All Q nodes
    → All (λ z. P z × Q z) nodes
All-pair P Q [] h k = tt
All-pair P Q (z ∷ zs) (h, hs) (k, ks) = ((h, k), All-pair P Q zs hs ks)

All-any : (P : Node → Type 0) (nodes : List Node) → ((z : Node) → P z) → All P nodes
All-any P [] h = tt
All-any P (z ∷ zs) h = (h z, All-any P zs h)

module _ {W : Type 0} (o : Outside W) where
  own_exit-Holds : {N : Table} (exit : Option Text) (user : Text) → Holds N (own_exit o exit user)
  unfolding own_exit
  own_exit-Holds none user = Holds-pure tt
  own_exit-Holds (some server) user = assert_owned_server-Holds server user

  origin_preflight-Holds :
      {N : Table} (key : SupportedProtocol) (user server : Text) (port : ℕ)
      → Holds N (origin_preflight o key user server port)
  unfolding origin_preflight
  origin_preflight-Holds key user server port = when-Holds o (is_cf_xhttp_preset key) _ (
      Leads-bind (reject (not o.has_cf_origin) origin_unavailable) _ (Holds-reject _ _) (λ _.
        Leads-catch (ask (o.preflight user server (not (port == 443)))) _ (Leads-ask _)
          (λ e. Holds-throw (wrapped e))))

  exit_port_for-Fits :
      {N : Table} (exit : Option Text)
      → Leads N
          (exit_port_for o exit)
          (λ port nodes.
            N nodes
            × All (λ z. (e : Text) → exit ≡ some e → Misses (node_ports e z) (to_list port)) nodes)
          N
  unfolding exit_port_for
  exit_port_for-Fits none =
      Leads-lift (ok none) (λ a nodes e n. (n, All-any _ nodes (λ z e h. cc))) (λ nodes n. n)
  exit_port_for-Fits (some server) =
      Leads-bind (pick_chain_exit_port o server) _ (pick_chain_exit_port-Clear o server) (λ port.
        record {
          at = λ s n. (
            n.0,
            All-map _ _
                (λ z m e h.
                  subst (λ t. Misses (node_ports t z) (port ∷ [])) (some-injective _ _ h) m)
                s.nodes n.1,
          );
        })

  pub create_preset_row-Holds :
      (key : SupportedProtocol) (server user name enc : Text) (exit : Exit)
      → Holds IsSound (create_preset_row o key server user name enc exit)
  unfolding create_preset_row taken_stats_port
  create_preset_row-Holds key server user name enc exit =
      let preset = protocol_presets key in
      Leads-bind (assert_owned_server server user) _ (assert_owned_server-Holds _ _) (λ _.
        Leads-bind (own_exit o exit.server_id user) _ (own_exit-Holds exit.server_id user) (λ _.
          Leads-bind
            (pick_port o server preset.fixed_port preset.port_base (some preset.implementation)
              (is_cf_xhttp_preset key))
            _
            (pick_port-Clear o server preset.fixed_port preset.port_base
              (some preset.implementation) (is_cf_xhttp_preset key))
            (λ port.
              Leads-bind (origin_preflight o key user server port) _
                (Leads-falls _ (λ nodes n. n.0) (origin_preflight-Holds key user server port))
                (λ _.
                  Leads-bind (exit_port_for o exit.server_id) _
                    (Leads-weak _ (λ nodes n. n) (λ a nodes n. n) (λ nodes n. n.0)
                      (exit_port_for-Fits exit.server_id))
                    (λ exit_port.
                      Leads-bind (ask o.new_id) _
                        (Leads-falls _ (λ nodes n. n.0.0) (Leads-ask o.new_id))
                        (λ id.
                          Leads-insert_node o (λ nodes n. n.0.0)
                            (preset_node id server user name key port enc exit exit_port)
                            (λ nodes n new.
                              insert-IsSound _ nodes (All-pair _ _ nodes n.0.1 n.1) n.0.0 new)))))))

  pub preset_credentials-Holds :
      {N : Table} (key : SupportedProtocol) (user : Text) (mode : Option CfXhttpMode)
      → Holds N (preset_credentials o key user mode)
  unfolding preset_credentials
  preset_credentials-Holds key user mode = Leads-bind (ask o.draw) _ (Leads-ask _) (λ draw.
      Leads-bind (lift (apply_cf_xhttp_mode key (credential_generators draw key) mode)) _
        (Holds-lift _)
        (λ c.
          Leads-bind (when (is_cf_xhttp_preset key) (check_xhttp_edge o user c none)) _
            (when-Holds o _ _ (check_xhttp_edge-Holds o user c none))
            (λ _. Leads-ask (o.encrypt c))))

  -- `createFromPreset`, whatever its outcome, keeps the identifiers of the nodes distinct and their
  -- ports apart.
  pub create_from_preset-IsSound :
      (user : Text) (dto : CreateNodeFromPresetDto) → Holds IsSound (create_from_preset o user dto)
  unfolding create_from_preset
  create_from_preset-IsSound user dto =
      let key = dto.preset in
      Leads-bind (assert_owned_server dto.server_id user) _ (assert_owned_server-Holds _ _) (λ _.
        Leads-bind (reject (is_cf_xhttp_preset key && not o.pilot_enabled) pilot_disabled) _
          (Holds-reject _ _)
          (λ _.
            Leads-bind (when (is_cloudflare_preset key) (assert_active_cloudflare o user)) _
              (when-Holds o _ _ (assert_active_cloudflare-Holds o user))
              (λ _.
                Leads-bind (preset_credentials o key user dto.xhttp_mode) _
                  (preset_credentials-Holds key user _)
                  (λ enc.
                    Leads-bind
                      (with_database_locks o (server_port_lock dto.server_id ∷ [])
                        (create_preset_row o key dto.server_id user dto.name enc no_exit))
                      _
                      (Leads-with_database_locks o _ _ (λ nodes n. n) (λ a nodes n. n)
                        (create_preset_row-Holds key dto.server_id user dto.name enc no_exit))
                      (λ node.
                        Leads-bind
                          (when (is_cloudflare_preset key && not (is_mapped node)) (
                            provision_or_remove o user node
                              (is_ws_preset key || is_cf_xhttp_preset key)
                              (is_strict_dns_preset key || is_cf_xhttp_preset key)))
                          _ (when-Holds o _ _ (provision_or_remove-Holds o user node _ _))
                          (λ _. own-Holds o node.id user))))))
