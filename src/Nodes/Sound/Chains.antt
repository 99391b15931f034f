-- ===== src/Nodes/Sound/Chains.antt =====
-- apps/server/src/nodes/nodes.service.ts: a node that is created as a chain takes no port of another,
-- on either server.
use nextpanel.Nodes.Sound.Presets.{preset_credentials-Holds, create_preset_row-Holds}
use nextpanel.Prelude.{true, not, ◌&&◌, ◌||◌, Option, none, some, ◌∷◌, Text, text_eq, is_some}
use nextpanel.Prelude.Exec.{Result, ok, err, ◌>>=◌, pure, gets, reject}
use nextpanel.Uri.Socks.{ParsedSocks, SocksError, parse_socks_uri}
use nextpanel.Nodes.Model.{
  ChainExitType, pilot_disabled, entry_missing, entry_destroyed, managed_exit_only, exit_missing,
  exit_destroyed, same_server, socks_exit_only, managed_server, socks5_exit, bad_socks_uri,
}
use nextpanel.Nodes.Ports.Tables.{IsSound}
use nextpanel.Nodes.Credentials.{is_filled}
use nextpanel.Nodes.Identity.{is_cf_xhttp_preset}
use nextpanel.Nodes.World.{Outside, ask, required, with_database_locks}
use nextpanel.Nodes.Dns.{assert_active_cloudflare, find_own_server}
use nextpanel.Nodes.Create.{when, server_port_lock, provision_or_remove}
use nextpanel.Nodes.FromPreset.{
  CreateChainNodeDto, Destination, to_server, to_socks, create_preset_row, preset_credentials,
  is_strict_dns_preset, is_mapped, exit_locks, chain_credentials,
}
use nextpanel.Nodes.Chain.{
  create_chain_node, managed_exit, socks_exit, parsed_or_thrown, destination_of, sealed_exit,
  chain_guards,
}
use nextpanel.Nodes.Leads.{Table, Leads-bind, Leads-ask, Leads-gets, Leads-with_database_locks}
use nextpanel.Nodes.Leads.Quiet.{
  Holds, Holds-pure, Holds-throw, Holds-reject, Holds-required, assert_active_cloudflare-Holds,
  when-Holds,
}
use nextpanel.Nodes.Sound.Creations.{provision_or_remove-Holds, own-Holds}

module _ {W : Type 0} (o : Outside W) where
  managed_exit-Holds :
      {N : Table} (dto : CreateChainNodeDto) (user : Text) → Holds N (managed_exit o dto user)
  unfolding managed_exit
  managed_exit-Holds dto user =
      Leads-bind
        (reject (not (is_filled dto.exit_server_id) || is_some dto.socks_uri) managed_exit_only) _
        (Holds-reject _ _)
        (λ _.
          Leads-bind (required managed_exit_only dto.exit_server_id) _ (Holds-required _ _) (λ id.
            Leads-bind (gets (find_own_server id user)) _ (Leads-gets _) (λ found.
              Leads-bind (required exit_missing found) _ (Holds-required _ _) (λ server.
                Leads-bind (reject (not server.has_ssh_auth) exit_destroyed) _ (Holds-reject _ _)
                  (λ _.
                    Leads-bind (reject (text_eq dto.entry_server_id id) same_server) _
                      (Holds-reject _ _) (λ _. Holds-pure id))))))

  parsed_or_thrown-Holds :
      {N : Table} (r : Result SocksError ParsedSocks) → Holds N (parsed_or_thrown o r)
  parsed_or_thrown-Holds (ok parsed) = Holds-pure parsed
  parsed_or_thrown-Holds (err e) = Holds-throw bad_socks_uri

  socks_exit-Holds : {N : Table} (dto : CreateChainNodeDto) → Holds N (socks_exit o dto)
  unfolding socks_exit
  socks_exit-Holds dto =
      Leads-bind
        (reject (not (is_filled dto.socks_uri) || is_some dto.exit_server_id) socks_exit_only) _
        (Holds-reject _ _)
        (λ _.
          Leads-bind (required socks_exit_only dto.socks_uri) _ (Holds-required _ _)
            (λ uri. parsed_or_thrown-Holds (parse_socks_uri o.host uri)))

  to_server-Holds :
      {N : Table} (dto : CreateChainNodeDto) (user : Text)
      → Holds N (managed_exit o dto user >>= λ id. pure (to_server id))
  to_server-Holds dto user =
      Leads-bind (managed_exit o dto user) _ (managed_exit-Holds dto user)
        (λ id. Holds-pure (to_server id))

  destination-Holds :
      {N : Table} (kind : Option ChainExitType) (dto : CreateChainNodeDto) (user : Text)
      → Holds N (destination_of o kind dto user)
  unfolding destination_of
  destination-Holds (some socks5_exit) dto user =
      Leads-bind (socks_exit o dto) _ (socks_exit-Holds dto)
        (λ parsed. Holds-pure (to_socks parsed))
  destination-Holds (some managed_server) dto user = to_server-Holds dto user
  destination-Holds none dto user = to_server-Holds dto user

  sealed_exit-Holds : {N : Table} (to : Destination) → Holds N (sealed_exit o to)
  unfolding sealed_exit
  sealed_exit-Holds (to_server id) = Leads-bind (ask o.draw) _ (Leads-ask _) (λ draw.
      Leads-bind (ask (o.encrypt (chain_credentials draw))) _ (Leads-ask _)
        (λ sealed. record { at = λ s n. n }))
  sealed_exit-Holds (to_socks parsed) =
      Leads-bind (ask (o.encrypt_exit parsed.config)) _ (Leads-ask _)
        (λ sealed. record { at = λ s n. n })

  chain_guards-Holds :
      {N : Table} (user : Text) (dto : CreateChainNodeDto) → Holds N (chain_guards o user dto)
  unfolding chain_guards
  chain_guards-Holds user dto =
      Leads-bind (gets (find_own_server dto.entry_server_id user)) _ (Leads-gets _) (λ found.
        Leads-bind (required entry_missing found) _ (Holds-required _ _) (λ server.
          Leads-bind (reject (not server.has_ssh_auth) entry_destroyed) _ (Holds-reject _ _) (λ _.
            Leads-bind (destination_of o dto.exit_type dto user) _
              (destination-Holds dto.exit_type dto user)
              (λ leaves.
                Leads-bind
                  (reject (is_cf_xhttp_preset dto.preset && not o.pilot_enabled) pilot_disabled) _
                  (Holds-reject _ _)
                  (λ _.
                    Leads-bind
                      (when (is_strict_dns_preset dto.preset || is_cf_xhttp_preset dto.preset)
                        (assert_active_cloudflare o user))
                      _ (when-Holds o _ _ (assert_active_cloudflare-Holds o user))
                      (λ _. Holds-pure leaves))))))

  -- `createChainNode`, whatever its outcome, keeps the identifiers of the nodes distinct and their
  -- ports apart, on the server of the entry and on that of the exit.
  pub create_chain_node-IsSound :
      (user : Text) (dto : CreateChainNodeDto) → Holds IsSound (create_chain_node o user dto)
  unfolding create_chain_node
  create_chain_node-IsSound user dto =
      let key = dto.preset in
      Leads-bind (chain_guards o user dto) _ (chain_guards-Holds user dto) (λ leaves.
        Leads-bind (preset_credentials o key user dto.xhttp_mode) _
          (preset_credentials-Holds o key user _)
          (λ enc. Leads-bind (sealed_exit o leaves) _ (sealed_exit-Holds leaves) (λ exit.
            Leads-bind
              (with_database_locks o (server_port_lock dto.entry_server_id ∷ exit_locks exit)
                (create_preset_row o key dto.entry_server_id user dto.name enc exit))
              _
              (Leads-with_database_locks o _ _ (λ nodes n. n) (λ a nodes n. n)
                (create_preset_row-Holds o key dto.entry_server_id user dto.name enc exit))
              (λ node.
                Leads-bind
                  (when
                    ((is_strict_dns_preset key || is_cf_xhttp_preset key) && not (is_mapped node))
                    (provision_or_remove o user node (is_cf_xhttp_preset key) true))
                  _ (when-Holds o _ _ (provision_or_remove-Holds o user node _ _))
                  (λ _. own-Holds o node.id user)))))
