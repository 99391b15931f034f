-- ===== src/Nodes/Chain.antt =====
-- apps/server/src/nodes/nodes.service.ts: `createChainNode`.
use nextpanel.Prelude.{true, ◌&&◌, ◌||◌, not, Option, none, some, ◌∷◌, Text, text_eq, is_some}
use nextpanel.Prelude.Exec.{Result, ok, err, pure, throw, gets, reject, ◌>>=◌, ◌>>◌}
use nextpanel.Uri.Socks.{ParsedSocks, SocksError, parse_socks_uri}
use nextpanel.Nodes.Model.{
  ChainExitType, managed_server, socks5_exit, Node, pilot_disabled, entry_missing, entry_destroyed,
  exit_missing, exit_destroyed, same_server, managed_exit_only, socks_exit_only, bad_socks_uri,
}
use nextpanel.Nodes.Credentials.{is_filled}
use nextpanel.Nodes.Identity.{is_cf_xhttp_preset}
use nextpanel.Nodes.World.{Outside, Service, ask, required, own_node, with_database_locks}
use nextpanel.Nodes.Dns.{assert_active_cloudflare, find_own_server}
use nextpanel.Nodes.Create.{server_port_lock, when, provision_or_remove}
use nextpanel.Nodes.FromPreset.{
  CreateChainNodeDto, Destination, to_server, to_socks, Exit, no_exit, exit_locks,
  chain_credentials, is_strict_dns_preset, is_mapped, preset_credentials, create_preset_row,
}

module _ {W : Type 0} (o : Outside W) where
  unfoldable pub managed_exit : CreateChainNodeDto → Text → Service W Text
  managed_exit dto user = do
    reject (not (is_filled dto.exit_server_id) || is_some dto.socks_uri) managed_exit_only
    id ← required managed_exit_only dto.exit_server_id
    found ← gets (find_own_server id user)
    server ← required exit_missing found
    reject (not server.has_ssh_auth) exit_destroyed
    reject (text_eq dto.entry_server_id id) same_server
    pure id

  abbrev pub parsed_or_thrown : Result SocksError ParsedSocks → Service W ParsedSocks
  parsed_or_thrown (ok parsed) = pure parsed
  parsed_or_thrown (err e) = throw bad_socks_uri

  unfoldable pub socks_exit : CreateChainNodeDto → Service W ParsedSocks
  socks_exit dto = do
    reject (not (is_filled dto.socks_uri) || is_some dto.exit_server_id) socks_exit_only
    uri ← required socks_exit_only dto.socks_uri
    parsed_or_thrown (parse_socks_uri o.host uri)

  -- the two kinds of exit, of which the caller names one
  unfoldable pub destination_of :
      Option ChainExitType → CreateChainNodeDto → Text → Service W Destination
  unfolding managed_exit socks_exit
  destination_of (some socks5_exit) dto user = socks_exit dto >>= λ parsed. pure (to_socks parsed)
  destination_of (some managed_server) dto user =
      managed_exit dto user >>= λ id. pure (to_server id)
  destination_of none dto user = managed_exit dto user >>= λ id. pure (to_server id)

  unfoldable pub sealed_exit : Destination → Service W Exit
  sealed_exit (to_server id) = do
    draw ← ask o.draw
    sealed ← ask (o.encrypt (chain_credentials draw))
    pure (record no_exit {
      kind = some managed_server;
      server_id = some id;
      chain_cred_enc = some sealed;
    })
  sealed_exit (to_socks parsed) = do
    sealed ← ask (o.encrypt_exit parsed.config)
    pure (record no_exit {
      kind = some socks5_exit;
      socks_exit_enc = some sealed;
      socks_exit_name = some parsed.name;
    })

  -- the guards: both ends, and Cloudflare where the preset needs it
  unfoldable pub chain_guards : Text → CreateChainNodeDto → Service W Destination
  chain_guards user dto = do
    found ← gets (find_own_server dto.entry_server_id user)
    server ← required entry_missing found
    reject (not server.has_ssh_auth) entry_destroyed
    leaves ← destination_of dto.exit_type dto user
    reject (is_cf_xhttp_preset dto.preset && not o.pilot_enabled) pilot_disabled
    when (is_strict_dns_preset dto.preset || is_cf_xhttp_preset dto.preset)
        (assert_active_cloudflare o user)
    pure leaves

  unfoldable pub create_chain_node : Text → CreateChainNodeDto → Service W Node
  create_chain_node user dto =
      let key = dto.preset in
      do
        leaves ← chain_guards user dto
        credentials_enc ← preset_credentials o key user dto.xhttp_mode
        exit ← sealed_exit leaves
        node ←
            with_database_locks o (server_port_lock dto.entry_server_id ∷ exit_locks exit)
              (create_preset_row o key dto.entry_server_id user dto.name credentials_enc exit)
        when ((is_strict_dns_preset key || is_cf_xhttp_preset key) && not (is_mapped node))
            (provision_or_remove o user node (is_cf_xhttp_preset key) true)
        own_node node.id user
