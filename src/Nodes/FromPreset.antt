-- ===== src/Nodes/FromPreset.antt =====
-- apps/server/src/nodes/nodes.service.ts: `createFromPreset`, and what it shares with
-- `createChainNode`.
use nextpanel.Prelude.{
  ℕ, Bool, true, false, ◌&&◌, ◌||◌, not, Option, none, some, List, [], ◌∷◌, ◌++◌, Text, text, ◌==◌,
  if◌then◌else◌,
}
use nextpanel.Prelude.Exec.{pure, throw, lift, reject, catch, ◌>>=◌, ◌>>◌}
use nextpanel.Uri.Socks.{ParsedSocks}
use nextpanel.Nodes.Model.{auto, ChainExitType, Node, pilot_disabled, origin_unavailable, wrapped}
use nextpanel.Nodes.Presets.{
  SupportedProtocol, protocol_presets, vless_ws_tls, vless_xhttp_tls, vless_xhttp_h3_tls,
  vless_tcp_tls, tuic_v5, anytls_preset,
}
use nextpanel.Nodes.Presets.Ranges.{preset_shape}
use nextpanel.Nodes.Credentials.{
  Creds, Draw, credential_generators, generate_x25519_keys, random_short_id,
}
use nextpanel.Nodes.Identity.{CfXhttpMode, apply_cf_xhttp_mode, is_cf_xhttp_preset}
use nextpanel.Nodes.World.{Outside, Service, ask, own_node, insert_node, with_database_locks}
use nextpanel.Nodes.Dns.{assert_owned_server, assert_active_cloudflare, check_xhttp_edge}
use nextpanel.Nodes.Create.{
  server_port_lock, when, blank_node, pick_port, pick_chain_exit_port, provision_or_remove,
}

pub record CreateNodeFromPresetDto : Type 0 where
  pub server_id : Text
  pub name : Text
  pub preset : SupportedProtocol
  pub xhttp_mode : Option CfXhttpMode

abbrev pub is_strict_dns_preset : SupportedProtocol → Bool
is_strict_dns_preset tuic_v5 = true
is_strict_dns_preset anytls_preset = true
is_strict_dns_preset _ = false

abbrev pub is_cloudflare_preset : SupportedProtocol → Bool
is_cloudflare_preset vless_ws_tls = true
is_cloudflare_preset vless_xhttp_tls = true
is_cloudflare_preset vless_xhttp_h3_tls = true
is_cloudflare_preset vless_tcp_tls = true
is_cloudflare_preset tuic_v5 = true
is_cloudflare_preset anytls_preset = true
is_cloudflare_preset _ = false

abbrev pub is_ws_preset : SupportedProtocol → Bool
is_ws_preset vless_ws_tls = true
is_ws_preset _ = false

pub record CreateChainNodeDto : Type 0 where
  pub entry_server_id : Text
  pub name : Text
  pub preset : SupportedProtocol
  pub xhttp_mode : Option CfXhttpMode
  pub exit_type : Option ChainExitType
  pub exit_server_id : Option Text
  pub socks_uri : Option Text

-- Where a chain leaves, before its credentials are sealed.
pub data Destination : Type 0 where
  to_server : Text → Destination
  to_socks : ParsedSocks → Destination

-- What a chain adds to the row: where it leaves, and the sealed credentials of that.
pub record Exit : Type 0 where
  pub kind : Option ChainExitType
  pub server_id : Option Text
  pub chain_cred_enc : Option Text
  pub socks_exit_enc : Option Text
  pub socks_exit_name : Option Text

abbrev pub no_exit : Exit
no_exit = record {
  kind = none;
  server_id = none;
  chain_cred_enc = none;
  socks_exit_enc = none;
  socks_exit_name = none;
}

abbrev pub public_port_of : SupportedProtocol → ℕ → Option ℕ
public_port_of key port = if is_cf_xhttp_preset key && not (port == 443) then some 443 else none

-- the row that is inserted
abbrev pub preset_node :
    Text → Text → Text → Text → SupportedProtocol → ℕ → Text → Exit → Option ℕ → Node
preset_node id server user name key port credentials_enc exit exit_port =
    record (blank_node id server user name (preset_shape key) port credentials_enc) {
      public_port = public_port_of key port;
      source = auto;
      exit_type = exit.kind;
      exit_server_id = exit.server_id;
      exit_port = exit_port;
      chain_cred_enc = exit.chain_cred_enc;
      socks_exit_enc = exit.socks_exit_enc;
      socks_exit_name = exit.socks_exit_name;
    }

abbrev pub is_mapped : Node → Bool
is_mapped node = elim node.public_port [ none ↦ false | some port ↦ port == 443 ]

abbrev pub exit_locks : Exit → List Text
exit_locks exit = elim exit.server_id [ none ↦ [] | some server ↦ server_port_lock server ∷ [] ]

-- `uuid`, a key pair and a short identifier between the two servers
abbrev pub chain_credentials : Draw → Creds
chain_credentials draw =
    (text "uuid", draw.random_uuid)
    ∷ (generate_x25519_keys draw ++ ((text "shortId", random_short_id draw) ∷ []))

module _ {W : Type 0} (o : Outside W) where
  -- where the origin must be mapped, that it can be is asked before the row is there
  unfoldable pub origin_preflight : SupportedProtocol → Text → Text → ℕ → Service W Unit
  origin_preflight key user server port = when (is_cf_xhttp_preset key) (
      reject (not o.has_cf_origin) origin_unavailable
      >> catch (ask (o.preflight user server (not (port == 443)))) (λ e. throw (wrapped e)))

  -- the credentials of a preset, checked and sealed
  unfoldable pub preset_credentials : SupportedProtocol → Text → Option CfXhttpMode → Service W Text
  preset_credentials key user mode = do
    draw ← ask o.draw
    c ← lift (apply_cf_xhttp_mode key (credential_generators draw key) mode)
    when (is_cf_xhttp_preset key) (check_xhttp_edge o user c none)
    ask (o.encrypt c)

  unfoldable pub exit_port_for : Option Text → Service W (Option ℕ)
  exit_port_for none = pure none
  exit_port_for (some server) = do port ← pick_chain_exit_port o server; pure (some port)

  unfoldable pub own_exit : Option Text → Text → Service W Unit
  own_exit none user = pure tt
  own_exit (some server) user = assert_owned_server server user

  -- under the locks of the ports of the servers; both creations run this, one without an exit
  unfoldable pub create_preset_row :
      SupportedProtocol → Text → Text → Text → Text → Exit → Service W Node
  unfolding origin_preflight exit_port_for own_exit
  create_preset_row key server user name credentials_enc exit =
      let preset = protocol_presets key in
      do
        assert_owned_server server user
        own_exit exit.server_id user
        port ←
            pick_port o server preset.fixed_port preset.port_base (some preset.implementation)
              (is_cf_xhttp_preset key)
        origin_preflight key user server port
        exit_port ← exit_port_for exit.server_id
        id ← ask o.new_id
        insert_node o (preset_node id server user name key port credentials_enc exit exit_port)

  unfoldable pub create_from_preset : Text → CreateNodeFromPresetDto → Service W Node
  create_from_preset user dto =
      let key = dto.preset in
      do
        assert_owned_server dto.server_id user
        reject (is_cf_xhttp_preset key && not o.pilot_enabled) pilot_disabled
        when (is_cloudflare_preset key) (assert_active_cloudflare o user)
        credentials_enc ← preset_credentials key user dto.xhttp_mode
        node ←
            with_database_locks o (server_port_lock dto.server_id ∷ [])
              (create_preset_row key dto.server_id user dto.name credentials_enc no_exit)
        when (is_cloudflare_preset key && not (is_mapped node)) (
            provision_or_remove o user node (is_ws_preset key || is_cf_xhttp_preset key)
              (is_strict_dns_preset key || is_cf_xhttp_preset key))
        own_node node.id user
