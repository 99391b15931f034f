-- ===== src/Nodes/Create.antt =====
-- apps/server/src/nodes/nodes.service.ts: `create`, `createFromPreset` and `createChainNode`.
use nextpanel.Prelude.{
  ℕ, Bool, true, false, ◌&&◌, not, Option, none, some, List, [], ◌∷◌, ◌++◌, Text, text, keep,
  is_some, if◌then◌else◌,
}
use nextpanel.Prelude.Exec.{pure, throw, lift, gets, reject, catch, ◌>>=◌, ◌>>◌}
use nextpanel.Nodes.Model.{
  Protocol, Implementation, Transport, TlsMode, EgressIpPolicy, auto_policy, manual, auto, inactive,
  Node, managed_preset_only, preset_misconfigured,
}
use nextpanel.Nodes.Shape.{
  NodeShape, ShapeInput, normalize_node_shape, is_cf_xhttp, is_managed_certificate_protocol,
  assert_egress_ip_policy_supported, assert_recommended_port,
}
use nextpanel.Nodes.Credentials.{Given}
use nextpanel.Nodes.Identity.{ensure_credentials}
use nextpanel.Nodes.Ports.{
  collect_server_ports, choose_port, choose_exit_port, candidate_ports, check_nodes, check_remote,
}
use nextpanel.Nodes.World.{
  Outside, DeployOptions, Service, ask, own_node, insert_node, with_database_locks, start,
  has_node_id,
}
use nextpanel.Nodes.Dns.{
  assert_owned_server, assert_active_cloudflare, rollback_created_node, provision_cloudflare_dns,
}

pub record CreateNodeDto : Type 0 where
  pub server_id : Text
  pub name : Text
  pub protocol : Protocol
  pub implementation : Option Implementation
  pub transport : Option Transport
  pub tls : Option TlsMode
  pub listen_port : ℕ
  pub domain : Option Text
  pub egress_ip_policy : Option EgressIpPolicy
  pub credentials : Given
  pub enabled : Option Bool

abbrev pub server_port_lock : Text → Text
server_port_lock server = text "nextpanel:server-ports:" ++ server

abbrev pub or_default : {A : Type 0} → A → Option A → A
or_default d none = d
or_default d (some a) = a

abbrev pub default_options : DeployOptions
default_options = record {
  force_rollback = false;
  skip_advisory_lock = false;
  previous_firewall = none;
}

-- the columns that no creation sets
abbrev pub blank_node : Text → Text → Text → Text → NodeShape → ℕ → Text → Node
blank_node id server user name s port credentials_enc = record {
  id = id;
  server_id = server;
  user_id = user;
  name = name;
  protocol = s.protocol;
  implementation = s.implementation;
  transport = s.transport;
  tls = s.tls;
  listen_port = port;
  public_port = none;
  cf_origin_route = none;
  domain = none;
  egress_ip_policy = auto_policy;
  credentials_enc = credentials_enc;
  cf_dns_record_id = none;
  source = manual;
  status = inactive;
  enabled = true;
  stats_port = none;
  exit_server_id = none;
  exit_port = none;
  exit_type = none;
  chain_cred_enc = none;
  socks_exit_enc = none;
  socks_exit_name = none;
}

abbrev pub input_of : CreateNodeDto → ShapeInput
input_of dto = record {
  protocol = dto.protocol;
  implementation = dto.implementation;
  transport = dto.transport;
  tls = dto.tls;
}

-- the row that `create` inserts
abbrev pub created_node : CreateNodeDto → NodeShape → Text → Text → Text → Node
created_node dto shape user id credentials_enc =
    let managed : Bool = is_managed_certificate_protocol shape.protocol in
    record (blank_node id dto.server_id user dto.name shape dto.listen_port credentials_enc) {
      domain = if managed then none else dto.domain;
      egress_ip_policy = or_default auto_policy dto.egress_ip_policy;
      enabled = or_default true dto.enabled;
      source = if managed then auto else manual;
    }

abbrev pub is_excluded : Option Text → Node → Bool
is_excluded none node = false
is_excluded (some id) node = has_node_id id node

module _ {W : Type 0} where
  -- `if (condition) await m`
  abbrev pub when : Bool → Service W Unit → Service W Unit
  when true m = m
  when false m = pure tt

module _ {W : Type 0} (o : Outside W) where
  -- the ports that the nodes of a server take, those on it as an exit included, and the remote ones
  unfoldable pub used_ports : Text → Service W (List ℕ)
  unfolding collect_server_ports
  used_ports server = do
    taken ← gets (λ s. collect_server_ports s.nodes server)
    remote ← ask (o.unavailable_ports server none)
    pure (taken ++ remote)

  unfoldable pub pick_chain_exit_port : Text → Service W ℕ
  pick_chain_exit_port server = do used ← used_ports server; lift (choose_exit_port used)

  -- that neither bound is given is found before the ports are read
  unfoldable pub pick_port : Text → Option ℕ → Option ℕ → Option Implementation → Bool → Service W ℕ
  pick_port server fixed base implementation allow = do
    reject (not (is_some fixed) && not (is_some base)) preset_misconfigured
    used ← used_ports server
    lift (choose_port used fixed base implementation allow)

  unfoldable pub assert_port_available :
      Text → ℕ → Option Implementation → Option Text → Service W Unit
  unfolding check_nodes check_remote
  assert_port_available server port implementation exclude = do
    others ← gets (λ s. keep (λ node. not (is_excluded exclude node)) s.nodes)
    lift (check_nodes (candidate_ports port implementation) server others)
    remote ← ask (o.unavailable_ports server exclude)
    lift (check_remote remote (candidate_ports port implementation))

  -- under the lock of the server's ports
  unfoldable pub create_row : CreateNodeDto → NodeShape → Text → Text → Service W Node
  create_row dto shape user credentials_enc = do
    assert_owned_server dto.server_id user
    assert_port_available dto.server_id dto.listen_port shape.implementation none
    id ← ask o.new_id
    insert_node o (created_node dto shape user id credentials_enc)

  -- the guards before anything is drawn
  unfoldable pub checked_shape : CreateNodeDto → Text → Service W NodeShape
  checked_shape dto user = do
    shape ← lift (normalize_node_shape (input_of dto))
    reject (is_cf_xhttp shape.protocol shape.transport shape.tls) managed_preset_only
    lift (assert_egress_ip_policy_supported shape (or_default auto_policy dto.egress_ip_policy))
    lift (assert_recommended_port shape dto.listen_port)
    when (is_managed_certificate_protocol shape.protocol) (assert_active_cloudflare o user)
    pure shape

  unfoldable pub sealed_credentials : NodeShape → Given → Service W Text
  sealed_credentials shape given = do
    draw ← ask o.draw
    keys ← ask o.draw
    c ← lift (ensure_credentials draw keys shape given)
    ask (o.encrypt c)

  -- the record of a node that was created; where that fails the node is removed again
  unfoldable pub provision_or_remove : Text → Node → Bool → Bool → Service W Unit
  provision_or_remove user node proxied strict =
      catch (provision_cloudflare_dns o user node.id node.server_id proxied strict)
        (λ e. rollback_created_node o node.id >> throw e)

  -- a managed node is read again, with its record
  abbrev pub answer : Bool → Node → Text → Service W Node
  answer true node user = own_node node.id user
  answer false node user = pure node

  unfoldable pub create : CreateNodeDto → Text → Service W Node
  create dto user = do
    assert_owned_server dto.server_id user
    shape ← checked_shape dto user
    credentials_enc ← sealed_credentials shape dto.credentials
    node ←
        with_database_locks o (server_port_lock dto.server_id ∷ [])
          (create_row dto shape user credentials_enc)
    when (is_managed_certificate_protocol shape.protocol) (provision_or_remove user node false true)
    start o node.id default_options
    answer (is_managed_certificate_protocol shape.protocol) node user
