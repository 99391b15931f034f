-- ===== src/Nodes/Model.antt =====
-- The columns of the tables Node and Server (apps/server/prisma/schema.prisma) that
-- apps/server/src/nodes/nodes.service.ts reads or writes, and what the service throws.
use nextpanel.Prelude.{ℕ, Bool, Option, none, some, Text, ◌==◌}

pub data Protocol : Type 0 where
  vmess vless trojan shadowsocks socks5 http hysteria2 tuic anytls : Protocol

pub data Implementation : Type 0 where
  xray v2ray sing_box ss_libev : Implementation

pub data Transport : Type 0 where
  tcp ws grpc quic xhttp : Transport

pub data TlsMode : Type 0 where
  plain tls_on reality : TlsMode

pub data EgressIpPolicy : Type 0 where
  auto_policy ipv4_only : EgressIpPolicy

pub data NodeSource : Type 0 where
  manual auto : NodeSource

pub data NodeStatus : Type 0 where
  inactive running stopped failed : NodeStatus

pub data ChainExitType : Type 0 where
  managed_server socks5_exit : ChainExitType

pub record Node : Type 0 where
  pub id : Text
  pub server_id : Text
  pub user_id : Text
  pub name : Text
  pub protocol : Protocol
  pub implementation : Option Implementation
  pub transport : Option Transport
  pub tls : TlsMode
  pub listen_port : ℕ
  pub public_port : Option ℕ
  pub cf_origin_route : Option Text
  pub domain : Option Text
  pub egress_ip_policy : EgressIpPolicy
  pub credentials_enc : Text
  pub cf_dns_record_id : Option Text
  pub source : NodeSource
  pub status : NodeStatus
  pub enabled : Bool
  pub stats_port : Option ℕ
  pub exit_server_id : Option Text
  pub exit_port : Option ℕ
  pub exit_type : Option ChainExitType
  pub chain_cred_enc : Option Text
  pub socks_exit_enc : Option Text
  pub socks_exit_name : Option Text

pub record Server : Type 0 where
  pub id : Text
  pub user_id : Text
  pub ip : Text
  pub deleting : Bool
  -- `sshAuthEnc` holds something
  pub has_ssh_auth : Bool

-- One constructor for each exception, named for its message. `outside` is an exception of the code
-- that the service calls, with its message and whether its `rollbackFailed` is true; `wrapped` is a
-- BadRequestException with the message of another.
pub data NodeError : Type 0 where
  node_not_found server_not_found server_deleting record_missing : NodeError
  quic_removed xhttp_needs_vless xhttp_needs_xray xhttp_needs_tls : NodeError
  needs_sing_box native_transport needs_tls reality_needs_vless : NodeError
  ipv4_needs_xray xhttp_needs_443 : NodeError
  bad_short_id bad_path : NodeError
  mode_not_supported bad_xhttp_profile bad_xhttp_identity bad_xhttp_options bad_xhttp_path :
      NodeError
  pilot_disabled managed_preset_only use_subscription : NodeError
  preset_misconfigured range_exhausted exit_range_exhausted origin_pool_exhausted : NodeError
  port_occupied : ℕ → NodeError
  remote_port_occupied : ℕ → NodeError
  cloudflare_not_configured cloudflare_not_valid zone_not_active : NodeError
  server_change mode_needs_cdn pilot_in_place : NodeError
  deploy_failed_restored deploy_failed_kept restore_failed : NodeError
  origin_unavailable edge_unavailable : NodeError
  entry_missing entry_destroyed exit_missing exit_destroyed same_server : NodeError
  managed_exit_only socks_exit_only bad_socks_uri : NodeError
  outside : Bool → Text → NodeError
  wrapped : NodeError → NodeError

abbrev protocol_code : Protocol → ℕ
protocol_code vmess = 0
protocol_code vless = 1
protocol_code trojan = 2
protocol_code shadowsocks = 3
protocol_code socks5 = 4
protocol_code http = 5
protocol_code hysteria2 = 6
protocol_code tuic = 7
protocol_code anytls = 8

abbrev transport_code : Option Transport → ℕ
transport_code none = 0
transport_code (some tcp) = 1
transport_code (some ws) = 2
transport_code (some grpc) = 3
transport_code (some quic) = 4
transport_code (some xhttp) = 5

abbrev tls_code : TlsMode → ℕ
tls_code plain = 0
tls_code tls_on = 1
tls_code reality = 2

-- `a === b` for members of the enumerations
abbrev pub protocol_eq : Protocol → Protocol → Bool
protocol_eq p q = protocol_code p == protocol_code q

abbrev pub transport_eq : Option Transport → Option Transport → Bool
transport_eq t u = transport_code t == transport_code u

abbrev pub tls_eq : TlsMode → TlsMode → Bool
tls_eq t u = tls_code t == tls_code u
