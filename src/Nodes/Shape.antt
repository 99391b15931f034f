-- ===== src/Nodes/Shape.antt =====
-- apps/server/src/nodes/nodes.service.ts: the shape of a node (protocol, implementation, transport
-- and security mode) and the tests on it.
pub mod Laws
use nextpanel.Prelude.{
  ℕ, Bool, true, false, ◌&&◌, ◌||◌, not, Option, none, some, is_some, ◌==◌, if◌then◌else◌,
}
use nextpanel.Prelude.Exec.{Result, ok, err}
use nextpanel.Prelude.Results.{reject, ◌>>=◌, ◌>>◌}
use nextpanel.Nodes.Model.{
  Protocol, vless, tuic, anytls, Implementation, xray, v2ray, sing_box, Transport, quic, xhttp,
  TlsMode, plain, tls_on, reality, EgressIpPolicy, ipv4_only, NodeError, quic_removed,
  xhttp_needs_vless, xhttp_needs_xray, xhttp_needs_tls, needs_sing_box, native_transport, needs_tls,
  reality_needs_vless, ipv4_needs_xray, xhttp_needs_443,
}

pub record NodeShape : Type 0 where
  pub protocol : Protocol
  pub implementation : Option Implementation
  pub transport : Option Transport
  pub tls : TlsMode

pub record ShapeInput : Type 0 where
  pub protocol : Protocol
  pub implementation : Option Implementation
  pub transport : Option Transport
  pub tls : Option TlsMode

abbrev pub is_vless : Protocol → Bool
is_vless vless = true
is_vless _ = false

abbrev pub is_managed_certificate_protocol : Protocol → Bool
is_managed_certificate_protocol tuic = true
is_managed_certificate_protocol anytls = true
is_managed_certificate_protocol _ = false

abbrev pub is_xhttp : Option Transport → Bool
is_xhttp (some xhttp) = true
is_xhttp _ = false

abbrev pub is_quic : Option Transport → Bool
is_quic (some quic) = true
is_quic _ = false

-- `implementation ?? 'XRAY'` is XRAY, that is, nothing or XRAY
abbrev pub xray_or_none : Option Implementation → Bool
xray_or_none none = true
xray_or_none (some xray) = true
xray_or_none (some _) = false

abbrev pub sing_box_or_none : Option Implementation → Bool
sing_box_or_none none = true
sing_box_or_none (some sing_box) = true
sing_box_or_none (some _) = false

abbrev pub tls_or : TlsMode → Option TlsMode → TlsMode
tls_or default none = default
tls_or default (some t) = t

abbrev pub is_reality : TlsMode → Bool
is_reality reality = true
is_reality _ = false

abbrev pub is_tls_on : TlsMode → Bool
is_tls_on tls_on = true
is_tls_on _ = false

abbrev pub is_plain : TlsMode → Bool
is_plain plain = true
is_plain _ = false

-- the block under `transport === 'XHTTP'`
xhttp_shape : ShapeInput → Result NodeError NodeShape
xhttp_shape i = do
  reject (not (is_vless i.protocol)) xhttp_needs_vless
  reject (not (xray_or_none i.implementation)) xhttp_needs_xray
  reject (is_plain (tls_or reality i.tls)) xhttp_needs_tls
  ok (record {
    protocol = i.protocol;
    implementation = some xray;
    transport = i.transport;
    tls = tls_or reality i.tls;
  })

-- the block under `isManagedCertificateProtocol(input.protocol)`
managed_shape : ShapeInput → NodeShape → Result NodeError NodeShape
managed_shape i s = do
  reject (not (sing_box_or_none s.implementation)) needs_sing_box
  reject (is_some s.transport) native_transport
  reject (not (is_tls_on (tls_or tls_on i.tls))) needs_tls
  ok (record s { implementation = some sing_box; transport = none; tls = tls_on })

abbrev given_shape : ShapeInput → NodeShape
given_shape i = record {
  protocol = i.protocol;
  implementation = i.implementation;
  transport = i.transport;
  tls = tls_or plain i.tls;
}

unfoldable pub normalize_node_shape : ShapeInput → Result NodeError NodeShape
unfolding xhttp_shape managed_shape
normalize_node_shape i = do
  reject (is_quic i.transport) quic_removed
  s ← if is_xhttp i.transport then xhttp_shape i else ok (given_shape i)
  t ← if is_managed_certificate_protocol i.protocol then managed_shape i s else ok s
  reject (is_reality t.tls && not (is_vless i.protocol)) reality_needs_vless
  ok t

unfoldable pub assert_recommended_port : NodeShape → ℕ → Result NodeError (Unit {0})
assert_recommended_port s listen_port =
    reject (is_xhttp s.transport && not (listen_port == 443)) xhttp_needs_443

abbrev pub is_ipv4_only : EgressIpPolicy → Bool
is_ipv4_only ipv4_only = true
is_ipv4_only _ = false

unfoldable pub assert_egress_ip_policy_supported :
    NodeShape → EgressIpPolicy → Result NodeError (Unit {0})
assert_egress_ip_policy_supported s policy =
    reject (is_ipv4_only policy && not (xray_or_none s.implementation)) ipv4_needs_xray

unfoldable pub is_modern_protocol_shape : Protocol → Option Transport → Bool
is_modern_protocol_shape p t = is_xhttp t || is_managed_certificate_protocol p

unfoldable pub needs_credential_normalization : NodeShape → Bool
needs_credential_normalization s =
    is_reality s.tls || is_xhttp s.transport || is_managed_certificate_protocol s.protocol

unfoldable pub is_cf_xhttp : Protocol → Option Transport → TlsMode → Bool
is_cf_xhttp p t s = is_vless p && (is_xhttp t && is_tls_on s)
