-- ===== src/Uri/External.antt =====
-- apps/server/src/external-nodes/uri-parser.ts: what the importer makes of a share link. The
-- parsers of the schemes are the modules `Uri.Vmess`, `Uri.Links` and `Uri.Compact`. Every `catch`
-- returns null, so a throw is `none` here too.
use nextpanel.Prelude.{
  ℕ, ◌+◌, Bool, true, false, [], ◌∷◌, map, Option, none, some, if◌then◌else◌, Text, text, text_eq,
  is_empty, lower_unit, slice_from,
}
use nextpanel.Uri.Numbers.{Number}
use nextpanel.Uri.Platform.{Host}
use nextpanel.Uri.Base64.{padded, url_safe}

-- The values that `protocol`, `transport` and `tls` take here.
pub data Protocol : Type 0 where
  vmess vless shadowsocks socks5 trojan hysteria2 http : Protocol

pub data Transport : Type 0 where
  ws grpc quic xhttp : Transport

pub data Tls : Type 0 where
  no_tls with_tls reality : Tls

-- `ExternalNodeData`; the port is a number of any kind, since `parseVmess` lets any pass
pub record ExternalNode : Type 0 where
  pub name : Text
  pub protocol : Protocol
  pub address : Text
  pub port : Number
  pub uuid : Option Text
  pub username : Option Text
  pub password : Option Text
  pub method : Option Text
  pub transport : Option Transport
  pub transport_host : Option Text
  pub tls : Tls
  pub reality_public_key : Option Text
  pub short_id : Option Text
  pub xhttp_mode : Option Text
  pub xhttp_host : Option Text
  pub xhttp_extra : Option Text
  pub sni : Option Text
  pub path : Option Text
  pub raw_uri : Text

-- a node with the fields that every parser gives, the others undefined
abbrev pub base_node : Protocol → Text → Text → Number → Tls → Text → ExternalNode
base_node protocol name address port security uri = record {
  name = name;
  protocol = protocol;
  address = address;
  port = port;
  uuid = none;
  username = none;
  password = none;
  method = none;
  transport = none;
  transport_host = none;
  tls = security;
  reality_public_key = none;
  short_id = none;
  xhttp_mode = none;
  xhttp_host = none;
  xhttp_extra = none;
  sni = none;
  path = none;
  raw_uri = uri;
}

-- `safeDecodeBase64`, which throws on nothing
abbrev pub safe_decode_base64 : Host → Text → Text
safe_decode_base64 host s = host.utf8_text (host.base64_bytes (padded (url_safe s)))

abbrev pub or_else : Option Text → Text → Text
or_else none d = d
or_else (some s) d = s

abbrev pub safe_decode_component : Host → Text → Text
safe_decode_component host s = or_else (host.decode_component s) s

-- 导入节点
abbrev pub imported : Text
imported = 0x5bfc ∷ 0x5165 ∷ 0x8282 ∷ 0x70b9 ∷ []

abbrev pub or_imported : Text → Text
or_imported s = if is_empty s then imported else s

-- `parseName`; an empty fragment is as good as none
abbrev pub parse_name : Host → Option Text → Text
parse_name host none = imported
parse_name host (some fragment) =
    if is_empty fragment then imported else or_imported (safe_decode_component host fragment)

unfoldable pub parse_transport : Text → Option Transport
unfolding text_eq lower_unit
parse_transport value =
    let name = map lower_unit value in
    if text_eq name (text "ws")
    then some ws
    else if text_eq name (text "grpc")
    then some grpc
    else if text_eq name (text "quic")
    then some quic
    else if text_eq name (text "xhttp")
    then some xhttp
    else none

abbrev pub is_xhttp : Option Transport → Bool
is_xhttp (some xhttp) = true
is_xhttp _ = false

abbrev pub is_ws : Option Transport → Bool
is_ws (some ws) = true
is_ws _ = false

-- `i >= 0 ? s.slice(i + 1) : null`
abbrev pub past : Option ℕ → Text → Option Text
past none s = none
past (some i) s = some (slice_from (i + 1) s)

-- the transport options, which XHTTP fills in
pub record Options : Type 0 where
  pub transport : Option Transport
  pub mode : Option Text
  pub xhttp_host : Option Text
  pub extra : Option Text
