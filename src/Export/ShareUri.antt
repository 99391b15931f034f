-- ===== src/Export/ShareUri.antt =====
-- `buildShareUri` of apps/server/src/subscriptions/uri-builder.ts.
use nextpanel.Prelude.{
  Bool, true, false, Option, none, some, [], ◌∷◌, ◌++◌, Text, text, is_empty, decimal,
  if◌then◌else◌,
}
use nextpanel.Prelude.Options.{◌>>=◌}
use nextpanel.Prelude.Exec.{Result, ok, err}
use nextpanel.Nodes.Model.{
  Protocol, vmess, vless, trojan, shadowsocks, socks5, http, hysteria2, tuic, anytls, Transport, ws,
  grpc, xhttp, TlsMode, plain, tls_on, reality, NodeError,
}
use nextpanel.Nodes.Credentials.{Creds, get}
use nextpanel.Nodes.Identity.{CfXhttpProfile, cf_xhttp_profile}
use nextpanel.Uri.Platform.{Host, Fields, end, field, string, object}
use nextpanel.Uri.External.{or_else}
use nextpanel.Uri.Xhttp.{parse_xhttp_mode, parse_xhttp_host, parse_xhttp_extra}
use nextpanel.Export.{
  NodeExportInfo, Params, param, member_or, net_of, net_name, authority, ws_path, filled, first_of,
  normalize_xhttp_path, add_transport_params, add_tls_params, reality_flow,
}

-- What the builder takes from the runtime besides the record `Host`.
pub record Printer : Type 0 where
  -- `encodeURIComponent`, `none` for its URIError
  pub encode_component : Text → Option Text
  -- `Buffer.from(s).toString('base64')`
  pub base64_of : Text → Text
  -- `new URLSearchParams(…).toString()`
  pub query_string : Params → Text

-- the query with its mark, and the whole link behind the scheme
abbrev pub query_part : Option Text → Text
query_part none = []
query_part (some query) = b'?' ∷ query

abbrev pub link_text : Text → Text → Option Text → Text → Text
link_text user place query tag = ((user ++ b'@' ∷ place) ++ query_part query) ++ b'#' ∷ tag

-- `qs ? '?' + qs : ''`
abbrev pub filled_query : Text → Option Text
filled_query qs = if is_empty qs then none else some qs

abbrev pub flow_params : TlsMode → Transport → Params
flow_params reality xhttp = []
flow_params reality _ = (text "flow", reality_flow) ∷ []
flow_params _ _ = []

-- H2 or H3 to the edge, for a variant of an XHTTP node behind Cloudflare
abbrev pub has_alpn : NodeExportInfo → Bool
has_alpn node = elim (net_of node.transport) [
  | xhttp ↦ elim (node.tls) [ tls_on ↦ node.cf_group | _ ↦ false ]
  | _ ↦ false
]

abbrev pub alpn_of : Result NodeError CfXhttpProfile → Option Params
alpn_of (ok profile) = some ((text "alpn", profile.alpn) ∷ [])
alpn_of (err e) = none

abbrev pub alpn_params : Bool → Creds → Option Params
alpn_params true creds = alpn_of (cf_xhttp_profile creds)
alpn_params false creds = some []

-- the members of the VMess document that XHTTP sets
abbrev field_if : Text → Option Text → Fields → Fields
field_if name none rest = rest
field_if name (some value) rest = field name (string value) rest

pub record XhttpMembers : Type 0 where
  pub mode : Option Text
  pub xhttp_host : Option Text
  pub extra : Option Text

abbrev xhttp_members : Host → Transport → Creds → Option XhttpMembers
xhttp_members host xhttp creds = do
  mode ← parse_xhttp_mode (get creds (text "xhttpMode"))
  xhttp_host ← parse_xhttp_host (get creds (text "xhttpHost"))
  _ ← parse_xhttp_extra host (get creds (text "xhttpExtra"))
  some (record { mode = some mode; xhttp_host = xhttp_host; extra = get creds (text "xhttpExtra") })
xhttp_members host _ creds = some (record { mode = none; xhttp_host = none; extra = none })

abbrev vmess_host : Transport → XhttpMembers → NodeExportInfo → Text
vmess_host xhttp m node = or_else m.xhttp_host []
vmess_host _ m node =
    or_else (first_of (get node.credentials (text "transportHost")) node.domain) []

abbrev vmess_path : Transport → Creds → Text
vmess_path ws creds = ws_path creds
vmess_path grpc creds = member_or creds (text "path") (text "grpc")
vmess_path xhttp creds = normalize_xhttp_path (get creds (text "path"))
vmess_path _ creds = []

abbrev vmess_tls : TlsMode → Text
vmess_tls plain = []
vmess_tls tls_on = text "tls"
vmess_tls reality = text "reality"

abbrev pub vmess_document : NodeExportInfo → Transport → XhttpMembers → Fields
vmess_document node net m = field (text "v") (string (text "2")) (
    field (text "ps") (string node.name) (
      field (text "add") (string node.host) (
        field (text "port") (string (decimal node.port)) (
          field (text "id") (string (member_or node.credentials (text "uuid") [])) (
            field (text "aid") (string (text "0")) (
              field (text "scy") (string (text "auto")) (
                field (text "net") (string (net_name net)) (
                  field (text "type") (string (text "none")) (
                    field (text "host") (string (vmess_host net m node)) (
                      field (text "path") (string (vmess_path net node.credentials)) (
                        field_if (text "mode") m.mode (
                          field_if (text "extra") m.extra (
                            field (text "tls") (string (vmess_tls node.tls)) (
                              field (text "sni") (string (or_else node.domain [])) end))))))))))))))

abbrev pub shadowsocks_method : Creds → Text
shadowsocks_method creds = member_or creds (text "method") (text "aes-256-gcm")

abbrev pub shadowsocks_user : Creds → Text
shadowsocks_user creds = shadowsocks_method creds ++ b':' ∷ member_or creds (text "password") []

-- `username:password@`, for SOCKS5 and HTTP
abbrev user_info : Printer → Creds → Option Text → Option Text
user_info printer creds none = some []
user_info printer creds (some username) = do
  user ← printer.encode_component username
  password ← printer.encode_component (member_or creds (text "password") [])
  some (user ++ b':' ∷ password ++ b'@' ∷ [])

abbrev http_scheme : TlsMode → Text
http_scheme tls_on = text "https://"
http_scheme _ = text "http://"

-- what the links of VLESS, Trojan and Hysteria 2 carry behind the mark, in this order
unfoldable pub query_params : Host → NodeExportInfo → Protocol → Option Params
unfolding add_transport_params cf_xhttp_profile
query_params host node vless = do
  transport ← add_transport_params host (net_of node.transport) node.domain node.credentials
  alpn ← alpn_params (has_alpn node) node.credentials
  some (
      (text "encryption", text "none")
      ∷ (flow_params node.tls (net_of node.transport)
          ++ (transport ++ (add_tls_params node.tls node.domain node.credentials ++ alpn))))
query_params host node trojan = do
  transport ← add_transport_params host (net_of node.transport) node.domain node.credentials
  some (transport ++ add_tls_params node.tls node.domain node.credentials)
query_params host node hysteria2 = some (param (text "sni") (filled node.domain))
query_params host node anytls =
    some ((text "insecure", text "0") ∷ param (text "sni") (filled node.domain))
query_params host node _ = some []

-- the link where the protocol has one, and `none` where not
unfoldable pub share_uri : Host → Printer → NodeExportInfo → Text → Protocol → Option (Option Text)
unfolding query_params
share_uri host printer node tag vmess = do
  let net = net_of node.transport
  members ← xhttp_members host net node.credentials
  some (
      some (
        text "vmess://"
        ++ printer.base64_of (host.print_json (object (vmess_document node net members)))))
share_uri host printer node tag vless = do
  params ← query_params host node vless
  some (
      some (
        text "vless://"
        ++ link_text (member_or node.credentials (text "uuid") []) (authority node.host node.port)
            (some (printer.query_string params)) tag))
share_uri host printer node tag trojan = do
  params ← query_params host node trojan
  password ← printer.encode_component (member_or node.credentials (text "password") [])
  some (
      some (
        text "trojan://"
        ++ link_text password (authority node.host node.port)
            (filled_query (printer.query_string params)) tag))
share_uri host printer node tag shadowsocks = some (
    some (
      text "ss://"
      ++ link_text (printer.base64_of (shadowsocks_user node.credentials))
          (authority node.host node.port) none tag))
share_uri host printer node tag hysteria2 = do
  params ← query_params host node hysteria2
  password ← printer.encode_component (member_or node.credentials (text "password") [])
  some (
      some (
        text "hy2://"
        ++ link_text password (authority node.host node.port)
            (filled_query (printer.query_string params)) tag))
share_uri host printer node tag tuic = some none
share_uri host printer node tag anytls = do
  params ← query_params host node anytls
  password ← printer.encode_component (member_or node.credentials (text "password") [])
  some (
      some (
        text "anytls://"
        ++ link_text password (authority node.host node.port ++ b'/' ∷ [])
            (some (printer.query_string params)) tag))
share_uri host printer node tag socks5 = do
  user ← user_info printer node.credentials (get node.credentials (text "username"))
  some (some (text "socks5://" ++ (user ++ (authority node.host node.port ++ b'#' ∷ tag))))
share_uri host printer node tag http = do
  user ← user_info printer node.credentials (get node.credentials (text "username"))
  some (some (http_scheme node.tls ++ (user ++ (authority node.host node.port ++ b'#' ∷ tag))))

unfoldable pub build_share_uri : Host → Printer → NodeExportInfo → Option (Option Text)
unfolding share_uri
build_share_uri host printer node = do
  tag ← printer.encode_component node.name
  share_uri host printer node tag node.protocol
