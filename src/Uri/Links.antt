-- ===== src/Uri/Links.antt =====
-- `parseVless`, `parseShadowsocks`, `parseSocks`, `parseTrojan`, `parseHysteria2` and `parseHttp` of
-- apps/server/src/external-nodes/uri-parser.ts.
pub mod Bounds
use nextpanel.Prelude.{
  ℕ, ◌+◌, false, [], Option, none, some, if◌then◌else◌, Text, text, text_eq, starts_with, index_of,
  last_index_of, take, slice_from,
}
use mathlib.Core.Option
use nextpanel.Prelude.Exec.{Result, ok, err}
use nextpanel.Prelude.Options.{◌>>=◌}
use nextpanel.Uri.Numbers.{Number, finite}
use nextpanel.Uri.HostPort.{parse_host_port}
use nextpanel.Uri.Platform.{Host}
use nextpanel.Uri.Socks.{
  SocksError, ParsedSocks, Credentials, before, left_of, right_of, parse_socks_uri,
}
use nextpanel.Uri.Xhttp.{parse_xhttp_mode, parse_xhttp_host, parse_xhttp_extra}
use nextpanel.Uri.External.{
  Options, ExternalNode, Transport, Tls, no_tls, with_tls, reality, vless, shadowsocks, socks5,
  trojan, hysteria2, base_node, safe_decode_base64, safe_decode_component, or_else, parse_name,
  parse_transport, is_xhttp, is_ws, past,
}
use nextpanel.Uri.Vmess.{when, known}

abbrev pub whole : ℕ → Number
whole port = finite false port 0

-- `scheme://user@host:port?query#fragment`, cut in the order of the code
pub record Link : Type 0 where
  pub fragment : Option Text
  pub query : Text
  pub user : Option Text
  pub host_port : Text

abbrev pub cut : Text → Link
cut s =
    let main = before (index_of s b'#') s in
    let host_part = before (index_of main b'?') main in
    let mark = last_index_of host_part b'@' in
    record {
      fragment = past (index_of s b'#') s;
      query = or_else (past (index_of main b'?') main) [];
      user = Option.map (λ i. take i host_part) mark;
      host_port = right_of mark host_part;
    }

-- `atIdx >= 0 ? safeDecodeURIComponent(...) : ''`
abbrev pub decode_user : Host → Option Text → Text
decode_user host none = []
decode_user host (some user) = safe_decode_component host user

abbrev pub or_some : Option Text → Option Text → Option Text
or_some none d = d
or_some (some s) d = some s

abbrev pub options_of : Host → (Text → Option Text) → Option Options
options_of host get =
    let transport = parse_transport (or_else (get (text "type")) (text "tcp")) in
    let over_xhttp = is_xhttp transport in
    let extra = if over_xhttp then get (text "extra") else none in
    do
      mode ← when over_xhttp (known (parse_xhttp_mode (get (text "mode"))))
      xhttp_host ← when over_xhttp (parse_xhttp_host (get (text "host")))
      _ ← when over_xhttp (parse_xhttp_extra host extra)
      some (record { transport = transport; mode = mode; xhttp_host = xhttp_host; extra = extra })

abbrev pub ws_host : Option Transport → Option Text → Option Text
ws_host transport value = if is_ws transport then value else none

abbrev pub path_of : (Text → Option Text) → Text
path_of get = or_else (get (text "path")) (or_else (get (text "serviceName")) [])

abbrev pub vless_tls : Text → Tls
vless_tls s =
    if text_eq s (text "tls")
    then with_tls
    else if text_eq s (text "reality")
    then reality
    else no_tls

abbrev pub vless_of : Host → Text → Link → Option ExternalNode
vless_of host uri link =
    let get = host.query_get link.query in
    do
      place ← parse_host_port link.host_port
      options ← options_of host get
      some
          (record (base_node vless (parse_name host link.fragment) place.0 (whole place.1)
            (vless_tls (or_else (get (text "security")) [])) uri) {
              uuid = some (or_else link.user []);
              transport = options.transport;
              reality_public_key = get (text "pbk");
              short_id = get (text "sid");
              xhttp_mode = options.mode;
              xhttp_host = options.xhttp_host;
              xhttp_extra = options.extra;
              sni = or_some (get (text "sni")) (
                  if is_xhttp options.transport
                  then none
                  else some (or_else (get (text "host")) []));
              path = some (path_of get);
              transport_host = ws_host options.transport (get (text "host"));
            })

unfoldable pub parse_vless : Host → Text → Option ExternalNode
unfolding index_of last_index_of parse_host_port parse_transport parse_xhttp_mode parse_xhttp_host
    parse_xhttp_extra
parse_vless host uri = vless_of host uri (cut (slice_from 8 uri))

-- method:password, as SIP002 has it, and as the old form has it behind another `@`
abbrev sip002_method : Text → Text
sip002_method decoded = before (index_of decoded b':') decoded

abbrev sip002_password : Text → Text
sip002_password decoded = or_else (past (index_of decoded b':') decoded) []

-- `atIdx2 >= 0 ? rest.slice(atIdx2 + 1) : ''`
abbrev legacy_host_port : Text → Text
legacy_host_port rest = or_else (past (last_index_of rest b'@') rest) []

abbrev shadowsocks_node : Text → Text → Text → Text → Text × ℕ → ExternalNode
shadowsocks_node uri name method password place =
    record (base_node shadowsocks name place.0 (whole place.1) no_tls uri) {
      password = some password;
      method = some method;
    }

abbrev pub shadowsocks_main : Host → Text → Text → Text → Option ℕ → Option ExternalNode
shadowsocks_main host uri name main (some i) =
    let decoded = safe_decode_base64 host (take i main) in
    do
      place ← parse_host_port (slice_from (i + 1) main)
      some (shadowsocks_node uri name (sip002_method decoded) (sip002_password decoded) place)
shadowsocks_main host uri name main none =
    let decoded = safe_decode_base64 host main in
    let rest = right_of (index_of decoded b':') decoded in
    do
      place ← parse_host_port (legacy_host_port rest)
      some (
          shadowsocks_node uri name (left_of (index_of decoded b':') decoded)
            (before (last_index_of rest b'@') rest) place)

unfoldable pub parse_shadowsocks : Host → Text → Option ExternalNode
unfolding index_of last_index_of parse_host_port
parse_shadowsocks host uri =
    let s = slice_from 5 uri in
    let main = before (index_of s b'#') s in
    shadowsocks_main host uri (parse_name host (past (index_of s b'#') s)) main
      (last_index_of main b'@')

abbrev username_of : Option Credentials → Option Text
username_of none = none
username_of (some c) = some c.username

abbrev password_of : Option Credentials → Option Text
password_of none = none
password_of (some c) = some c.password

abbrev pub socks_node : Text → Result SocksError ParsedSocks → Option ExternalNode
socks_node uri (err e) = none
socks_node uri (ok parsed) =
    some
      (record (base_node socks5 parsed.name parsed.config.host (whole parsed.config.port) no_tls
        uri) {
          username = username_of parsed.config.credentials;
          password = password_of parsed.config.credentials;
        })

unfoldable pub parse_socks : Host → Text → Option ExternalNode
unfolding parse_socks_uri
parse_socks host uri = socks_node uri (parse_socks_uri host uri)

abbrev pub trojan_of : Host → Text → Link → Option ExternalNode
trojan_of host uri link =
    let get = host.query_get link.query in
    do
      place ← parse_host_port link.host_port
      options ← options_of host get
      some
          (record (base_node trojan (parse_name host link.fragment) place.0 (whole place.1)
            (if text_eq (or_else (get (text "security")) (text "tls")) (text "none")
              then no_tls
              else with_tls)
            uri) {
              password = some (decode_user host link.user);
              transport = options.transport;
              xhttp_mode = options.mode;
              xhttp_host = options.xhttp_host;
              xhttp_extra = options.extra;
              sni = some (or_else (get (text "sni")) []);
              path = some (path_of get);
              transport_host = ws_host options.transport (get (text "host"));
            })

unfoldable pub parse_trojan : Host → Text → Option ExternalNode
unfolding index_of last_index_of parse_host_port parse_transport parse_xhttp_mode parse_xhttp_host
    parse_xhttp_extra
parse_trojan host uri = trojan_of host uri (cut (slice_from 9 uri))

abbrev pub hysteria2_of : Host → Text → Link → Option ExternalNode
hysteria2_of host uri link = do
  place ← parse_host_port link.host_port
  some
      (record (base_node hysteria2 (parse_name host link.fragment) place.0 (whole place.1) with_tls
        uri) {
          password = some (decode_user host link.user);
          sni = some (or_else (host.query_get link.query (text "sni")) []);
        })

unfoldable pub parse_hysteria2 : Host → Text → Option ExternalNode
unfolding index_of last_index_of starts_with parse_host_port
parse_hysteria2 host uri =
    hysteria2_of host uri
      (cut (slice_from (if starts_with uri (text "hysteria2://") then 12 else 6) uri))
