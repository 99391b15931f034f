-- ===== src/Export/Imported.antt =====
-- What a link of apps/server/src/subscriptions/uri-builder.ts says of its node, in the words of the
-- importer of apps/server/src/external-nodes/uri-parser.ts, and what is relied on of the runtime.
use nextpanel.Prelude.{
  ◌%◌, ◌≡◌, ◌≤◌, true, false, ◌&&◌, not, Option, none, some, [], ◌∷◌, Text, text, text_eq, length,
  all, ltb, ◌==◌, if◌then◌else◌,
}
use nextpanel.Prelude.{All, includes, ◌||◌}
use nextpanel.Nodes.Model.{
  Protocol, vless, trojan, shadowsocks, hysteria2, Transport, tcp, ws, grpc, quic, xhttp, TlsMode,
  plain, tls_on, reality,
}
use nextpanel.Nodes.Credentials.{Creds, get}
use nextpanel.Uri.Platform.{Host}
use nextpanel.Uri.Xhttp.{parse_xhttp_mode}
use nextpanel.Uri.External
use nextpanel.Uri.External.{ExternalNode, Tls, no_tls, with_tls, base_node, or_else, or_imported}
use nextpanel.Uri.Links.{whole}
use nextpanel.Export.{
  NodeExportInfo, Params, member_or, net_of, ws_path, ws_host, filled, first_of,
  normalize_xhttp_path, reality_default_sni,
}
use nextpanel.Export.ShareUri.{Printer, query_params, shadowsocks_method, shadowsocks_user}
use nextpanel.Export.Tokens.{is_clear, IsToken}
use nextpanel.Export.Places.{IsHost}

-- the first value of a name
unfoldable pub get_param : Text → Params → Option Text
get_param name [] = none
get_param name ((key, value) ∷ params) =
    if text_eq key name then some value else get_param name params

-- A text without lone surrogates: `encodeURIComponent` takes it.
abbrev pub IsWellFormed : Printer → Text → Type 0
IsWellFormed printer s = (e : Text) × (printer.encode_component s ≡ some e)

-- the names and the values
abbrev pub AreWellFormed : Printer → Params → Type 0
AreWellFormed printer params = All (λ p. IsWellFormed printer p.0 × IsWellFormed printer p.1) params

-- What a printed text is made of, and that the decoders undo the printers on well-formed texts.
pub record Prints (host : Host) (printer : Printer) : Type 0 where
  pub decodes :
      (s e : Text) → printer.encode_component s ≡ some e → host.decode_component e ≡ some s
  pub ascii_fits : (s : Text) → all (λ c. ltb c 128) s ≡ true → IsWellFormed printer s
  pub decodes_empty : host.decode_component [] ≡ some []
  pub encoded_units : (s e : Text) → printer.encode_component s ≡ some e → IsToken e
  pub query_units : (params : Params) → IsToken (printer.query_string params)
  pub query_reads :
      (params : Params)
      → AreWellFormed printer params
      → (name : Text) → IsWellFormed printer name
      → host.query_get (printer.query_string params) name ≡ get_param name params
  pub base64_units :
      (s : Text)
      → all (λ c. is_clear c && not (c == b'-' || c == b'_')) (printer.base64_of s) ≡ true
  pub base64_length : (s : Text) → length (printer.base64_of s) % 4 ≡ 0
  pub base64_reads :
      (s : Text)
      → IsWellFormed printer s
      → host.utf8_text (host.base64_bytes (printer.base64_of s)) ≡ s

abbrev pub password_of : NodeExportInfo → Text
password_of node = member_or node.credentials (text "password") []

-- What the protocol needs of the credentials.
abbrev pub CanBeShared : Printer → NodeExportInfo → Protocol → Type 0
CanBeShared printer node vless = IsToken (member_or node.credentials (text "uuid") [])
CanBeShared printer node trojan = Unit
CanBeShared printer node hysteria2 = Unit
CanBeShared printer node shadowsocks =
    (includes (shadowsocks_method node.credentials) b':' ≡ false)
    × IsWellFormed printer (shadowsocks_user node.credentials)
CanBeShared printer node _ = ⊥

pub record IsShareable (host : Host) (printer : Printer) (node : NodeExportInfo) : Type 0 where
  pub host_named : IsHost node.host
  pub port_low : 1 ≤ node.port
  pub port_high : node.port ≤ 65535
  pub credentials_fit : CanBeShared printer node node.protocol
  pub params_fit :
      (params : Params)
      → query_params host node node.protocol ≡ some params
      → AreWellFormed printer params

abbrev pub transport_of : Transport → Option External.Transport
transport_of tcp = none
transport_of ws = some External.ws
transport_of grpc = some External.grpc
transport_of quic = some External.quic
transport_of xhttp = some External.xhttp

abbrev pub only_reality : TlsMode → Text → Option Text
only_reality reality value = some value
only_reality _ value = none

abbrev pub only_ws : Transport → Option Text → Option Text
only_ws ws value = value
only_ws _ value = none

abbrev pub only_xhttp : Transport → Option Text → Option Text
only_xhttp xhttp value = value
only_xhttp _ value = none

abbrev pub path_of : Transport → Creds → Text
path_of ws creds = ws_path creds
path_of grpc creds = member_or creds (text "path") (text "grpc")
path_of xhttp creds = normalize_xhttp_path (get creds (text "path"))
path_of _ creds = []

abbrev pub vless_tls : TlsMode → Tls
vless_tls plain = no_tls
vless_tls tls_on = with_tls
vless_tls reality = External.reality

-- with no name of its own, a link of VLESS is read as naming the host of its WebSocket
abbrev pub host_as_sni : Transport → Option Text → Option Text
host_as_sni xhttp host = none
host_as_sni ws host = some (or_else host [])
host_as_sni _ host = some []

abbrev pub vless_sni : TlsMode → Transport → Creds → Option Text → Option Text
vless_sni reality net creds domain = some (or_else domain reality_default_sni)
vless_sni tls_on net creds domain =
    first_of (filled domain) (host_as_sni net (ws_host creds domain))
vless_sni plain net creds domain = host_as_sni net (ws_host creds domain)

-- a link of Trojan is read as TLS also where it says REALITY
abbrev pub trojan_tls : TlsMode → Tls
trojan_tls plain = no_tls
trojan_tls _ = with_tls

abbrev pub trojan_sni : TlsMode → Option Text → Text
trojan_sni plain domain = []
trojan_sni tls_on domain = or_else (filled domain) []
trojan_sni reality domain = or_else domain reality_default_sni

abbrev pub bare : NodeExportInfo → External.Protocol → Tls → Text → ExternalNode
bare node as_protocol tls uri =
    base_node as_protocol (or_imported node.name) node.host (whole node.port) tls uri

abbrev pub over_transport : ExternalNode → Transport → Creds → Option Text → ExternalNode
over_transport external net creds domain = record external {
  transport = transport_of net;
  xhttp_mode = only_xhttp net (parse_xhttp_mode (get creds (text "xhttpMode")));
  xhttp_host = only_xhttp net (filled (get creds (text "xhttpHost")));
  xhttp_extra = only_xhttp net (get creds (text "xhttpExtra"));
  path = some (path_of net creds);
  transport_host = only_ws net (ws_host creds domain);
}

-- The node that an importer should see, for the protocols that it reads and whose links have the
-- common form; `none` for the others.
unfoldable pub as_imported : NodeExportInfo → Text → Protocol → Option ExternalNode
as_imported node uri vless =
    let net = net_of node.transport in
    some (
      over_transport
        (record (bare node External.vless (vless_tls node.tls) uri) {
          uuid = some (member_or node.credentials (text "uuid") []);
          reality_public_key =
              only_reality node.tls (member_or node.credentials (text "realityPublicKey") []);
          short_id = only_reality node.tls (member_or node.credentials (text "shortId") []);
          sni = vless_sni node.tls net node.credentials node.domain;
        })
        net node.credentials node.domain)
as_imported node uri trojan = some (
    over_transport
      (record (bare node External.trojan (trojan_tls node.tls) uri) {
        password = some (password_of node);
        sni = some (trojan_sni node.tls node.domain);
      })
      (net_of node.transport) node.credentials node.domain)
as_imported node uri shadowsocks = some (record (bare node External.shadowsocks no_tls uri) {
  password = some (password_of node);
  method = some (shadowsocks_method node.credentials);
})
as_imported node uri hysteria2 = some (record (bare node External.hysteria2 with_tls uri) {
  password = some (password_of node);
  sni = some (or_else (filled node.domain) []);
})
as_imported node uri _ = none
