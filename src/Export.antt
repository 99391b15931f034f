-- ===== src/Export.antt =====
-- apps/server/src/subscriptions/uri-builder.ts: what is exported of a node, and the helpers of the
-- builders. A throw is `none`.
pub mod ShareUri
pub mod Imported
pub mod Lookups
pub mod Places
pub mod Options
pub mod Fields
pub mod Queries
pub mod Reading
pub mod RoundTrip
pub mod Schemes
pub mod Shadowsocks
pub mod Tokens
pub mod Clean
pub mod Content
pub mod Cut
mod Tests
use nextpanel.Prelude.{
  ℕ, Bool, true, false, ◌&&◌, Option, none, some, List, [], ◌∷◌, ◌++◌, Text, text, is_empty,
  includes, starts_with, ends_with, trim, decimal, if◌then◌else◌,
}
use nextpanel.Prelude.Options.{◌>>=◌}
use nextpanel.Nodes.Model.{
  Protocol, Transport, tcp, ws, grpc, quic, xhttp, TlsMode, plain, tls_on, reality,
}
use nextpanel.Nodes.Credentials.{Creds, get}
use nextpanel.Uri.Platform.{Host}
use nextpanel.Uri.External.{or_else}
use nextpanel.Uri.Xhttp.{parse_xhttp_mode, parse_xhttp_host, parse_xhttp_extra}

-- `cf_group`: `cfGroup` is a text that is not empty
pub record NodeExportInfo : Type 0 where
  pub name : Text
  pub protocol : Protocol
  pub host : Text
  pub port : ℕ
  pub transport : Option Transport
  pub tls : TlsMode
  pub domain : Option Text
  pub credentials : Creds
  pub cf_group : Bool

abbrev pub reality_flow : Text
reality_flow = text "xtls-rprx-vision"

abbrev pub reality_default_sni : Text
reality_default_sni = text "addons.mozilla.org"

-- `o ?? p`
abbrev pub first_of : Option Text → Option Text → Option Text
first_of none p = p
first_of (some s) p = some s

-- a text that is truthy
abbrev pub filled : Option Text → Option Text
filled none = none
filled (some s) = if is_empty s then none else some s

-- `creds.name ?? value`
abbrev pub member_or : Creds → Text → Text → Text
member_or creds name value = or_else (get creds name) value

-- `toClashNet`
abbrev pub net_of : Option Transport → Transport
net_of none = tcp
net_of (some t) = t

abbrev pub net_name : Transport → Text
net_name tcp = text "tcp"
net_name ws = text "ws"
net_name grpc = text "grpc"
net_name quic = text "quic"
net_name xhttp = text "xhttp"

abbrev pub format_uri_host : Text → Text
format_uri_host host =
    if starts_with host (text "[") && ends_with host (text "]")
    then host
    else if includes host b':'
    then b'[' ∷ (host ++ b']' ∷ [])
    else host

-- `host` with its port
abbrev pub authority : Text → ℕ → Text
authority host port = format_uri_host host ++ b':' ∷ decimal port

-- `creds.path || '/'`
abbrev pub ws_path : Creds → Text
ws_path creds = or_else (filled (get creds (text "path"))) (text "/")

abbrev pub ws_host : Creds → Option Text → Option Text
ws_host creds domain = filled (first_of (get creds (text "transportHost")) domain)

abbrev trimmed : Option Text → Option Text
trimmed none = none
trimmed (some s) = filled (some (trim s))

abbrev rooted : Text → Text
rooted path = if starts_with path (text "/") then path else b'/' ∷ path

abbrev pub normalize_xhttp_path : Option Text → Text
normalize_xhttp_path path = rooted (or_else (trimmed path) (text "/"))

-- URLSearchParams in the order of the calls of `set`; no name is set twice
abbrev pub Params : Type 0
Params = List (Text × Text)

-- a name that is set only where there is a value
abbrev pub param : Text → Option Text → Params
param name none = []
param name (some value) = (name, value) ∷ []

unfoldable pub add_transport_params : Host → Transport → Option Text → Creds → Option Params
unfolding parse_xhttp_mode parse_xhttp_host parse_xhttp_extra
add_transport_params host tcp domain creds = some ((text "type", text "tcp") ∷ [])
add_transport_params host ws domain creds = some (
    (text "type", text "ws")
    ∷ (text "path", ws_path creds)
    ∷ param (text "host") (ws_host creds domain))
add_transport_params host grpc domain creds = some (
    (text "type", text "grpc")
    ∷ (text "serviceName", member_or creds (text "path") (text "grpc"))
    ∷ [])
add_transport_params host quic domain creds = some ((text "type", text "quic") ∷ [])
add_transport_params host xhttp domain creds = do
  xhttp_host ← parse_xhttp_host (get creds (text "xhttpHost"))
  mode ← parse_xhttp_mode (get creds (text "xhttpMode"))
  _ ← parse_xhttp_extra host (get creds (text "xhttpExtra"))
  some (
      (text "type", text "xhttp")
      ∷ (text "path", normalize_xhttp_path (get creds (text "path")))
      ∷ (param (text "host") xhttp_host
          ++ ((text "mode", mode) ∷ param (text "extra") (get creds (text "xhttpExtra")))))

abbrev pub add_tls_params : TlsMode → Option Text → Creds → Params
add_tls_params plain domain creds = (text "security", text "none") ∷ []
add_tls_params tls_on domain creds =
    (text "security", text "tls") ∷ param (text "sni") (filled domain)
add_tls_params reality domain creds =
    (text "security", text "reality")
    ∷ (text "pbk", member_or creds (text "realityPublicKey") [])
    ∷ (text "sid", member_or creds (text "shortId") [])
    ∷ (text "fp", text "chrome")
    ∷ (text "sni", or_else domain reality_default_sni)
    ∷ []
