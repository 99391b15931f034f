-- ===== src/Uri/Vmess.antt =====
-- `parseVmess` of apps/server/src/external-nodes/uri-parser.ts: a Base64 JSON document.
pub mod Ports
use nextpanel.Prelude.{
  ℕ, [], Bool, true, false, ◌&&◌, ◌||◌, not, Option, none, some, ◌==◌, if◌then◌else◌, Text, text,
  text_eq, is_empty, slice_from, is_some,
}
use nextpanel.Prelude.Options.{◌>>=◌, ◌>>◌, guard}
use nextpanel.Uri.Numbers.{Number, nan, finite, is_nan}
use nextpanel.Uri.Platform.{Json, Host, member, get_field, null, boolean, numeral, string}
use nextpanel.Uri.Xhttp.{parse_xhttp_mode, parse_xhttp_host, parse_xhttp_extra}
use nextpanel.Uri.External.{
  Options, ExternalNode, Transport, Tls, no_tls, with_tls, reality, vmess, base_node,
  safe_decode_base64, parse_transport, is_xhttp, is_ws,
}

-- `!value`
abbrev pub is_falsy : Option Json → Bool
is_falsy none = true
is_falsy (some null) = true
is_falsy (some (boolean b)) = not b
is_falsy (some (numeral (finite neg m p))) = m == 0
is_falsy (some (numeral nan)) = true
is_falsy (some (string s)) = is_empty s
is_falsy (some _) = false

-- `value ?? other`
abbrev pub nullish : Option Json → Json → Json
nullish none d = d
nullish (some null) d = d
nullish (some value) d = value

abbrev pub tls_of : Option Json → Tls
tls_of (some (string s)) =
    if text_eq s (text "tls")
    then with_tls
    else if text_eq s (text "reality")
    then reality
    else no_tls
tls_of _ = no_tls

-- a step that only XHTTP takes
abbrev pub when {ℓ} : {A : Type ℓ} → Bool → Option (Option A) → Option (Option A)
when true step = step
when false step = some none

abbrev pub known {ℓ} : {A : Type ℓ} → Option A → Option (Option A)
known none = none
known (some a) = some (some a)

abbrev pub extra_text : Host → Option Json → Option Text
extra_text host none = none
extra_text host (some (string s)) = some s
extra_text host (some value) = some (host.print_json value)

-- `Number(value)` with undefined
abbrev pub number_or_nan : Host → Option Json → Option Number
number_or_nan host none = some nan
number_or_nan host (some value) = host.number_of value

abbrev pub host_text : Host → Json → Option Text
host_text host json = host.string_of (nullish (member json (text "host")) (string []))

abbrev pub sni_text : Host → Json → Bool → Option Json → Option (Option Text)
sni_text host json over_xhttp (some value) = known (host.string_of value)
sni_text host json true none = some none
sni_text host json false none = known (host_text host json)

abbrev pub is_null : Json → Bool
is_null null = true
is_null _ = false

-- the transport and what XHTTP adds to it
unfoldable pub vmess_options : Host → Json → Option Options
unfolding get_field parse_transport parse_xhttp_mode parse_xhttp_host parse_xhttp_extra
vmess_options host json = do
  net ← host.string_of (nullish (member json (text "net")) (string (text "tcp")))
  let transport = parse_transport net
  let over_xhttp = is_xhttp transport
  mode_text ←
      when over_xhttp
        (known (host.string_of (nullish (member json (text "mode")) (string (text "auto")))))
  mode ← when over_xhttp (known (parse_xhttp_mode mode_text))
  host_value ← when over_xhttp (known (host_text host json))
  xhttp_host ← when over_xhttp (parse_xhttp_host host_value)
  let extra = if over_xhttp then extra_text host (member json (text "extra")) else none
  _ ← when over_xhttp (parse_xhttp_extra host extra)
  some (record { transport = transport; mode = mode; xhttp_host = xhttp_host; extra = extra })

-- the texts of the node's fields
pub record Texts : Type 0 where
  pub address : Text
  pub name : Text
  pub uuid : Text
  pub transport_host : Option Text
  pub sni : Option Text
  pub path : Text

unfoldable pub vmess_texts : Host → Json → Option Transport → Option Texts
unfolding get_field
vmess_texts host json transport = do
  address ← host.string_of (nullish (member json (text "add")) null)
  name ←
      host.string_of (nullish (member json (text "ps")) (nullish (member json (text "add")) null))
  uuid ← host.string_of (nullish (member json (text "id")) (string []))
  transport_host ← if is_ws transport then known (host_text host json) else some none
  sni ← sni_text host json (is_xhttp transport) (member json (text "sni"))
  path ← host.string_of (nullish (member json (text "path")) (string []))
  some (record {
    address = address;
    name = name;
    uuid = uuid;
    transport_host = transport_host;
    sni = sni;
    path = path;
  })

unfoldable pub vmess_node : Host → Text → Json → Option ExternalNode
unfolding vmess_options vmess_texts
vmess_node host uri json = do
  guard (not (is_null json))
  port ← number_or_nan host (member json (text "port"))
  guard (not (is_falsy (member json (text "add")) || is_nan port))
  options ← vmess_options host json
  texts ← vmess_texts host json options.transport
  some
      (record (base_node vmess texts.name texts.address port (tls_of (member json (text "tls")))
        uri) {
          uuid = some texts.uuid;
          transport = options.transport;
          transport_host = texts.transport_host;
          xhttp_mode = options.mode;
          xhttp_host = options.xhttp_host;
          xhttp_extra = options.extra;
          sni = texts.sni;
          path = some texts.path;
        })

unfoldable pub parse_vmess : Host → Text → Option ExternalNode
unfolding vmess_node
parse_vmess host uri = do
  json ← host.parse_json (safe_decode_base64 host (slice_from 8 uri))
  vmess_node host uri json
