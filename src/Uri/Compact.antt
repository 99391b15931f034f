-- ===== src/Uri/Compact.antt =====
-- `parseHttp`, `parseBareProxy`, `parseUri`, `importedTransportHost` and `parseSubscriptionText` of
-- apps/server/src/external-nodes/uri-parser.ts.
pub mod Bounds
pub mod Lines
pub mod Reading
use nextpanel.Prelude.{
  ℕ, suc, ◌+◌, ◌-◌, Bool, true, false, ◌&&◌, ◌||◌, not, List, [], ◌∷◌, ◌++◌, map, Option, none,
  some, ◌==◌, leb, if◌then◌else◌, Text, text, text_eq, is_empty, is_some, starts_with, ends_with,
  includes, includes_text, index_of, take, drop, length, slice, slice_from, keep, split, join, trim,
  lower_unit, has_control, get_elem?, is_control,
}
use nextpanel.Prelude.Options.{◌>>=◌, ◌>>◌, guard}
use nextpanel.Uri.Numbers.{Number, finite, number, port_of}
use nextpanel.Uri.HostPort.{parse_host_port, is_at}
use nextpanel.Uri.Platform.{Host, Url}
use nextpanel.Uri.Socks.{socks_scheme}
use nextpanel.Uri.External.{
  ExternalNode, Protocol, Tls, no_tls, with_tls, http, socks5, base_node, safe_decode_base64,
  safe_decode_component, parse_name,
}
use nextpanel.Uri.Vmess.{parse_vmess}
use nextpanel.Uri.Links.{
  whole, parse_vless, parse_shadowsocks, parse_socks, parse_trojan, parse_hysteria2,
}

-- `parsed.username ? safeDecodeURIComponent(parsed.username) : undefined`
abbrev url_username : Host → Text → Option Text
url_username host username =
    if is_empty username then none else some (safe_decode_component host username)

abbrev url_password : Host → Option Text → Text → Option Text
url_password host none password = none
url_password host (some username) password = some (safe_decode_component host password)

abbrev pub url_port : Url → Bool → Option ℕ
url_port parsed secure =
    if is_empty parsed.port then some (if secure then 443 else 80) else port_of (number parsed.port)

-- an IPv6 address without its brackets
abbrev bare_host : Text → Text
bare_host hostname =
    if starts_with hostname (text "[") && ends_with hostname (text "]")
    then take (length hostname - 2) (drop 1 hostname)
    else hostname

abbrev hash_of : Text → Option Text
hash_of hash = if is_empty hash then none else some (slice_from 1 hash)

unfoldable pub http_node : Host → Text → Url → Option ExternalNode
unfolding number port_of starts_with ends_with
http_node host uri parsed =
    let secure = text_eq parsed.protocol (text "https:") in
    let username = url_username host parsed.username in
    let address = bare_host parsed.hostname in
    do
      guard (text_eq parsed.protocol (text "http:") || secure)
      port ← url_port parsed secure
      guard (not (is_empty parsed.hostname))
      guard (is_some username || is_empty parsed.password)
      some
          (record (base_node http (parse_name host (hash_of parsed.hash)) address (whole port)
            (if secure then with_tls else no_tls) uri) {
              username = username;
              password = url_password host username parsed.password;
              sni = if secure then some address else none;
            })

unfoldable pub parse_http : Host → Text → Option ExternalNode
unfolding http_node
parse_http host uri = do parsed ← host.url uri; http_node host uri parsed

-- host, port, user name and password
pub record Fields : Type 0 where
  pub address : Text
  pub port_text : Text
  pub username : Text
  pub password : Text

abbrev pub bracketed_fields : Text → List Text → Option Fields
bracketed_fields address (port_text ∷ username ∷ part ∷ parts) = some (record {
  address = address;
  port_text = port_text;
  username = username;
  password = join b':' (part ∷ parts);
})
bracketed_fields address _ = none

abbrev pub plain_fields : List Text → Option Fields
plain_fields (address ∷ port_text ∷ username ∷ part ∷ parts) = some (record {
  address = address;
  port_text = port_text;
  username = username;
  password = join b':' (part ∷ parts);
})
plain_fields _ = none

abbrev pub bare_fields : Text → Option Fields
bare_fields trimmed =
    if starts_with trimmed (text "[")
    then (do
      i ← index_of trimmed b']'
      guard (not (leb i 1))
      guard (is_at b':' (get_elem? trimmed (i + 1)))
      bracketed_fields (slice 1 i trimmed) (split b':' (slice_from (i + 2) trimmed)))
    else plain_fields (split b':' trimmed)

abbrev pub join_host : Text → Text → Text
join_host address port_text =
    (if includes address b':' then text "[" ++ address ++ text "]" else address) ++ b':' ∷ port_text

abbrev pub starts_control : Text → Bool
starts_control [] = false
starts_control (c ∷ s) = is_control c

-- the checks of the fields, and the node
unfoldable pub bare_node : Text → Protocol → Fields → Option ExternalNode
bare_node trimmed protocol fields = do
  place ← parse_host_port (join_host fields.address fields.port_text)
  guard (not (is_empty fields.username || is_empty fields.password))
  guard (not (starts_control fields.username || has_control (fields.username ++ fields.password)))
  some (record (base_node protocol (text "MiyaIP") place.0 (whole place.1) no_tls trimmed) {
    username = some fields.username;
    password = some fields.password;
  })

unfoldable pub parse_bare_proxy : Text → Protocol → Option ExternalNode
unfolding trim starts_with index_of split join bare_node
parse_bare_proxy value protocol = do
  fields ← bare_fields (trim value)
  bare_node (trim value) protocol fields

-- /^https?:\/\//i
abbrev pub is_http : Text → Bool
is_http s =
    let lower = map lower_unit s in
    starts_with lower (text "http://") || starts_with lower (text "https://")

unfoldable pub dispatch : Host → Text → Protocol → Option ExternalNode
unfolding starts_with lower_unit socks_scheme parse_vmess parse_vless parse_shadowsocks parse_socks
    parse_trojan parse_hysteria2 parse_http parse_bare_proxy
dispatch host trimmed protocol =
    if starts_with trimmed (text "vmess://")
    then parse_vmess host trimmed
    else if starts_with trimmed (text "vless://")
    then parse_vless host trimmed
    else if starts_with trimmed (text "ss://")
    then parse_shadowsocks host trimmed
    else if is_some (socks_scheme trimmed)
    then parse_socks host trimmed
    else if starts_with trimmed (text "trojan://")
    then parse_trojan host trimmed
    else if starts_with trimmed (text "hysteria2://") || starts_with trimmed (text "hy2://")
    then parse_hysteria2 host trimmed
    else if is_http trimmed
    then parse_http host trimmed
    else parse_bare_proxy trimmed protocol

unfoldable pub parse_uri : Host → Text → Protocol → Option ExternalNode
unfolding trim dispatch
parse_uri host uri protocol = dispatch host (trim uri) protocol

abbrev recovered : Host → Option Text → Option Text
recovered host none = none
recovered host (some uri) =
    if is_empty uri then none else parse_uri host uri http >>= λ node. node.transport_host

-- `node.transportHost ?? ...`
unfoldable pub imported_transport_host : Host → Option Text → Option Text → Option Text
unfolding parse_uri
imported_transport_host host (some transport_host) raw_uri = some transport_host
imported_transport_host host none raw_uri = recovered host raw_uri

-- `s.split(/\r?\n/)`
abbrev is_newline_next : Text → Bool
is_newline_next [] = false
is_newline_next (c ∷ s) = c == 10

abbrev push_unit : ℕ → List Text → List Text
push_unit c [] = []
push_unit c (part ∷ parts) = (c ∷ part) ∷ parts

unfoldable pub split_lines : Text → List Text
split_lines [] = [] ∷ []
split_lines (c ∷ s) =
    let rest = split_lines s in
    if c == 10 then [] ∷ rest else if c == 13 && is_newline_next s then rest else push_unit c rest

-- the lines that are not blank
abbrev pub filled_lines : Text → List Text
filled_lines s = keep (λ line. not (is_empty (trim line))) (split_lines s)

unfoldable pub lines_of : Host → Text → Protocol → List Text
unfolding parse_bare_proxy includes_text split_lines
lines_of host trimmed protocol =
    if is_some (parse_bare_proxy trimmed protocol)
    then trimmed ∷ []
    else if not (includes trimmed 10) && not (includes_text trimmed (text "://"))
    then filled_lines (safe_decode_base64 host trimmed)
    else filled_lines trimmed

pub record Imported : Type 0 where
  pub nodes : List ExternalNode
  pub failed : ℕ

-- the loop over the lines
abbrev pub add_line : Option ExternalNode → Imported → Imported
add_line none found = record found { failed = suc found.failed }
add_line (some node) found = record found { nodes = node ∷ found.nodes }

unfoldable pub import_lines : Host → Protocol → List Text → Imported
unfolding parse_uri
import_lines host protocol [] = record { nodes = []; failed = 0 }
import_lines host protocol (line ∷ lines) =
    add_line (parse_uri host (trim line) protocol) (import_lines host protocol lines)

unfoldable pub parse_subscription_text : Host → Text → Protocol → Imported
unfolding lines_of import_lines
parse_subscription_text host s protocol =
    import_lines host protocol (lines_of host (trim s) protocol)
