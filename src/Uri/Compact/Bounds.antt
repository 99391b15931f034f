-- ===== src/Uri/Compact/Bounds.antt =====
-- What an imported node is, whatever the text: a port in range, and the text it came from.
use mathlib.Core.Option.{some-injective}
use nextpanel.Prelude.{
  ℕ, ◌≤◌, ◌≡◌, ◌⊎◌, inl, inr, refl, sym, ap, subst, arith, Bool, true, false, ◌||◌, not, Option,
  some, if◌then◌else◌, Text, text, text_eq, has_control, ◌++◌, trim, is_empty, is_some, slice_from,
  Bool-cases,
}
use nextpanel.Prelude.Options.{some_of_bind, some_of_guard}
use nextpanel.Prelude.Trim.{trim-trim}
use nextpanel.Uri.Vmess.{
  vmess_options, vmess_texts, is_null, number_or_nan, is_falsy, parse_vmess, vmess_node,
}
use nextpanel.Uri.Numbers.{is_nan, number}
use nextpanel.Uri.HostPort.Laws.{port_of_range}
use nextpanel.Uri.Platform.{Json, member, Host, Url}
use nextpanel.Uri.External.{safe_decode_base64, ExternalNode, Protocol, vmess}
use nextpanel.Uri.Links.{whole}
use nextpanel.Uri.Compact.{
  Fields, http_node, url_port, parse_http, bare_node, bare_fields, starts_control, url_username,
  parse_bare_proxy, dispatch, parse_uri,
}
use nextpanel.Uri.Links.Bounds.{
  HasPort, IsFrom, parse_host_port-IsFrom, built_from, parse_hysteria2-IsFrom, parse_vless-IsFrom,
  parse_trojan-IsFrom, parse_shadowsocks-IsFrom, parse_socks-IsFrom,
}

bare_node-IsFrom :
    (trimmed : Text) (protocol : Protocol) (fields : Fields) (n : ExternalNode)
    → bare_node trimmed protocol fields ≡ some n
    → IsFrom trimmed n
unfolding bare_node
bare_node-IsFrom trimmed protocol fields n h =
    parse_host_port-IsFrom _ trimmed _ n
      (λ place made.
        let (_, step) =
          some_of_guard (not (is_empty fields.username || is_empty fields.password)) _ n made in
        let (_, same) =
          some_of_guard
            (not
              (starts_control fields.username || has_control (fields.username ++ fields.password)))
            _ n step in
        built_from trimmed (whole place.1) _ n refl refl same)
      h

parse_bare_proxy-IsFrom :
    (value : Text) (protocol : Protocol) (n : ExternalNode)
    → parse_bare_proxy value protocol ≡ some n
    → IsFrom (trim value) n
unfolding parse_bare_proxy
parse_bare_proxy-IsFrom value protocol n h =
    let (fields, _, made) =
      some_of_bind (bare_fields (trim value)) (bare_node (trim value) protocol) n h in
    bare_node-IsFrom (trim value) protocol fields n made

url_port_range :
    (parsed : Url) (secure : Bool) (p : ℕ) → url_port parsed secure ≡ some p → (1 ≤ p) × (p ≤ 65535)
url_port_range parsed secure p h = elim (Bool-cases (is_empty parsed.port)) [
  | inl unset ↦ ground arith
  | inr set ↦ port_of_range (number parsed.port) p (rw set at h)
]

http_node-IsFrom :
    (host : Host) (uri : Text) (parsed : Url) (n : ExternalNode)
    → http_node host uri parsed ≡ some n
    → IsFrom uri n
unfolding http_node
http_node-IsFrom host uri parsed n h =
    let secure = text_eq parsed.protocol (text "https:") in
    let username = url_username host parsed.username in
    let (_, h1) = some_of_guard (text_eq parsed.protocol (text "http:") || secure) _ n h in
    let (p, is_port, h2) = some_of_bind (url_port parsed secure) _ n h1 in
    let (_, h3) = some_of_guard (not (is_empty parsed.hostname)) _ n h2 in
    let (_, h4) = some_of_guard (is_some username || is_empty parsed.password) _ n h3 in
    let (same, raw) = built_from uri (whole p) _ n refl refl h4 in
    let (low, high) = url_port_range parsed secure p is_port in
    record { port = (p, same, low, high); raw = raw }

parse_http-IsFrom :
    (host : Host) (uri : Text) (n : ExternalNode) → parse_http host uri ≡ some n → IsFrom uri n
unfolding parse_http
parse_http-IsFrom host uri n h =
    let (parsed, _, made) = some_of_bind (host.url uri) (http_node host uri) n h in
    http_node-IsFrom host uri parsed n made

-- A node that an imported text yields: its port is in range but where `parseVmess` made it.
pub record IsImport (uri : Text) (n : ExternalNode) : Type 0 where
  pub port : (n.protocol ≡ vmess) ⊎ HasPort n.port
  pub raw : n.raw_uri ≡ uri

IsFrom-IsImport : (uri : Text) (n : ExternalNode) → IsFrom uri n → IsImport uri n
IsFrom-IsImport uri n made = record { port = inr made.port; raw = made.raw }

vmess_node-IsImport :
    (host : Host) (uri : Text) (json : Json) (n : ExternalNode)
    → vmess_node host uri json ≡ some n
    → IsImport uri n
unfolding vmess_node
vmess_node-IsImport host uri json n h =
    let get = member json in
    let (_, h1) = some_of_guard (not (is_null json)) _ n h in
    let (port, _, h2) = some_of_bind (number_or_nan host (get (text "port"))) _ n h1 in
    let (_, h3) = some_of_guard (not (is_falsy (get (text "add")) || is_nan port)) _ n h2 in
    let (options, _, h4) = some_of_bind (vmess_options host json) _ n h3 in
    let (texts, _, same) = some_of_bind (vmess_texts host json options.transport) _ n h4 in
    let made = some-injective _ n same in
    record { port = inl (sym (ap (λ x. x.protocol) made)); raw = sym (ap (λ x. x.raw_uri) made) }

parse_vmess-IsImport :
    (host : Host) (uri : Text) (n : ExternalNode) → parse_vmess host uri ≡ some n → IsImport uri n
unfolding parse_vmess
parse_vmess-IsImport host uri n h =
    let (json, _, made) =
      some_of_bind (host.parse_json (safe_decode_base64 host (slice_from 8 uri)))
        (vmess_node host uri) n h in
    vmess_node-IsImport host uri json n made

-- The first test that holds picks the parser.
dispatch-cases {ℓ} :
    {A : Type ℓ} (P : Type 0) (b : Bool) (x y : Option A) (n : A)
    → (x ≡ some n → P)
    → (y ≡ some n → P)
    → (if b then x else y) ≡ some n
    → P
dispatch-cases P true x y n f g h = f h
dispatch-cases P false x y n f g h = g h

dispatch-IsImport :
    (host : Host) (trimmed : Text) (protocol : Protocol) (n : ExternalNode)
    → trim trimmed ≡ trimmed
    → dispatch host trimmed protocol ≡ some n
    → IsImport trimmed n
unfolding dispatch
dispatch-IsImport host t protocol n clean h =
    let P = IsImport t n in
    dispatch-cases P _ _ _ n (parse_vmess-IsImport host t n)
      (dispatch-cases P _ _ _ n (λ e. IsFrom-IsImport t n (parse_vless-IsFrom host t n e))
        (dispatch-cases P _ _ _ n (λ e. IsFrom-IsImport t n (parse_shadowsocks-IsFrom host t n e))
          (dispatch-cases P _ _ _ n (λ e. IsFrom-IsImport t n (parse_socks-IsFrom host t n e))
            (dispatch-cases P _ _ _ n (λ e. IsFrom-IsImport t n (parse_trojan-IsFrom host t n e))
              (dispatch-cases P _ _ _ n
                (λ e. IsFrom-IsImport t n (parse_hysteria2-IsFrom host t n e))
                (dispatch-cases P _ _ _ n (λ e. IsFrom-IsImport t n (parse_http-IsFrom host t n e))
                  (λ e.
                    IsFrom-IsImport t n (
                      subst (λ u. IsFrom u n) clean (parse_bare_proxy-IsFrom t protocol n e)))))))))
      h

-- Whatever text is imported, a node that comes out keeps the trimmed text, and its port is a whole
-- number from 1 to 65535 unless it is a VMess node.
pub parse_uri-IsImport :
    (host : Host) (uri : Text) (protocol : Protocol) (n : ExternalNode)
    → parse_uri host uri protocol ≡ some n
    → IsImport (trim uri) n
unfolding parse_uri
parse_uri-IsImport host uri protocol n h =
    dispatch-IsImport host (trim uri) protocol n (trim-trim uri) h
