-- ===== src/Uri/Links/Bounds.antt =====
-- What a node of a share link is, whatever the link: a port in range, and the text it came from.
use mathlib.Core.Option.{some-injective}
use nextpanel.Prelude.{ℕ, ◌≤◌, ◌≡◌, inl, inr, refl, subst, Option, none, some, Text, slice_from}
use nextpanel.Prelude.Exec.{ok, err}
use nextpanel.Prelude.Results.{Result-cases}
use nextpanel.Prelude.Options.{◌>>=◌, some_of_bind}
use nextpanel.Uri.Numbers.{Number}
use nextpanel.Uri.HostPort.{parse_host_port}
use nextpanel.Uri.HostPort.Laws.{parse_host_port_bounds}
use nextpanel.Uri.Platform.{Host}
use nextpanel.Uri.Socks.{parse_socks_uri}
use nextpanel.Uri.Socks.Bounds.{parse_socks_uri-IsUsable}
use nextpanel.Uri.External.{ExternalNode}
use nextpanel.Uri.Links.{
  whole, cut, options_of, parse_vless, parse_trojan, parse_hysteria2, parse_shadowsocks,
  parse_socks, socks_node, shadowsocks_main,
}

-- A port from 1 to 65535, as a number that is printed without a fraction.
abbrev pub HasPort : Number → Type 0
HasPort n = (p : ℕ) × (n ≡ whole p) × (1 ≤ p) × (p ≤ 65535)

-- A node of one text, with a port that can be dialled.
pub record IsFrom (uri : Text) (n : ExternalNode) : Type 0 where
  pub port : HasPort n.port
  pub raw : n.raw_uri ≡ uri

-- A chain that starts with a host and a port and only then builds its node.
pub parse_host_port-IsFrom :
    (value uri : Text) (k : Text × ℕ → Option ExternalNode) (n : ExternalNode)
    → ((place : Text × ℕ) → k place ≡ some n → (n.port ≡ whole place.1) × (n.raw_uri ≡ uri))
    → parse_host_port value >>= k ≡ some n
    → IsFrom uri n
parse_host_port-IsFrom value uri k n built h =
    let (place, parsed, made) = some_of_bind (parse_host_port value) k n h in
    let (_, low, high) = parse_host_port_bounds value place.0 place.1 parsed in
    let (same, raw) = built place made in record { port = (place.1, same, low, high); raw = raw }

-- The record that a parser builds, read back through `some`.
pub built_from :
    (uri : Text) (port : Number) (m n : ExternalNode)
    → m.port ≡ port
    → m.raw_uri ≡ uri
    → some m ≡ some n
    → (n.port ≡ port) × (n.raw_uri ≡ uri)
built_from uri port m n p r e =
    subst (λ x. (x.port ≡ port) × (x.raw_uri ≡ uri)) (some-injective m n e) (p, r)

pub parse_hysteria2-IsFrom :
    (host : Host) (uri : Text) (n : ExternalNode) → parse_hysteria2 host uri ≡ some n → IsFrom uri n
unfolding parse_hysteria2
parse_hysteria2-IsFrom host uri n h =
    parse_host_port-IsFrom _ uri _ n
      (λ place made. built_from uri (whole place.1) _ n refl refl made) h

pub parse_vless-IsFrom :
    (host : Host) (uri : Text) (n : ExternalNode) → parse_vless host uri ≡ some n → IsFrom uri n
unfolding parse_vless
parse_vless-IsFrom host uri n h =
    let link = cut (slice_from 8 uri) in
    parse_host_port-IsFrom link.host_port uri _ n
      (λ place made.
        let (options, _, same) =
          some_of_bind (options_of host (host.query_get link.query)) _ n made in
        built_from uri (whole place.1) _ n refl refl same)
      h

pub parse_trojan-IsFrom :
    (host : Host) (uri : Text) (n : ExternalNode) → parse_trojan host uri ≡ some n → IsFrom uri n
unfolding parse_trojan
parse_trojan-IsFrom host uri n h =
    let link = cut (slice_from 9 uri) in
    parse_host_port-IsFrom link.host_port uri _ n
      (λ place made.
        let (options, _, same) =
          some_of_bind (options_of host (host.query_get link.query)) _ n made in
        built_from uri (whole place.1) _ n refl refl same)
      h

shadowsocks_main-IsFrom :
    (host : Host) (uri name main : Text) (i : Option ℕ) (n : ExternalNode)
    → shadowsocks_main host uri name main i ≡ some n
    → IsFrom uri n
shadowsocks_main-IsFrom host uri name main none n h =
    parse_host_port-IsFrom _ uri _ n
      (λ place made. built_from uri (whole place.1) _ n refl refl made) h
shadowsocks_main-IsFrom host uri name main (some i) n h =
    parse_host_port-IsFrom _ uri _ n
      (λ place made. built_from uri (whole place.1) _ n refl refl made) h

pub parse_shadowsocks-IsFrom :
    (host : Host) (uri : Text) (n : ExternalNode)
    → parse_shadowsocks host uri ≡ some n
    → IsFrom uri n
unfolding parse_shadowsocks
parse_shadowsocks-IsFrom host uri n h = shadowsocks_main-IsFrom host uri _ _ _ n h

pub parse_socks-IsFrom :
    (host : Host) (uri : Text) (n : ExternalNode) → parse_socks host uri ≡ some n → IsFrom uri n
unfolding parse_socks
parse_socks-IsFrom host uri n h = elim (Result-cases (parse_socks_uri host uri)) [
  | inl (e, failed) ↦ let none_some : socks_node uri (err e) ≡ some n = rw failed at h in cc
  | inr (p, parsed) ↦
      let usable = parse_socks_uri-IsUsable host uri p parsed in
      let made : socks_node uri (ok p) ≡ some n = rw parsed at h in
      let (same, raw) = built_from uri (whole p.config.port) _ n refl refl made in
      record { port = (p.config.port, same, usable.port_low, usable.port_high); raw = raw }
]
