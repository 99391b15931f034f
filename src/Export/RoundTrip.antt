-- ===== src/Export/RoundTrip.antt =====
-- A link that `buildShareUri` of apps/server/src/subscriptions/uri-builder.ts writes, read by `parseUri`
-- of apps/server/src/external-nodes/uri-parser.ts.
use nextpanel.Prelude.{
  ◌≡◌, ◌≢◌, refl, ap, subst, ◌∙◌, true, false, ◌∷◌, is_empty, Option, none, some, [], ◌++◌, Text,
  text, text_eq, all, ltb, is_space,
}
use nextpanel.Prelude.Options.{some_of_bind}
use nextpanel.Nodes.Model.{
  Protocol, vmess, vless, trojan, shadowsocks, socks5, http, hysteria2, tuic, anytls,
}
use nextpanel.Uri.Platform.{Host}
use nextpanel.Uri.External
use nextpanel.Uri.External.{ExternalNode, or_else}
use nextpanel.Uri.Links.{cut, Link, vless_of, trojan_of, hysteria2_of}
use nextpanel.Uri.Compact.{parse_uri, dispatch}
use nextpanel.Export.{
  NodeExportInfo, Params, param, filled, member_or, net_of, authority, add_transport_params,
}
use nextpanel.Export.ShareUri.{
  Printer, query_params, share_uri, build_share_uri, link_text, filled_query, shadowsocks_user,
}
use nextpanel.Export.Tokens.{IsToken}
use nextpanel.Export.Places.{authority_units, all-append}
use nextpanel.Export.Cut.{cut-link_text}
use nextpanel.Export.Clean.{
  is_visible, IsQuery, IsQuery-filled_query, or_else-filled_query, link-IsClean, link_visible,
}
use nextpanel.Export.Lookups.{get_param-param}
use nextpanel.Export.Queries.{LinkReads, vless-LinkReads, trojan-LinkReads}
use nextpanel.Export.Reading.{vless_of-link, trojan_of-link, hysteria2_of-link}
use nextpanel.Export.Shadowsocks.{base64_of-IsToken, dispatch-shadowsocks, parse_shadowsocks-link}
use nextpanel.Export.Imported.{
  Prints, IsShareable, CanBeShared, AreWellFormed, get_param, as_imported, password_of,
}
use nextpanel.Export.Schemes.{
  dispatch-vless, dispatch-trojan, dispatch-hysteria2, scheme_visible, same_uri,
}

sni_param : (o : Option Text) → get_param (text "sni") (param (text "sni") o) ≡ o
unfolding text_eq
sni_param o = get_param-param (text "sni") (text "sni") o

-- The link is a text without white space, and the node comes out of it.
abbrev pub ReadsBack : Host → External.Protocol → NodeExportInfo → Protocol → Text → Type 0
ReadsBack host fallback node protocol uri =
    (all is_visible uri ≡ true)
    × (is_empty uri ≡ false)
    × (parse_uri host uri fallback ≡ as_imported node uri protocol)

is_empty-append : (s t : Text) → is_empty s ≡ false → is_empty (s ++ t) ≡ false
is_empty-append [] t h = cc
is_empty-append (c ∷ s) t h = refl

module _ {host : Host} {printer : Printer} (prints : Prints host printer) (node : NodeExportInfo)
    (shareable : IsShareable host printer node) (tag : Text)
    (tagged : printer.encode_component node.name ≡ some tag) (fallback : External.Protocol) where
  cut_link :
      (user : Text) (query : Option Text)
      → IsToken user
      → IsQuery query
      → (cut (link_text user (authority node.host node.port) query tag) ≡ record {
        fragment = some tag;
        query = or_else query [];
        user = some user;
        host_port = authority node.host node.port;
      })
        × (all is_visible (link_text user (authority node.host node.port) query tag) ≡ true)
  cut_link user query named asked =
      let units = authority_units node.host node.port shareable.host_named in
      (
        cut-link_text user (authority node.host node.port) query tag
            (link-IsClean user (authority node.host node.port) query named units asked),
        link_visible user (authority node.host node.port) query named units asked tag
            (prints.encoded_units node.name tag tagged),
      )

  -- A parser that sees the parts sees the node.
  read_as :
      (scheme user : Text) (query : Option Text) (of : Host → Text → Link → Option ExternalNode)
      (protocol : Protocol)
      → ((link : Text)
          → dispatch host (scheme ++ link) fallback ≡ of host (scheme ++ link) (cut link))
      → (all is_visible scheme ≡ true) × (is_empty scheme ≡ false)
      → IsToken user
      → IsQuery query
      → ((uri : Text)
          → of host uri (record {
            fragment = some tag;
            query = or_else query [];
            user = some user;
            host_port = authority node.host node.port;
          })
            ≡ as_imported node uri protocol)
      → (uri : Text)
      → some (some (scheme ++ link_text user (authority node.host node.port) query tag))
        ≡ some (some uri)
      → ReadsBack host fallback node protocol uri
  read_as scheme user query of protocol dispatches seen named asked reads uri h =
      let link = link_text user (authority node.host node.port) query tag in
      let (cuts, visible) = cut_link user query named asked in
      subst (ReadsBack host fallback node protocol) (same_uri _ uri h) (
        all-append is_visible scheme link seen.0 visible,
        is_empty-append scheme link seen.1,
        scheme_visible host scheme link fallback seen.0 visible
            ∙ dispatches link
            ∙ ap (of host (scheme ++ link)) cuts
            ∙ reads (scheme ++ link),
      )

  hysteria2_read :
      (uri : Text)
      → ((params : Params)
          → query_params host node hysteria2 ≡ some params
          → AreWellFormed printer params)
      → share_uri host printer node tag hysteria2 ≡ some (some uri)
      → ReadsBack host fallback node hysteria2 uri
  unfolding share_uri query_params is_space
  hysteria2_read uri fit h =
      let (user, encoded, h) =
        some_of_bind (printer.encode_component (password_of node)) _ (some uri) h in
      let params = param (text "sni") (filled node.domain) in
      let query = printer.query_string params in
      let sni : host.query_get (or_else (filled_query query) []) (text "sni") ≡ filled node.domain =
        ap (λ q. host.query_get q (text "sni")) (or_else-filled_query query)
        ∙ prints.query_reads params (fit params refl) (text "sni")
            (prints.ascii_fits (text "sni") refl)
        ∙ sni_param (filled node.domain) in
      read_as (text "hy2://") user (filled_query query) hysteria2_of hysteria2
        (λ link. dispatch-hysteria2 host link fallback) (refl, refl)
        (prints.encoded_units _ user encoded)
        (IsQuery-filled_query query (prints.query_units params))
        (λ t. hysteria2_of-link prints node shareable t tag tagged _ user sni encoded) uri h

  -- what the parsers find in the query is what was written
  queried :
      (params : Params) (query : Text)
      → query ≡ printer.query_string params
      → AreWellFormed printer params
      → LinkReads (λ name. get_param name params) node
      → LinkReads (host.query_get query) node
  queried params query e fit reads =
      let found = λ (name : Text). λ (ascii : all (λ c. ltb c 128) name ≡ true).
        ap (λ q. host.query_get q name) e
        ∙ prints.query_reads params fit name (prints.ascii_fits name ascii) in
      record {
        type = found (text "type") refl ∙ reads.type;
        path = found (text "path") refl ∙ reads.path;
        service = found (text "serviceName") refl ∙ reads.service;
        host = found (text "host") refl ∙ reads.host;
        mode = found (text "mode") refl ∙ reads.mode;
        extra = found (text "extra") refl ∙ reads.extra;
        security = found (text "security") refl ∙ reads.security;
        sni = found (text "sni") refl ∙ reads.sni;
        pbk = found (text "pbk") refl ∙ reads.pbk;
        sid = found (text "sid") refl ∙ reads.sid;
      }

  vless_read :
      (uri : Text)
      → IsToken (member_or node.credentials (text "uuid") [])
      → ((params : Params)
          → query_params host node vless ≡ some params
          → AreWellFormed printer params)
      → share_uri host printer node tag vless ≡ some (some uri)
      → ReadsBack host fallback node vless uri
  unfolding share_uri query_params is_space
  vless_read uri named fit h =
      let (params, asked, h) = some_of_bind (query_params host node vless) _ (some uri) h in
      let (transport, built, _) =
        some_of_bind
          (add_transport_params host (net_of node.transport) node.domain node.credentials) _ params
          asked in
      let query = printer.query_string params in
      read_as (text "vless://") (member_or node.credentials (text "uuid") []) (some query) vless_of
        vless (λ link. dispatch-vless host link fallback) (refl, refl) named
        (prints.query_units params)
        (λ t.
          vless_of-link prints node shareable t tag tagged query [] transport built
            (queried params query refl (fit params asked) (vless-LinkReads host node params asked)))
        uri h

  trojan_read :
      (uri : Text)
      → ((params : Params)
          → query_params host node trojan ≡ some params
          → AreWellFormed printer params)
      → share_uri host printer node tag trojan ≡ some (some uri)
      → ReadsBack host fallback node trojan uri
  unfolding share_uri query_params is_space
  trojan_read uri fit h =
      let (params, asked, h) = some_of_bind (query_params host node trojan) _ (some uri) h in
      let (user, encoded, h) =
        some_of_bind (printer.encode_component (password_of node)) _ (some uri) h in
      let (transport, built, _) =
        some_of_bind
          (add_transport_params host (net_of node.transport) node.domain node.credentials) _ params
          asked in
      let query = printer.query_string params in
      read_as (text "trojan://") user (filled_query query) trojan_of trojan
        (λ link. dispatch-trojan host link fallback) (refl, refl)
        (prints.encoded_units _ user encoded)
        (IsQuery-filled_query query (prints.query_units params))
        (λ t.
          trojan_of-link prints node shareable t tag tagged _ user transport built
            (queried params _ (or_else-filled_query query) (fit params asked)
              (trojan-LinkReads host node params asked))
            encoded)
        uri h

  shadowsocks_read :
      (uri : Text)
      → CanBeShared printer node shadowsocks
      → share_uri host printer node tag shadowsocks ≡ some (some uri)
      → ReadsBack host fallback node shadowsocks uri
  unfolding share_uri is_space
  shadowsocks_read uri (whole, well) h =
      let user = printer.base64_of (shadowsocks_user node.credentials) in
      let link = link_text user (authority node.host node.port) none tag in
      let (_, visible) = cut_link user none (base64_of-IsToken prints _) tt in
      subst (ReadsBack host fallback node shadowsocks) (same_uri _ uri h) (
        visible,
        refl,
        scheme_visible host (text "ss://") link fallback refl visible
            ∙ dispatch-shadowsocks host link fallback
            ∙ parse_shadowsocks-link prints node shareable (text "ss://" ++ link) tag tagged whole
                well refl,
      )

  share_uri_read :
      (protocol : Protocol) (uri : Text)
      → CanBeShared printer node protocol
      → ((params : Params)
          → query_params host node protocol ≡ some params
          → AreWellFormed printer params)
      → share_uri host printer node tag protocol ≡ some (some uri)
      → ReadsBack host fallback node protocol uri
  share_uri_read vless uri fits fit h = vless_read uri fits fit h
  share_uri_read trojan uri fits fit h = trojan_read uri fit h
  share_uri_read hysteria2 uri fits fit h = hysteria2_read uri fit h
  share_uri_read shadowsocks uri fits fit h = shadowsocks_read uri fits h
  share_uri_read vmess uri fits fit h = elim fits [ ]
  share_uri_read socks5 uri fits fit h = elim fits [ ]
  share_uri_read http uri fits fit h = elim fits [ ]
  share_uri_read tuic uri fits fit h = elim fits [ ]
  share_uri_read anytls uri fits fit h = elim fits [ ]

pub build_share_uri-ReadsBack :
    (host : Host) (printer : Printer) (node : NodeExportInfo) (uri : Text)
    (fallback : External.Protocol)
    → Prints host printer
    → IsShareable host printer node
    → build_share_uri host printer node ≡ some (some uri)
    → ReadsBack host fallback node node.protocol uri
unfolding build_share_uri
build_share_uri-ReadsBack host printer node uri fallback prints shareable h =
    let (tag, tagged, h) = some_of_bind (printer.encode_component node.name) _ (some uri) h in
    share_uri_read prints node shareable tag tagged fallback node.protocol uri
      shareable.credentials_fit shareable.params_fit h

-- A node that can be shared has a link.
share_uri-none :
    (host : Host) (printer : Printer) (node : NodeExportInfo) (tag : Text) (protocol : Protocol)
    → CanBeShared printer node protocol
    → share_uri host printer node tag protocol ≢ some none
unfolding share_uri
share_uri-none host printer node tag vless fits h =
    let (params, _, h) = some_of_bind (query_params host node vless) _ none h in cc
share_uri-none host printer node tag trojan fits h =
    let (params, _, h) = some_of_bind (query_params host node trojan) _ none h in
    let (user, _, h) = some_of_bind (printer.encode_component (password_of node)) _ none h in cc
share_uri-none host printer node tag hysteria2 fits h =
    let (user, _, h) = some_of_bind (printer.encode_component (password_of node)) _ none h in cc
share_uri-none host printer node tag shadowsocks fits h = cc
share_uri-none host printer node tag vmess fits h = elim fits [ ]
share_uri-none host printer node tag socks5 fits h = elim fits [ ]
share_uri-none host printer node tag http fits h = elim fits [ ]
share_uri-none host printer node tag tuic fits h = elim fits [ ]
share_uri-none host printer node tag anytls fits h = elim fits [ ]

pub build_share_uri-none :
    (host : Host) (printer : Printer) (node : NodeExportInfo)
    → CanBeShared printer node node.protocol
    → build_share_uri host printer node ≢ some none
unfolding build_share_uri
build_share_uri-none host printer node fits h =
    let (tag, _, h) = some_of_bind (printer.encode_component node.name) _ none h in
    share_uri-none host printer node tag node.protocol fits h

-- A link that is built for a node of VLESS, Trojan, Shadowsocks or Hysteria 2 is imported again as the
-- node that it was built for: its name, address, port, credentials, transport with its options, and
-- security, with what the scheme cannot say left out. The host is a name or an address, the port one
-- from 1 to 65535, the identifier of VLESS holds no white space and none of # ? @ : [ ], the method of
-- Shadowsocks no colon, and what is sent in a query or in Base64 is well formed.
pub parse_uri-build_share_uri :
    (host : Host) (printer : Printer) (node : NodeExportInfo) (uri : Text)
    (fallback : External.Protocol)
    → Prints host printer
    → IsShareable host printer node
    → build_share_uri host printer node ≡ some (some uri)
    → parse_uri host uri fallback ≡ as_imported node uri node.protocol
parse_uri-build_share_uri host printer node uri fallback prints shareable h =
    (build_share_uri-ReadsBack host printer node uri fallback prints shareable h).2
