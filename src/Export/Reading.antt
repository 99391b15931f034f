-- ===== src/Export/Reading.antt =====
-- The parsers of apps/server/src/external-nodes/uri-parser.ts on a link of
-- apps/server/src/subscriptions/uri-builder.ts that is cut already.
use nextpanel.Prelude.{◌≡◌, refl, sym, ap, ◌∙◌, some, [], ◌∷◌, Text, text}
use nextpanel.Nodes.Model.{vless, trojan, hysteria2}
use nextpanel.Uri.Platform.{Host}
use nextpanel.Uri.HostPort.{parse_host_port}
use nextpanel.Uri.External.{or_else, parse_name, or_imported, safe_decode_component}
use nextpanel.Uri.Links.{hysteria2_of, vless_of, trojan_of}
use nextpanel.Export.{
  NodeExportInfo, Params, member_or, net_of, filled, authority, add_transport_params,
}
use nextpanel.Export.ShareUri.{Printer}
use nextpanel.Export.Places.{parse_host_port-authority}
use nextpanel.Export.Options.{options_of-link}
use nextpanel.Export.Queries.{LinkReads}
use nextpanel.Export.Fields.{
  vless_tls-security_name, trojan_tls-security_name, trojan_sni-sent_sni, host_as_sni-sent_host,
  only_ws-sent_host, vless_sni-sent_sni, path_of-net,
}
use nextpanel.Export.Imported.{Prints, IsShareable, as_imported, password_of}

module _ {host : Host} {printer : Printer} (prints : Prints host printer) where
  pub decode_encoded :
      (s e : Text) → printer.encode_component s ≡ some e → safe_decode_component host e ≡ s
  decode_encoded s e h = ap (λ o. or_else o e) (prints.decodes s e h)

  -- an empty fragment says an empty name
  pub parse_name-tag :
      (name tag : Text)
      → printer.encode_component name ≡ some tag
      → parse_name host (some tag) ≡ or_imported name
  parse_name-tag name [] h =
      let named : some [] ≡ some name = sym prints.decodes_empty ∙ prints.decodes name [] h in
      let empty : [] ≡ name = cc in ap or_imported empty
  parse_name-tag name (c ∷ tag) h = ap or_imported (decode_encoded name (c ∷ tag) h)

  module _ (node : NodeExportInfo) (shareable : IsShareable host printer node) (uri tag : Text)
      (tagged : printer.encode_component node.name ≡ some tag) where
    pub place_read : parse_host_port (authority node.host node.port) ≡ some (node.host, node.port)
    place_read =
        parse_host_port-authority node.host node.port shareable.host_named shareable.port_low
          shareable.port_high

    pub hysteria2_of-link :
        (query user : Text)
        → host.query_get query (text "sni") ≡ filled node.domain
        → printer.encode_component (password_of node) ≡ some user
        → hysteria2_of host uri (record {
          fragment = some tag;
          query = query;
          user = some user;
          host_port = authority node.host node.port;
        })
          ≡ as_imported node uri hysteria2
    unfolding as_imported
    hysteria2_of-link query user sni encoded =
        simp (place_read, parse_name-tag node.name tag tagged, decode_encoded _ user encoded, sni)

    module _ (query user : Text) (transport : Params)
        (built : add_transport_params host (net_of node.transport) node.domain node.credentials
          ≡ some transport)
        (reads : LinkReads (host.query_get query) node) where
      pub vless_of-link :
          vless_of host uri (record {
            fragment = some tag;
            query = query;
            user = some (member_or node.credentials (text "uuid") []);
            host_port = authority node.host node.port;
          })
          ≡ as_imported node uri vless
      unfolding as_imported
      vless_of-link =
          let net = net_of node.transport in
          let creds = node.credentials in
          rw
            (
              place_read,
              options_of-link host node (host.query_get query) transport built reads,
              parse_name-tag node.name tag tagged,
              reads.host,
              reads.security,
              reads.sni,
              reads.pbk,
              reads.sid,
              reads.path,
              reads.service,
              vless_tls-security_name node.tls,
              host_as_sni-sent_host creds node.domain net,
              vless_sni-sent_sni node.tls net creds node.domain,
              path_of-net net creds,
              only_ws-sent_host creds node.domain net,
            )
            refl

      pub trojan_of-link :
          printer.encode_component (password_of node) ≡ some user
          → trojan_of host uri (record {
            fragment = some tag;
            query = query;
            user = some user;
            host_port = authority node.host node.port;
          })
            ≡ as_imported node uri trojan
      unfolding as_imported
      trojan_of-link encoded =
          let net = net_of node.transport in
          let creds = node.credentials in
          rw
            (
              place_read,
              options_of-link host node (host.query_get query) transport built reads,
              parse_name-tag node.name tag tagged,
              decode_encoded (password_of node) user encoded,
              reads.host,
              reads.security,
              reads.sni,
              reads.path,
              reads.service,
              trojan_tls-security_name node.tls,
              trojan_sni-sent_sni node.tls node.domain,
              path_of-net net creds,
              only_ws-sent_host creds node.domain net,
            )
            refl
