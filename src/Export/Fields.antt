-- ===== src/Export/Fields.antt =====
-- The fields of a node of VLESS or Trojan in the words of the importer, from what
-- `buildShareUri` of apps/server/src/subscriptions/uri-builder.ts wrote.
use nextpanel.Prelude.{◌≡◌, refl, Option, none, some, [], Text, text, text_eq, if◌then◌else◌}
use nextpanel.Nodes.Model.{Transport, tcp, ws, grpc, quic, xhttp, TlsMode, plain, tls_on, reality}
use nextpanel.Nodes.Credentials.{Creds}
use nextpanel.Uri.External.{no_tls, with_tls, or_else, is_xhttp}
use nextpanel.Uri.Links
use nextpanel.Export.{ws_host, filled, first_of}
use nextpanel.Export.Lookups.{security_name, sent_sni, sent_host, xhttp_path, service_name}
use nextpanel.Export.Imported.{
  transport_of, only_ws, path_of, vless_tls, vless_sni, trojan_tls, trojan_sni, host_as_sni,
}

pub vless_tls-security_name :
    (tls : TlsMode) → Links.vless_tls (or_else (some (security_name tls)) []) ≡ vless_tls tls
unfolding text_eq
vless_tls-security_name plain = refl
vless_tls-security_name tls_on = refl
vless_tls-security_name reality = refl

pub trojan_tls-security_name :
    (tls : TlsMode)
    → (if text_eq (or_else (some (security_name tls)) (text "tls")) (text "none")
        then no_tls
        else with_tls)
      ≡ trojan_tls tls
unfolding text_eq
trojan_tls-security_name plain = refl
trojan_tls-security_name tls_on = refl
trojan_tls-security_name reality = refl

pub trojan_sni-sent_sni :
    (tls : TlsMode) (domain : Option Text)
    → or_else (sent_sni tls domain) [] ≡ trojan_sni tls domain
trojan_sni-sent_sni plain domain = refl
trojan_sni-sent_sni tls_on domain = refl
trojan_sni-sent_sni reality domain = refl

module _ (creds : Creds) (domain : Option Text) where
  pub host_as_sni-sent_host :
      (net : Transport)
      → (if is_xhttp (transport_of net)
          then none
          else some (or_else (sent_host net domain creds) []))
        ≡ host_as_sni net (ws_host creds domain)
  host_as_sni-sent_host tcp = refl
  host_as_sni-sent_host ws = refl
  host_as_sni-sent_host grpc = refl
  host_as_sni-sent_host quic = refl
  host_as_sni-sent_host xhttp = refl

  pub only_ws-sent_host :
      (net : Transport)
      → Links.ws_host (transport_of net) (sent_host net domain creds)
        ≡ only_ws net (ws_host creds domain)
  only_ws-sent_host tcp = refl
  only_ws-sent_host ws = refl
  only_ws-sent_host grpc = refl
  only_ws-sent_host quic = refl
  only_ws-sent_host xhttp = refl

or_some-first_of : (o p : Option Text) → Links.or_some o p ≡ first_of o p
or_some-first_of none p = refl
or_some-first_of (some s) p = refl

pub vless_sni-sent_sni :
    (tls : TlsMode) (net : Transport) (creds : Creds) (domain : Option Text)
    → Links.or_some (sent_sni tls domain) (host_as_sni net (ws_host creds domain))
      ≡ vless_sni tls net creds domain
vless_sni-sent_sni plain net creds domain = refl
vless_sni-sent_sni tls_on net creds domain = or_some-first_of (filled domain) _
vless_sni-sent_sni reality net creds domain = refl

pub path_of-net :
    (net : Transport) (creds : Creds)
    → or_else (xhttp_path net creds) (or_else (service_name net creds) []) ≡ path_of net creds
path_of-net tcp creds = refl
path_of-net ws creds = refl
path_of-net grpc creds = refl
path_of-net quic creds = refl
path_of-net xhttp creds = refl
