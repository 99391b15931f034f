-- ===== src/Export/Queries.antt =====
-- The whole query of a link of VLESS or of Trojan, from `buildShareUri` of
-- apps/server/src/subscriptions/uri-builder.ts.
use nextpanel.Prelude.{
  ◌≡◌, refl, sym, ap, subst, ◌∙◌, Bool, true, false, Option, none, some, [], ◌++◌, Text, text,
  text_eq,
}
use nextpanel.Prelude.Options.{some_of_bind}
use nextpanel.Prelude.Exec.{Result, ok, err}
use nextpanel.Nodes.Model.{
  NodeError, vless, trojan, Transport, tcp, ws, grpc, quic, xhttp, TlsMode, plain, tls_on, reality,
}
use nextpanel.Nodes.Credentials.{Creds, get}
use nextpanel.Nodes.Identity.{CfXhttpProfile, cf_xhttp_profile}
use nextpanel.Uri.Platform.{Host}
use nextpanel.Uri.Xhttp.{parse_xhttp_mode}
use nextpanel.Export.{
  NodeExportInfo, Params, member_or, net_of, net_name, first_of, add_tls_params,
  add_transport_params,
}
use nextpanel.Export.ShareUri.{query_params, flow_params, alpn_params, alpn_of, has_alpn}
use nextpanel.Export.Imported.{get_param, only_xhttp, only_reality}
use nextpanel.Export.Lookups.{
  get_param-append, TransportReads, TlsReads, add_transport_params-reads, add_tls_params-reads,
  security_name, sent_sni, xhttp_path, service_name, sent_host, first_of-none,
}

-- What a parser finds under the names that it asks for.
pub record LinkReads (read : Text → Option Text) (node : NodeExportInfo) : Type 0 where
  pub type : read (text "type") ≡ some (net_name (net_of node.transport))
  pub path : read (text "path") ≡ xhttp_path (net_of node.transport) node.credentials
  pub service : read (text "serviceName") ≡ service_name (net_of node.transport) node.credentials
  pub host : read (text "host") ≡ sent_host (net_of node.transport) node.domain node.credentials
  pub mode :
      read (text "mode")
      ≡ only_xhttp
          (net_of node.transport)
          (parse_xhttp_mode (get node.credentials (text "xhttpMode")))
  pub extra :
      read (text "extra")
      ≡ only_xhttp (net_of node.transport) (get node.credentials (text "xhttpExtra"))
  pub security : read (text "security") ≡ some (security_name node.tls)
  pub sni : read (text "sni") ≡ sent_sni node.tls node.domain
  pub pbk :
      read (text "pbk")
      ≡ only_reality node.tls (member_or node.credentials (text "realityPublicKey") [])
  pub sid :
      read (text "sid") ≡ only_reality node.tls (member_or node.credentials (text "shortId") [])

-- The transport's parameters and those of the security, found in one query.
both :
    (node : NodeExportInfo) (transport : Params) (read : Text → Option Text)
    → TransportReads (net_of node.transport) node.domain node.credentials transport
    → TlsReads node.tls node.domain node.credentials
    → ((name : Text)
        → text_eq (text "encryption") name ≡ false
        → text_eq (text "flow") name ≡ false
        → text_eq (text "alpn") name ≡ false
        → read name
          ≡ first_of
              (get_param name transport)
              (get_param name (add_tls_params node.tls node.domain node.credentials)))
    → LinkReads read node
unfolding text_eq
both node transport read t s at =
    let late = λ (name : Text) (o : Option Text). λ (a : get_param name transport ≡ o).
      λ (b : get_param name (add_tls_params node.tls node.domain node.credentials) ≡ none).
        ap (first_of (get_param name transport)) b ∙ first_of-none _ ∙ a in
    record {
      type = at (text "type") refl refl refl ∙ late (text "type") _ t.type s.others.0;
      path = at (text "path") refl refl refl ∙ late (text "path") _ t.path s.others.1;
      service =
          at (text "serviceName") refl refl refl ∙ late (text "serviceName") _ t.service s.others.2;
      host = at (text "host") refl refl refl ∙ late (text "host") _ t.host s.others.3;
      mode = at (text "mode") refl refl refl ∙ late (text "mode") _ t.mode s.others.4;
      extra = at (text "extra") refl refl refl ∙ late (text "extra") _ t.extra s.others.5;
      security = at (text "security") refl refl refl ∙ rw t.security s.security;
      sni = at (text "sni") refl refl refl ∙ rw t.sni s.sni;
      pbk = at (text "pbk") refl refl refl ∙ rw t.pbk s.pbk;
      sid = at (text "sid") refl refl refl ∙ rw t.sid s.sid;
    }

flow_params-silent :
    (tls : TlsMode) (net : Transport) (name : Text)
    → text_eq (text "flow") name ≡ false
    → get_param name (flow_params tls net) ≡ none
unfolding get_param
flow_params-silent reality xhttp name h = refl
flow_params-silent reality tcp name h = rw h refl
flow_params-silent reality ws name h = rw h refl
flow_params-silent reality grpc name h = rw h refl
flow_params-silent reality quic name h = rw h refl
flow_params-silent plain net name h = refl
flow_params-silent tls_on net name h = refl

same_params : (a b : Params) → some a ≡ some b → a ≡ b
same_params a b h = cc

alpn_of-silent :
    (profile : Result NodeError CfXhttpProfile) (ps : Params) (name : Text)
    → alpn_of profile ≡ some ps
    → text_eq (text "alpn") name ≡ false
    → get_param name ps ≡ none
unfolding get_param
alpn_of-silent (ok profile) ps name e h =
    subst (λ (a : Params). get_param name a ≡ none) (same_params _ ps e) (rw h refl)
alpn_of-silent (err x) ps name e h = cc

alpn_params-silent :
    (wanted : Bool) (creds : Creds) (ps : Params) (name : Text)
    → alpn_params wanted creds ≡ some ps
    → text_eq (text "alpn") name ≡ false
    → get_param name ps ≡ none
unfolding get_param
alpn_params-silent true creds ps name e h = alpn_of-silent (cf_xhttp_profile creds) ps name e h
alpn_params-silent false creds ps name e h =
    subst (λ (a : Params). get_param name a ≡ none) (same_params _ ps e) refl

-- Parameters of other names before and behind change nothing.
between :
    (name : Text) (front transport tls back : Params)
    → get_param name front ≡ none
    → get_param name back ≡ none
    → get_param name (front ++ (transport ++ (tls ++ back)))
      ≡ first_of (get_param name transport) (get_param name tls)
between name front transport tls back f b =
    get_param-append name front (transport ++ (tls ++ back))
    ∙ rw f (
        get_param-append name transport (tls ++ back)
        ∙ ap (first_of (get_param name transport)) (
            get_param-append name tls back
            ∙ ap (first_of (get_param name tls)) b
            ∙ first_of-none _))

pub vless-LinkReads :
    (host : Host) (node : NodeExportInfo) (params : Params)
    → query_params host node vless ≡ some params
    → LinkReads (λ name. get_param name params) node
unfolding query_params get_param
vless-LinkReads host node params h =
    let net = net_of node.transport in
    let tls = add_tls_params node.tls node.domain node.credentials in
    let (transport, a, h) = some_of_bind _ _ params h in
    let (alpn, b, h) = some_of_bind (alpn_params (has_alpn node) node.credentials) _ params h in
    both node transport (λ name. get_param name params)
      (add_transport_params-reads host net node.domain node.credentials transport a)
      (add_tls_params-reads node.tls node.domain node.credentials)
      (λ name e f l.
        ap (get_param name) (sym (same_params _ params h))
        ∙ rw e (
            between name (flow_params node.tls net) transport tls alpn
              (flow_params-silent node.tls net name f)
              (alpn_params-silent (has_alpn node) node.credentials alpn name b l)))

pub trojan-LinkReads :
    (host : Host) (node : NodeExportInfo) (params : Params)
    → query_params host node trojan ≡ some params
    → LinkReads (λ name. get_param name params) node
unfolding query_params
trojan-LinkReads host node params h =
    let (transport, a, h) =
      some_of_bind (add_transport_params host (net_of node.transport) node.domain node.credentials)
        _ params h in
    both node transport (λ name. get_param name params)
      (add_transport_params-reads host (net_of node.transport) node.domain node.credentials
        transport a)
      (add_tls_params-reads node.tls node.domain node.credentials)
      (λ name _ _ _.
        ap (get_param name) (sym (same_params _ params h)) ∙ get_param-append name transport _)
