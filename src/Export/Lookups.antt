-- ===== src/Export/Lookups.antt =====
-- What the importer finds under each name in the query of a link that
-- apps/server/src/subscriptions/uri-builder.ts built.
use nextpanel.Prelude.{
  ◌≡◌, refl, sym, ap, subst, ◌∙◌, Option, none, some, [], ◌∷◌, ◌++◌, Text, text, text_eq,
  if◌then◌else◌, Bool-cases, inl, inr, arith,
}
use nextpanel.Prelude.Options.{some_of_bind}
use nextpanel.Nodes.Model.{Transport, tcp, ws, grpc, quic, xhttp, TlsMode, plain, tls_on, reality}
use nextpanel.Nodes.Credentials.{Creds, get}
use nextpanel.Uri.Platform.{Host}
use nextpanel.Uri.Xhttp.{parse_xhttp_mode, parse_xhttp_host, parse_xhttp_extra}
use nextpanel.Uri.External.{or_else}
use nextpanel.Export.{
  Params, param, member_or, ws_path, ws_host, filled, first_of, normalize_xhttp_path, net_name,
  add_transport_params, add_tls_params, reality_default_sni,
}
use nextpanel.Export.Imported.{get_param, only_xhttp, only_reality}

pub get_param-append :
    (name : Text) (a b : Params)
    → get_param name (a ++ b) ≡ first_of (get_param name a) (get_param name b)
unfolding get_param
get_param-append name [] b = refl
get_param-append name ((key, value) ∷ a) b = elim (Bool-cases (text_eq key name)) [
  | inl h ↦ rw h refl
  | inr h ↦ rw h (get_param-append name a b)
]

pub get_param-param :
    (name key : Text) (o : Option Text)
    → get_param name (param key o) ≡ (if text_eq key name then o else none)
unfolding get_param
get_param-param name key none = elim (Bool-cases (text_eq key name)) [
  | inl h ↦ rw h refl
  | inr h ↦ rw h refl
]
get_param-param name key (some value) = refl

abbrev pub xhttp_path : Transport → Creds → Option Text
xhttp_path xhttp creds = some (normalize_xhttp_path (get creds (text "path")))
xhttp_path ws creds = some (ws_path creds)
xhttp_path _ creds = none

abbrev pub service_name : Transport → Creds → Option Text
service_name grpc creds = some (member_or creds (text "path") (text "grpc"))
service_name _ creds = none

abbrev pub sent_host : Transport → Option Text → Creds → Option Text
sent_host ws domain creds = ws_host creds domain
sent_host xhttp domain creds = filled (get creds (text "xhttpHost"))
sent_host _ domain creds = none

-- the part of the query that says the transport
pub record TransportReads (net : Transport) (domain : Option Text) (creds : Creds) (ps : Params)
    : Type 0 where
  pub type : get_param (text "type") ps ≡ some (net_name net)
  pub path : get_param (text "path") ps ≡ xhttp_path net creds
  pub service : get_param (text "serviceName") ps ≡ service_name net creds
  pub host : get_param (text "host") ps ≡ sent_host net domain creds
  pub mode :
      get_param (text "mode") ps ≡ only_xhttp net (parse_xhttp_mode (get creds (text "xhttpMode")))
  pub extra : get_param (text "extra") ps ≡ only_xhttp net (get creds (text "xhttpExtra"))
  pub security : get_param (text "security") ps ≡ none
  pub sni : get_param (text "sni") ps ≡ none
  pub pbk : get_param (text "pbk") ps ≡ none
  pub sid : get_param (text "sid") ps ≡ none

parse_xhttp_host-filled :
    (value o : Option Text) → parse_xhttp_host value ≡ some o → o ≡ filled value
unfolding parse_xhttp_host
parse_xhttp_host-filled none o h = cc
parse_xhttp_host-filled (some []) o h = cc
parse_xhttp_host-filled (some (c ∷ s)) o h = ground arith

-- a parameter that may be missing, before others
param_before :
    (name key : Text) (o : Option Text) (rest : Params)
    → get_param name (param key o ++ rest)
      ≡ first_of (if text_eq key name then o else none) (get_param name rest)
param_before name key o rest =
    get_param-append name (param key o) rest
    ∙ ap (λ x. first_of x (get_param name rest)) (get_param-param name key o)

pub first_of-none : (o : Option Text) → first_of o none ≡ o
first_of-none none = refl
first_of-none (some s) = refl

ws_reads :
    (domain : Option Text) (creds : Creds)
    → TransportReads ws domain creds (
        (text "type", text "ws")
        ∷ (text "path", ws_path creds)
        ∷ param (text "host") (ws_host creds domain))
unfolding get_param text_eq
ws_reads domain creds =
    let o = ws_host creds domain in
    let reads = λ (name : Text). get_param-param name (text "host") o in
    record {
      type = refl;
      path = refl;
      service = reads (text "serviceName");
      host = reads (text "host");
      mode = reads (text "mode");
      extra = reads (text "extra");
      security = reads (text "security");
      sni = reads (text "sni");
      pbk = reads (text "pbk");
      sid = reads (text "sid");
    }

xhttp_reads :
    (domain : Option Text) (creds : Creds) (mode : Text) (xhttp_host : Option Text)
    → parse_xhttp_mode (get creds (text "xhttpMode")) ≡ some mode
    → parse_xhttp_host (get creds (text "xhttpHost")) ≡ some xhttp_host
    → TransportReads xhttp domain creds (
        (text "type", text "xhttp")
        ∷ (text "path", normalize_xhttp_path (get creds (text "path")))
        ∷ (param (text "host") xhttp_host
            ++ ((text "mode", mode) ∷ param (text "extra") (get creds (text "xhttpExtra")))))
unfolding get_param text_eq
xhttp_reads domain creds mode xhttp_host m h =
    let extra = get creds (text "xhttpExtra") in
    let rest : Params = (text "mode", mode) ∷ param (text "extra") extra in
    let before = λ (name : Text). param_before name (text "host") xhttp_host rest in
    let reads = λ (name : Text). get_param-param name (text "extra") extra in
    record {
      type = refl;
      path = refl;
      service = before (text "serviceName") ∙ reads (text "serviceName");
      host =
          before (text "host")
          ∙ ap (first_of xhttp_host) (reads (text "host"))
          ∙ first_of-none xhttp_host
          ∙ parse_xhttp_host-filled (get creds (text "xhttpHost")) xhttp_host h;
      mode = before (text "mode") ∙ sym m;
      extra = before (text "extra") ∙ reads (text "extra");
      security = before (text "security") ∙ reads (text "security");
      sni = before (text "sni") ∙ reads (text "sni");
      pbk = before (text "pbk") ∙ reads (text "pbk");
      sid = before (text "sid") ∙ reads (text "sid");
    }

one_reads :
    (domain : Option Text) (creds : Creds)
    → TransportReads tcp domain creds ((text "type", text "tcp") ∷ [])
unfolding get_param text_eq
one_reads domain creds = record {
  type = refl;
  path = refl;
  service = refl;
  host = refl;
  mode = refl;
  extra = refl;
  security = refl;
  sni = refl;
  pbk = refl;
  sid = refl;
}

quic_reads :
    (domain : Option Text) (creds : Creds)
    → TransportReads quic domain creds ((text "type", text "quic") ∷ [])
unfolding get_param text_eq
quic_reads domain creds = record {
  type = refl;
  path = refl;
  service = refl;
  host = refl;
  mode = refl;
  extra = refl;
  security = refl;
  sni = refl;
  pbk = refl;
  sid = refl;
}

grpc_reads :
    (domain : Option Text) (creds : Creds)
    → TransportReads grpc domain creds (
        (text "type", text "grpc")
        ∷ (text "serviceName", member_or creds (text "path") (text "grpc"))
        ∷ [])
unfolding get_param text_eq
grpc_reads domain creds = record {
  type = refl;
  path = refl;
  service = refl;
  host = refl;
  mode = refl;
  extra = refl;
  security = refl;
  sni = refl;
  pbk = refl;
  sid = refl;
}

same_params : (a b : Params) → some a ≡ some b → a ≡ b
same_params a b h = cc

pub add_transport_params-reads :
    (host : Host) (net : Transport) (domain : Option Text) (creds : Creds) (ps : Params)
    → add_transport_params host net domain creds ≡ some ps
    → TransportReads net domain creds ps
unfolding add_transport_params
add_transport_params-reads host tcp domain creds ps h =
    subst (TransportReads tcp domain creds) (same_params _ ps h) (one_reads domain creds)
add_transport_params-reads host ws domain creds ps h =
    subst (TransportReads ws domain creds) (same_params _ ps h) (ws_reads domain creds)
add_transport_params-reads host grpc domain creds ps h =
    subst (TransportReads grpc domain creds) (same_params _ ps h) (grpc_reads domain creds)
add_transport_params-reads host quic domain creds ps h =
    subst (TransportReads quic domain creds) (same_params _ ps h) (quic_reads domain creds)
add_transport_params-reads host xhttp domain creds ps h =
    let (xhttp_host, a, h) = some_of_bind _ _ ps h in
    let (mode, b, h) = some_of_bind _ _ ps h in
    let (extra, c, h) =
      some_of_bind (parse_xhttp_extra host (get creds (text "xhttpExtra"))) _ ps h in
    subst (TransportReads xhttp domain creds) (same_params _ ps h)
      (xhttp_reads domain creds mode xhttp_host b a)

-- the part that says the security
abbrev pub security_name : TlsMode → Text
security_name plain = text "none"
security_name tls_on = text "tls"
security_name reality = text "reality"

abbrev pub sent_sni : TlsMode → Option Text → Option Text
sent_sni plain domain = none
sent_sni tls_on domain = filled domain
sent_sni reality domain = some (or_else domain reality_default_sni)

pub record TlsReads (tls : TlsMode) (domain : Option Text) (creds : Creds) : Type 0 where
  pub security :
      get_param (text "security") (add_tls_params tls domain creds) ≡ some (security_name tls)
  pub sni : get_param (text "sni") (add_tls_params tls domain creds) ≡ sent_sni tls domain
  pub pbk :
      get_param (text "pbk") (add_tls_params tls domain creds)
      ≡ only_reality tls (member_or creds (text "realityPublicKey") [])
  pub sid :
      get_param (text "sid") (add_tls_params tls domain creds)
      ≡ only_reality tls (member_or creds (text "shortId") [])
  pub others :
      (get_param (text "type") (add_tls_params tls domain creds) ≡ none)
      × (get_param (text "path") (add_tls_params tls domain creds) ≡ none)
      × (get_param (text "serviceName") (add_tls_params tls domain creds) ≡ none)
      × (get_param (text "host") (add_tls_params tls domain creds) ≡ none)
      × (get_param (text "mode") (add_tls_params tls domain creds) ≡ none)
      × (get_param (text "extra") (add_tls_params tls domain creds) ≡ none)

pub add_tls_params-reads :
    (tls : TlsMode) (domain : Option Text) (creds : Creds) → TlsReads tls domain creds
unfolding get_param text_eq
add_tls_params-reads tls_on domain creds =
    let reads = λ (name : Text). get_param-param name (text "sni") (filled domain) in
    record {
      security = refl;
      sni = reads (text "sni");
      pbk = reads (text "pbk");
      sid = reads (text "sid");
      others = (
        reads (text "type"),
        reads (text "path"),
        reads (text "serviceName"),
        reads (text "host"),
        reads (text "mode"),
        reads (text "extra"),
      );
    }
add_tls_params-reads plain domain creds = record {
  security = refl;
  sni = refl;
  pbk = refl;
  sid = refl;
  others = (refl, refl, refl, refl, refl, refl);
}
add_tls_params-reads reality domain creds = record {
  security = refl;
  sni = refl;
  pbk = refl;
  sid = refl;
  others = (refl, refl, refl, refl, refl, refl);
}
