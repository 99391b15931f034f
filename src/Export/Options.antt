-- ===== src/Export/Options.antt =====
-- The options of the transport: those that `buildShareUri` of
-- apps/server/src/subscriptions/uri-builder.ts writes are those that the importer reads.
use nextpanel.Prelude.{
  ◌≡◌, refl, subst, true, false, Option, none, some, [], ◌∷◌, Text, text, text_eq, Bool-cases, inl,
  inr, arith,
}
use nextpanel.Prelude.Options.{some_of_bind}
use nextpanel.Nodes.Model.{Transport, tcp, ws, grpc, quic, xhttp}
use nextpanel.Nodes.Credentials.{Creds, get}
use nextpanel.Uri.Platform.{Host}
use nextpanel.Uri.Xhttp.{
  parse_xhttp_mode, parse_xhttp_host, parse_xhttp_extra, or_auto, is_xhttp_mode,
}
use nextpanel.Uri.External.{parse_transport, is_xhttp}
use nextpanel.Uri.Vmess.{known}
use nextpanel.Uri.Links.{options_of}
use nextpanel.Export.{NodeExportInfo, Params, net_of, net_name, filled, add_transport_params}
use nextpanel.Export.Imported.{transport_of, only_xhttp}
use nextpanel.Export.Lookups.{sent_host}
use nextpanel.Export.Queries.{LinkReads}

parse_transport-net_name : (net : Transport) → parse_transport (net_name net) ≡ transport_of net
unfolding parse_transport
parse_transport-net_name tcp = refl
parse_transport-net_name ws = refl
parse_transport-net_name grpc = refl
parse_transport-net_name quic = refl
parse_transport-net_name xhttp = refl

mode_again : (mode : Text) → is_xhttp_mode mode ≡ true → parse_xhttp_mode (some mode) ≡ some mode
unfolding parse_xhttp_mode text_eq
mode_again [] h = cc
mode_again (c ∷ s) h = rw h refl

-- A mode that was parsed is a mode.
parse_xhttp_mode-again :
    (value : Option Text) (mode : Text)
    → parse_xhttp_mode value ≡ some mode
    → parse_xhttp_mode (some mode) ≡ some mode
unfolding parse_xhttp_mode
parse_xhttp_mode-again value mode h = elim (Bool-cases (is_xhttp_mode (or_auto value))) [
  | inl known ↦
      let same : some (or_auto value) ≡ some mode = rw known at h in
      let same : or_auto value ≡ mode = cc in
      subst (λ (m : Text). parse_xhttp_mode (some m) ≡ some m) same
        (mode_again (or_auto value) known)
  | inr other ↦ let no : none ≡ some mode = rw other at h in cc
]

parse_xhttp_host-again :
    (value o : Option Text)
    → parse_xhttp_host value ≡ some o
    → parse_xhttp_host (filled value) ≡ some (filled value)
unfolding parse_xhttp_host
parse_xhttp_host-again none o h = refl
parse_xhttp_host-again (some []) o h = refl
parse_xhttp_host-again (some (c ∷ s)) o h = ground (arith, h)

module _ (host : Host) (domain : Option Text) (creds : Creds) (read : Text → Option Text) where
  -- a transport that has no options
  plain_options :
      (net : Transport)
      → is_xhttp (transport_of net) ≡ false
      → read (text "type") ≡ some (net_name net)
      → options_of host read
        ≡ some
            (record { transport = transport_of net; mode = none; xhttp_host = none; extra = none })
  plain_options net h t = rw (t, parse_transport-net_name net, h) refl

  xhttp_options :
      (ps : Params)
      → add_transport_params host xhttp domain creds ≡ some ps
      → read (text "type") ≡ some (text "xhttp")
      → read (text "host") ≡ filled (get creds (text "xhttpHost"))
      → read (text "mode") ≡ parse_xhttp_mode (get creds (text "xhttpMode"))
      → read (text "extra") ≡ get creds (text "xhttpExtra")
      → options_of host read
        ≡ some (record {
          transport = transport_of xhttp;
          mode = parse_xhttp_mode (get creds (text "xhttpMode"));
          xhttp_host = filled (get creds (text "xhttpHost"));
          extra = get creds (text "xhttpExtra");
        })
  unfolding add_transport_params
  xhttp_options ps h t r m e =
      let (o, a, h) = some_of_bind _ _ ps h in
      let (mode, b, h) = some_of_bind _ _ ps h in
      let (extra, c, h) =
        some_of_bind (parse_xhttp_extra host (get creds (text "xhttpExtra"))) _ ps h in
      rw
        (
          t,
          parse_transport-net_name xhttp,
          m,
          b,
          parse_xhttp_mode-again (get creds (text "xhttpMode")) mode b,
          r,
          parse_xhttp_host-again (get creds (text "xhttpHost")) o a,
          e,
          c,
        )
        refl

  options_at :
      (net : Transport) (ps : Params)
      → add_transport_params host net domain creds ≡ some ps
      → read (text "type") ≡ some (net_name net)
      → read (text "host") ≡ sent_host net domain creds
      → read (text "mode") ≡ only_xhttp net (parse_xhttp_mode (get creds (text "xhttpMode")))
      → read (text "extra") ≡ only_xhttp net (get creds (text "xhttpExtra"))
      → options_of host read
        ≡ some (record {
          transport = transport_of net;
          mode = only_xhttp net (parse_xhttp_mode (get creds (text "xhttpMode")));
          xhttp_host = only_xhttp net (filled (get creds (text "xhttpHost")));
          extra = only_xhttp net (get creds (text "xhttpExtra"));
        })
  options_at tcp ps h t r m e = plain_options tcp refl t
  options_at ws ps h t r m e = plain_options ws refl t
  options_at grpc ps h t r m e = plain_options grpc refl t
  options_at quic ps h t r m e = plain_options quic refl t
  options_at xhttp ps h t r m e = xhttp_options ps h t r m e

pub options_of-link :
    (host : Host) (node : NodeExportInfo) (read : Text → Option Text) (transport : Params)
    → add_transport_params host (net_of node.transport) node.domain node.credentials
      ≡ some transport
    → LinkReads read node
    → options_of host read
      ≡ some (record {
        transport = transport_of (net_of node.transport);
        mode =
            only_xhttp
              (net_of node.transport)
              (parse_xhttp_mode (get node.credentials (text "xhttpMode")));
        xhttp_host =
            only_xhttp (net_of node.transport) (filled (get node.credentials (text "xhttpHost")));
        extra = only_xhttp (net_of node.transport) (get node.credentials (text "xhttpExtra"));
      })
options_of-link host node read transport h r =
    options_at host node.domain node.credentials read (net_of node.transport) transport h r.type
      r.host r.mode r.extra
