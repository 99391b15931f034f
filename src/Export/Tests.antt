-- ===== src/Export/Tests.antt =====
-- Concrete runs of the builders of apps/server/src/subscriptions/uri-builder.ts.
mod Runtime
use nextpanel.Prelude.{
  ◌≡◌, refl, true, false, Option, none, some, List, [], ◌∷◌, ◌++◌, Text, text, text_eq, decimal,
  arith, ap, join, all, ltb, subst, trim, is_space, starts_with,
}
use nextpanel.Nodes.Model.{vless, trojan, hysteria2, ws, tcp, tls_on, plain, reality}
use nextpanel.Nodes.Credentials.{get}
use nextpanel.Uri.External
use nextpanel.Uri.External.{ExternalNode}
use nextpanel.Uri.Compact.{parse_uri, parse_subscription_text}
use nextpanel.Export.{NodeExportInfo, Params, add_transport_params}
use nextpanel.Export.ShareUri.{build_share_uri, share_uri, query_params, link_text}
use nextpanel.Export.Imported.{IsShareable, IsWellFormed, AreWellFormed, as_imported}
use nextpanel.Export.Content.{share_lines, generate_content}
use nextpanel.Export.Content.Imports.{AreImported, parse_subscription_text-generate_content}
use nextpanel.Export.RoundTrip.{parse_uri-build_share_uri}
use nextpanel.Export.Tests.Runtime.{
  toy_host, toy_printer, toy-Prints, encode, query_of, shifted, base64,
}

abbrev node : NodeExportInfo
node = record {
  name = text "Oslo 1";
  protocol = vless;
  host = text "2001:db8::1";
  port = 443;
  transport = some ws;
  tls = tls_on;
  domain = some (text "a.example.org");
  credentials = (text "uuid", text "u-1") ∷ (text "path", text "/ws?ed=1") ∷ [];
  cf_group = false;
}

abbrev link : Text
link =
    text "vless://"
    ++ link_text (text "u-1") (text "[2001:db8::1]:443")
        (some (
          query_of (
            (text "encryption", text "none")
            ∷ (text "type", text "ws")
            ∷ (text "path", text "/ws?ed=1")
            ∷ (text "host", text "a.example.org")
            ∷ (text "security", text "tls")
            ∷ (text "sni", text "a.example.org")
            ∷ [])))
        (shifted (text "Oslo 1"))

built : build_share_uri toy_host toy_printer node ≡ some (some link)
unfolding build_share_uri share_uri query_params add_transport_params get text_eq decimal
    starts_with
built = refl

same_params : (a b : Params) → some a ≡ some b → a ≡ b
same_params a b h = cc

ascii : (s : Text) → all (λ c. ltb c 128) s ≡ true → IsWellFormed toy_printer s
ascii = toy-Prints.ascii_fits

node_fits : IsShareable toy_host toy_printer node
unfolding query_params add_transport_params get text_eq is_space
node_fits = record {
  host_named = (refl, refl);
  port_low = omega arith;
  port_high = omega arith;
  credentials_fit = refl;
  params_fit = λ params h.
      subst (λ (ps : Params). AreWellFormed toy_printer ps) (same_params _ params h)
        (
          (ascii (text "encryption") refl, ascii (text "none") refl),
          (
            (ascii (text "type") refl, ascii (text "ws") refl),
            (
              (ascii (text "path") refl, ascii (text "/ws?ed=1") refl),
              (
                (ascii (text "host") refl, ascii (text "a.example.org") refl),
                (
                  (ascii (text "security") refl, ascii (text "tls") refl),
                  ((ascii (text "sni") refl, ascii (text "a.example.org") refl), tt),
                ),
              ),
            ),
          ),
        );
}

parse_uri-build_share_uri_example :
    parse_uri toy_host link External.http ≡ as_imported node link vless
unfolding build_share_uri share_uri query_params add_transport_params get text_eq decimal
    starts_with
parse_uri-build_share_uri_example =
    parse_uri-build_share_uri toy_host toy_printer node link External.http toy-Prints node_fits refl

-- The second node has no options, and the same address.
abbrev second : NodeExportInfo
second = record node {
  name = text "Oslo 2";
  protocol = hysteria2;
  transport = none;
  credentials = (text "password", text "s@1") ∷ [];
}

second_fits : IsShareable toy_host toy_printer second
unfolding query_params is_space
second_fits = record {
  host_named = (refl, refl);
  port_low = omega arith;
  port_high = omega arith;
  credentials_fit = tt;
  params_fit = λ params h.
      subst (AreWellFormed toy_printer) (same_params _ params h)
        ((ascii (text "sni") refl, ascii (text "a.example.org") refl), tt);
}

same_lines : (a b : List Text) → some a ≡ some b → a ≡ b
same_lines a b h = cc

abbrev nodes : List NodeExportInfo
nodes = node ∷ second ∷ []

abbrev second_link : Text
second_link =
    text "hy2://"
    ++ link_text (shifted (text "s@1")) (text "[2001:db8::1]:443")
        (some (query_of ((text "sni", text "a.example.org") ∷ []))) (shifted (text "Oslo 2"))

abbrev content : Text
content = base64 (link ++ b'\n' ∷ second_link)

parse_subscription_text-generate_content_example :
    (externals : List ExternalNode) × (parse_subscription_text toy_host content External.http
      ≡ record { nodes = externals; failed = 0 })
    × AreImported nodes externals
unfolding generate_content build_share_uri share_uri query_params add_transport_params get text_eq
    decimal starts_with share_lines join
parse_subscription_text-generate_content_example =
    parse_subscription_text-generate_content toy_host toy_printer nodes content External.http
      toy-Prints (node_fits, (second_fits, tt))
      (λ lines h.
        subst (λ (ls : List Text). IsWellFormed toy_printer (join b'\n' ls)) (same_lines _ lines h)
          (ascii (link ++ b'\n' ∷ second_link) refl))
      refl
