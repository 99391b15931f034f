-- ===== src/Export/Schemes.antt =====
-- The scheme of a link chooses the parser: `parseUri` of apps/server/src/external-nodes/uri-parser.ts.
use nextpanel.Prelude.{◌≡◌, refl, ap, true, some, ◌++◌, Text, text, all, starts_with, lower_unit}
use nextpanel.Uri.Platform.{Host}
use nextpanel.Uri.Socks.{socks_scheme}
use nextpanel.Uri.External
use nextpanel.Uri.External.{ExternalNode, or_else}
use nextpanel.Uri.Links.{
  cut, vless_of, trojan_of, hysteria2_of, parse_vless, parse_trojan, parse_hysteria2,
}
use nextpanel.Uri.Compact.{parse_uri, dispatch}
use nextpanel.Export.Places.{all-append}
use nextpanel.Export.Clean.{is_visible, trim-visible}

-- each scheme has its parser
pub dispatch-vless :
    (host : Host) (link : Text) (fallback : External.Protocol)
    → dispatch host (text "vless://" ++ link) fallback
      ≡ vless_of host (text "vless://" ++ link) (cut link)
unfolding dispatch starts_with parse_vless
dispatch-vless host link fallback = refl

pub dispatch-trojan :
    (host : Host) (link : Text) (fallback : External.Protocol)
    → dispatch host (text "trojan://" ++ link) fallback
      ≡ trojan_of host (text "trojan://" ++ link) (cut link)
unfolding dispatch starts_with parse_trojan socks_scheme lower_unit
dispatch-trojan host link fallback = refl

pub dispatch-hysteria2 :
    (host : Host) (link : Text) (fallback : External.Protocol)
    → dispatch host (text "hy2://" ++ link) fallback
      ≡ hysteria2_of host (text "hy2://" ++ link) (cut link)
unfolding dispatch starts_with parse_hysteria2 socks_scheme lower_unit
dispatch-hysteria2 host link fallback = refl

pub scheme_visible :
    (host : Host) (scheme link : Text) (fallback : External.Protocol)
    → all is_visible scheme ≡ true
    → all is_visible link ≡ true
    → parse_uri host (scheme ++ link) fallback ≡ dispatch host (scheme ++ link) fallback
unfolding parse_uri
scheme_visible host scheme link fallback s h =
    ap (λ t. dispatch host t fallback)
      (trim-visible (scheme ++ link) (all-append is_visible scheme link s h))

pub same_uri : (a uri : Text) → some (some a) ≡ some (some uri) → a ≡ uri
same_uri a uri h = cc
