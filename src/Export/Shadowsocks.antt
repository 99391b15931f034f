-- ===== src/Export/Shadowsocks.antt =====
-- A link of Shadowsocks from apps/server/src/subscriptions/uri-builder.ts, read by `parseShadowsocks`
-- of apps/server/src/external-nodes/uri-parser.ts.
use nextpanel.Prelude.{
  ℕ, ◌%◌, ◌-◌, ◌≡◌, refl, ap, ◌∙◌, Bool, true, false, ◌&&◌, ◌||◌, not, Option, none, some, [], ◌∷◌,
  ◌++◌, Text, text, ◌==◌, arith, all, includes, length, slice_from, replace, index_of,
  last_index_of, starts_with,
}
use mathlib.Core.List.{append-nil}
use nextpanel.Prelude.Trim.{last_index_of-append, take-append, drop_past}
use nextpanel.Nodes.Model.{shadowsocks}
use nextpanel.Uri.Platform.{Host}
use nextpanel.Uri.Base64.{padded, url_safe, pad_with}
use nextpanel.Uri.Socks.{before}
use nextpanel.Uri.External
use nextpanel.Uri.External.{ExternalNode, safe_decode_base64, past, parse_name, or_imported}
use nextpanel.Uri.Links.{parse_shadowsocks, shadowsocks_main}
use nextpanel.Uri.Compact.{dispatch}
use nextpanel.Export.{NodeExportInfo, authority}
use nextpanel.Export.ShareUri.{Printer, link_text, shadowsocks_method, shadowsocks_user}
use nextpanel.Export.Tokens.{is_clear, IsToken, includes_none}
use nextpanel.Export.Places.{all_weak, authority_units}
use nextpanel.Export.Clean.{link-IsClean}
use nextpanel.Export.Cut.{IsClean, cut_at}
use nextpanel.Export.Reading.{parse_name-tag, place_read}
use nextpanel.Export.Imported.{Prints, IsShareable, IsWellFormed, as_imported, password_of}

pub dispatch-shadowsocks :
    (host : Host) (link : Text) (fallback : External.Protocol)
    → dispatch host (text "ss://" ++ link) fallback ≡ parse_shadowsocks host (text "ss://" ++ link)
unfolding dispatch starts_with
dispatch-shadowsocks host link fallback = refl

replace_absent : (c d : ℕ) (s : Text) → includes s c ≡ false → replace c d s ≡ s
unfolding replace
replace_absent c d [] h = refl
replace_absent c d (e ∷ s) h = ground (arith, replace_absent c d s)

abbrev is_standard : ℕ → Bool
is_standard c = is_clear c && not (c == b'-' || c == b'_')

no_dash : (c : ℕ) → is_standard c ≡ true → (c == b'-') ≡ false
no_dash c h = ground arith

no_underscore : (c : ℕ) → is_standard c ≡ true → (c == b'_') ≡ false
no_underscore c h = ground arith

standard_token : (c : ℕ) → is_standard c ≡ true → is_clear c ≡ true
standard_token c h = ground arith

-- The standard alphabet with its padding is decoded as it is.
padded-url_safe : (s : Text) → all is_standard s ≡ true → length s % 4 ≡ 0 → padded (url_safe s) ≡ s
padded-url_safe s units whole =
    ap (λ t. padded (replace b'_' b'/' t))
      (replace_absent b'-' b'+' s (includes_none is_standard b'-' no_dash s units))
    ∙ ap padded (replace_absent b'_' b'/' s (includes_none is_standard b'_' no_underscore s units))
    ∙ ap (λ r. pad_with ((4 - r) % 4) s) whole

module _ {host : Host} {printer : Printer} (prints : Prints host printer) where
  pub base64_of-IsToken : (s : Text) → IsToken (printer.base64_of s)
  base64_of-IsToken s =
      all_weak is_standard is_clear standard_token (printer.base64_of s) (prints.base64_units s)

  pub safe_decode_base64-base64_of :
      (s : Text) → IsWellFormed printer s → safe_decode_base64 host (printer.base64_of s) ≡ s
  safe_decode_base64-base64_of s well =
      ap (λ t. host.utf8_text (host.base64_bytes t))
        (padded-url_safe (printer.base64_of s) (prints.base64_units s) (prints.base64_length s))
      ∙ prints.base64_reads s well

  module _ (node : NodeExportInfo) (shareable : IsShareable host printer node) (uri tag : Text)
      (tagged : printer.encode_component node.name ≡ some tag) where
    IsClean-link :
        IsClean
          (printer.base64_of (shadowsocks_user node.credentials))
          (authority node.host node.port)
          none
    IsClean-link =
        link-IsClean (printer.base64_of (shadowsocks_user node.credentials))
          (authority node.host node.port) none
          (base64_of-IsToken (shadowsocks_user node.credentials))
          (authority_units node.host node.port shareable.host_named) tt

    -- method and password, split at the first colon
    shadowsocks_main-link :
        includes (shadowsocks_method node.credentials) b':' ≡ false
        → IsWellFormed printer (shadowsocks_user node.credentials)
        → let user = printer.base64_of (shadowsocks_user node.credentials) in
          let main = user ++ b'@' ∷ authority node.host node.port in
          shadowsocks_main host uri (parse_name host (some tag)) main (last_index_of main b'@')
          ≡ as_imported node uri shadowsocks
    unfolding as_imported
    shadowsocks_main-link whole well =
        let creds = node.credentials in
        let user = printer.base64_of (shadowsocks_user creds) in
        let place = authority node.host node.port in
        let clean = IsClean-link in
        let (first, rest) = cut_at (shadowsocks_method creds) (password_of node) b':' whole in
        rw
          (
            last_index_of-append user place b'@' clean.place_at,
            take-append user (b'@' ∷ place),
            drop_past user b'@' place,
            safe_decode_base64-base64_of (shadowsocks_user creds) well,
            place_read prints node shareable uri tag tagged,
            parse_name-tag prints node.name tag tagged,
            first,
            rest,
          )
          refl

    pub parse_shadowsocks-link :
        includes (shadowsocks_method node.credentials) b':' ≡ false
        → IsWellFormed printer (shadowsocks_user node.credentials)
        → uri
          ≡ text "ss://"
            ++ link_text
                (printer.base64_of (shadowsocks_user node.credentials))
                (authority node.host node.port)
                none
                tag
        → parse_shadowsocks host uri ≡ as_imported node uri shadowsocks
    unfolding parse_shadowsocks
    parse_shadowsocks-link whole well e =
        let user = printer.base64_of (shadowsocks_user node.credentials) in
        let main : Text = user ++ b'@' ∷ authority node.host node.port in
        let read = λ (name : Option Text) (main : Text).
          shadowsocks_main host uri (parse_name host name) main (last_index_of main b'@') in
        let (a, b) = cut_at (main ++ []) tag b'#' IsClean-link.main_hash in
        ap
          (λ t.
            read (past (index_of (slice_from 5 t) b'#') (slice_from 5 t))
              (before (index_of (slice_from 5 t) b'#') (slice_from 5 t)))
          e
        ∙ (λ i. read (b i) (a i))
        ∙ ap (read (some tag)) (append-nil main)
        ∙ shadowsocks_main-link whole well
