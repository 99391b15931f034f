-- ===== src/Export/Content/Imports.antt =====
-- A subscription of apps/server/src/subscriptions/subscriptions.service.ts, imported by
-- `parseSubscriptionText` of apps/server/src/external-nodes/uri-parser.ts.
use nextpanel.Prelude.{
  ℕ, ◌≡◌, refl, sym, ap, subst, ◌∙◌, true, false, not, Option, none, some, List, [], ◌∷◌, ◌++◌,
  Text, text, ◌==◌, arith, all, All, includes, includes_text, starts_with, is_space, is_empty, trim,
  split, join, keep,
}
use nextpanel.Prelude.Options.{some_of_bind}
use nextpanel.Nodes.Model.{
  Protocol, vmess, vless, trojan, shadowsocks, socks5, http, hysteria2, tuic, anytls,
}
use nextpanel.Uri.Platform.{Host}
use nextpanel.Uri.External
use nextpanel.Uri.External.{ExternalNode, safe_decode_base64}
use nextpanel.Uri.Compact.{
  parse_bare_proxy, parse_subscription_text, lines_of, import_lines, split_lines, filled_lines,
  bare_fields,
}
use nextpanel.Export.{NodeExportInfo}
use nextpanel.Export.ShareUri.{Printer, build_share_uri}
use nextpanel.Export.Tokens.{is_clear, IsToken, no_colon, no_bracket, includes_none}
use nextpanel.Export.Clean.{is_visible, trim-visible, visible_token}
use nextpanel.Export.Places.{all_weak}
use nextpanel.Export.Shadowsocks.{base64_of-IsToken, safe_decode_base64-base64_of}
use nextpanel.Export.Imported.{Prints, IsShareable, IsWellFormed, CanBeShared, as_imported}
use nextpanel.Export.RoundTrip.{build_share_uri-ReadsBack, build_share_uri-none}
use nextpanel.Export.Content.{share_lines, with_line, generate_content}

-- a line of a subscription: not empty, and no white space in it
abbrev IsLine : Text → Type 0
IsLine line = (is_empty line ≡ false) × (all is_visible line ≡ true)

no_break : (c : ℕ) → is_visible c ≡ true → ((c == 10) ≡ false) × ((c == 13) ≡ false)
unfolding is_space
no_break c h = (ground arith, ground arith)

split_lines-append :
    (line rest : Text)
    → all is_visible line ≡ true
    → split_lines (line ++ 10 ∷ rest) ≡ line ∷ split_lines rest
unfolding split_lines
split_lines-append [] rest h = refl
split_lines-append (c ∷ line) rest h = ground (arith, no_break c, split_lines-append line rest)

split_lines-line : (line : Text) → all is_visible line ≡ true → split_lines line ≡ line ∷ []
unfolding split_lines
split_lines-line [] h = refl
split_lines-line (c ∷ line) h = ground (arith, no_break c, split_lines-line line)

kept :
    (line : Text) (lines : List Text)
    → IsLine line
    → keep (λ l. not (is_empty (trim l))) (line ∷ lines)
      ≡ line ∷ keep (λ l. not (is_empty (trim l))) lines
kept line lines (filled, visible) = rw (trim-visible line visible, filled) refl

-- Lines that are joined are split again.
filled_lines-join : (lines : List Text) → All IsLine lines → filled_lines (join 10 lines) ≡ lines
unfolding join split_lines trim
filled_lines-join [] h = refl
filled_lines-join (line ∷ []) (h, _) =
    ap (keep (λ l. not (is_empty (trim l)))) (split_lines-line line h.1) ∙ kept line [] h
filled_lines-join (line ∷ next ∷ lines) (h, k) =
    ap (keep (λ l. not (is_empty (trim l)))) (split_lines-append line (join 10 (next ∷ lines)) h.1)
    ∙ kept line (split_lines (join 10 (next ∷ lines))) h
    ∙ ap (λ l. line ∷ l) (filled_lines-join (next ∷ lines) k)

split_one : (c : ℕ) (s : Text) → includes s c ≡ false → split c s ≡ s ∷ []
unfolding split
split_one c [] h = refl
split_one c (d ∷ s) h = ground (arith, split_one c s)

token_break : (c : ℕ) → is_clear c ≡ true → (c == 10) ≡ false
token_break c h = (no_break c (visible_token c h)).0

same_lines : (a b : List Text) → some a ≡ some b → a ≡ b
same_lines a b h = cc

no_scheme : (s : Text) → IsToken s → includes_text s (text "://") ≡ false
unfolding includes_text starts_with
no_scheme [] h = refl
no_scheme (c ∷ s) h = ground (arith, no_colon c, no_scheme s)

no_opening : (s : Text) → IsToken s → starts_with s (text "[") ≡ false
unfolding starts_with
no_opening [] h = refl
no_opening (c ∷ s) h = ground (arith, no_bracket c)

no_bare_proxy :
    (s : Text) (fallback : External.Protocol) → IsToken s → parse_bare_proxy s fallback ≡ none
unfolding parse_bare_proxy
no_bare_proxy s fallback h =
    let fields : bare_fields s ≡ none =
      rw (no_opening s h, split_one b':' s (includes_none is_clear b':' no_colon s h)) refl in
    rw (trim-visible s (all_weak is_clear is_visible visible_token s h), fields) refl

-- A text of Base64 is no compact proxy, no list of links, and one line.
base64_lines :
    (host : Host) (s : Text) (fallback : External.Protocol)
    → IsToken s
    → lines_of host s fallback ≡ filled_lines (safe_decode_base64 host s)
unfolding lines_of
base64_lines host s fallback h =
    rw (no_bare_proxy s fallback h, includes_none is_clear 10 token_break s h, no_scheme s h) refl

-- The nodes, in their order, as an importer should see them.
abbrev pub AreImported : List NodeExportInfo → List ExternalNode → Type 0
AreImported [] [] = Unit
AreImported (node ∷ nodes) (external ∷ externals) =
    (as_imported node external.raw_uri node.protocol ≡ some external) × AreImported nodes externals
AreImported _ _ = ⊥

-- The importer's node keeps the link.
imported_link :
    (printer : Printer) (node : NodeExportInfo) (uri : Text) (protocol : Protocol)
    → CanBeShared printer node protocol
    → (external : ExternalNode) × (as_imported node uri protocol ≡ some external)
      × (external.raw_uri ≡ uri)
unfolding as_imported
imported_link printer node uri vless h = (_, refl, refl)
imported_link printer node uri trojan h = (_, refl, refl)
imported_link printer node uri shadowsocks h = (_, refl, refl)
imported_link printer node uri hysteria2 h = (_, refl, refl)
imported_link printer node uri vmess h = elim h [ ]
imported_link printer node uri socks5 h = elim h [ ]
imported_link printer node uri http h = elim h [ ]
imported_link printer node uri tuic h = elim h [ ]
imported_link printer node uri anytls h = elim h [ ]

module _ (host : Host) (printer : Printer) (prints : Prints host printer)
    (fallback : External.Protocol) where
  abbrev AreRead : List NodeExportInfo → List Text → Type 0
  AreRead nodes lines =
      All IsLine lines
      × ((externals : List ExternalNode) × (import_lines host fallback lines
            ≡ record { nodes = externals; failed = 0 })
          × AreImported nodes externals)

  one_read :
      (node : NodeExportInfo) (nodes : List NodeExportInfo) (line : Option Text) (lines : List Text)
      → IsShareable host printer node
      → build_share_uri host printer node ≡ some line
      → AreRead nodes lines
      → AreRead (node ∷ nodes) (with_line line lines)
  unfolding import_lines
  one_read node nodes none lines h b r =
      absurd (build_share_uri-none host printer node h.credentials_fit b)
  one_read node nodes (some uri) lines h b (k, (externals, e, a)) =
      let (visible, filled, read) =
        build_share_uri-ReadsBack host printer node uri fallback prints h b in
      let (external, f, kept_uri) =
        imported_link printer node uri node.protocol h.credentials_fit in
      (
        ((filled, visible), k),
        (
          external ∷ externals,
          rw (trim-visible uri visible, read, f, e) refl,
          (
            subst (λ (t : Text). as_imported node t node.protocol ≡ some external) (sym kept_uri) f,
            a,
          ),
        ),
      )

  -- Every line is a line, and is imported as its node.
  lines_read :
      (nodes : List NodeExportInfo) (lines : List Text)
      → All (IsShareable host printer) nodes
      → share_lines host printer nodes ≡ some lines
      → AreRead nodes lines
  unfolding share_lines import_lines
  lines_read [] lines h e = subst (AreRead []) (same_lines [] lines e) (tt, ([], refl, tt))
  lines_read (node ∷ nodes) lines (h, k) e =
      let (line, b, e) = some_of_bind (build_share_uri host printer node) _ lines e in
      let (rest, c, e) = some_of_bind (share_lines host printer nodes) _ lines e in
      subst (AreRead (node ∷ nodes)) (same_lines _ lines e)
        (one_read node nodes line rest h b (lines_read nodes rest k c))

-- A subscription to nodes of VLESS, Trojan, Shadowsocks and Hysteria 2 is imported whole: every node of
-- it comes out, in its place and as `build_share_uri` is read back, and no line fails. The nodes are
-- shareable, and their links together are a well-formed text.
pub parse_subscription_text-generate_content :
    (host : Host) (printer : Printer) (nodes : List NodeExportInfo) (content : Text)
    (fallback : External.Protocol)
    → Prints host printer
    → All (IsShareable host printer) nodes
    → ((lines : List Text)
        → share_lines host printer nodes ≡ some lines
        → IsWellFormed printer (join b'\n' lines))
    → generate_content host printer nodes ≡ some content
    → (externals : List ExternalNode) × (parse_subscription_text host content fallback
        ≡ record { nodes = externals; failed = 0 })
      × AreImported nodes externals
unfolding generate_content parse_subscription_text
parse_subscription_text-generate_content host printer nodes content fallback prints h well e =
    let (lines, shared, e) = some_of_bind (share_lines host printer nodes) _ content e in
    let (k, (externals, imported, a)) =
      lines_read host printer prints fallback nodes lines h shared in
    let joined = join b'\n' lines in
    let base = printer.base64_of joined in
    let token = base64_of-IsToken prints joined in
    let text_is : base ≡ content = cc in
    let read : lines_of host (trim base) fallback ≡ lines =
      ap (λ t. lines_of host t fallback)
        (trim-visible base (all_weak is_clear is_visible visible_token base token))
      ∙ base64_lines host base fallback token
      ∙ ap filled_lines (safe_decode_base64-base64_of prints joined (well lines shared))
      ∙ filled_lines-join lines k in
    (
      externals,
      subst
          (λ (t : Text).
            parse_subscription_text host t fallback ≡ record { nodes = externals; failed = 0 })
          text_is (ap (import_lines host fallback) read ∙ imported),
      a,
    )
