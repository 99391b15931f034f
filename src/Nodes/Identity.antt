-- ===== src/Nodes/Identity.antt =====
-- apps/server/src/nodes/protocols/cf-xhttp.ts, and ensureCredentials of
-- apps/server/src/nodes/nodes.service.ts.
pub mod Stable
use nextpanel.Prelude.{
  ℕ, zero, suc, ◌+◌, Bool, true, false, ◌&&◌, ◌||◌, not, Option, none, some, List, [], ◌∷◌, ◌++◌,
  Text, text, text_eq, ◌==◌, leb, if◌then◌else◌, take, drop, length, all, is_some, starts_with,
  is_empty,
}
use nextpanel.Prelude.Exec.{Result, ok, err}
use nextpanel.Prelude.Results.{reject, ◌>>=◌, ◌>>◌}
use nextpanel.Nodes.Model.{
  protocol_eq, tuic, anytls, NodeError, bad_short_id, bad_path, mode_not_supported,
  bad_xhttp_profile, bad_xhttp_identity, bad_xhttp_options, bad_xhttp_path,
}
use nextpanel.Nodes.Shape.{NodeShape, is_xhttp, is_cf_xhttp, is_reality}
use nextpanel.Nodes.Presets.{
  SupportedProtocol, vless_reality, vless_xhttp_reality, vless_xhttp_tls, vless_xhttp_h3_tls,
  vless_ws_tls, vless_tcp_tls, hysteria2_preset, tuic_v5, anytls_preset, vmess_tcp,
}
use nextpanel.Nodes.Credentials.{
  Creds, Given, get, put, add_defined, defined, as_given, remove_member, assign, is_filled, or_put,
  Draw, random_password, reality_private_key, reality_public_key, generate_x25519_keys,
  random_short_id, random_path, credential_generators,
}

abbrev pub is_cf_xhttp_preset : SupportedProtocol → Bool
is_cf_xhttp_preset vless_xhttp_tls = true
is_cf_xhttp_preset vless_xhttp_h3_tls = true
is_cf_xhttp_preset _ = false

pub record CfXhttpProfile : Type 0 where
  pub mode : Text
  pub alpn : Text
  pub protocol : ℕ
  pub feature : Text

abbrev pub text_or : Option Text → Text → Text
text_or none default = default
text_or (some s) default = s

abbrev is_supported : Text → Text → Bool
is_supported mode alpn =
    (text_eq mode (text "packet-up") || text_eq mode (text "stream-up"))
    && ((text_eq alpn (text "h2") || text_eq alpn (text "h3"))
        && not (text_eq alpn (text "h3") && not (text_eq mode (text "packet-up"))))

abbrev profile_of : Text → Text → CfXhttpProfile
profile_of mode alpn = record {
  mode = mode;
  alpn = alpn;
  protocol = if text_eq alpn (text "h2") && text_eq mode (text "packet-up") then 3 else 4;
  feature = text "vless-xhttp-tls-" ++ (mode ++ (text "-" ++ alpn));
}

unfoldable pub cf_xhttp_profile : Creds → Result NodeError CfXhttpProfile
unfolding get
cf_xhttp_profile c =
    let mode : Text = text_or (get c (text "xhttpMode")) (text "packet-up") in
    let alpn : Text = text_or (get c (text "xhttpAlpn")) (text "h2") in
    reject (not (is_supported mode alpn)) bad_xhttp_profile >> ok (profile_of mode alpn)

pub data CfXhttpMode : Type 0 where
  packet_up stream_up : CfXhttpMode

abbrev pub mode_text : CfXhttpMode → Text
mode_text packet_up = text "packet-up"
mode_text stream_up = text "stream-up"

abbrev pub put_mode : Creds → Option CfXhttpMode → Creds
put_mode c none = c
put_mode c (some mode) = put c (text "xhttpMode") (mode_text mode)

unfoldable pub apply_cf_xhttp_mode :
    SupportedProtocol → Creds → Option CfXhttpMode → Result NodeError Creds
apply_cf_xhttp_mode preset c mode = do
  reject (is_some mode && not (is_cf_xhttp_preset preset)) mode_not_supported
  elim (is_cf_xhttp_preset preset) [
    | true ↦ cf_xhttp_profile (put_mode c mode) >>= λ _. ok (put_mode c mode)
    | false ↦ ok c
  ]

-- [a-f0-9] without regard to case
abbrev pub is_hex : ℕ → Bool
is_hex u = (leb 48 u && leb u 57) || ((leb 65 u && leb u 70) || (leb 97 u && leb u 102))

-- [A-Za-z0-9_/-]
abbrev is_path_unit : ℕ → Bool
is_path_unit u =
    (leb 48 u && leb u 57)
    || ((leb 65 u && leb u 90)
        || ((leb 97 u && leb u 122) || (u == b'_' || (u == b'/' || u == b'-'))))

-- The text starts with `n` units that pass the test, and then with the rest of the pattern.
abbrev runs : (ℕ → Bool) → ℕ → (Text → Bool) → Text → Bool
runs test zero rest s = rest s
runs test (suc n) rest [] = false
runs test (suc n) rest (u ∷ s) = test u && runs test n rest s

abbrev dash : ℕ → Bool
dash u = u == b'-'

unfoldable pub is_uuid : Text → Bool
is_uuid = runs is_hex 8 (
    runs dash 1 (
      runs is_hex 4 (
        runs dash 1
          (runs is_hex 4 (runs dash 1 (runs is_hex 4 (runs dash 1 (runs is_hex 12 is_empty))))))))

unfoldable pub is_short_id : Text → Bool
is_short_id = runs is_hex 16 is_empty

unfoldable pub is_cf_path : Text → Bool
is_cf_path [] = false
is_cf_path (u ∷ s) = u == b'/' && (leb 1 (length s) && (leb (length s) 128 && all is_path_unit s))

abbrev passes : (Text → Bool) → Option Text → Bool
passes test none = false
passes test (some s) = test s

abbrev differs : Option Text → Text → Bool
differs none domain = false
differs (some host) domain = is_filled (some host) && not (text_eq host domain)

-- the members that the function returns
abbrev cf_members : Creds → CfXhttpProfile → Text → Creds
cf_members c profile domain =
    (text "uuid", text_or (get c (text "uuid")) [])
    ∷ (text "path", text_or (get c (text "path")) [])
    ∷ (text "xhttpMode", profile.mode)
    ∷ (text "xhttpHost", domain)
    ∷ (if text_eq profile.alpn (text "h3") then (text "xhttpAlpn", text "h3") ∷ [] else [])

unfoldable pub cf_xhttp_credentials : Creds → Text → Result NodeError Creds
unfolding is_uuid is_cf_path
cf_xhttp_credentials c domain = do
  reject (not (passes is_uuid (get c (text "uuid")))) bad_xhttp_identity
  profile ← cf_xhttp_profile c
  reject (is_filled (get c (text "xhttpExtra")) || differs (get c (text "xhttpHost")) domain)
      bad_xhttp_options
  reject (not (passes is_cf_path (get c (text "path")))) bad_xhttp_path
  ok (cf_members c profile domain)

abbrev pub has_keys : Creds → Bool
has_keys c =
    is_filled (get c (text "realityPrivateKey")) && is_filled (get c (text "realityPublicKey"))

unfoldable pub put_keys : Draw → Creds → Creds
unfolding reality_private_key reality_public_key
put_keys draw c =
    put (put c (text "realityPrivateKey") (reality_private_key draw)) (text "realityPublicKey")
      (reality_public_key draw)

unfoldable pub with_keys : Draw → Creds → Creds
with_keys draw c = if has_keys c then c else put_keys draw c

unfoldable pub xhttp_members : Draw → Draw → Creds → Creds
unfolding with_keys random_short_id random_path
xhttp_members draw keys c =
    or_put
      (or_put (with_keys keys (or_put c (text "uuid") draw.random_uuid)) (text "shortId")
        (random_short_id draw))
      (text "path") (random_path draw 12)

unfoldable pub xhttp_checked : Creds → Result NodeError Creds
unfolding is_short_id
xhttp_checked c = do
  reject (not (passes is_short_id (get c (text "shortId")))) bad_short_id
  reject (not (passes (λ s. starts_with s (text "/")) (get c (text "path")))) bad_path
  ok c

-- the check alone: the domain is bound when a configuration is made
unfoldable pub cdn_checked : Creds → Result NodeError Creds
cdn_checked c =
    let host : Text = text_or (get c (text "xhttpHost")) (text "pending.invalid") in
    cf_xhttp_credentials c host >>= λ _. ok c

unfoldable pub native_members : Draw → NodeShape → Creds → Creds
native_members draw s c =
    if protocol_eq s.protocol tuic
    then or_put (or_put c (text "uuid") draw.random_uuid) (text "password")
        (random_password draw 32)
    else (if protocol_eq s.protocol anytls
        then or_put c (text "password") (random_password draw 32)
        else (if is_reality s.tls then with_keys draw c else c))

unfoldable pub xhttp_credentials : Draw → Draw → NodeShape → Creds → Result NodeError Creds
xhttp_credentials draw keys s c =
    if is_cf_xhttp s.protocol s.transport s.tls
    then cdn_checked c
    else xhttp_checked (xhttp_members draw keys c)

-- the second draw is that of `generateRealityKeys`, where both are made
unfoldable pub ensure_credentials : Draw → Draw → NodeShape → Given → Result NodeError Creds
ensure_credentials draw keys s given =
    if is_xhttp s.transport
    then xhttp_credentials draw keys s (defined given)
    else ok (native_members draw s (defined given))
