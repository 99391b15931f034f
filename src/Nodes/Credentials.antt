-- ===== src/Nodes/Credentials.antt =====
-- apps/server/src/nodes/protocols/presets.ts: the generators of credentials. A JavaScript object of texts is a list of its members in
-- their order; what node:crypto draws is a parameter.
use nextpanel.Prelude.{
  ℕ, Bool, true, false, Option, none, some, List, [], ◌∷◌, ◌++◌, Text, text, text_eq, if◌then◌else◌,
  take, drop,
}
use nextpanel.Nodes.Presets.{
  SupportedProtocol, vless_reality, vless_xhttp_reality, vless_xhttp_tls, vless_xhttp_h3_tls,
  vless_ws_tls, vless_tcp_tls, hysteria2_preset, tuic_v5, anytls_preset, vmess_tcp,
}

abbrev pub Creds : Type 0
Creds = List (Text × Text)

-- members that may be undefined
abbrev pub Given : Type 0
Given = List (Text × Option Text)

unfoldable pub get : Creds → Text → Option Text
get [] name = none
get ((key, value) ∷ c) name = if text_eq key name then some value else get c name

-- `c.name = value`
unfoldable pub put : Creds → Text → Text → Creds
put [] name value = (name, value) ∷ []
put ((key, old) ∷ c) name value =
    if text_eq key name then (key, value) ∷ c else (key, old) ∷ put c name value

abbrev pub add_defined : Text → Option Text → Creds → Creds
add_defined key none c = c
add_defined key (some value) c = (key, value) ∷ c

-- the members that are not undefined
unfoldable pub defined : Given → Creds
defined [] = []
defined ((key, value) ∷ c) = add_defined key value (defined c)

abbrev pub as_given : Creds → Given
as_given [] = []
as_given ((key, value) ∷ c) = (key, some value) ∷ as_given c

abbrev pub remove_member : Creds → Text → Creds
remove_member [] name = []
remove_member ((key, value) ∷ c) name =
    if text_eq key name then c else (key, value) ∷ remove_member c name

-- the defined members of `{ ...c, ...given }`
unfoldable pub assign : Creds → Given → Creds
unfolding put
assign c [] = c
assign c ((key, value) ∷ given) =
    assign (elim value [ some v ↦ put c key v | none ↦ remove_member c key ]) given

-- a text that is there and is not empty
abbrev pub is_filled : Option Text → Bool
is_filled none = false
is_filled (some []) = false
is_filled (some (_ ∷ _)) = true

-- `c.name ||= value`
unfoldable pub or_put : Creds → Text → Text → Creds
unfolding get put
or_put c name value = if is_filled (get c name) then c else put c name value

-- What one run draws from node:crypto.
pub record Draw : Type 0 where
  pub random_uuid : Text
  pub random_bytes : ℕ → List ℕ
  -- the key pair in the two DER forms
  pub private_der : List ℕ
  pub public_der : List ℕ
  -- `bytes.toString('base64url')` and `bytes.toString('hex')`
  pub base64url : List ℕ → Text
  pub hex : List ℕ → Text

module _ (draw : Draw) where
  unfoldable pub random_password : ℕ → Text
  random_password n = take n (draw.base64url (draw.random_bytes n))

  unfoldable pub reality_private_key : Text
  reality_private_key = draw.base64url (drop 16 draw.private_der)

  unfoldable pub reality_public_key : Text
  reality_public_key = draw.base64url (drop 12 draw.public_der)

  unfoldable pub generate_x25519_keys : Creds
  unfolding reality_private_key reality_public_key
  generate_x25519_keys =
      (text "realityPrivateKey", reality_private_key)
      ∷ (text "realityPublicKey", reality_public_key)
      ∷ []

  unfoldable pub random_short_id : Text
  random_short_id = draw.hex (draw.random_bytes 8)

  unfoldable pub random_path : ℕ → Text
  random_path n = b'/' ∷ draw.base64url (draw.random_bytes n)

  unfoldable pub credential_generators : SupportedProtocol → Creds
  unfolding random_password generate_x25519_keys random_short_id random_path
  credential_generators vless_reality = (text "uuid", draw.random_uuid) ∷ generate_x25519_keys
  credential_generators vless_xhttp_reality =
      (text "uuid", draw.random_uuid)
      ∷ (generate_x25519_keys
          ++ ((text "shortId", random_short_id) ∷ (text "path", random_path 12) ∷ []))
  credential_generators vless_ws_tls = (text "uuid", draw.random_uuid) ∷ []
  credential_generators vless_xhttp_tls =
      (text "uuid", draw.random_uuid)
      ∷ (text "path", random_path 18)
      ∷ (text "xhttpMode", text "packet-up")
      ∷ []
  credential_generators vless_xhttp_h3_tls =
      (text "uuid", draw.random_uuid)
      ∷ (text "path", random_path 18)
      ∷ (text "xhttpMode", text "packet-up")
      ∷ (text "xhttpAlpn", text "h3")
      ∷ []
  credential_generators vless_tcp_tls = (text "uuid", draw.random_uuid) ∷ []
  credential_generators hysteria2_preset = (text "password", random_password 32) ∷ []
  credential_generators tuic_v5 =
      (text "uuid", draw.random_uuid) ∷ (text "password", random_password 32) ∷ []
  credential_generators anytls_preset = (text "password", random_password 32) ∷ []
  credential_generators vmess_tcp = (text "uuid", draw.random_uuid) ∷ []
