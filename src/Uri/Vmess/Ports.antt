-- ===== src/Uri/Vmess/Ports.antt =====
-- The port of a VMess document, which `parseVmess` tests for NaN alone.
use nextpanel.Prelude.{ℕ, ◌≡◌, refl, false, some, Text, text, text_eq, [], ◌∷◌}
use mathlib.Core.Option
use nextpanel.Uri.Numbers.{Number, is_nan}
use nextpanel.Uri.Platform.{Json, Host, string, numeral, object, field, end, get_field}
use nextpanel.Uri.External.{parse_transport}
use nextpanel.Uri.Vmess.{vmess_node, vmess_options, vmess_texts}

-- {"add": address, "port": port}
abbrev pub address_document : Text → Number → Json
address_document address port =
    object (field (text "add") (string address) (field (text "port") (numeral port) end))

-- A VMess document of an address that is not empty and of a port that is any number but NaN gives a
-- node with that very port, be it 0, negative, fractional or above 65535, where the conversions of a
-- string to a text and of a number to a number change nothing.
pub vmess_port_unchecked :
    (host : Host) (uri : Text) (c : ℕ) (address : Text) (port : Number)
    → ((s : Text) → host.string_of (string s) ≡ some s)
    → ((n : Number) → host.number_of (numeral n) ≡ some n)
    → is_nan port ≡ false
    → Option.map (λ n. n.port) (vmess_node host uri (address_document (c ∷ address) port))
      ≡ some port
unfolding vmess_node vmess_options vmess_texts get_field text_eq parse_transport
vmess_port_unchecked host uri c address port texts numbers real =
    rw (numbers port, real, texts (text "tcp"), texts (c ∷ address), texts []) refl
