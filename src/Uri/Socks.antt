-- ===== src/Uri/Socks.antt =====
-- apps/server/src/nodes/socks-uri.ts: a SOCKS5 address with its credentials, and a stored exit.
pub mod Bounds
pub mod Stored
use nextpanel.Prelude.{
  ℕ, zero, suc, ◌+◌, ◌-◌, ◌%◌, Bool, true, false, ◌&&◌, ◌||◌, not, List, [], ◌∷◌, ◌++◌, map, Option,
  none, some, leb, ltb, ◌==◌, if◌then◌else◌, Text, text, text_eq, is_empty, starts_with, trim,
  length, drop, take, any, all, keep, includes, index_of, last_index_of, slice_from, has_control,
  lower_unit, is_space, replace, decimal,
}
use mathlib.Core.List.{reverse}
use nextpanel.Prelude.Exec.{Result, ok, err}
use nextpanel.Prelude.Results.{◌>>=◌, ◌>>◌, reject}
use nextpanel.Uri.Numbers.{Number, number, port_of, is_digit, finite}
use nextpanel.Uri.Base64.{is_base64, strip_padding, padded, url_safe}
use nextpanel.Uri.HostPort.{bracketed, plain}
use nextpanel.Uri.Platform.{Json, Host, member, string, numeral, null, array, object}

abbrev pub max_uri_length : ℕ
max_uri_length = 4096

abbrev pub max_label_length : ℕ
max_label_length = 128

pub record Credentials : Type 0 where
  pub username : Text
  pub password : Text

-- `Socks5ExitConfig`; its version is always 5, and the name and the password come together
pub record SocksExit : Type 0 where
  pub host : Text
  pub port : ℕ
  pub credentials : Option Credentials

pub record ParsedSocks : Type 0 where
  pub config : SocksExit
  pub name : Text

-- the messages of SocksUriParseError
pub data SocksError : Type 0 where
  bad_text bad_scheme no_authority has_path bad_ipv6_form no_port bad_port bad_host bad_ipv6 :
      SocksError
  bad_encoding bad_base64 bad_pair bad_credentials control_credentials bad_label : SocksError

abbrev decode_or : Host → Text → Result SocksError Text
decode_or host value = elim (host.decode_component value) [
  | none ↦ err bad_encoding
  | some s ↦ ok s
]

-- the text before a character's place, and after it; `none` for an index of -1
abbrev pub before : Option ℕ → Text → Text
before none s = s
before (some i) s = take i s

abbrev pub after : Option ℕ → Text → Text
after none s = []
after (some i) s = slice_from (i + 1) s

-- `atIndex >= 0 ? s.slice(0, atIndex) : ''` and `atIndex >= 0 ? s.slice(atIndex + 1) : s`
abbrev pub left_of : Option ℕ → Text → Text
left_of none s = []
left_of (some i) s = take i s

abbrev pub right_of : Option ℕ → Text → Text
right_of none s = s
right_of (some i) s = slice_from (i + 1) s

-- /^(socks|socks5):\/\//i, cut off
unfoldable pub socks_scheme : Text → Option Text
unfolding starts_with
socks_scheme uri =
    if starts_with (map lower_unit uri) (text "socks://")
    then some (drop 8 uri)
    else if starts_with (map lower_unit uri) (text "socks5://")
    then some (drop 9 uri)
    else none

-- [/?#] and [\s/?#@[\]]
abbrev pub has_path_unit : Text → Bool
has_path_unit s = any (λ c. c == b'/' || c == b'?' || c == b'#') s

abbrev pub has_host_unit : Text → Bool
has_host_unit s =
    any
      (λ c.
        is_space c || c == b'/' || c == b'?' || c == b'#' || c == b'@' || c == b'[' || c == b']')
      s

abbrev split_or : SocksError → Option (Text × Text) → Result SocksError (Text × Text)
split_or e none = err e
split_or e (some parts) = ok parts

abbrev pub split_authority : Text → Result SocksError (Text × Text)
split_authority value =
    if starts_with value (text "[")
    then split_or bad_ipv6_form (bracketed value)
    else split_or no_port (plain value)

abbrev pub port_or : Option ℕ → Result SocksError ℕ
port_or none = err bad_port
port_or (some port) = ok port

abbrev pub ascii_host : Host → Text → Text
ascii_host host raw = if host.is_ip raw == 4 then raw else host.domain_to_ascii raw

unfoldable pub parse_host : Host → Text → ℕ → Result SocksError (Text × ℕ)
parse_host host raw port =
    if includes raw b':'
    then (reject (not (host.is_ip raw == 6)) bad_ipv6 >> ok (raw, port))
    else (reject (is_empty (ascii_host host raw) || ltb 253 (length (ascii_host host raw))) bad_host
        >> ok (ascii_host host raw, port))

unfoldable pub parse_socks_host_port : Host → Text → Result SocksError (Text × ℕ)
unfolding is_space starts_with parse_host bracketed plain
parse_socks_host_port host value = do
  parts ← split_authority value
  port ← port_or (port_of (number parts.1))
  reject (is_empty parts.0 || ltb 253 (length parts.0) || has_host_unit parts.0) bad_host
  parse_host host parts.0 port

unfoldable pub decode_base64_credentials : Host → Text → Result SocksError Text
unfolding strip_padding replace
decode_base64_credentials host value =
    let normalized = strip_padding (url_safe value) in
    let bytes = host.base64_bytes (padded normalized) in
    do
      reject (not (is_base64 value)) bad_base64
      reject (is_empty bytes || not (text_eq (strip_padding (host.base64_text bytes)) normalized))
          bad_base64
      elim (host.utf8_fatal bytes) [ none ↦ err bad_base64 | some s ↦ ok s ]

abbrev colon_pair : Text → Option ℕ → Result SocksError (Text × Text)
colon_pair s none = err bad_pair
colon_pair s (some i) = if ltb i 1 then err bad_pair else ok (take i s, slice_from (i + 1) s)

-- the two halves of the user information, decoded
abbrev pub raw_credentials : Host → Text → Option ℕ → Result SocksError (Text × Text)
raw_credentials host user_info (some i) = do
  username ← decode_or host (take i user_info)
  password ← decode_or host (slice_from (i + 1) user_info)
  ok (username, password)
raw_credentials host user_info none = do
  decoded ← decode_or host user_info
  pair ← decode_base64_credentials host decoded
  colon_pair pair (index_of pair b':')

unfoldable pub check_credentials : Text × Text → Result SocksError Credentials
check_credentials (username, password) = do
  reject (is_empty username || (ltb 256 (length username) || ltb 1024 (length password)))
      bad_credentials
  reject (has_control username || has_control password) control_credentials
  ok (record { username = username; password = password })

unfoldable pub parse_credentials : Host → Text → Result SocksError Credentials
unfolding index_of decode_base64_credentials check_credentials
parse_credentials host user_info = do
  pair ← raw_credentials host user_info (index_of user_info b':')
  check_credentials pair

abbrev pub optional_credentials : Host → Text → Result SocksError (Option Credentials)
optional_credentials host user_info =
    if is_empty user_info
    then ok none
    else (do credentials ← parse_credentials host user_info; ok (some credentials))

abbrev pub parse_label : Host → Text → Result SocksError Text
parse_label host fragment = if is_empty fragment then ok [] else decode_or host fragment

abbrev format_host : Text → Text
format_host host = if includes host b':' then text "[" ++ host ++ text "]" else host

abbrev pub label_or_host : Text → Text → ℕ → Text
label_or_host [] host port = text "SOCKS5 " ++ format_host host ++ b':' ∷ decimal port
label_or_host (c ∷ label) host port = c ∷ label

abbrev pub scheme_or : Option Text → Result SocksError Text
scheme_or none = err bad_scheme
scheme_or (some rest) = ok rest

-- the body of parseSocksUri after the scheme
unfoldable pub parse_authority : Host → Text → Text → Result SocksError ParsedSocks
unfolding parse_socks_host_port parse_credentials
parse_authority host authority fragment =
    let at = last_index_of authority b'@' in
    do
      reject (is_empty authority) no_authority
      reject (has_path_unit (right_of at authority)) has_path
      place ← parse_socks_host_port host (right_of at authority)
      credentials ← optional_credentials host (left_of at authority)
      label ← parse_label host fragment
      reject (ltb max_label_length (length label) || has_control label) bad_label
      ok (record {
        config = record { host = place.0; port = place.1; credentials = credentials };
        name = label_or_host label place.0 place.1;
      })

unfoldable pub parse_socks_uri : Host → Text → Result SocksError ParsedSocks
unfolding trim socks_scheme index_of parse_authority
parse_socks_uri host value =
    let uri = trim value in
    do
      reject (is_empty uri || (ltb max_uri_length (length uri) || has_control uri)) bad_text
      rest ← scheme_or (socks_scheme uri)
      parse_authority host (before (index_of rest b'#') rest) (after (index_of rest b'#') rest)
