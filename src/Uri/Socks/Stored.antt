-- ===== src/Uri/Socks/Stored.antt =====
-- `parseStoredSocksExit` of apps/server/src/nodes/socks-uri.ts: the exit that a node's row keeps.
use nextpanel.Prelude.{
  ℕ, ◌^◌, ◌*◌, ◌≤◌, ◌≡◌, refl, arith, Bool, true, false, Option, none, some, ◌==◌, Text, text,
  text_eq,
}
use nextpanel.Uri.Numbers.{finite, port_of}
use nextpanel.Uri.Platform.{
  Json, Fields, Host, get_field, member, null, numeral, string, object, field, end, as_text,
  as_port,
}
use nextpanel.Uri.Socks.{SocksExit, Credentials}

-- `version === 5`
abbrev is_five : Option Json → Bool
is_five (some (numeral (finite false m p))) = m == 5 * 10 ^ p
is_five _ = false

-- both or neither, `none` where only one is there
abbrev both : Option Text → Option Text → Option (Option Credentials)
both none none = some none
both (some username) (some password) =
    some (some (record { username = username; password = password }))
both _ _ = none

abbrev stored_exit : Bool → Option Text → Option ℕ → Option (Option Credentials) → Option SocksExit
stored_exit true (some host) (some port) (some credentials) =
    some (record { host = host; port = port; credentials = credentials })
stored_exit _ _ _ _ = none

abbrev exit_of : Json → Option SocksExit
exit_of value =
    stored_exit (is_five (member value (text "version"))) (as_text (member value (text "host")))
      (as_port port_of (member value (text "port")))
      (both (as_text (member value (text "username"))) (as_text (member value (text "password"))))

abbrev exit_or : Option Json → Option SocksExit
exit_or none = none
exit_or (some null) = none
exit_or (some value) = exit_of value

-- `none` stands for the one error, `Stored SOCKS5 exit configuration is invalid`
unfoldable pub parse_stored_socks_exit : Host → Text → Option SocksExit
unfolding get_field port_of
parse_stored_socks_exit host value = exit_or (host.parse_json value)

abbrev credential_fields : Option Credentials → Fields
credential_fields none = end
credential_fields (some credentials) =
    field (text "username") (string credentials.username)
      (field (text "password") (string credentials.password) end)

-- The object that a parsed address is stored as.
abbrev pub stored_json : SocksExit → Json
stored_json exit = object (
    field (text "version") (numeral (finite false 5 0)) (
      field (text "host") (string exit.host) (
        field (text "port") (numeral (finite false exit.port 0))
          (credential_fields exit.credentials))))

port_of_whole : (n : ℕ) → 1 ≤ n → n ≤ 65535 → port_of (finite false n 0) ≡ some n
unfolding port_of
port_of_whole n low high = ground arith

exit_of-stored :
    (host : Text) (port : ℕ) (credentials : Option Credentials)
    → 1 ≤ port
    → port ≤ 65535
    → exit_of (stored_json (record { host = host; port = port; credentials = credentials }))
      ≡ some (record { host = host; port = port; credentials = credentials })
unfolding get_field text_eq
exit_of-stored host port none low high = rw (port_of_whole port low high) refl
exit_of-stored host port (some c) low high = rw (port_of_whole port low high) refl

-- An exit with a port from 1 to 65535 that is stored as JSON is read back with its credentials, if
-- parsing undoes the printing of that object.
pub parse_stored_socks_exit-stored :
    (host : Host) (exit : SocksExit)
    → host.parse_json (host.print_json (stored_json exit)) ≡ some (stored_json exit)
    → 1 ≤ exit.port
    → exit.port ≤ 65535
    → parse_stored_socks_exit host (host.print_json (stored_json exit)) ≡ some exit
unfolding parse_stored_socks_exit
parse_stored_socks_exit-stored host exit undone low high =
    rw (undone) (exit_of-stored exit.host exit.port exit.credentials low high)
