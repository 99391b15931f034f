-- ===== src/Uri/Xhttp.antt =====
-- apps/server/src/nodes/protocols/xhttp.ts: the options of the XHTTP transport.
use nextpanel.Prelude.{
  ℕ, ◌*◌, Bool, ◌||◌, not, Option, none, some, ltb, if◌then◌else◌, Text, text, text_eq, is_empty,
  trim, has_control,
}
use nextpanel.Uri.Platform.{Json, Fields, Host, object}

abbrev pub xhttp_extra_max_bytes : ℕ
xhttp_extra_max_bytes = 16 * 1024

-- `value || 'auto'`
abbrev pub or_auto : Option Text → Text
or_auto none = text "auto"
or_auto (some value) = if is_empty value then text "auto" else value

abbrev pub is_xhttp_mode : Text → Bool
is_xhttp_mode value =
    text_eq value (text "auto")
    || text_eq value (text "packet-up")
    || text_eq value (text "stream-up")
    || text_eq value (text "stream-one")

unfoldable pub parse_xhttp_mode : Option Text → Option Text
unfolding text_eq
parse_xhttp_mode value = if is_xhttp_mode (or_auto value) then some (or_auto value) else none

-- the outer `none` is the error, the inner one is `undefined`
unfoldable pub parse_xhttp_host : Option Text → Option (Option Text)
unfolding text_eq trim
parse_xhttp_host none = some none
parse_xhttp_host (some value) =
    if is_empty value
    then some none
    else if not (text_eq value (trim value)) || has_control value
    then none
    else some (some value)

abbrev object_or : Option Json → Option (Option Fields)
object_or (some (object fields)) = some (some fields)
object_or _ = none

unfoldable pub parse_xhttp_extra : Host → Option Text → Option (Option Fields)
parse_xhttp_extra host none = some none
parse_xhttp_extra host (some value) =
    if ltb xhttp_extra_max_bytes (host.byte_length value)
    then none
    else object_or (host.parse_json value)
