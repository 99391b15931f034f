-- ===== src/Uri/HostPort.antt =====
-- `parseHostPort` of apps/server/src/external-nodes/uri-parser.ts, and the split that it shares with
-- the function of that name in nodes/socks-uri.ts. `none` stands for the -1 of an index.
pub mod Laws
use nextpanel.Prelude.{
  ℕ, ◌+◌, Bool, true, false, ◌&&◌, ◌||◌, not, List, [], ◌∷◌, Option, none, some, leb, ◌==◌,
  if◌then◌else◌, Text, is_empty, starts_with, text, index_of, last_index_of, slice, slice_from,
  take, get_elem?,
}
use nextpanel.Prelude.Options.{◌>>=◌, ◌>>◌, guard}
use nextpanel.Uri.Numbers.{number, port_of}

-- `value[i] === c`
abbrev pub is_at : ℕ → Option ℕ → Bool
is_at c none = false
is_at c (some d) = d == c

-- `[host]:port`; a bracket that closes at once, or no colon behind it, is refused
unfoldable pub bracketed : Text → Option (Text × Text)
bracketed value = do
  i ← index_of value b']'
  guard (not (leb i 1))
  guard (is_at b':' (get_elem? value (i + 1)))
  some (slice 1 i value, slice_from (i + 2) value)

-- `host:port`, at the last colon
unfoldable pub plain : Text → Option (Text × Text)
plain value = do
  i ← last_index_of value b':'
  guard (not (i == 0))
  some (take i value, slice_from (i + 1) value)

unfoldable pub split_host_port : Text → Option (Text × Text)
unfolding bracketed plain starts_with
split_host_port value = if starts_with value (text "[") then bracketed value else plain value

unfoldable pub parse_host_port : Text → Option (Text × ℕ)
parse_host_port value = do
  parts ← split_host_port value
  guard (not (is_empty parts.0))
  port ← port_of (number parts.1)
  some (parts.0, port)
