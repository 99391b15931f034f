-- ===== src/Probe/Dialog.antt =====
-- `probeSocks5Udp` of apps/server/src/nodes/socks5-udp-probe.ts, over the bytes that the server sends
-- on the stream before a read times out, and over its answer to the datagram.
pub mod Frames
pub mod Success
use nextpanel.Prelude.{
  ℕ, zero, suc, ◌+◌, ◌*◌, ◌/◌, ◌%◌, Bool, true, false, ◌&&◌, ◌||◌, not, List, [], ◌∷◌, ◌++◌, map,
  Option, none, some, leb, ltb, ◌==◌, if◌then◌else◌, Text, text, text_eq, is_empty, starts_with,
  length, take, drop, get_elem?, join, decimal,
}
use nextpanel.Prelude.Exec.{Result, ok, err, Exec, pure, throw, lift, modify, reject, ◌>>=◌, ◌>>◌}

pub data ProbeError : Type 0 where
  no_connection no_answer bad_greeting no_associate unknown_address : ProbeError
  bad_port no_datagram bad_header bad_type empty_datagram bad_dns : ProbeError

-- what is still to be read of the stream, and what was written to it, the last write first
pub record Wire : Type 0 where
  pub incoming : List ℕ
  pub outgoing : List (List ℕ)

abbrev pub Step : Type 0 → Type 0
Step A = Exec Wire ProbeError A

-- The server and the runtime: whether it can be connected to, the address of its end, its answer to
-- a datagram, and the UTF-8 decoder.
pub record Network : Type 0 where
  pub connects : Bool
  pub remote_address : Option Text
  pub answer : Text → ℕ → List ℕ → Option (List ℕ)
  pub utf8_text : List ℕ → Text

-- `reader.read(size)`
unfoldable pub read_bytes : ℕ → Step (List ℕ)
read_bytes size wire =
    if leb size (length wire.incoming)
    then (ok (take size wire.incoming), record wire { incoming = drop size wire.incoming })
    else (err no_answer, wire)

abbrev write : List ℕ → Step Unit
write bytes = modify (λ wire. record wire { outgoing = bytes ∷ wire.outgoing })

-- `buffer[i] === c`, which is false past the end
abbrev pub has_byte : ℕ → Option ℕ → Bool
has_byte c none = false
has_byte c (some d) = d == c

abbrev pub byte_or_zero : Option ℕ → ℕ
byte_or_zero none = 0
byte_or_zero (some d) = d

-- `readUInt16BE`
abbrev pub uint16 : List ℕ → ℕ
uint16 (high ∷ low ∷ _) = high * 256 + low
uint16 _ = 0

abbrev hex_digit : ℕ → ℕ
hex_digit d = if leb d 9 then 48 + d else 87 + d

hex_from : ℕ → ℕ → Text → Text
hex_from zero n rest = rest
hex_from (suc fuel) n rest = elim (ltb n 16) [
  | true ↦ hex_digit n ∷ rest
  | false ↦ hex_from fuel (n / 16) (hex_digit (n % 16) ∷ rest)
]

-- `n.toString(16)` for two bytes, which have four digits at most
unfoldable pub hex : ℕ → Text
unfolding hex_from
hex n = hex_from 4 n []

-- the groups of an IPv6 address
abbrev pub groups : List ℕ → List Text
groups [] = []
groups (high ∷ []) = []
groups (high ∷ low ∷ bytes) = hex (high * 256 + low) ∷ groups bytes

unfoldable pub read_address : Network → Option ℕ → Step Text
unfolding read_bytes join decimal hex
read_address network address_type =
    if has_byte 1 address_type
    then (do bytes ← read_bytes 4; pure (join b'.' (map decimal bytes)))
    else if has_byte 3 address_type
    then (do
      size ← read_bytes 1
      bytes ← read_bytes (byte_or_zero (get_elem? size 0))
      pure (network.utf8_text bytes))
    else if has_byte 4 address_type
    then (do bytes ← read_bytes 16; pure (join b':' (groups bytes)))
    else throw unknown_address

unfoldable pub is_unspecified_address : Text → Bool
unfolding text_eq
is_unspecified_address address =
    text_eq address (text "0.0.0.0")
    || text_eq address (text "::")
    || text_eq address (text "0:0:0:0:0:0:0:0")

abbrev unmapped : Text → Text
unmapped address =
    if is_empty address
    then text "127.0.0.1"
    else if starts_with address (text "::ffff:")
    then drop 7 address
    else address

unfoldable pub normalize_remote_address : Option Text → Text
unfolding starts_with
normalize_remote_address none = text "127.0.0.1"
normalize_remote_address (some address) = unmapped address

-- the place of the payload behind the header of a datagram
abbrev payload_offset : List ℕ → Option ℕ
payload_offset packet =
    if has_byte 1 (get_elem? packet 3)
    then some 10
    else if has_byte 4 (get_elem? packet 3)
    then some 22
    else if has_byte 3 (get_elem? packet 3)
    then some (4 + 1 + byte_or_zero (get_elem? packet 4) + 2)
    else none

abbrev payload_at : List ℕ → Option ℕ → Result ProbeError (List ℕ)
payload_at packet none = err bad_type
payload_at packet (some offset) =
    if leb (length packet) offset then err empty_datagram else ok (drop offset packet)

unfoldable pub extract_udp_payload : List ℕ → Result ProbeError (List ℕ)
extract_udp_payload packet =
    if ltb (length packet) 10
      || not (has_byte 0 (get_elem? packet 0))
      || not (has_byte 0 (get_elem? packet 1))
      || not (has_byte 0 (get_elem? packet 2))
    then err bad_header
    else payload_at packet (payload_offset packet)

-- a query for the address of example.com
abbrev pub build_dns_query : ℕ × ℕ → List ℕ
build_dns_query (high, low) =
    high ∷ low ∷ 1 ∷ 0 ∷ 0 ∷ 1 ∷ 0 ∷ 0 ∷ 0 ∷ 0 ∷ 0 ∷ 0 ∷ 7 ∷ 0x65 ∷ 0x78 ∷ 0x61 ∷ 0x6d ∷ 0x70 ∷ 0x6c
    ∷ 0x65 ∷ 3 ∷ 0x63 ∷ 0x6f ∷ 0x6d ∷ 0 ∷ 0 ∷ 1 ∷ 0 ∷ 1 ∷ []

-- to 1.1.1.1, port 53
abbrev pub datagram : ℕ × ℕ → List ℕ
datagram id = 0 ∷ 0 ∷ 0 ∷ 1 ∷ 1 ∷ 1 ∷ 1 ∷ 1 ∷ 0 ∷ 53 ∷ build_dns_query id

-- the answer to that query: its id, and the response bit
unfoldable pub is_dns_response : ℕ × ℕ → List ℕ → Bool
is_dns_response (high, low) payload =
    leb 12 (length payload)
    && has_byte high (get_elem? payload 0)
    && has_byte low (get_elem? payload 1)
    && not (byte_or_zero (get_elem? payload 2) / 128 % 2 == 0)

abbrev pub relay_host : Network → Text → Text
relay_host network address =
    if is_unspecified_address address
    then normalize_remote_address network.remote_address
    else address

abbrev received_or : Option (List ℕ) → Result ProbeError (List ℕ)
received_or none = err no_datagram
received_or (some packet) = ok packet

-- `sendAndReceive`; the runtime refuses to send to port 0
abbrev send_and_receive : Network → List ℕ → Text → ℕ → Result ProbeError (List ℕ)
send_and_receive network packet host port =
    if port == 0 then err bad_port else received_or (network.answer host port packet)

-- The probe with its transaction id; `elapsed` is what the two readings of the clock differ by.
unfoldable pub probe_socks5_udp : Network → ℕ × ℕ → ℕ → Step ℕ
unfolding read_bytes read_address is_unspecified_address normalize_remote_address
    extract_udp_payload is_dns_response
probe_socks5_udp network id elapsed = do
  reject (not network.connects) no_connection
  write (5 ∷ 1 ∷ 0 ∷ [])
  greeting ← read_bytes 2
  reject (not (has_byte 5 (get_elem? greeting 0)) || not (has_byte 0 (get_elem? greeting 1)))
      bad_greeting
  write (5 ∷ 3 ∷ 0 ∷ 1 ∷ 0 ∷ 0 ∷ 0 ∷ 0 ∷ 0 ∷ 0 ∷ [])
  header ← read_bytes 4
  reject (not (has_byte 5 (get_elem? header 0)) || not (has_byte 0 (get_elem? header 1)))
      no_associate
  address ← read_address network (get_elem? header 3)
  port ← read_bytes 2
  packet ← lift (send_and_receive network (datagram id) (relay_host network address) (uint16 port))
  payload ← lift (extract_udp_payload packet)
  reject (not (is_dns_response id payload)) bad_dns
  pure elapsed
