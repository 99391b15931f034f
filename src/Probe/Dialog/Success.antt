-- ===== src/Probe/Dialog/Success.antt =====
-- A server that keeps to the protocol passes the probe.
use nextpanel.Prelude.{
  ◌+◌, ℕ, ◌≤◌, ◌*◌, ap, subst, take, drop, [], length-append, join, decimal, ◌≡◌, refl, arith, true,
  false, List, ◌∷◌, ◌++◌, some, leb, ◌==◌, ◌/◌, ◌%◌, length, ==_refl, Text,
}
use nextpanel.Prelude.Exec.{ok}
use nextpanel.Probe.Dialog.{
  Network, Wire, read_bytes, read_address, groups, relay_host, datagram, probe_socks5_udp,
  is_dns_response,
}
use nextpanel.Probe.Dialog.Frames.{Source, header, IsSource, extract_udp_payload-header}

is_dns_response-answer :
    (high low flags : ℕ) (rest : List ℕ)
    → (flags / 128 % 2 == 0) ≡ false
    → 9 ≤ length rest
    → is_dns_response (high, low) (high ∷ low ∷ flags ∷ rest) ≡ true
unfolding is_dns_response
is_dns_response-answer high low flags rest set long = ground (arith, ==_refl high, ==_refl low)

-- The address at which a server says that its relay is.
pub data Relay : Type 0 where
  ipv4 : (a b c d : ℕ) → Relay
  domain : List ℕ → Relay
  ipv6 : List ℕ → Relay

abbrev pub IsRelay : Relay → Type 0
IsRelay (ipv4 a b c d) = Unit
IsRelay (domain bytes) = Unit
IsRelay (ipv6 bytes) = length bytes ≡ 16

-- its type, and its bytes on the stream
abbrev pub relay_type : Relay → ℕ
relay_type (ipv4 a b c d) = 1
relay_type (domain bytes) = 3
relay_type (ipv6 bytes) = 4

abbrev pub relay_bytes : Relay → List ℕ
relay_bytes (ipv4 a b c d) = a ∷ b ∷ c ∷ d ∷ []
relay_bytes (domain bytes) = length bytes ∷ bytes
relay_bytes (ipv6 bytes) = bytes

-- as a text: the decimals, the name, or the groups of an IPv6 address
abbrev pub relay_text : Network → Relay → Text
relay_text network (ipv4 a b c d) =
    decimal a ++ b'.' ∷ (decimal b ++ b'.' ∷ (decimal c ++ b'.' ∷ decimal d))
relay_text network (domain bytes) = network.utf8_text bytes
relay_text network (ipv6 bytes) = join b':' (groups bytes)

-- What a server sends that accepts the two requests without a password, and names its relay.
abbrev pub accepting : ℕ → Relay → ℕ → ℕ → List ℕ → List ℕ
accepting reserved relay high low rest =
    5 ∷ 0 ∷ 5 ∷ 0 ∷ reserved ∷ relay_type relay ∷ (relay_bytes relay ++ high ∷ low ∷ rest)

take-length : (xs ys : List ℕ) → take (length xs) (xs ++ ys) ≡ xs
take-length [] ys = refl
take-length (x ∷ xs) ys = ap (λ t. x ∷ t) (take-length xs ys)

drop-length : (xs ys : List ℕ) → drop (length xs) (xs ++ ys) ≡ ys
drop-length [] ys = refl
drop-length (x ∷ xs) ys = drop-length xs ys

read_bytes-append :
    (n : ℕ) (xs ys : List ℕ) (out : List (List ℕ))
    → length xs ≡ n
    → read_bytes n (record { incoming = xs ++ ys; outgoing = out })
      ≡ (ok xs, record { incoming = ys; outgoing = out })
unfolding read_bytes
read_bytes-append n xs ys out size =
    let total = length-append xs ys in
    let there : leb n (length (xs ++ ys)) ≡ true = ground (arith, total, size) in
    let taken : take n (xs ++ ys) ≡ xs =
      subst (λ k. take k (xs ++ ys) ≡ xs) size (take-length xs ys) in
    let left : drop n (xs ++ ys) ≡ ys =
      subst (λ k. drop k (xs ++ ys) ≡ ys) size (drop-length xs ys) in
    rw (there, taken, left) refl

read_address-relay :
    (network : Network) (relay : Relay) (tail : List ℕ) (out : List (List ℕ))
    → IsRelay relay
    → read_address network
        (some (relay_type relay))
        (record { incoming = relay_bytes relay ++ tail; outgoing = out })
      ≡ (ok (relay_text network relay), record { incoming = tail; outgoing = out })
unfolding read_address join
read_address-relay network (ipv4 a b c d) tail out h =
    rw (read_bytes-append 4 (a ∷ b ∷ c ∷ d ∷ []) tail out refl) refl
read_address-relay network (domain bytes) tail out h =
    rw
      (
        read_bytes-append 1 (length bytes ∷ []) (bytes ++ tail) out refl,
        read_bytes-append (length bytes) bytes tail out refl,
      )
      refl
read_address-relay network (ipv6 bytes) tail out h = rw (read_bytes-append 16 bytes tail out h) refl

-- The probe returns the time that it took if the server can be connected to, accepts both requests
-- and names the address of its relay, by IPv4, by IPv6 or by a name, with a port other than 0, and if the relay answers the
-- query there, or at the server's own address where the named one is unspecified: with the query's
-- id, the response bit and at least nine bytes more, behind the header of an IPv4 address, an IPv6
-- address or a name.
pub probe_socks5_udp-accepting :
    (network : Network) (wire : Wire) (reserved high low : ℕ) (relay : Relay) (rest : List ℕ)
    (id_high id_low flags : ℕ) (source : Source) (from_high from_low : ℕ) (payload : List ℕ)
    (elapsed : ℕ)
    → network.connects ≡ true
    → wire.incoming ≡ accepting reserved relay high low rest
    → network.answer
        (relay_host network (relay_text network relay))
        (high * 256 + low)
        (datagram (id_high, id_low))
      ≡ some (header source from_high from_low ++ id_high ∷ id_low ∷ flags ∷ payload)
    → 1 ≤ high * 256 + low
    → IsRelay relay
    → IsSource source
    → (flags / 128 % 2 == 0) ≡ false
    → 9 ≤ length payload
    → (probe_socks5_udp network (id_high, id_low) elapsed wire).0 ≡ ok elapsed
unfolding probe_socks5_udp
probe_socks5_udp-accepting network wire reserved high low relay rest ih il flags source fh fl
      payload elapsed up sends answers has_port is_relay is_source set long =
    let port : (high * 256 + low == 0) ≡ false = ground arith in
    let tail = relay_bytes relay ++ high ∷ low ∷ rest in
    let out1 = (5 ∷ 1 ∷ 0 ∷ []) ∷ wire.outgoing in
    let out = (5 ∷ 3 ∷ 0 ∷ 1 ∷ 0 ∷ 0 ∷ 0 ∷ 0 ∷ 0 ∷ 0 ∷ []) ∷ out1 in
    rw
      (
        up,
        sends,
        read_bytes-append 2 (5 ∷ 0 ∷ []) (5 ∷ 0 ∷ reserved ∷ relay_type relay ∷ tail) out1 refl,
        read_bytes-append 4 (5 ∷ 0 ∷ reserved ∷ relay_type relay ∷ []) tail out refl,
        read_address-relay network relay (high ∷ low ∷ rest) out is_relay,
        read_bytes-append 2 (high ∷ low ∷ []) rest out refl,
        port,
        answers,
        extract_udp_payload-header source fh fl ih (il ∷ flags ∷ payload) is_source
            (omega (arith, long)),
        is_dns_response-answer ih il flags payload set long,
      )
      refl
