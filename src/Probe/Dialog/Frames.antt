-- ===== src/Probe/Dialog/Frames.antt =====
-- The datagrams of a SOCKS5 relay.
use mathlib.Core.List.{append_assoc}
use nextpanel.Prelude.{
  ℕ, suc, ◌+◌, ◌≤◌, ◌≡◌, refl, ap, subst, ◌∙◌, arith, false, List, [], ◌∷◌, ◌++◌, leb, ltb, length,
  drop, length-append,
}
use nextpanel.Prelude.Exec.{ok}
use nextpanel.Prelude.Trim.{drop_past_two}
use nextpanel.Probe.Dialog.{extract_udp_payload}

-- Where a datagram comes from: an IPv4 address, a name, or the bytes of an IPv6 address.
pub data Source : Type 0 where
  ipv4 : (a b c d : ℕ) → Source
  name : List ℕ → Source
  ipv6 : List ℕ → Source

abbrev pub header : Source → ℕ → ℕ → List ℕ
header (ipv4 a b c d) high low = 0 ∷ 0 ∷ 0 ∷ 1 ∷ a ∷ b ∷ c ∷ d ∷ high ∷ low ∷ []
header (name bytes) high low = 0 ∷ 0 ∷ 0 ∷ 3 ∷ length bytes ∷ (bytes ++ high ∷ low ∷ [])
header (ipv6 bytes) high low = 0 ∷ 0 ∷ 0 ∷ 4 ∷ (bytes ++ high ∷ low ∷ [])

abbrev pub IsSource : Source → Type 0
IsSource (ipv4 a b c d) = Unit
IsSource (name bytes) = Unit
IsSource (ipv6 bytes) = length bytes ≡ 16

drop-header :
    (bytes : List ℕ) (high low : ℕ) (rest : List ℕ)
    → drop (length bytes + 2) ((bytes ++ high ∷ low ∷ []) ++ rest) ≡ rest
drop-header bytes high low rest =
    ap (drop (length bytes + 2)) (append_assoc bytes (high ∷ low ∷ []) rest)
    ∙ drop_past_two bytes high low rest

framed-length :
    (bytes : List ℕ) (high low : ℕ) (c : ℕ) (payload : List ℕ)
    → length ((bytes ++ high ∷ low ∷ []) ++ c ∷ payload) ≡ length bytes + 3 + length payload
framed-length bytes high low c payload = omega (
  arith,
  length-append (bytes ++ high ∷ low ∷ []) (c ∷ payload),
  length-append bytes (high ∷ low ∷ []),
)

-- The payload of a datagram is what follows its header, whatever the type of its address: a payload of
-- three bytes or more, behind an IPv4 address, an IPv6 address or a name of any length.
pub extract_udp_payload-header :
    (source : Source) (high low c : ℕ) (payload : List ℕ)
    → IsSource source
    → 2 ≤ length payload
    → extract_udp_payload (header source high low ++ c ∷ payload) ≡ ok (c ∷ payload)
unfolding extract_udp_payload
extract_udp_payload-header (ipv4 a b d e) high low c payload h long_enough = ground arith
extract_udp_payload-header (name bytes) high low c payload h long_enough =
    let tail = (bytes ++ high ∷ low ∷ []) ++ c ∷ payload in
    let size : length tail ≡ length bytes + 3 + length payload =
      framed-length bytes high low c payload in
    let long : ltb (suc (suc (suc (suc (suc (length tail)))))) 10 ≡ false = ground arith in
    let offset : 4 + 1 + length bytes + 2 ≡ suc (suc (suc (suc (suc (length bytes + 2))))) =
      omega arith in
    let inside : leb (suc (suc (suc (suc (suc (length tail)))))) (4 + 1 + length bytes + 2)
        ≡ false =
      ground arith in
    rw (long, inside, offset, drop-header bytes high low (c ∷ payload)) refl
extract_udp_payload-header (ipv6 bytes) high low c payload h long_enough =
    let tail = (bytes ++ high ∷ low ∷ []) ++ c ∷ payload in
    let size : length tail ≡ length bytes + 3 + length payload =
      framed-length bytes high low c payload in
    let long : ltb (suc (suc (suc (suc (length tail))))) 10 ≡ false = ground arith in
    let inside : leb (suc (suc (suc (suc (length tail))))) 22 ≡ false = ground arith in
    let eighteen : drop 18 tail ≡ c ∷ payload =
      let size_of : length bytes + 2 ≡ 18 = omega arith in
      subst (λ n. drop n tail ≡ c ∷ payload) size_of (drop-header bytes high low (c ∷ payload)) in
    rw (long, inside, eighteen) refl
