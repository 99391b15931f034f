-- ===== src/Uri/HostPort/Laws.antt =====
-- A host and a port that are written and read again.
use nextpanel.Prelude.{
  ℕ, suc, ◌-◌, ◌≤◌, ◌≡◌, ◌≢◌, refl, false, [], ◌∷◌, ◌++◌, some, leb, ◌==◌, arith, Text, is_empty,
  includes, length, decimal, IsDigits, decimal-IsDigits, Option-cases, inl, inr,
}
use nextpanel.Prelude.Trim.{
  index_of-append, last_index_of-append, take-append, drop_past, drop_past_two, get_elem?_past,
}
use nextpanel.Uri.Numbers.{Number, finite, number, port_of}
use nextpanel.Uri.Numbers.Literals.{number-decimal}
use nextpanel.Uri.HostPort.{split_host_port, parse_host_port, plain, bracketed}

pub port_of_range : (n : Number) (p : ℕ) → port_of n ≡ some p → (1 ≤ p) × (p ≤ 65535)
unfolding port_of
port_of_range (finite false m q) p h = ground arith
port_of_range n p h = ground arith

-- Whatever the text, a host and a port that come out of it are a host that is not empty and a port
-- from 1 to 65535.
pub parse_host_port_bounds :
    (value host : Text) (port : ℕ)
    → parse_host_port value ≡ some (host, port)
    → (is_empty host ≡ false) × (1 ≤ port) × (port ≤ 65535)
unfolding parse_host_port
parse_host_port_bounds value host port h = elim (Option-cases (split_host_port value)) [
  | inl none_split ↦ ground (arith, none_split, h)
  | inr (parts, split) ↦ elim (Option-cases (port_of (number parts.1))) [
    | inl no_port ↦ ground (arith, split, no_port, h)
    | inr (p, known) ↦ ground (arith, split, known, h, port_of_range (number parts.1) p known)
  ]
]

port_of_finite : (n : ℕ) → 1 ≤ n → n ≤ 65535 → port_of (finite false n 0) ≡ some n
unfolding port_of
port_of_finite n low high = ground arith

parse_of_split :
    (value : Text) (c : ℕ) (host : Text) (port : ℕ)
    → split_host_port value ≡ some (c ∷ host, decimal port)
    → 1 ≤ port
    → port ≤ 65535
    → parse_host_port value ≡ some (c ∷ host, port)
unfolding parse_host_port
parse_of_split value c host port split low high =
    rw (split, number-decimal port, port_of_finite port low high) refl

no_colon : (s : Text) → IsDigits s → includes s b':' ≡ false
no_colon [] h = refl
no_colon (c ∷ s) h = ground (arith, no_colon s h.1)

plain-append :
    (c : ℕ) (host t : Text)
    → includes t b':' ≡ false
    → plain ((c ∷ host) ++ b':' ∷ t) ≡ some (c ∷ host, t)
unfolding plain
plain-append c host t clear =
    let longer : (suc (length host) == 0) ≡ false = ground arith in
    rw
      (
        last_index_of-append (c ∷ host) t b':' clear,
        longer,
        take-append host (b':' ∷ t),
        drop_past (c ∷ host) b':' t,
      )
      refl

bracketed-append :
    (c : ℕ) (host t : Text)
    → includes (c ∷ host) b']' ≡ false
    → bracketed ((b'[' ∷ c ∷ host) ++ b']' ∷ b':' ∷ t) ≡ some (c ∷ host, t)
unfolding bracketed
bracketed-append c host t closed =
    let s : Text = b'[' ∷ c ∷ host in
    let clear : includes s b']' ≡ false = closed in
    let longer : leb (suc (suc (length host))) 1 ≡ false = ground arith in
    let inner : suc (suc (length host)) - 1 ≡ suc (length host) = omega arith in
    rw
      (
        index_of-append s (b':' ∷ t) b']' clear,
        longer,
        get_elem?_past s b']' b':' t,
        inner,
        take-append host (b']' ∷ b':' ∷ t),
        drop_past_two s b']' b':' t,
      )
      refl

-- A name or an IPv4 address, written before a colon and a port, is read back with the port.
pub parse_host_port-plain :
    (c : ℕ) (host : Text) (port : ℕ)
    → c ≢ b'['
    → 1 ≤ port
    → port ≤ 65535
    → parse_host_port ((c ∷ host) ++ b':' ∷ decimal port) ≡ some (c ∷ host, port)
unfolding split_host_port
parse_host_port-plain c host port named low high =
    let s = c ∷ host in
    let split : split_host_port (s ++ b':' ∷ decimal port) ≡ some (s, decimal port) = ground (
      arith,
      plain-append c host (decimal port) (no_colon (decimal port) (decimal-IsDigits port)),
    ) in
    parse_of_split (s ++ b':' ∷ decimal port) c host port split low high

-- An IPv6 address in brackets too.
pub parse_host_port-bracketed :
    (c : ℕ) (host : Text) (port : ℕ)
    → includes (c ∷ host) b']' ≡ false
    → 1 ≤ port
    → port ≤ 65535
    → parse_host_port (b'[' ∷ (c ∷ host) ++ b']' ∷ b':' ∷ decimal port) ≡ some (c ∷ host, port)
unfolding split_host_port
parse_host_port-bracketed c host port closed low high =
    let s = b'[' ∷ c ∷ host in
    let split : split_host_port (s ++ b']' ∷ b':' ∷ decimal port) ≡ some (c ∷ host, decimal port) =
      bracketed-append c host (decimal port) closed in
    parse_of_split (s ++ b']' ∷ b':' ∷ decimal port) c host port split low high
