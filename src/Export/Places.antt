-- ===== src/Export/Places.antt =====
-- `formatUriHost` of apps/server/src/subscriptions/uri-builder.ts: a host with its port, as the importer
-- reads it.
use nextpanel.Prelude.{
  ℕ, ◌≡◌, ◌≢◌, ◌≤◌, refl, ap, ◌∙◌, Bool, true, false, ◌||◌, some, [], ◌∷◌, ◌++◌, Text, ◌==◌, arith,
  all, includes, is_space, is_empty, decimal, starts_with, if◌then◌else◌, Bool-cases, inl, inr,
}
use mathlib.Core.List.{append_assoc}
use nextpanel.Uri.HostPort.{parse_host_port}
use nextpanel.Uri.HostPort.Laws.{parse_host_port-plain, parse_host_port-bracketed}
use nextpanel.Export.{format_uri_host, authority}
use nextpanel.Export.Tokens.{is_clear, is_place, includes_none, IsToken-decimal}

-- a name, an IPv4 address, or an IPv6 address without brackets
abbrev pub IsHost : Text → Type 0
IsHost host = (is_empty host ≡ false) × (all is_place host ≡ true)

abbrev pub is_authority : ℕ → Bool
is_authority c = is_place c || c == b'[' || c == b']'

module _ (good : ℕ → Bool) where
  pub all-append : (s t : Text) → all good s ≡ true → all good t ≡ true → all good (s ++ t) ≡ true
  all-append [] t h k = k
  all-append (c ∷ s) t h k = ground (arith, all-append s t)

pub all_weak :
    (good more : ℕ → Bool)
    → ((c : ℕ) → good c ≡ true → more c ≡ true)
    → (s : Text) → all good s ≡ true
    → all more s ≡ true
all_weak good more f [] h = refl
all_weak good more f (c ∷ s) h = ground (arith, f c, all_weak good more f s)

place_is_authority : (c : ℕ) → is_place c ≡ true → is_authority c ≡ true
place_is_authority c h = ground arith

token_is_authority : (c : ℕ) → is_clear c ≡ true → is_authority c ≡ true
token_is_authority c h = ground arith

no_closing : (c : ℕ) → is_place c ≡ true → (c == b']') ≡ false
no_closing c h = ground arith

opening : (c : ℕ) (host : Text) → all is_place (c ∷ host) ≡ true → (b'[' == c) ≡ false
opening c host h = ground arith

not_opening : (c : ℕ) (host : Text) → all is_place (c ∷ host) ≡ true → c ≢ b'['
not_opening c host h = ground arith

format_uri_host-place :
    (c : ℕ) (host : Text)
    → all is_place (c ∷ host) ≡ true
    → format_uri_host (c ∷ host)
      ≡ (if includes (c ∷ host) b':' then b'[' ∷ ((c ∷ host) ++ b']' ∷ []) else c ∷ host)
unfolding starts_with
format_uri_host-place c host h = rw (opening c host h) refl

pub parse_host_port-authority :
    (host : Text) (port : ℕ)
    → IsHost host
    → 1 ≤ port
    → port ≤ 65535
    → parse_host_port (authority host port) ≡ some (host, port)
parse_host_port-authority [] port h low high = cc
parse_host_port-authority (c ∷ host) port (_, h) low high =
    ap (λ t. parse_host_port (t ++ b':' ∷ decimal port)) (format_uri_host-place c host h)
    ∙ elim (Bool-cases (includes (c ∷ host) b':')) [
      | inl six ↦ rw six (
          ap (λ t. parse_host_port (b'[' ∷ t))
            (append_assoc (c ∷ host) (b']' ∷ []) (b':' ∷ decimal port))
          ∙ parse_host_port-bracketed c host port
              (includes_none is_place b']' no_closing (c ∷ host) h) low high)
      | inr four ↦ rw four (parse_host_port-plain c host port (not_opening c host h) low high)
    ]

pub authority_units :
    (host : Text) (port : ℕ) → IsHost host → all is_authority (authority host port) ≡ true
unfolding is_space
authority_units [] port h = cc
authority_units (c ∷ host) port (_, h) =
    let digits =
      all_weak is_clear is_authority token_is_authority (decimal port) (IsToken-decimal port) in
    let name : all is_authority (c ∷ host) ≡ true =
      all_weak is_place is_authority place_is_authority (c ∷ host) h in
    all-append is_authority (format_uri_host (c ∷ host)) (b':' ∷ decimal port)
      (ap (all is_authority) (format_uri_host-place c host h)
        ∙ elim (Bool-cases (includes (c ∷ host) b':')) [
          | inl six ↦ rw six (all-append is_authority (c ∷ host) (b']' ∷ []) name refl)
          | inr four ↦ rw four name
        ])
      digits
