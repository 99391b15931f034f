-- ===== src/Uri/Socks/Bounds.antt =====
-- The bounds on what a SOCKS5 address yields.
use nextpanel.Prelude.{
  ℕ, ◌≤◌, ◌≡◌, subst, refl, ap, sym, ◌∙◌, arith, false, ◌||◌, not, [], ◌∷◌, Option, none, some, ltb,
  ◌==◌, Text, is_empty, length, has_control, includes, index_of, last_index_of, trim, Bool-cases,
  inl, inr,
}
use mathlib.Core.Option.{some-injective}
use nextpanel.Prelude.Exec.{ok}
use nextpanel.Prelude.Results.{◌>>=◌, ◌>>◌, reject, ok_of_bind, ok_of_reject, ok-injective}
use nextpanel.Uri.Platform.{Host}
use nextpanel.Uri.Numbers.{number, port_of}
use nextpanel.Uri.HostPort.Laws.{port_of_range}
use nextpanel.Uri.Socks.{
  label_or_host, bad_ipv6, bad_host, no_authority, bad_text, bad_label, has_path, scheme_or,
  parse_label, ascii_host, split_authority, port_or, has_path_unit, has_host_unit, max_label_length,
  max_uri_length, left_of, right_of, before, after, bad_credentials, control_credentials,
  raw_credentials, optional_credentials, Credentials, ParsedSocks, check_credentials,
  parse_credentials, parse_host, parse_socks_host_port, parse_authority, parse_socks_uri,
  socks_scheme,
}

-- Credentials that a node can use.
pub record AreBounded (c : Credentials) : Type 0 where
  pub name_given : is_empty c.username ≡ false
  pub name_short : length c.username ≤ 256
  pub password_short : length c.password ≤ 1024
  pub name_clean : has_control c.username ≡ false
  pub password_clean : has_control c.password ≡ false

check_credentials-AreBounded :
    (pair : Text × Text) (c : Credentials) → check_credentials pair ≡ ok c → AreBounded c
unfolding check_credentials
check_credentials-AreBounded (u, p) c h =
    let long = is_empty u || (ltb 256 (length u) || ltb 1024 (length p)) in
    let dirty = has_control u || has_control p in
    let made : Credentials = record { username = u; password = p } in
    let (fits, rest) =
      ok_of_reject long bad_credentials (reject dirty control_credentials >> ok made) c h in
    let (clean, same) = ok_of_reject dirty control_credentials (ok made) c rest in
    subst AreBounded (ok-injective same) (record {
      name_given = ground arith;
      name_short = ground arith;
      password_short = ground arith;
      name_clean = ground arith;
      password_clean = ground arith;
    })

parse_credentials-AreBounded :
    (host : Host) (s : Text) (c : Credentials) → parse_credentials host s ≡ ok c → AreBounded c
unfolding parse_credentials
parse_credentials-AreBounded host s c h =
    let (pair, _, checked) =
      ok_of_bind (raw_credentials host s (index_of s b':')) check_credentials c h in
    check_credentials-AreBounded pair c checked

-- What `parseSocksUri` promises of its result.
pub record IsUsable (p : ParsedSocks) : Type 0 where
  pub host_given : is_empty p.config.host ≡ false
  pub port_low : 1 ≤ p.config.port
  pub port_high : p.config.port ≤ 65535
  pub credentials_bounded : (c : Credentials) → p.config.credentials ≡ some c → AreBounded c
  pub name_given : is_empty p.name ≡ false

parse_host-host :
    (host : Host) (raw : Text) (port : ℕ) (place : Text × ℕ)
    → is_empty raw ≡ false
    → parse_host host raw port ≡ ok place
    → (is_empty place.0 ≡ false) × (place.1 ≡ port)
unfolding parse_host
parse_host-host host raw port place given h = elim (Bool-cases (includes raw b':')) [
  | inl six ↦
      let h6 : reject (not (host.is_ip raw == 6)) bad_ipv6 >> ok (raw, port) ≡ ok place =
        rw six at h in
      let (_, same) = ok_of_reject (not (host.is_ip raw == 6)) bad_ipv6 (ok (raw, port)) place h6 in
      subst (λ x. (is_empty x.0 ≡ false) × (x.1 ≡ port)) (ok-injective same) (given, refl)
  | inr other ↦
      let name = ascii_host host raw in
      let bad = is_empty name || ltb 253 (length name) in
      let h4 : reject bad bad_host >> ok (name, port) ≡ ok place = rw other at h in
      let (fits, same) = ok_of_reject bad bad_host (ok (name, port)) place h4 in
      subst (λ x. (is_empty x.0 ≡ false) × (x.1 ≡ port)) (ok-injective same) (ground arith, refl)
]

label_or_host-given :
    (label host : Text) (port : ℕ) → is_empty (label_or_host label host port) ≡ false
label_or_host-given [] host port = refl
label_or_host-given (c ∷ label) host port = refl

port_or_range : (n : Option ℕ) (p : ℕ) → port_or n ≡ ok p → n ≡ some p
port_or_range none p h = cc
port_or_range (some n) p h = ap some (ok-injective h)

parse_socks_host_port-range :
    (host : Host) (value : Text) (place : Text × ℕ)
    → parse_socks_host_port host value ≡ ok place
    → (is_empty place.0 ≡ false) × (1 ≤ place.1) × (place.1 ≤ 65535)
unfolding parse_socks_host_port
parse_socks_host_port-range host value place h =
    let rest_of = λ (parts : Text × Text) (port : ℕ). parse_host host parts.0 port in
    let (parts, _, h1) =
      ok_of_bind (split_authority value)
        (λ parts. port_or (port_of (number parts.1)) >>= λ port.
          reject (is_empty parts.0 || ltb 253 (length parts.0) || has_host_unit parts.0) bad_host
          >> parse_host host parts.0 port)
        place h in
    let bad = is_empty parts.0 || ltb 253 (length parts.0) || has_host_unit parts.0 in
    let (port, is_port, h2) =
      ok_of_bind (port_or (port_of (number parts.1)))
        (λ port. reject bad bad_host >> parse_host host parts.0 port) place h1 in
    let (good, h3) = ok_of_reject bad bad_host (parse_host host parts.0 port) place h2 in
    let (given, same) = parse_host-host host parts.0 port place (ground arith) h3 in
    let (low, high) =
      port_of_range (number parts.1) port (port_or_range (port_of (number parts.1)) port is_port) in
    (given, rw same low, rw same high)

optional_credentials-AreBounded :
    (host : Host) (s : Text) (o : Option Credentials) (c : Credentials)
    → optional_credentials host s ≡ ok o
    → o ≡ some c
    → AreBounded c
optional_credentials-AreBounded host [] o c h e = let absent : o ≡ none = sym (ok-injective h) in cc
optional_credentials-AreBounded host (d ∷ s) o c h e =
    let (found, parsed, h1) = ok_of_bind (parse_credentials host (d ∷ s)) (λ x. ok (some x)) o h in
    parse_credentials-AreBounded host (d ∷ s) c
      (parsed ∙ ap ok (some-injective found c (ok-injective h1 ∙ e)))

parse_authority-IsUsable :
    (host : Host) (authority fragment : Text) (p : ParsedSocks)
    → parse_authority host authority fragment ≡ ok p
    → IsUsable p
unfolding parse_authority
parse_authority-IsUsable host authority fragment p h =
    let at_place = last_index_of authority b'@' in
    let host_port = right_of at_place authority in
    let user_info = left_of at_place authority in
    let made : Text × ℕ → Option Credentials → Text → ParsedSocks = λ place cs label. record {
      config = record { host = place.0; port = place.1; credentials = cs };
      name = label_or_host label place.0 place.1;
    } in
    let named = λ (place : Text × ℕ) (cs : Option Credentials) (label : Text).
      reject (ltb max_label_length (length label) || has_control label) bad_label
      >> ok (made place cs label) in
    let labelled = λ (place : Text × ℕ) (cs : Option Credentials).
      parse_label host fragment >>= named place cs in
    let placed = λ (place : Text × ℕ). optional_credentials host user_info >>= labelled place in
    let (_, h1) =
      ok_of_reject (is_empty authority) no_authority
        (reject (has_path_unit host_port) has_path
          >> (parse_socks_host_port host host_port >>= placed))
        p h in
    let (_, h2) =
      ok_of_reject (has_path_unit host_port) has_path
        (parse_socks_host_port host host_port >>= placed) p h1 in
    let (place, is_place, h3) = ok_of_bind (parse_socks_host_port host host_port) placed p h2 in
    let (given, low, high) = parse_socks_host_port-range host host_port place is_place in
    let (cs, is_cs, h4) = ok_of_bind (optional_credentials host user_info) (labelled place) p h3 in
    let (label, _, h5) = ok_of_bind (parse_label host fragment) (named place cs) p h4 in
    let (_, same) =
      ok_of_reject (ltb max_label_length (length label) || has_control label) bad_label
        (ok (made place cs label)) p h5 in
    subst IsUsable (ok-injective same) (record {
      host_given = given;
      port_low = low;
      port_high = high;
      credentials_bounded = λ c e. optional_credentials-AreBounded host user_info cs c is_cs e;
      name_given = label_or_host-given label place.0 place.1;
    })

-- A SOCKS5 address that is accepted has a host and a label that are not empty, a port from 1 to
-- 65535, and a user name and a password, if there are any, within their lengths and without control
-- characters, the user name not empty.
pub parse_socks_uri-IsUsable :
    (host : Host) (value : Text) (p : ParsedSocks) → parse_socks_uri host value ≡ ok p → IsUsable p
unfolding parse_socks_uri
parse_socks_uri-IsUsable host value p h =
    let uri = trim value in
    let bad = is_empty uri || (ltb max_uri_length (length uri) || has_control uri) in
    let parts = λ (rest : Text).
      parse_authority host (before (index_of rest b'#') rest) (after (index_of rest b'#') rest) in
    let (_, h1) = ok_of_reject bad bad_text (scheme_or (socks_scheme uri) >>= parts) p h in
    let (rest, _, h2) = ok_of_bind (scheme_or (socks_scheme uri)) parts p h1 in
    parse_authority-IsUsable host (before (index_of rest b'#') rest)
      (after (index_of rest b'#') rest) p h2
