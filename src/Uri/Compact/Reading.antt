-- ===== src/Uri/Compact/Reading.antt =====
-- What is read back from a text: a compact proxy.
use nextpanel.Prelude.{
  ℕ, ◌≤◌, ◌≡◌, ◌≢◌, refl, sym, ap, subst, ==_iff, ==_refl, ◌∙◌, arith, Bool, false, ◌||◌, List, [],
  ◌∷◌, ◌++◌, some, ◌==◌, Text, text, is_empty, includes, trim, split, join, has_control, decimal,
  IsDigits, decimal-IsDigits, starts_with, Bool-cases, inl, inr, any, is_control,
}
use nextpanel.Uri.HostPort.{parse_host_port}
use nextpanel.Uri.HostPort.Laws.{parse_host_port-plain}
use nextpanel.Uri.External.{Protocol, no_tls, base_node}
use nextpanel.Uri.Links.{whole}
use nextpanel.Uri.Compact.{plain_fields, bare_node, parse_bare_proxy, join_host, starts_control}

split-cons : (c : ℕ) (s : Text) → (part : Text) × (parts : List Text) × (split c s ≡ part ∷ parts)
unfolding split
split-cons c [] = ([], [], refl)
split-cons c (d ∷ s) =
    let (part, parts, e) = split-cons c s in
    elim (Bool-cases (d == c)) [
      | inl here ↦ ([], part ∷ parts, rw (e, here) refl)
      | inr there ↦ (d ∷ part, parts, rw (e, there) refl)
    ]

pub split-append :
    (c : ℕ) (s t : Text) → includes s c ≡ false → split c (s ++ c ∷ t) ≡ s ∷ split c t
unfolding split
split-append c [] t h = let (part, parts, e) = split-cons c t in rw (e, ==_refl c) refl
split-append c (d ∷ s) t h =
    let other : (d == c) ≡ false = ground arith in
    rw (split-append c s t (ground arith), other) refl

join-longer :
    (c d : ℕ) (part : Text) (parts : List Text)
    → join c ((d ∷ part) ∷ parts) ≡ d ∷ join c (part ∷ parts)
unfolding join
join-longer c d part [] = refl
join-longer c d part (next ∷ parts) = refl

-- Splitting at a character and joining with it gives the text back.
join-split : (c : ℕ) (s : Text) → join c (split c s) ≡ s
unfolding join split
join-split c [] = refl
join-split c (d ∷ s) =
    let (part, parts, e) = split-cons c s in
    let rest : join c (part ∷ parts) ≡ s = subst (λ x. join c x ≡ s) e (join-split c s) in
    elim (Bool-cases (d == c)) [
      | inl here ↦
          let same : d ≡ c = ground (arith, ==_iff d c) in
          rw (e, here) (ap (λ x. c ∷ x) rest ∙ ap (λ x. x ∷ s) (sym same))
      | inr there ↦ rw (e, there) (join-longer c d part parts ∙ ap (λ x. d ∷ x) rest)
    ]

-- A compact proxy, written `host:port:username:password`.
abbrev pub compact : Text → ℕ → Text → Text → Text
compact address port username password =
    address ++ b':' ∷ (decimal port ++ b':' ∷ (username ++ b':' ∷ password))

no_colon : (s : Text) → IsDigits s → includes s b':' ≡ false
no_colon [] h = refl
no_colon (c ∷ s) h = ground (arith, no_colon s h.1)

plain_fields-compact :
    (address : Text) (port : ℕ) (username password : Text)
    → includes address b':' ≡ false
    → includes username b':' ≡ false
    → plain_fields (split b':' (compact address port username password))
      ≡ some (record {
        address = address;
        port_text = decimal port;
        username = username;
        password = password;
      })
plain_fields-compact address port username password h1 h2 =
    let (part, parts, e) = split-cons b':' password in
    let whole : join b':' (part ∷ parts) ≡ password =
      subst (λ x. join b':' x ≡ password) e (join-split b':' password) in
    rw
      (
        split-append b':' address (decimal port ++ b':' ∷ (username ++ b':' ∷ password)) h1,
        split-append b':' (decimal port) (username ++ b':' ∷ password)
            (no_colon (decimal port) (decimal-IsDigits port)),
        split-append b':' username password h2,
        e,
        whole,
      )
      refl

any-append {ℓ} :
    {A : Type ℓ} (p : A → Bool) (xs ys : List A) → any p (xs ++ ys) ≡ (any p xs || any p ys)
any-append p [] ys = refl
any-append p (x ∷ xs) ys = ground (arith, any-append p xs ys)

clean_start : (s : Text) → has_control s ≡ false → starts_control s ≡ false
clean_start [] h = refl
clean_start (c ∷ s) h = ground arith

bare_node-plain :
    (trimmed : Text) (protocol : Protocol) (c : ℕ) (address : Text) (port : ℕ)
    (username password : Text)
    → c ≢ b'['
    → includes (c ∷ address) b':' ≡ false
    → 1 ≤ port
    → port ≤ 65535
    → is_empty username ≡ false
    → is_empty password ≡ false
    → has_control username ≡ false
    → has_control password ≡ false
    → bare_node trimmed protocol (record {
      address = c ∷ address;
      port_text = decimal port;
      username = username;
      password = password;
    })
      ≡ some
          (record (base_node protocol (text "MiyaIP") (c ∷ address) (whole port) no_tls trimmed) {
            username = some username;
            password = some password;
          })
unfolding bare_node
bare_node-plain trimmed protocol c address port username password named clear low high u p cu cp =
    let clean : any is_control (username ++ password) ≡ false =
      any-append is_control username password ∙ ground (arith, cu, cp) in
    let joined : join_host (c ∷ address) (decimal port) ≡ (c ∷ address) ++ b':' ∷ decimal port =
      rw clear refl in
    let placed : parse_host_port (join_host (c ∷ address) (decimal port))
        ≡ some (c ∷ address, port) =
      ap parse_host_port joined ∙ parse_host_port-plain c address port named low high in
    rw (placed, u, p, clean_start username cu, clean) refl

-- A compact proxy without space around it is read back: a name or an IPv4 address, a port from 1 to
-- 65535, a user name without a colon, and a password that may hold colons, neither of them empty or
-- with a control character.
pub parse_bare_proxy-compact :
    (protocol : Protocol) (c : ℕ) (address : Text) (port : ℕ) (username password : Text)
    → let value = compact (c ∷ address) port username password in
      trim value ≡ value
      → c ≢ b'['
      → includes (c ∷ address) b':' ≡ false
      → includes username b':' ≡ false
      → 1 ≤ port
      → port ≤ 65535
      → is_empty username ≡ false
      → is_empty password ≡ false
      → has_control username ≡ false
      → has_control password ≡ false
      → parse_bare_proxy value protocol
        ≡ some
            (record (base_node protocol (text "MiyaIP") (c ∷ address) (whole port) no_tls value) {
              username = some username;
              password = some password;
            })
unfolding parse_bare_proxy starts_with
parse_bare_proxy-compact protocol c address port username password clean named clear clear_name low
      high u p cu cp =
    let value = compact (c ∷ address) port username password in
    let other : (b'[' == c) ≡ false = ground arith in
    rw (clean, other, plain_fields-compact (c ∷ address) port username password clear clear_name)
      (bare_node-plain value protocol c address port username password named clear low high u p cu
        cp)
