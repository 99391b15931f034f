-- ===== src/Cloudflare/Checks.antt =====
-- `prerequisites`, `checkTls` and `preflight` of apps/server/src/cloudflare/cf-origin-api.ts, which
-- only read.
use nextpanel.Prelude.{
  Bool, true, false, ◌&&◌, ◌||◌, not, [], Option, none, some, if◌then◌else◌, Text, text, text_eq,
  is_empty, any,
}
use nextpanel.Prelude.Exec.{Result, ok, err, pure, lift, reject, ◌>>=◌, ◌>>◌}
use nextpanel.Cloudflare.Route.{OriginRoute, pending, is_id, tls_ref}
use nextpanel.Cloudflare.Zone.{
  Phase, Ruleset, origin, tls, get, setting, dns_record, dns_page, Payload, records, record_of,
  value, Dns, CfError, Cloud, Api, request, no_record, not_proxied, address_changed, dns_changed,
  not_strict, bad_settings,
}
use nextpanel.Cloudflare.Rules.{verify_isolation, is_text}
use nextpanel.Cloudflare.Api.{read_entrypoint, rules_or_none, verify_placed}

-- `{ domain, ref }` where a route is wanted: no id is stored, and the other fields are not read
abbrev pub route_of : Text → Text → OriginRoute
route_of domain ref = record {
  version = 1;
  zone_id = [];
  ref = ref;
  domain = domain;
  port = 0;
  ruleset_id = none;
  rule_id = none;
  tls_ruleset_id = none;
  tls_rule_id = none;
  state = pending;
  checked_at = none;
  audited_at = none;
  error = none;
}

abbrev is_strict : Option Payload → Bool
is_strict (some (value s)) = text_eq s (text "strict")
is_strict _ = false

abbrev verify_tls : Cloud → OriginRoute → Api Unit
verify_tls cloud r = do _ ← verify_placed cloud tls r; pure tt

abbrev unless : Bool → Api Unit → Api Unit
unless true step = pure tt
unless false step = step

-- the reference as `undefined` or as the text that it holds, an empty one being as good as none
unfoldable pub check_tls : Cloud → Text → Option Text → Api Unit
unfolding request read_entrypoint verify_isolation verify_placed
check_tls cloud domain none = do
  ssl ← request cloud (get (setting (text "ssl"))) false
  reject (not (is_strict ssl)) not_strict
check_tls cloud domain (some ref) =
    let r = route_of domain ref in
    if is_empty domain || is_empty ref
    then (do
      ssl ← request cloud (get (setting (text "ssl"))) false
      reject (not (is_strict ssl)) not_strict)
    else (do
      ssl ← request cloud (get (setting (text "ssl"))) false
      set ← read_entrypoint cloud tls
      _ ← lift (verify_isolation tls (rules_or_none set) r)
      unless (not (any (λ rule. is_text (tls_ref ref) rule.ref) (rules_or_none set)))
          (verify_tls cloud r)
      unless (is_strict ssl) (verify_tls cloud r))

abbrev proxied_record : Text → Option Payload → Result CfError Dns
proxied_record domain (some (record_of dns)) =
    if dns.proxied && text_eq dns.name domain then ok dns else err not_proxied
proxied_record domain _ = err not_proxied

-- `wanted && wanted !== found`
abbrev differs : Option Text → Option Text → Bool
differs none found = false
differs (some s) found = not (is_empty s) && not (is_text s found)

unfoldable pub prerequisites : Cloud → Text → Text → Option Text → Option Text → Api Unit
unfolding request is_id check_tls
prerequisites cloud record_id domain address ref = do
  reject (not (is_id record_id)) no_record
  answer ← request cloud (get (dns_record record_id)) false
  dns ← lift (proxied_record domain answer)
  reject (differs address (some dns.content)) address_changed
  reject (differs ref dns.comment) dns_changed
  check_tls cloud domain ref

abbrev is_ssl_mode : Option Payload → Bool
is_ssl_mode (some (value s)) =
    text_eq s (text "off")
    || text_eq s (text "flexible")
    || text_eq s (text "full")
    || text_eq s (text "strict")
    || text_eq s (text "origin_pull")
is_ssl_mode _ = false

abbrev is_records : Option Payload → Bool
is_records (some (records _)) = true
is_records _ = false

-- `if (r) this.verifyIsolation(...)`
abbrev isolated : Phase → Option Ruleset → Option OriginRoute → Result CfError (Unit {0})
isolated phase set none = ok tt
isolated phase set (some r) = verify_isolation phase (rules_or_none set) r

unfoldable pub preflight : Cloud → Option OriginRoute → Api Unit
unfolding request read_entrypoint verify_isolation
preflight cloud r = do
  ssl ← request cloud (get (setting (text "ssl"))) false
  reject (not (is_ssl_mode ssl)) bad_settings
  tls_set ← read_entrypoint cloud tls
  _ ← lift (isolated tls tls_set r)
  set ← read_entrypoint cloud origin
  _ ← lift (isolated origin set r)
  page ← request cloud (get dns_page) false
  reject (not (is_records page)) bad_settings
