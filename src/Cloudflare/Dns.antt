-- ===== src/Cloudflare/Dns.antt =====
-- `ensureDns`, `removeDns` and `requireXhttpSetting` of apps/server/src/cloudflare/cf-origin-api.ts.
pub mod Writes
use nextpanel.Prelude.{
  ℕ, Bool, true, false, ◌&&◌, ◌||◌, not, List, [], ◌∷◌, Option, none, some, if◌then◌else◌, Text,
  text, text_eq, is_empty, includes,
}
use nextpanel.Prelude.Exec.{Result, ok, err, Exec, pure, throw, lift, reject, ◌>>=◌, ◌>>◌}
use nextpanel.Cloudflare.Route.{OriginRoute}
use nextpanel.Cloudflare.Zone.{
  Call, get, post, delete, dns_named, dns_records, dns_record, setting, new_dns, Payload, records,
  record_of, value, Dns, CfError, Cloud, Api, request, ambiguous_dns, dns_changed, setting_off,
  cleanup_refused, cleanup_unconfirmed, bad_id,
}
use nextpanel.Cloudflare.Rules.{check_id, is_text}

-- at most one record, or an error
abbrev pub at_most_one : CfError → Option Payload → Result CfError (Option Dns)
at_most_one e (some (records [])) = ok none
at_most_one e (some (records (only ∷ []))) = ok (some only)
at_most_one e _ = err e

-- an answer that is no record has none of the fields
abbrev pub as_record : Option Payload → Result CfError Dns
as_record (some (record_of dns)) = ok dns
as_record _ = err dns_changed

abbrev new_body : OriginRoute → Text → Call
new_body r address = post dns_records (new_dns (includes address b':') r.domain address r.ref)

-- the record that is there, or a new one
abbrev pub record_or_new : Cloud → OriginRoute → Text → Option Dns → Api Dns
record_or_new cloud r address (some only) = pure only
record_or_new cloud r address none = do
  answer ← request cloud (new_body r address) false
  lift (as_record answer)

-- the record points at the address, through Cloudflare, and bears the mapping's reference
unfoldable pub is_own_record : OriginRoute → Text → Dns → Bool
is_own_record r address dns =
    text_eq dns.name r.domain
    && text_eq dns.content address
    && dns.proxied
    && is_text r.ref dns.comment

unfoldable pub ensure_dns : Cloud → OriginRoute → Text → Api Text
unfolding request is_own_record check_id
ensure_dns cloud r address = do
  answer ← request cloud (get (dns_named r.domain)) false
  found ← lift (at_most_one ambiguous_dns answer)
  dns ← record_or_new cloud r address found
  reject (not (is_own_record r address dns)) dns_changed
  lift (check_id dns.id)

abbrev is_on : Option Payload → Bool
is_on (some (value s)) = text_eq s (text "on")
is_on _ = false

unfoldable pub require_xhttp_setting : Cloud → Text → Api Unit
unfolding request
require_xhttp_setting cloud name = do
  answer ← request cloud (get (setting name)) false
  reject (not (is_on answer)) setting_off

abbrev pub is_gone : Option Payload → Bool
is_gone (some (records [])) = true
is_gone _ = false

abbrev pub remove_record : Cloud → OriginRoute → Option Dns → Api Unit
remove_record cloud r none = pure tt
remove_record cloud r (some dns) = do
  reject (not (text_eq dns.name r.domain) || not (is_text r.ref dns.comment)) cleanup_refused
  id ← lift (check_id dns.id)
  _ ← request cloud (delete (dns_record id)) true
  after ← request cloud (get (dns_named r.domain)) false
  reject (not (is_gone after)) cleanup_unconfirmed

unfoldable pub remove_dns : Cloud → OriginRoute → Api Unit
unfolding request check_id
remove_dns cloud r = do
  answer ← request cloud (get (dns_named r.domain)) false
  found ← lift (at_most_one ambiguous_dns answer)
  remove_record cloud r found
