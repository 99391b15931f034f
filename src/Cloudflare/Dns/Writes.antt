-- ===== src/Cloudflare/Dns/Writes.antt =====
-- What `ensureDns` and `removeDns` write, and what they accept.
use nextpanel.Prelude.{
  ◌≡◌, refl, ap, arith, true, false, ◌||◌, not, Option, none, some, Text, text_eq, includes,
}
use nextpanel.Prelude.Exec.{ok, ok_of_reject}
use nextpanel.Cloudflare.Route.{OriginRoute}
use nextpanel.Cloudflare.Zone.{
  Call, get, post, delete, dns_named, dns_records, dns_record, new_dns, Dns, ambiguous_dns,
  dns_changed, cleanup_refused, cleanup_unconfirmed, Cloud,
}
use nextpanel.Cloudflare.Rules.{check_id, is_text}
use nextpanel.Cloudflare.Dns.{
  at_most_one, as_record, record_or_new, is_own_record, ensure_dns, remove_record, remove_dns,
  is_gone,
}
use nextpanel.Cloudflare.Api.Writes.{
  Writes, Writes-bind, Writes-bind_known, Writes-read, Writes-request, Writes-lift, Writes-reject,
  Writes-le,
}
use nextpanel.Cloudflare.Api.Removal.{check_id-same}

-- The record that the mapping wants, added.
pub IsNewRecord : OriginRoute → Text → Call → Type 0
IsNewRecord r address c =
    c ≡ post dns_records (new_dns (includes address b':') r.domain address r.ref)

record_or_new-Writes :
    (cloud : Cloud) (r : OriginRoute) (address : Text) (found : Option Dns)
    → Writes 1 (IsNewRecord r address) (record_or_new cloud r address found)
unfolding IsNewRecord
record_or_new-Writes cloud r address (some only) =
    Writes-le 0 1 _ _ (omega arith) (Writes-lift _ (ok only))
record_or_new-Writes cloud r address none =
    Writes-bind 1 0 _ _ _
      (Writes-request _ cloud
        (post dns_records (new_dns (includes address b':') r.domain address r.ref)) false
        (λ e. refl))
      (λ answer. Writes-lift _ (as_record answer))

-- However the zone answers, `ensureDns` writes at most once, and that write adds a proxied record of
-- the mapping's hostname, address and reference: no record that is there is changed.
pub ensure_dns-Writes :
    (cloud : Cloud) (r : OriginRoute) (address : Text)
    → Writes 1 (IsNewRecord r address) (ensure_dns cloud r address)
unfolding ensure_dns
ensure_dns-Writes cloud r address =
    Writes-bind 0 1 _ _ _ (Writes-read _ cloud (get (dns_named r.domain)) false refl) (λ answer.
      Writes-bind 0 1 _ _ _ (Writes-lift _ (at_most_one ambiguous_dns answer)) (λ found.
        Writes-bind 1 0 _ _ _ (record_or_new-Writes cloud r address found) (λ dns.
          Writes-bind 0 0 _ _ _ (Writes-reject _ (not (is_own_record r address dns)) dns_changed)
            (λ _. Writes-lift _ (check_id dns.id)))))

-- The deletion of a record with the mapping's hostname and reference.
pub IsOwnRecord : OriginRoute → Call → Type 0
IsOwnRecord r c =
    (dns : Dns) × (text_eq dns.name r.domain ≡ true)
    × (is_text r.ref dns.comment ≡ true)
    × (c ≡ delete (dns_record dns.id))

remove_record-Writes :
    (cloud : Cloud) (r : OriginRoute) (found : Option Dns)
    → Writes 1 (IsOwnRecord r) (remove_record cloud r found)
unfolding IsOwnRecord
remove_record-Writes cloud r none = Writes-le 0 1 _ _ (omega arith) (Writes-lift _ (ok tt))
remove_record-Writes cloud r (some dns) =
    let foreign = not (text_eq dns.name r.domain) || not (is_text r.ref dns.comment) in
    Writes-bind_known 0 1 _ _ _ (Writes-reject _ foreign cleanup_refused) (λ sent u e.
      let own : foreign ≡ false = ok_of_reject foreign cleanup_refused sent u e in
      Writes-bind_known 0 1 _ _ _ (Writes-lift _ (check_id dns.id)) (λ _ id same.
        Writes-bind 1 0 _ _ _
          (Writes-request _ cloud (delete (dns_record id)) true (λ _. (
            dns,
            ground arith,
            ground arith,
            ap (λ i. delete (dns_record i)) (check_id-same dns.id id same),
          )))
          (λ _.
            Writes-bind 0 0 _ _ _ (Writes-read _ cloud (get (dns_named r.domain)) false refl)
              (λ after. Writes-reject _ (not (is_gone after)) cleanup_unconfirmed))))

-- However the zone answers, `removeDns` writes at most once, and that write deletes a record that has
-- the mapping's hostname and reference.
pub remove_dns-Writes :
    (cloud : Cloud) (r : OriginRoute) → Writes 1 (IsOwnRecord r) (remove_dns cloud r)
unfolding remove_dns
remove_dns-Writes cloud r =
    Writes-bind 0 1 _ _ _ (Writes-read _ cloud (get (dns_named r.domain)) false refl) (λ answer.
      Writes-bind 0 1 _ _ _ (Writes-lift _ (at_most_one ambiguous_dns answer))
        (λ found. remove_record-Writes cloud r found))
