-- ===== src/Cloudflare/Tests.antt =====
-- The theorems on origins at small inputs.
use nextpanel.Prelude.{
  ◌≡◌, ◌⊎◌, refl, true, false, [], ◌∷◌, none, some, text, text_eq, starts_with, index_of, decimal,
}
use nextpanel.Prelude.Exec.{ok}
use nextpanel.Cloudflare.Route.{OriginRoute, pending, is_id}
use nextpanel.Cloudflare.Zone.{
  origin, tls, Call, get, entrypoint, Reply, reply, Rule, Ruleset, records, ruleset_of, Cloud,
}
use nextpanel.Cloudflare.Api.{read_entrypoint, verify_placed, ensure, remove}
use nextpanel.Cloudflare.Api.Writes.{Writes}
use nextpanel.Cloudflare.Api.Ownership.{IsAdded, ensure-Writes}
use nextpanel.Cloudflare.Api.Removal.{IsOwnDeleted, remove-Writes}
use nextpanel.Cloudflare.Api.Verified.{IsPlaced, verify_placed-IsPlaced}

abbrev route : OriginRoute
route = record {
  version = 1;
  zone_id = text "z";
  ref = text "np";
  domain = text "a.b";
  port = 2053;
  ruleset_id = none;
  rule_id = none;
  tls_ruleset_id = none;
  tls_rule_id = none;
  state = pending;
  checked_at = none;
  audited_at = none;
  error = none;
}

abbrev mine : Rule
mine = record {
  id = text "r";
  ref = some (text "np");
  expression = text "(http.host eq \"a.b\")";
  action = text "route";
  enabled = some true;
  parameters = some (text "{\"origin\":{\"port\":2053}}");
  has_ssl = false;
  is_typed = true;
}

-- A website's own rule, which names another host.
abbrev website : Rule
website = record mine { id = text "w"; ref = none; expression = text "(http.host eq \"c.d\")" }

-- A zone that lists the two rules and one record, and accepts every write.
abbrev listing : Call → Reply
listing (get (entrypoint phase)) = reply 200 (
    some (record {
      chunks = 10 ∷ [];
      document = some (record {
        success = true;
        result = some (ruleset_of (record { id = text "s"; rules = some (website ∷ mine ∷ []) }));
      });
    }))
listing _ = reply 200 (
    some (record {
      chunks = 10 ∷ [];
      document = some (record { success = true; result = some (records []) });
    }))

abbrev zone : Cloud
zone sent call = listing call

ensure-Writes_example : Writes 1 (IsAdded origin route) (ensure zone route)
ensure-Writes_example = ensure-Writes zone route

remove-Writes_example :
    Writes 2
      (λ c. IsOwnDeleted zone route origin c ⊎ IsOwnDeleted zone route tls c)
      (remove zone route)
remove-Writes_example = remove-Writes zone route

verify_placed-IsPlaced_example :
    (set : Ruleset) × ((read_entrypoint zone origin []).0 ≡ ok (some set))
    × IsPlaced origin route (record { set = text "s"; rule_id = text "r" }) set
unfolding verify_placed text_eq decimal index_of starts_with is_id
verify_placed-IsPlaced_example =
    verify_placed-IsPlaced zone origin route [] (record { set = text "s"; rule_id = text "r" }) refl
