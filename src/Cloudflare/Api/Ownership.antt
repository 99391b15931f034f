-- ===== src/Cloudflare/Api/Ownership.antt =====
-- What `ensure` and `ensureTls` write: their own rule, and nothing else.
use nextpanel.Prelude.{
  ◌≡◌, ◌⊎◌, inl, inr, refl, ◌||◌, arith, Bool, true, false, List, [], ◌∷◌, Option, none, some, Text,
}
use nextpanel.Prelude.Exec.{ok, err}
use nextpanel.Cloudflare.Route.{OriginRoute}
use nextpanel.Cloudflare.Zone.{
  Phase, origin, tls, Call, get, post, rulesets, rules, entrypoint, new_ruleset, new_rule,
  rule_missing, duplicate_rules, ruleset_changed, Cloud, Rule, Ruleset,
}
use nextpanel.Cloudflare.Rules.{
  check_id, spec_of, verify_isolation, validate_ruleset, owned, rules_of, stored_ruleset, is_other,
}
use nextpanel.Cloudflare.Api.{
  verify_tls_if, as_ruleset, read_entrypoint, ensure_rule, write_rule, use_owned, is_stored,
  is_changed, rules_or_none, verify_placed, verify_set, only_owned, verify, ensure, ensure_tls,
}
use nextpanel.Cloudflare.Api.Writes.{
  Writes, Writes-bind, Writes-read, Writes-request, Writes-lift, Writes-reject, Writes-le,
}

-- The one write that adds the mapping's rule: into a new ruleset, or beside the rules that are there.
pub IsAdded : Phase → OriginRoute → Call → Type 0
IsAdded phase r c =
    (c ≡ post rulesets (new_ruleset phase (spec_of phase r)))
    ⊎ ((set : Text) × (c ≡ post (rules set) (new_rule (spec_of phase r))))

-- A write of any kind, for the steps that have none.
pub read_entrypoint-Writes :
    (P : Call → Type 0) (cloud : Cloud) (phase : Phase) → Writes 0 P (read_entrypoint cloud phase)
unfolding read_entrypoint
read_entrypoint-Writes P cloud phase =
    Writes-bind 0 0 P _ _ (Writes-read P cloud (get (entrypoint phase)) true refl) (λ answer.
      Writes-bind 0 0 P _ _ (Writes-lift P (as_ruleset answer))
        (λ set. Writes-lift P (validate_ruleset set)))

write_rule-Writes :
    (cloud : Cloud) (phase : Phase) (r : OriginRoute) (set : Option Ruleset)
    → Writes 1 (IsAdded phase r) (write_rule cloud phase r set)
unfolding IsAdded
write_rule-Writes cloud phase r none = Writes-request _ cloud _ false (λ e. inl refl)
write_rule-Writes cloud phase r (some set) =
    Writes-bind 0 1 _ _ _ (Writes-lift _ _)
      (λ id. Writes-request _ cloud _ false (λ e. inr (id, refl)))

use_owned-Writes :
    (cloud : Cloud) (phase : Phase) (r : OriginRoute) (set : Option Ruleset) (mine : List Rule)
    → Writes 1 (IsAdded phase r) (use_owned cloud phase r set mine)
use_owned-Writes cloud phase r set [] =
    Writes-bind 0 1 _ _ _ (Writes-reject _ _ _) (λ _.
      Writes-bind 1 0 _ _ _ (write_rule-Writes cloud phase r set) (λ _. Writes-lift _ (ok tt)))
use_owned-Writes cloud phase r set (mine ∷ []) = Writes-le 0 1 _ _ (omega arith) (Writes-lift _ _)
use_owned-Writes cloud phase r set (mine ∷ _ ∷ _) =
    Writes-le 0 1 _ _ (omega arith) (Writes-lift _ (err duplicate_rules))

ensure_rule-Writes :
    (cloud : Cloud) (phase : Phase) (r : OriginRoute)
    → Writes 1 (IsAdded phase r) (ensure_rule cloud phase r)
unfolding ensure_rule
ensure_rule-Writes cloud phase r =
    Writes-bind 0 1 _ _ _ (read_entrypoint-Writes _ cloud phase) (λ set.
      Writes-bind 0 1 _ _ _
        (Writes-reject _ (is_changed (stored_ruleset phase r) set) ruleset_changed)
        (λ _.
          Writes-bind 0 1 _ _ _ (Writes-lift _ (verify_isolation phase (rules_or_none set) r))
            (λ _. use_owned-Writes cloud phase r set (owned phase r (rules_or_none set)))))

verify_set-Writes :
    (P : Call → Type 0) (phase : Phase) (r : OriginRoute) (set : Option Ruleset)
    → Writes 0 P (verify_set phase r set)
verify_set-Writes P phase r none = Writes-lift P (err rule_missing)
verify_set-Writes P phase r (some set) =
    Writes-bind 0 0 P _ _ (Writes-reject P (is_other (stored_ruleset phase r) set.id) rule_missing)
      (λ _. Writes-bind 0 0 P _ _ (Writes-lift P (check_id set.id)) (λ id.
        Writes-bind 0 0 P _ _ (Writes-lift P (verify_isolation phase (rules_of set) r))
          (λ _. Writes-lift P (only_owned phase r id (owned phase r (rules_of set))))))

verify_placed-Writes :
    (P : Call → Type 0) (cloud : Cloud) (phase : Phase) (r : OriginRoute)
    → Writes 0 P (verify_placed cloud phase r)
unfolding verify_placed
verify_placed-Writes P cloud phase r =
    Writes-bind 0 0 P _ _ (read_entrypoint-Writes P cloud phase)
      (λ set. verify_set-Writes P phase r set)

verify_tls_if-Writes :
    (P : Call → Type 0) (cloud : Cloud) (wanted : Bool) (r : OriginRoute)
    → Writes 0 P (verify_tls_if cloud wanted r)
verify_tls_if-Writes P cloud true r =
    Writes-bind 0 0 P _ _ (verify_placed-Writes P cloud tls r) (λ _. Writes-lift P (ok tt))
verify_tls_if-Writes P cloud false r = Writes-lift P (ok tt)

-- Checking a mapping writes nothing.
pub verify-Writes :
    (P : Call → Type 0) (cloud : Cloud) (r : OriginRoute) → Writes 0 P (verify cloud r)
unfolding verify
verify-Writes P cloud r =
    Writes-bind 0 0 P _ _
      (verify_tls_if-Writes P cloud (is_stored r.tls_rule_id || is_stored r.tls_ruleset_id) r)
      (λ _. Writes-bind 0 0 P _ _ (verify_placed-Writes P cloud origin r) (λ placed.
        Writes-lift P
          (ok (record r { ruleset_id = some placed.set; rule_id = some placed.rule_id }))))

-- However the zone answers, and whether it returns or throws, `ensure` writes at most once, and that
-- write adds the mapping's own origin rule: no rule that is there is rewritten or deleted.
pub ensure-Writes : (cloud : Cloud) (r : OriginRoute) → Writes 1 (IsAdded origin r) (ensure cloud r)
unfolding ensure
ensure-Writes cloud r =
    Writes-bind 1 0 _ _ _ (ensure_rule-Writes cloud origin r) (λ _. verify-Writes _ cloud r)

-- `ensureTls` likewise, with the mapping's own TLS rule.
pub ensure_tls-Writes :
    (cloud : Cloud) (r : OriginRoute) → Writes 1 (IsAdded tls r) (ensure_tls cloud r)
unfolding ensure_tls
ensure_tls-Writes cloud r = Writes-bind 1 0 _ _ _ (ensure_rule-Writes cloud tls r) (λ _.
    Writes-bind 0 0 _ _ _ (verify_placed-Writes _ cloud tls r) (λ placed.
      Writes-lift _
        (ok (record r { tls_ruleset_id = some placed.set; tls_rule_id = some placed.rule_id }))))
