-- ===== src/Cloudflare/Rules.antt =====
-- The checks of apps/server/src/cloudflare/cf-origin-api.ts on the rules of a zone: whose they are,
-- whether they say what the mapping wants, and whether another rule may take its hostname.
use nextpanel.Prelude.{
  ℕ, ◌+◌, Bool, true, false, ◌&&◌, ◌||◌, not, List, [], Option, none, some, if◌then◌else◌, Text,
  text, text_eq, is_empty, starts_with, drop, take, length, all, any, keep, index_of,
}
use nextpanel.Prelude.Exec.{Result, ok, err}
use nextpanel.Prelude.Results.{◌>>=◌, ◌>>◌, reject}
use nextpanel.Cloudflare.Route.{
  OriginRoute, RuleSpec, is_id, is_domain_unit, origin_rule_spec, origin_tls_rule_spec, tls_ref,
}
use nextpanel.Cloudflare.Zone.{
  Rule, Ruleset, Phase, origin, tls, CfError, bad_id, bad_ruleset, rule_drift, may_overlap,
}

unfoldable pub check_id : Text → Result CfError Text
unfolding is_id
check_id s = if is_id s then ok s else err bad_id

abbrev pub rules_of : Ruleset → List Rule
rules_of set = elim set.rules [ none ↦ [] | some rules ↦ rules ]

-- `validateRuleset`
unfoldable pub validate_ruleset : Option Ruleset → Result CfError (Option Ruleset)
unfolding check_id
validate_ruleset none = ok none
validate_ruleset (some set) = do
  _ ← check_id set.id
  reject (any (λ rule. not rule.is_typed) (rules_of set)) bad_ruleset
  ok (some set)

abbrev pub is_text : Text → Option Text → Bool
is_text s none = false
is_text s (some t) = text_eq t s

abbrev pub is_enabled : Option Bool → Bool
is_enabled (some true) = true
is_enabled _ = false

-- `stored && stored !== id`
abbrev pub is_other : Option Text → Text → Bool
is_other none id = false
is_other (some s) id = not (is_empty s) && not (text_eq s id)

-- the rule and its spec of either phase
abbrev pub spec_of : Phase → OriginRoute → RuleSpec
spec_of origin r = origin_rule_spec r
spec_of tls r = origin_tls_rule_spec r

abbrev pub stored_rule : Phase → OriginRoute → Option Text
stored_rule origin r = r.rule_id
stored_rule tls r = r.tls_rule_id

abbrev pub stored_ruleset : Phase → OriginRoute → Option Text
stored_ruleset origin r = r.ruleset_id
stored_ruleset tls r = r.tls_ruleset_id

-- `verifyRule` and `verifyTlsRule`: a rule that says what the mapping wants
unfoldable pub is_wanted : RuleSpec → Rule → Bool
is_wanted spec rule =
    is_text spec.ref rule.ref
    && text_eq rule.expression spec.expression
    && text_eq rule.action spec.action
    && is_enabled rule.enabled
    && is_text spec.parameters rule.parameters

unfoldable pub verify_rule : Phase → OriginRoute → Rule → Result CfError (Unit {0})
unfolding check_id is_wanted origin_rule_spec origin_tls_rule_spec
verify_rule phase r rule = do
  _ ← check_id rule.id
  reject (not (is_wanted (spec_of phase r) rule) || is_other (stored_rule phase r) rule.id)
      rule_drift

-- /^\(?http\.host eq "([a-z0-9.-]+)"\)?$/, and what its group holds
abbrev cut_prefix : Text → Text → Option Text
cut_prefix p s = if starts_with s p then some (drop (length p) s) else none

abbrev open_host : Text → Option Text
open_host s = cut_prefix (text "http.host eq \"") (if starts_with s (text "(") then drop 1 s else s)

abbrev close_host : Text → Option ℕ → Option Text
close_host s none = none
close_host s (some i) =
    let name = take i s in
    let rest = drop (i + 1) s in
    if not (is_empty name) && all is_domain_unit name && (is_empty rest || text_eq rest (text ")"))
    then some name
    else none

abbrev host_in : Option Text → Option Text
host_in none = none
host_in (some s) = close_host s (index_of s b'"')

unfoldable pub rule_host : Text → Option Text
unfolding starts_with index_of
rule_host expression = host_in (open_host expression)

abbrev overlaps : Text → Option Text → Bool
overlaps domain none = true
overlaps domain (some host) = text_eq host domain

-- `enabled !== false`
abbrev is_live : Option Bool → Bool
is_live (some false) = false
is_live _ = true

-- `verifyIsolation`: a live rule of someone else whose hosts cannot be told, or that names this one
unfoldable pub may_take : Text → Text → Rule → Bool
unfolding rule_host
may_take ref domain rule =
    is_live rule.enabled
    && not (is_text ref rule.ref)
    && overlaps domain (rule_host rule.expression)

abbrev pub phase_rules : Phase → List Rule → List Rule
phase_rules origin rules = rules
phase_rules tls rules = keep (λ rule. rule.has_ssl) rules

abbrev pub phase_ref : Phase → OriginRoute → Text
phase_ref origin r = r.ref
phase_ref tls r = tls_ref r.ref

unfoldable pub verify_isolation : Phase → List Rule → OriginRoute → Result CfError (Unit {0})
unfolding may_take
verify_isolation phase rules r =
    reject (any (may_take (phase_ref phase r) r.domain) (phase_rules phase rules)) may_overlap

-- the rules that bear the mapping's reference
abbrev pub owned : Phase → OriginRoute → List Rule → List Rule
owned phase r rules = keep (λ rule. is_text (phase_ref phase r) rule.ref) rules
