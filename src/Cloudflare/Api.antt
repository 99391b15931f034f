-- ===== src/Cloudflare/Api.antt =====
-- `entrypoint`, `ensure`, `ensureTls`, `verify`, `verifyTls`, `remove`, `prerequisites`, `checkTls`
-- and `preflight` of apps/server/src/cloudflare/cf-origin-api.ts. What the code says twice, for the
-- rules on the origin and for those on TLS, is said once for either phase.
pub mod Writes
pub mod Ownership
pub mod Removal
pub mod Verified
use nextpanel.Prelude.{
  ℕ, Bool, true, false, ◌&&◌, ◌||◌, not, List, [], ◌∷◌, Option, none, some, leb, ltb, ◌==◌,
  if◌then◌else◌, Text, text, text_eq, is_empty, is_some, length, any,
}
use nextpanel.Prelude.Exec.{Result, ok, err, Exec, pure, throw, lift, reject, ◌>>=◌, ◌>>◌}
use nextpanel.Cloudflare.Route.{OriginRoute, RuleSpec, is_id}
use nextpanel.Cloudflare.Zone
use nextpanel.Cloudflare.Zone.{
  Phase, origin, tls, Call, get, post, delete, rulesets, rules, rule, entrypoint, setting,
  dns_record, dns_page, new_ruleset, new_rule, Payload, records, record_of, value, ruleset_of,
  Ruleset, Rule, Dns, CfError, Cloud, Api, request, bad_id, ruleset_changed, duplicate_rules,
  rule_removed, rule_missing, cleanup_refused, cleanup_unconfirmed, not_strict, bad_settings,
  no_record, not_proxied, address_changed, dns_changed, ambiguous_dns,
}
use nextpanel.Cloudflare.Rules.{
  check_id, rules_of, validate_ruleset, verify_rule, verify_isolation, owned, spec_of, stored_rule,
  stored_ruleset, is_other, phase_ref,
}

abbrev pub as_ruleset : Option Payload → Result CfError (Option Ruleset)
as_ruleset none = ok none
as_ruleset (some (ruleset_of set)) = ok (some set)
as_ruleset (some _) = err bad_id

-- `set?.rules ?? []`
abbrev pub rules_or_none : Option Ruleset → List Rule
rules_or_none none = []
rules_or_none (some set) = rules_of set

-- `stored && set?.id !== stored`
abbrev pub is_changed : Option Text → Option Ruleset → Bool
is_changed none set = false
is_changed (some s) none = not (is_empty s)
is_changed (some s) (some set) = is_other (some s) set.id

abbrev pub is_stored : Option Text → Bool
is_stored none = false
is_stored (some s) = not (is_empty s)

-- `entrypoint` and `tlsEntrypoint`
unfoldable pub read_entrypoint : Cloud → Phase → Api (Option Ruleset)
unfolding request validate_ruleset
read_entrypoint cloud phase = do
  answer ← request cloud (get (entrypoint phase)) true
  set ← lift (as_ruleset answer)
  lift (validate_ruleset set)

-- the `POST` of the rule, into a ruleset that is there or into a new one
abbrev pub write_rule : Cloud → Phase → OriginRoute → Option Ruleset → Api (Option Payload)
write_rule cloud phase r none =
    request cloud (post rulesets (new_ruleset phase (spec_of phase r))) false
write_rule cloud phase r (some set) = do
  id ← lift (check_id set.id)
  request cloud (post (rules id) (new_rule (spec_of phase r))) false

-- the write, unless the mapping had a rule before
abbrev pub add_rule : Cloud → Phase → OriginRoute → Option Ruleset → Api Unit
add_rule cloud phase r set = do
  reject (is_stored (stored_rule phase r)) rule_removed
  _ ← write_rule cloud phase r set
  pure tt

abbrev pub use_owned : Cloud → Phase → OriginRoute → Option Ruleset → List Rule → Api Unit
use_owned cloud phase r set [] = add_rule cloud phase r set
use_owned cloud phase r set (mine ∷ []) = lift (verify_rule phase r mine)
use_owned cloud phase r set (mine ∷ _ ∷ _) = throw duplicate_rules

-- the part of `ensure` and `ensureTls` before the closing `verify`
unfoldable pub ensure_rule : Cloud → Phase → OriginRoute → Api Unit
unfolding read_entrypoint verify_isolation verify_rule
ensure_rule cloud phase r = do
  set ← read_entrypoint cloud phase
  reject (is_changed (stored_ruleset phase r) set) ruleset_changed
  _ ← lift (verify_isolation phase (rules_or_none set) r)
  use_owned cloud phase r set (owned phase r (rules_or_none set))

-- the ids of the ruleset and of its one owned rule
pub record Placed : Type 0 where
  pub set : Text
  pub rule_id : Text

abbrev pub only_owned : Phase → OriginRoute → Text → List Rule → Result CfError Placed
only_owned phase r set [] = err rule_missing
only_owned phase r set (mine ∷ []) = elim (verify_rule phase r mine) [
  | err e ↦ err e
  | ok _ ↦ ok (record { set = set; rule_id = mine.id })
]
only_owned phase r set (mine ∷ _ ∷ _) = err rule_missing

abbrev pub verify_set : Phase → OriginRoute → Option Ruleset → Api Placed
verify_set phase r none = throw rule_missing
verify_set phase r (some set) = do
  reject (is_other (stored_ruleset phase r) set.id) rule_missing
  id ← lift (check_id set.id)
  _ ← lift (verify_isolation phase (rules_of set) r)
  lift (only_owned phase r id (owned phase r (rules_of set)))

-- `verifyTls`, and what `verify` does for the origin
unfoldable pub verify_placed : Cloud → Phase → OriginRoute → Api Placed
unfolding read_entrypoint verify_isolation verify_rule
verify_placed cloud phase r = do set ← read_entrypoint cloud phase; verify_set phase r set

abbrev pub verify_tls_if : Cloud → Bool → OriginRoute → Api Unit
verify_tls_if cloud true r = do _ ← verify_placed cloud tls r; pure tt
verify_tls_if cloud false r = pure tt

unfoldable pub verify : Cloud → OriginRoute → Api OriginRoute
unfolding verify_placed
verify cloud r = do
  _ ← verify_tls_if cloud (is_stored r.tls_rule_id || is_stored r.tls_ruleset_id) r
  placed ← verify_placed cloud origin r
  pure (record r { ruleset_id = some placed.set; rule_id = some placed.rule_id })

unfoldable pub ensure : Cloud → OriginRoute → Api OriginRoute
unfolding ensure_rule verify
ensure cloud r = do _ ← ensure_rule cloud origin r; verify cloud r

unfoldable pub ensure_tls : Cloud → OriginRoute → Api OriginRoute
unfolding ensure_rule verify_placed
ensure_tls cloud r = do
  _ ← ensure_rule cloud tls r
  placed ← verify_placed cloud tls r
  pure (record r { tls_ruleset_id = some placed.set; tls_rule_id = some placed.rule_id })

abbrev pub delete_rule : Cloud → Text → Text → Api (Option Payload)
delete_rule cloud set id = do
  set_id ← lift (check_id set)
  rule_id ← lift (check_id id)
  request cloud (delete (rule set_id rule_id)) true

abbrev pub remove_owned : Cloud → Phase → OriginRoute → Ruleset → List Rule → Api Unit
remove_owned cloud phase r set [] = pure tt
remove_owned cloud phase r set (mine ∷ []) = do
  _ ← lift (verify_rule phase r mine)
  _ ← delete_rule cloud set.id mine.id
  after ← read_entrypoint cloud phase
  reject (not (is_empty (owned phase r (rules_or_none after)))) cleanup_unconfirmed
remove_owned cloud phase r set (mine ∷ _ ∷ _) = throw duplicate_rules

abbrev pub remove_from : Cloud → Phase → OriginRoute → Option Ruleset → Api Unit
remove_from cloud phase r none = pure tt
remove_from cloud phase r (some set) = do
  reject (is_other (stored_ruleset phase r) set.id) cleanup_refused
  remove_owned cloud phase r set (owned phase r (rules_of set))

-- `removeOrigin` and `removeTls`
unfoldable pub remove_phase : Cloud → Phase → OriginRoute → Api Unit
unfolding read_entrypoint verify_rule
remove_phase cloud phase r = do set ← read_entrypoint cloud phase; remove_from cloud phase r set

unfoldable pub remove : Cloud → OriginRoute → Api Unit
unfolding remove_phase
remove cloud r = do remove_phase cloud origin r; remove_phase cloud tls r
