-- ===== src/Cloudflare/Api/Removal.antt =====
-- What `remove` of apps/server/src/cloudflare/cf-origin-api.ts deletes: the mapping's own rules.
use nextpanel.Prelude.{
  ◌≡◌, ◌⊎◌, inl, inr, refl, ap, sym, ◌∙◌, ◌||◌, Bool-cases, arith, true, false, List, [], ◌∷◌,
  Option, none, some, Text, not, is_empty,
}
use nextpanel.Prelude.Exec.{ok, err}
use nextpanel.Prelude.Results.{reject, ok-injective, ok_of_bind, ok_of_only_reject}
use nextpanel.Cloudflare.Route.{OriginRoute, is_id}
use nextpanel.Cloudflare.Zone.{
  Phase, origin, tls, Call, delete, rule, bad_id, rule_drift, duplicate_rules, cleanup_refused,
  cleanup_unconfirmed, Cloud, Rule, Ruleset,
}
use nextpanel.Cloudflare.Rules.{
  check_id, spec_of, verify_rule, owned, rules_of, stored_rule, stored_ruleset, is_other, is_wanted,
}
use nextpanel.Cloudflare.Api.{
  read_entrypoint, rules_or_none, remove, remove_phase, remove_from, remove_owned, delete_rule,
}
use nextpanel.Cloudflare.Api.Writes.{
  Writes, Writes-bind_known, Writes-bind, Writes-request, Writes-lift, Writes-reject, Writes-le,
  Writes-weaken,
}
use nextpanel.Cloudflare.Api.Ownership.{read_entrypoint-Writes}

-- The deletion of the one rule that bears the mapping's reference and says what the mapping wants,
-- in a listing that the zone gave.
pub IsOwnDeleted : Cloud → OriginRoute → Phase → Call → Type 0
IsOwnDeleted cloud r phase c =
    (sent : List Call) × (set : Ruleset) × (mine : Rule) × ((read_entrypoint cloud phase sent).0
      ≡ ok (some set))
    × (owned phase r (rules_of set) ≡ mine ∷ [])
    × (is_wanted (spec_of phase r) mine ≡ true)
    × (c ≡ delete (rule set.id mine.id))

pub check_id-same : (s a : Text) → check_id s ≡ ok a → a ≡ s
unfolding check_id
check_id-same s a h = elim (Bool-cases (is_id s)) [
  | inl valid ↦ let same : ok s ≡ ok a = rw valid at h in sym (ok-injective same)
  | inr invalid ↦ let none_same : err bad_id ≡ ok a = rw invalid at h in cc
]

pub verify_rule-wanted :
    (phase : Phase) (r : OriginRoute) (mine : Rule)
    → verify_rule phase r mine ≡ ok tt
    → is_wanted (spec_of phase r) mine ≡ true
unfolding verify_rule
verify_rule-wanted phase r mine h =
    let bad = not (is_wanted (spec_of phase r) mine) || is_other (stored_rule phase r) mine.id in
    let (_, _, h1) = ok_of_bind (check_id mine.id) (λ _. reject bad rule_drift) tt h in
    let good : bad ≡ false = ok_of_only_reject bad rule_drift tt h1 in ground arith

delete_rule-Writes :
    (cloud : Cloud) (phase : Phase) (r : OriginRoute) (sent : List Call) (set : Ruleset)
    (mine : Rule)
    → (read_entrypoint cloud phase sent).0 ≡ ok (some set)
    → owned phase r (rules_of set) ≡ mine ∷ []
    → is_wanted (spec_of phase r) mine ≡ true
    → Writes 1 (IsOwnDeleted cloud r phase) (delete_rule cloud set.id mine.id)
unfolding IsOwnDeleted
delete_rule-Writes cloud phase r sent set mine read only wanted =
    Writes-bind_known 0 1 _ _ _ (Writes-lift _ (check_id set.id)) (λ _ set_id e.
      Writes-bind_known 0 1 _ _ _ (Writes-lift _ (check_id mine.id)) (λ _ rule_id e'.
        Writes-request _ cloud (delete (rule set_id rule_id)) true (λ _. (
          sent,
          set,
          mine,
          read,
          only,
          wanted,
          ap (λ i. delete (rule i rule_id)) (check_id-same set.id set_id e)
              ∙ ap (λ i. delete (rule set.id i)) (check_id-same mine.id rule_id e'),
        ))))

remove_owned-Writes :
    (cloud : Cloud) (phase : Phase) (r : OriginRoute) (sent : List Call) (set : Ruleset)
    (mine : List Rule)
    → (read_entrypoint cloud phase sent).0 ≡ ok (some set)
    → owned phase r (rules_of set) ≡ mine
    → Writes 1 (IsOwnDeleted cloud r phase) (remove_owned cloud phase r set mine)
remove_owned-Writes cloud phase r sent set [] read only =
    Writes-le 0 1 _ _ (omega arith) (Writes-lift _ (ok tt))
remove_owned-Writes cloud phase r sent set (mine ∷ []) read only =
    Writes-bind_known 0 1 _ _ _ (Writes-lift _ (verify_rule phase r mine)) (λ _ _ e.
      Writes-bind 1 0 _ _ _
        (delete_rule-Writes cloud phase r sent set mine read only
          (verify_rule-wanted phase r mine e))
        (λ _. Writes-bind 0 0 _ _ _ (read_entrypoint-Writes _ cloud phase) (λ after.
          Writes-reject _ (not (is_empty (owned phase r (rules_or_none after))))
            cleanup_unconfirmed)))
remove_owned-Writes cloud phase r sent set (mine ∷ _ ∷ _) read only =
    Writes-le 0 1 _ _ (omega arith) (Writes-lift _ (err duplicate_rules))

remove_from-Writes :
    (cloud : Cloud) (phase : Phase) (r : OriginRoute) (sent : List Call) (set : Option Ruleset)
    → (read_entrypoint cloud phase sent).0 ≡ ok set
    → Writes 1 (IsOwnDeleted cloud r phase) (remove_from cloud phase r set)
remove_from-Writes cloud phase r sent none read =
    Writes-le 0 1 _ _ (omega arith) (Writes-lift _ (ok tt))
remove_from-Writes cloud phase r sent (some set) read =
    Writes-bind 0 1 _ _ _
      (Writes-reject _ (is_other (stored_ruleset phase r) set.id) cleanup_refused)
      (λ _. remove_owned-Writes cloud phase r sent set (owned phase r (rules_of set)) read refl)

remove_phase-Writes :
    (cloud : Cloud) (phase : Phase) (r : OriginRoute)
    → Writes 1 (IsOwnDeleted cloud r phase) (remove_phase cloud phase r)
unfolding remove_phase
remove_phase-Writes cloud phase r =
    Writes-bind_known 0 1 _ _ _ (read_entrypoint-Writes _ cloud phase)
      (λ sent set read. remove_from-Writes cloud phase r sent set read)

-- However the zone answers, and whether it returns or throws, `remove` writes at most twice, and each
-- write deletes a rule of the origin's or of TLS that a listing of the zone showed to be the only one
-- with the mapping's reference and to say what the mapping wants.
pub remove-Writes :
    (cloud : Cloud) (r : OriginRoute)
    → Writes 2 (λ c. IsOwnDeleted cloud r origin c ⊎ IsOwnDeleted cloud r tls c) (remove cloud r)
unfolding remove
remove-Writes cloud r =
    Writes-bind 1 1 _ _ _
      (Writes-weaken 1 _ _ _ (λ c own. inl own) (remove_phase-Writes cloud origin r))
      (λ _. Writes-weaken 1 _ _ _ (λ c own. inr own) (remove_phase-Writes cloud tls r))
