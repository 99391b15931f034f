-- ===== src/Cloudflare/Api/Verified.antt =====
-- What a mapping that `verify`, `verifyTls`, `ensure` or `ensureTls` accepts has in its zone.
use nextpanel.Prelude.{
  ◌≡◌, refl, ap, sym, ◌∙◌, true, false, List, [], ◌∷◌, Option, none, some, Text, any, Bool-cases,
  inl, inr,
}
use nextpanel.Prelude.Exec
use nextpanel.Prelude.Exec.{Result, ok, err, continue, ok_of_continue}
use nextpanel.Prelude.Results.{ok_of_only_reject, ok-injective, Result-cases}
use nextpanel.Cloudflare.Route.{OriginRoute}
use nextpanel.Cloudflare.Zone.{
  Phase, Call, CfError, rule_missing, may_overlap, Cloud, Rule, Ruleset,
}
use nextpanel.Cloudflare.Rules.{
  check_id, spec_of, verify_rule, verify_isolation, owned, rules_of, stored_ruleset, is_other,
  is_wanted, may_take, phase_ref, phase_rules,
}
use nextpanel.Cloudflare.Api.{Placed, read_entrypoint, verify_placed, verify_set, only_owned}
use nextpanel.Cloudflare.Api.Removal.{check_id-same, verify_rule-wanted}

-- A ruleset with one rule that bears the mapping's reference, which says what the mapping wants, and
-- with no live rule of someone else that may take the hostname.
pub record IsPlaced (phase : Phase) (r : OriginRoute) (placed : Placed) (set : Ruleset)
    : Type 0 where
  pub mine : Rule
  pub only : owned phase r (rules_of set) ≡ mine ∷ []
  pub wanted : is_wanted (spec_of phase r) mine ≡ true
  pub alone : any (may_take (phase_ref phase r) r.domain) (phase_rules phase (rules_of set)) ≡ false
  pub ids : placed ≡ record { set = set.id; rule_id = mine.id }

only_owned-mine :
    (phase : Phase) (r : OriginRoute) (set : Text) (rules : List Rule) (placed : Placed)
    → only_owned phase r set rules ≡ ok placed
    → (mine : Rule) × (rules ≡ mine ∷ [])
      × (is_wanted (spec_of phase r) mine ≡ true)
      × (placed ≡ record { set = set; rule_id = mine.id })
only_owned-mine phase r set [] placed h = cc
only_owned-mine phase r set (mine ∷ _ ∷ _) placed h = cc
only_owned-mine phase r set (mine ∷ []) placed h = elim (Result-cases (verify_rule phase r mine)) [
  | inl (e, failed) ↦ let none_ok : err e ≡ ok placed = rw (only_owned, failed) at h in cc
  | inr (_, passed) ↦
      let same : ok (record { set = set; rule_id = mine.id }) ≡ ok placed =
        rw (only_owned, passed) at h in
      (mine, refl, verify_rule-wanted phase r mine passed, sym (ok-injective same))
]

isolation-alone :
    (phase : Phase) (rules : List Rule) (r : OriginRoute) (u : Unit {0})
    → verify_isolation phase rules r ≡ ok u
    → any (may_take (phase_ref phase r) r.domain) (phase_rules phase rules) ≡ false
unfolding verify_isolation
isolation-alone phase rules r u h =
    ok_of_only_reject (any (may_take (phase_ref phase r) r.domain) (phase_rules phase rules))
      may_overlap u h

verify_set-IsPlaced :
    (phase : Phase) (r : OriginRoute) (set : Option Ruleset) (sent : List Call) (placed : Placed)
    → (verify_set phase r set sent).0 ≡ ok placed
    → (found : Ruleset) × (set ≡ some found) × IsPlaced phase r placed found
verify_set-IsPlaced phase r none sent placed h = cc
verify_set-IsPlaced phase r (some set) sent placed h =
    let rules = rules_of set in
    let changed = is_other (stored_ruleset phase r) set.id in
    let last = λ (id : Text). Exec.lift (only_owned phase r id (owned phase r rules)) in
    let isolated =
      λ (id : Text). Exec.◌>>=◌ (Exec.lift (verify_isolation phase rules r)) (λ _. last id) in
    elim (Bool-cases changed) [
      | inl other ↦
          let none_ok : ◌≡◌ {A = Result CfError Placed} (err rule_missing) (ok placed) =
            rw other at h in
          cc
      | inr kept ↦
          let h1 : (continue (check_id set.id) isolated sent).0 ≡ ok placed = rw kept at h in
          let (id, is_id, h2) = ok_of_continue (check_id set.id) isolated sent placed h1 in
          let (u, alone, h3) =
            ok_of_continue (verify_isolation phase rules r) (λ _. last id) sent placed h2 in
          let (mine, only, wanted, ids) =
            only_owned-mine phase r id (owned phase r rules) placed h3 in
          (
            set,
            refl,
            record {
              mine = mine;
              only = only;
              wanted = wanted;
              alone = isolation-alone phase rules r u alone;
              ids =
                  ids
                  ∙ ap (λ i. record { set = i; rule_id = mine.id }) (check_id-same set.id id is_id);
            },
          )
    ]

-- Of either phase, only a mapping is accepted whose rule was the only one with its reference in the
-- listing of the zone, said what the mapping wants and stood beside no live rule of someone
-- else that may take the hostname; the ids that it returns are those of that ruleset and that rule.
pub verify_placed-IsPlaced :
    (cloud : Cloud) (phase : Phase) (r : OriginRoute) (sent : List Call) (placed : Placed)
    → (verify_placed cloud phase r sent).0 ≡ ok placed
    → (set : Ruleset) × ((read_entrypoint cloud phase sent).0 ≡ ok (some set))
      × IsPlaced phase r placed set
unfolding verify_placed
verify_placed-IsPlaced cloud phase r sent placed h =
    let (found, read, h1) =
      ok_of_continue (read_entrypoint cloud phase sent).0 (verify_set phase r)
        (read_entrypoint cloud phase sent).1 placed h in
    let (set, given, is_placed) =
      verify_set-IsPlaced phase r found (read_entrypoint cloud phase sent).1 placed h1 in
    (set, read ∙ ap ok given, is_placed)
