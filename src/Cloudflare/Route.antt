-- ===== src/Cloudflare/Route.antt =====
-- apps/server/src/cloudflare/cf-origin.util.ts: the stored mapping of a node, and the rules that it
-- wants in its zone.
use nextpanel.Prelude.{
  ℕ, ◌-◌, ◌*◌, Bool, true, false, ◌&&◌, ◌||◌, not, ◌++◌, Option, none, some, leb, ltb, ◌==◌,
  if◌then◌else◌, Text, text, text_eq, is_empty, length, drop, all, starts_with, decimal,
}

pub data RouteState : Type 0 where
  pending configured ready failed : RouteState

pub record OriginRoute : Type 0 where
  pub version : ℕ
  pub zone_id : Text
  pub ref : Text
  pub domain : Text
  pub port : ℕ
  pub ruleset_id : Option Text
  pub rule_id : Option Text
  pub tls_ruleset_id : Option Text
  pub tls_rule_id : Option Text
  pub state : RouteState
  pub checked_at : Option Text
  pub audited_at : Option Text
  pub error : Option Text

abbrev is_lower_or_digit : ℕ → Bool
is_lower_or_digit c = (leb 97 c && leb c 122) || (leb 48 c && leb c 57)

-- [a-zA-Z0-9_-]
abbrev is_id_unit : ℕ → Bool
is_id_unit c = is_lower_or_digit c || (leb 65 c && leb c 90) || c == b'_' || c == b'-'

-- /^[a-zA-Z0-9_-]{1,128}$/
unfoldable pub is_id : Text → Bool
is_id s = leb 1 (length s) && leb (length s) 128 && all is_id_unit s

-- [a-f0-9]
abbrev is_hex : ℕ → Bool
is_hex c = (leb 97 c && leb c 102) || (leb 48 c && leb c 57)

-- /^np_origin_[a-f0-9]{32}$/
abbrev is_ref : Text → Bool
is_ref s = starts_with s (text "np_origin_") && length s == 42 && all is_hex (drop 10 s)

-- [a-z0-9.-]
abbrev pub is_domain_unit : ℕ → Bool
is_domain_unit c = is_lower_or_digit c || c == b'.' || c == b'-'

abbrev is_id_or_none : Option Text → Bool
is_id_or_none none = true
is_id_or_none (some s) = is_id s

-- `originRoute`, for a value whose fields have their types; `none` is its error, and `is_fqdn` is
-- `isFQDN` of class-validator
unfoldable pub origin_route : (Text → Bool) → OriginRoute → Option OriginRoute
unfolding is_id starts_with
origin_route is_fqdn r =
    if r.version == 1
      && is_id r.zone_id
      && is_ref r.ref
      && is_fqdn r.domain
      && not (is_empty r.domain)
      && all is_domain_unit r.domain
      && leb (length r.domain) 253
      && leb 1024 r.port
      && leb r.port 65535
      && is_id_or_none r.ruleset_id
      && is_id_or_none r.rule_id
      && is_id_or_none r.tls_ruleset_id
      && is_id_or_none r.tls_rule_id
    then some r
    else none

-- the columns of a node that tell which port its users dial
pub record NodePorts : Type 0 where
  pub listen_port : ℕ
  pub public_port : Option ℕ
  pub domain : Option Text
  pub cf_origin_route : Option OriginRoute

unfoldable pub public_port : NodePorts → ℕ
public_port node = elim node.public_port [ none ↦ node.listen_port | some port ↦ port ]

abbrev is_ready : RouteState → Bool
is_ready ready = true
is_ready _ = false

-- age >= 0 && age < 20 * 60_000, where a date that cannot be read makes NaN
abbrev is_fresh : ℕ → Option ℕ → Bool
is_fresh now none = false
is_fresh now (some checked) = leb checked now && ltb (now - checked) (20 * 60_000)

abbrev is_domain : Text → Option Text → Bool
is_domain s none = false
is_domain s (some d) = text_eq s d

abbrev date_of : (Text → Option ℕ) → Option Text → Option ℕ
date_of parse_date none = none
date_of parse_date (some s) = parse_date s

-- `!!id`
abbrev is_given : Option Text → Bool
is_given none = false
is_given (some s) = not (is_empty s)

unfoldable pub route_ready : (Text → Option ℕ) → ℕ → ℕ → NodePorts → Option OriginRoute → Bool
route_ready parse_date now public node none = false
route_ready parse_date now public node (some r) =
    public == 443
    && is_domain r.domain node.domain
    && r.port == node.listen_port
    && is_ready r.state
    && is_given r.rule_id
    && is_given r.ruleset_id
    && is_fresh now (date_of parse_date r.checked_at)

abbrev checked_route : (Text → Bool) → Option OriginRoute → Option OriginRoute
checked_route is_fqdn none = none
checked_route is_fqdn (some r) = origin_route is_fqdn r

-- `originReady`; `parse_date` is `Date.parse`, `none` for NaN and for times before 1970
unfoldable pub origin_ready : (Text → Bool) → (Text → Option ℕ) → ℕ → NodePorts → Bool
unfolding origin_route route_ready
origin_ready is_fqdn parse_date now node = elim node.public_port [
  | none ↦ node.listen_port == 443
  | some public ↦
      route_ready parse_date now public node (checked_route is_fqdn node.cf_origin_route)
]

-- A rule as it is written: `parameters` is the JSON text of `action_parameters`.
pub record RuleSpec : Type 0 where
  pub ref : Text
  pub description : Text
  pub expression : Text
  pub action : Text
  pub enabled : Bool
  pub parameters : Text

abbrev pub host_expression : Text → Text
host_expression domain = text "(http.host eq \"" ++ domain ++ text "\")"

unfoldable pub origin_rule_spec : OriginRoute → RuleSpec
unfolding decimal
origin_rule_spec r = record {
  ref = r.ref;
  description = r.ref;
  expression = host_expression r.domain;
  action = text "route";
  enabled = true;
  parameters = text "{\"origin\":{\"port\":" ++ decimal r.port ++ text "}}";
}

abbrev pub tls_ref : Text → Text
tls_ref ref = ref ++ text "_tls"

unfoldable pub origin_tls_rule_spec : OriginRoute → RuleSpec
origin_tls_rule_spec r = record {
  ref = tls_ref r.ref;
  description = tls_ref r.ref;
  expression = host_expression r.domain;
  action = text "set_config";
  enabled = true;
  parameters = text "{\"ssl\":\"strict\"}";
}
