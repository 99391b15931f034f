-- ===== src/Cloudflare/Zone.antt =====
-- The requests of apps/server/src/cloudflare/cf-origin-api.ts. The zone answers a request by all
-- that was sent before it, so its answers may change with every write and between two reads.
use nextpanel.Prelude.{
  ℕ, ◌+◌, ◌*◌, Bool, true, false, ◌&&◌, List, [], ◌∷◌, Option, none, some, leb, ltb, ◌==◌,
  if◌then◌else◌, Text,
}
use nextpanel.Prelude.Exec.{Result, ok, err, Exec}
use nextpanel.Cloudflare.Route.{RuleSpec}

pub data Phase : Type 0 where
  origin tls : Phase

pub data Resource : Type 0 where
  dns_named : (name : Text) → Resource
  dns_record : (id : Text) → Resource
  dns_page dns_records rulesets : Resource
  setting : (name : Text) → Resource
  entrypoint : Phase → Resource
  rules : (set : Text) → Resource
  rule : (set id : Text) → Resource

pub data Body : Type 0 where
  new_dns : (is_ipv6 : Bool) (name content comment : Text) → Body
  new_ruleset : Phase → RuleSpec → Body
  new_rule : RuleSpec → Body

pub data Call : Type 0 where
  get delete : Resource → Call
  post : Resource → Body → Call

pub record Dns : Type 0 where
  pub id : Text
  pub name : Text
  pub content : Text
  pub proxied : Bool
  pub comment : Option Text

-- A rule as it is read; `is_typed` tells whether its expression and its action are strings and its
-- reference is a string where there is one, `parameters` is the JSON text of `action_parameters`, and
-- `has_ssl` tells whether these set `ssl`.
pub record Rule : Type 0 where
  pub id : Text
  pub ref : Option Text
  pub expression : Text
  pub action : Text
  pub enabled : Option Bool
  pub parameters : Option Text
  pub has_ssl : Bool
  pub is_typed : Bool

pub record Ruleset : Type 0 where
  pub id : Text
  pub rules : Option (List Rule)

-- the `result` of an answer
pub data Payload : Type 0 where
  records : List Dns → Payload
  record_of : Dns → Payload
  ruleset_of : Ruleset → Payload
  value : Text → Payload
  unknown : Payload

-- `{ success, result }`, a result that is falsy as `none`
pub record Envelope : Type 0 where
  pub success : Bool
  pub result : Option Payload

-- The sizes of the chunks that the body comes in, and what its JSON holds.
pub record Stream : Type 0 where
  pub chunks : List ℕ
  pub document : Option Envelope

pub data Reply : Type 0 where
  unreachable : Reply
  reply : (status : ℕ) (body : Option Stream) → Reply

pub data CfError : Type 0 where
  no_connection http_error empty_body too_large bad_json bad_answer bad_id bad_ruleset : CfError
  ambiguous_dns dns_changed setting_off cleanup_refused cleanup_unconfirmed : CfError
  no_record not_proxied address_changed not_strict bad_settings : CfError
  ruleset_changed rule_drift may_overlap duplicate_rules rule_removed rule_missing : CfError

-- the bytes read so far stay within 2 MiB
abbrev pub max_body : ℕ
max_body = 2 * 1024 * 1024

unfoldable pub fits : ℕ → List ℕ → Bool
fits size [] = true
fits size (chunk ∷ chunks) =
    let rest = fits (size + chunk) chunks in if ltb max_body (size + chunk) then false else rest

abbrev result_of : Option Payload → Result CfError (Option Payload)
result_of none = err bad_answer
result_of (some payload) = ok (some payload)

abbrev read_envelope : Option Envelope → Result CfError (Option Payload)
read_envelope none = err bad_json
read_envelope (some data_of) = if data_of.success then result_of data_of.result else err bad_answer

abbrev read_stream : Option Stream → Result CfError (Option Payload)
read_stream none = err empty_body
read_stream (some stream) =
    if fits 0 stream.chunks then read_envelope stream.document else err too_large

-- what `request` makes of an answer; `missing` lets a 404 pass as null
unfoldable pub read_reply : Bool → Reply → Result CfError (Option Payload)
unfolding fits
read_reply missing unreachable = err no_connection
read_reply missing (reply status body) =
    if missing && status == 404
    then ok none
    else if leb 200 status && leb status 299
    then read_stream body
    else err http_error

abbrev pub Cloud : Type 0
Cloud = List Call → Call → Reply

abbrev pub Api : Type 0 → Type 0
Api A = Exec (List Call) CfError A

unfoldable pub request : Cloud → Call → Bool → Api (Option Payload)
unfolding read_reply
request cloud call missing sent = (read_reply missing (cloud sent call), call ∷ sent)

abbrev pub is_write : Call → Bool
is_write (get _) = false
is_write _ = true
