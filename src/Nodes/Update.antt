-- ===== src/Nodes/Update.antt =====
-- apps/server/src/nodes/nodes.service.ts: `update` with its deployment and its way back.
use nextpanel.Prelude.{
  ℕ, Bool, true, false, ◌&&◌, ◌||◌, not, Option, none, some, [], ◌∷◌, ◌++◌, Text, text, text_eq,
  is_some, ◌==◌, if◌then◌else◌,
}
use nextpanel.Prelude.Exec.{Result, ok, err}
use nextpanel.Nodes.Model.{
  Protocol, protocol_eq, Implementation, Transport, transport_eq, TlsMode, tls_eq, EgressIpPolicy,
  auto, Node, NodeError, outside,
}
use nextpanel.Nodes.Shape.{
  NodeShape, ShapeInput, is_cf_xhttp, is_managed_certificate_protocol, is_xhttp, is_tls_on,
  is_modern_protocol_shape,
}
use nextpanel.Nodes.Credentials.{Creds, Given, put, assign, is_filled}
use nextpanel.Nodes.Identity.{CfXhttpMode, mode_text}
use nextpanel.Nodes.World.{DeployOptions, DeployResult}
use nextpanel.Nodes.Create.{or_default}

-- `domain` may be absent, null or a text
pub record UpdateNodeDto : Type 0 where
  pub server_id : Option Text
  pub name : Option Text
  pub protocol : Option Protocol
  pub implementation : Option Implementation
  pub transport : Option Transport
  pub tls : Option TlsMode
  pub listen_port : Option ℕ
  pub domain : Option (Option Text)
  pub egress_ip_policy : Option EgressIpPolicy
  pub credentials : Option Given
  pub enabled : Option Bool
  pub xhttp_mode : Option CfXhttpMode

abbrev pub node_operation_lock : Text → Text
node_operation_lock id = text "nextpanel:node:" ++ id

abbrev first_of : {A : Type 0} → Option A → Option A → Option A
first_of (some a) b = some a
first_of none b = b

abbrev text_option_eq : Option Text → Option Text → Bool
text_option_eq none none = true
text_option_eq (some s) (some t) = text_eq s t
text_option_eq _ _ = false

abbrev pub is_node_cf_xhttp : Node → Bool
is_node_cf_xhttp node = is_cf_xhttp node.protocol node.transport node.tls

abbrev entering_xhttp : UpdateNodeDto → Node → Bool
entering_xhttp dto existing = is_xhttp dto.transport && not (is_xhttp existing.transport)

abbrev pub entering_managed_protocol : UpdateNodeDto → Node → Bool
entering_managed_protocol dto existing = elim dto.protocol [
  | none ↦ false
  | some p ↦ is_managed_certificate_protocol p && not (protocol_eq p existing.protocol)
]

abbrev keep_unless : {A : Type 0} → Bool → Option A → Option A
keep_unless true a = none
keep_unless false a = a

-- what is asked for, completed by what there is
abbrev pub target_input : UpdateNodeDto → Node → ShapeInput
target_input dto existing =
    let managed : Bool = entering_managed_protocol dto existing in
    let entering : Bool = entering_xhttp dto existing || managed in
    record {
      protocol = or_default existing.protocol dto.protocol;
      implementation = first_of dto.implementation (keep_unless entering existing.implementation);
      transport = first_of dto.transport (keep_unless managed existing.transport);
      tls = first_of dto.tls (keep_unless entering (some existing.tls));
    }

abbrev pub is_other_server : UpdateNodeDto → Node → Bool
is_other_server dto existing = elim dto.server_id [
  | none ↦ false
  | some s ↦ not (text_eq s existing.server_id)
]

abbrev changes_domain : UpdateNodeDto → Node → Bool
changes_domain dto existing = elim dto.domain [
  | none ↦ false
  | some d ↦ not (text_option_eq d existing.domain)
]

abbrev pub target_port : UpdateNodeDto → Node → ℕ
target_port dto existing = or_default existing.listen_port dto.listen_port

-- a managed CDN node keeps its transport and identity
abbrev pub replaces_pilot : UpdateNodeDto → Node → NodeShape → Bool
replaces_pilot dto existing shape =
    (is_cf_xhttp shape.protocol shape.transport shape.tls || is_node_cf_xhttp existing)
    && (not (protocol_eq shape.protocol existing.protocol)
        || (not (transport_eq shape.transport existing.transport)
            || (not (tls_eq shape.tls existing.tls)
                || (not (target_port dto existing == existing.listen_port)
                    || (changes_domain dto existing || is_some dto.credentials)))))

abbrev pub is_443 : Option ℕ → Bool
is_443 none = false
is_443 (some port) = port == 443

abbrev pub requires_managed_dns : NodeShape → Bool
requires_managed_dns shape = is_managed_certificate_protocol shape.protocol

abbrev pub retires_dns : Node → NodeShape → Bool
retires_dns existing shape =
    is_filled existing.cf_dns_record_id
    && (not (requires_managed_dns shape) && not (is_tls_on shape.tls))

-- `requiresTransactionalDeploy`
abbrev pub is_transactional : Node → NodeShape → Bool
is_transactional existing shape =
    is_modern_protocol_shape existing.protocol existing.transport
    || is_modern_protocol_shape shape.protocol shape.transport

-- `{ ...currentCreds, ...dto.credentials, xhttpMode }`
abbrev pub merged : Creds → UpdateNodeDto → Creds
merged c dto =
    let given : Creds = assign c (or_default [] dto.credentials) in
    elim dto.xhttp_mode [ none ↦ given | some mode ↦ put given (text "xhttpMode") (mode_text mode) ]

-- What the `update` writes: `domain` and `cfDnsRecordId` only where they are given.
pub record Change : Type 0 where
  pub shape : NodeShape
  pub credentials_enc : Option Text
  pub domain : Option (Option Text)
  pub cf_dns_record_id : Option (Option Text)

abbrev pub changed_node : UpdateNodeDto → Change → Node → Node
changed_node dto change node = record node {
  server_id = or_default node.server_id dto.server_id;
  name = or_default node.name dto.name;
  protocol = change.shape.protocol;
  implementation = change.shape.implementation;
  transport = change.shape.transport;
  tls = change.shape.tls;
  listen_port = or_default node.listen_port dto.listen_port;
  domain = or_default node.domain change.domain;
  egress_ip_policy = or_default node.egress_ip_policy dto.egress_ip_policy;
  credentials_enc = or_default node.credentials_enc change.credentials_enc;
  cf_dns_record_id = or_default node.cf_dns_record_id change.cf_dns_record_id;
  source = if requires_managed_dns change.shape then auto else node.source;
  enabled = or_default node.enabled dto.enabled;
}

-- What the way back writes over the row.
abbrev pub restored_node : Node → Node → Node
restored_node existing node = record node {
  name = existing.name;
  server_id = existing.server_id;
  protocol = existing.protocol;
  implementation = existing.implementation;
  transport = existing.transport;
  tls = existing.tls;
  listen_port = existing.listen_port;
  domain = existing.domain;
  egress_ip_policy = existing.egress_ip_policy;
  cf_dns_record_id = existing.cf_dns_record_id;
  credentials_enc = existing.credentials_enc;
  source = existing.source;
  status = existing.status;
  enabled = existing.enabled;
}

abbrev firewall_of : Node → Option (ℕ × Protocol)
firewall_of existing = some (existing.listen_port, existing.protocol)

abbrev pub transactional_options : Node → DeployOptions
transactional_options existing = record {
  force_rollback = is_modern_protocol_shape existing.protocol existing.transport;
  skip_advisory_lock = true;
  previous_firewall = firewall_of existing;
}

abbrev pub legacy_options : Node → DeployOptions
legacy_options existing = record {
  force_rollback = false;
  skip_advisory_lock = false;
  previous_firewall = firewall_of existing;
}

-- How a deployment ended. An exception with an empty message is no failure to the code, which tests
-- the text of the failure.
pub data Outcome : Type 0 where
  deployed : Outcome
  undone : Outcome
  not_undone : Outcome

abbrev undone_if : Bool → Outcome
undone_if true = not_undone
undone_if false = undone

abbrev pub outcome_of : Result NodeError DeployResult → Outcome
outcome_of (ok r) = if r.success then deployed else undone_if r.rollback_failed
outcome_of (err (outside rollback_failed [])) = deployed
outcome_of (err (outside rollback_failed (_ ∷ _))) = undone_if rollback_failed
outcome_of (err _) = undone
