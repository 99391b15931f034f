-- ===== src/Nodes/Replace.antt =====
-- apps/server/src/nodes/nodes.service.ts: the steps of `update`, under the locks of the node and of
-- the server's ports.
pub mod Restore
use nextpanel.Prelude.{
  ℕ, Bool, true, false, ◌&&◌, ◌||◌, not, Option, none, some, List, [], ◌∷◌, Text, text_eq, is_some,
  if◌then◌else◌, ◌==◌,
}
use mathlib.Core.Option
use nextpanel.Prelude.Exec.{
  Result, ok, err, Exec, continue, pure, throw, lift, gets, reject, catch, ◌>>=◌, ◌>>◌,
}
use nextpanel.Nodes.Model.{
  Node, NodeError, server_change, mode_needs_cdn, pilot_in_place, deploy_failed_restored,
  deploy_failed_kept, restore_failed,
}
use nextpanel.Nodes.Shape.{
  NodeShape, normalize_node_shape, assert_egress_ip_policy_supported, assert_recommended_port,
  needs_credential_normalization,
}
use nextpanel.Nodes.Credentials.{Creds, Given, as_given, assign, defined, is_filled}
use nextpanel.Nodes.Identity.{cf_xhttp_profile, ensure_credentials}
use nextpanel.Nodes.World.{
  Outside, DeployResult, Db, Service, ask, own_node, update_node, with_database_locks, start,
}
use nextpanel.Nodes.Dns.{
  DnsRecord, assert_active_cloudflare, cleanup_cloudflare_dns, create_cloudflare_dns_record,
  check_xhttp_edge,
}
use nextpanel.Nodes.Create.{
  server_port_lock, or_default, when, assert_port_available, sealed_credentials,
}
use nextpanel.Nodes.Update.{
  UpdateNodeDto, Change, Outcome, deployed, undone, not_undone, outcome_of, changed_node,
  restored_node, transactional_options, legacy_options, is_transactional, requires_managed_dns,
  retires_dns, target_input, target_port, is_other_server, replaces_pilot, is_node_cf_xhttp, is_443,
  merged, entering_managed_protocol, node_operation_lock,
}

abbrev no_domain : Option (Option Text) → Option Text
no_domain none = none
no_domain (some d) = d

abbrev pub change_of : UpdateNodeDto → Node → NodeShape → Option Text → Option DnsRecord → Change
change_of dto existing shape credentials_enc (some r) = record {
  shape = shape;
  credentials_enc = credentials_enc;
  domain = some (some r.domain);
  cf_dns_record_id = some (some r.record_id);
}
change_of dto existing shape credentials_enc none = record {
  shape = shape;
  credentials_enc = credentials_enc;
  domain =
      if requires_managed_dns shape
      then some existing.domain
      else (if retires_dns existing shape then some (no_domain dto.domain) else dto.domain);
  cf_dns_record_id = if retires_dns existing shape then some none else none;
}

abbrev pub recommended_port : UpdateNodeDto → Node → NodeShape → Result NodeError (Unit {0})
recommended_port dto existing shape =
    if is_node_cf_xhttp existing && is_443 existing.public_port
    then ok tt
    else assert_recommended_port shape (target_port dto existing)

-- a managed protocol needs a record of its own, unless the node has one and keeps it
abbrev pub needs_record : UpdateNodeDto → Node → NodeShape → Bool
needs_record dto existing shape =
    requires_managed_dns shape
    && (entering_managed_protocol dto existing
        || (not (is_filled existing.cf_dns_record_id) || not (is_filled existing.domain)))

abbrev pub is_replaced : Option Text → Option DnsRecord → Bool
is_replaced old none = false
is_replaced none (some r) = false
is_replaced (some old) (some r) = is_filled (some old) && not (text_eq old r.record_id)

abbrev pub is_retired : Node → NodeShape → Option DnsRecord → Bool
is_retired existing shape pending =
    retires_dns existing shape || is_replaced existing.cf_dns_record_id pending

module _ {W : Type 0} (o : Outside W) where
  abbrev pub cleanup_pending : Text → Option DnsRecord → Service W Unit
  cleanup_pending user none = pure tt
  cleanup_pending user (some r) = cleanup_cloudflare_dns o user r.record_id

  -- the row is put back, and a record that was made for the change is deleted
  abbrev pub cleaned_up : Text → Option DnsRecord → Service W Unit
  cleaned_up user pending = cleanup_pending user pending >> throw deploy_failed_restored

  unfoldable pub restore : Text → Text → Node → Option DnsRecord → Service W Unit
  restore id user existing pending = do
    _ ← catch (update_node o id (restored_node existing)) (λ _. throw restore_failed)
    cleaned_up user pending

  unfoldable pub after_deploy : Outcome → Text → Text → Node → Option DnsRecord → Service W Unit
  unfolding restore
  after_deploy deployed id user existing pending = pure tt
  after_deploy undone id user existing pending = restore id user existing pending
  after_deploy not_undone id user existing pending = throw deploy_failed_kept

  -- the deployment that is awaited; what it throws is an outcome like the others
  unfoldable pub deploy_or_restore : Text → Text → Node → Option DnsRecord → Service W Unit
  unfolding after_deploy
  deploy_or_restore id user existing pending s =
      let (r, s') = o.deploy id (transactional_options existing) s in
      after_deploy (outcome_of r) id user existing pending s'

  -- the guards, in the order of the code
  unfoldable pub update_guards : Text → UpdateNodeDto → Text → Node → Service W NodeShape
  update_guards id dto user existing = do
    reject (is_other_server dto existing) server_change
    reject (is_some dto.xhttp_mode && not (is_node_cf_xhttp existing)) mode_needs_cdn
    shape ← lift (normalize_node_shape (target_input dto existing))
    reject (replaces_pilot dto existing shape) pilot_in_place
    lift (
        assert_egress_ip_policy_supported shape
          (or_default existing.egress_ip_policy dto.egress_ip_policy))
    lift (recommended_port dto existing shape)
    assert_port_available o existing.server_id (target_port dto existing) shape.implementation
        (some id)
    when (requires_managed_dns shape) (assert_active_cloudflare o user)
    pure shape

  unfoldable pub edge_checked : Text → NodeShape → Creds → Node → Service W Unit
  edge_checked user shape c existing = do
    _ ← lift (cf_xhttp_profile c)
    draw ← ask o.draw
    keys ← ask o.draw
    complete ← lift (ensure_credentials draw keys shape (as_given c))
    check_xhttp_edge o user complete existing.cf_origin_route

  unfoldable pub normalized_credentials :
      UpdateNodeDto → Text → NodeShape → Node → Service W (Option Text)
  unfolding edge_checked
  normalized_credentials dto user shape existing = do
    current ← ask (o.decrypt existing.credentials_enc)
    when (is_some dto.xhttp_mode) (edge_checked user shape (merged current dto) existing)
    sealed ← sealed_credentials o shape (as_given (merged current dto))
    pure (some sealed)

  unfoldable pub given_credentials : Option Given → Service W (Option Text)
  given_credentials none = pure none
  given_credentials (some given) = do sealed ← ask (o.encrypt (defined given)); pure (some sealed)

  -- what is written to `credentialsEnc`, if anything
  unfoldable pub new_credentials :
      Bool → UpdateNodeDto → Text → NodeShape → Node → Service W (Option Text)
  unfolding normalized_credentials given_credentials
  new_credentials true dto user shape existing = normalized_credentials dto user shape existing
  new_credentials false dto user shape existing = given_credentials dto.credentials

  unfoldable pub pending_record :
      Bool → Text → UpdateNodeDto → Text → Node → Service W (Option DnsRecord)
  pending_record false id dto user existing = pure none
  pending_record true id dto user existing = do
    r ←
        create_cloudflare_dns_record o user id (or_default existing.server_id dto.server_id) false
          (is_filled existing.cf_dns_record_id)
    pure (some r)

  -- the write; where it fails a record that was made for it is deleted
  unfoldable pub write_change :
      Text
      → UpdateNodeDto
      → Text
      → Node
      → NodeShape
      → Option Text
      → Option DnsRecord
      → Service W Node
  write_change id dto user existing shape credentials_enc pending =
      catch
        (update_node o id (changed_node dto (change_of dto existing shape credentials_enc pending)))
        (λ e. cleanup_pending user pending >> throw e)

  abbrev pub cleanup_record : Text → Option Text → Service W Unit
  cleanup_record user none = pure tt
  cleanup_record user (some record_id) = cleanup_cloudflare_dns o user record_id

  -- the record that the node no longer needs
  unfoldable pub retire_record : Bool → Text → Node → Service W Unit
  retire_record false user existing = pure tt
  retire_record true user existing = cleanup_record user existing.cf_dns_record_id

  unfoldable pub redeploy : Bool → Text → Text → Node → Option DnsRecord → Service W Unit
  redeploy true id user existing pending = deploy_or_restore id user existing pending
  redeploy false id user existing pending = start o id (legacy_options existing)

  unfoldable pub update_exclusive : Text → UpdateNodeDto → Text → Service W Node
  update_exclusive id dto user = do
    existing ← own_node id user
    shape ← update_guards id dto user existing
    credentials_enc ← new_credentials (needs_credential_normalization shape) dto user shape existing
    pending ← pending_record (needs_record dto existing shape) id dto user existing
    node ← write_change id dto user existing shape credentials_enc pending
    redeploy (is_transactional existing shape) id user existing pending
    retire_record (is_retired existing shape pending) user existing
    pure node

  unfoldable pub update : Text → UpdateNodeDto → Text → Service W Node
  update id dto user = do
    target ← own_node id user
    with_database_locks o (node_operation_lock id ∷ server_port_lock target.server_id ∷ [])
        (update_exclusive id dto user)
