-- ===== src/Nodes/Sound/Replacing.antt =====
-- apps/server/src/nodes/nodes.service.ts: the steps of `update` up to its write, and the
-- way back.
use nextpanel.Prelude.{
  ℕ, ◌≡◌, Bool, true, false, not, ◌&&◌, Option, none, some, Text, find, is_some,
}
use nextpanel.Prelude.Exec.{throw, lift, reject, catch}
use nextpanel.Nodes.Model.{
  Node, Implementation, server_change, mode_needs_cdn, pilot_in_place, restore_failed,
  deploy_failed_restored,
}
use nextpanel.Nodes.Shape.{NodeShape, normalize_node_shape, assert_egress_ip_policy_supported}
use nextpanel.Nodes.Ports.Tables.{IsSound}
use nextpanel.Nodes.Credentials.{Creds, Given, as_given, defined, is_filled}
use nextpanel.Nodes.Identity.{cf_xhttp_profile, ensure_credentials}
use nextpanel.Nodes.World.{Outside, ask, has_node_id, update_node}
use nextpanel.Nodes.Dns.{DnsRecord, assert_active_cloudflare, create_cloudflare_dns_record}
use nextpanel.Nodes.Create.{or_default, when, assert_port_available, sealed_credentials}
use nextpanel.Nodes.Update.{
  UpdateNodeDto, changed_node, restored_node, target_input, target_port, is_other_server,
  is_node_cf_xhttp, replaces_pilot, requires_managed_dns, merged,
}
use nextpanel.Nodes.Replace.{
  change_of, recommended_port, cleanup_pending, cleanup_record, restore, update_guards,
  edge_checked, normalized_credentials, given_credentials, new_credentials, pending_record,
  write_change, retire_record,
}
use nextpanel.Nodes.Replace.Restore.{cleanup_pending-Holds}
use nextpanel.Nodes.Leads.{
  Table, Leads, Leads-bind, Leads-weak, Leads-catch, Leads-ask, Leads-falls, Leads-update_node,
  Leads-reject,
}
use nextpanel.Nodes.Leads.Quiet.{
  Holds, Holds-pure, Holds-throw, Holds-reject, Holds-lift, when-Holds,
  assert_active_cloudflare-Holds, cleanup_cloudflare_dns-Holds, create_cloudflare_dns_record-Holds,
  check_xhttp_edge-Holds, sealed_credentials-Holds,
}
use nextpanel.Nodes.Sound.{assert_port_available-Clear}
use nextpanel.Nodes.Sound.Updates.{Replaced, Ready, changed-Replaced, restored-IsSound}

-- What is known of the row when it has been read.
abbrev pub Found : Text → Node → Table
Found id x nodes = IsSound nodes × (find (has_node_id id) nodes ≡ some x)

module _ {W : Type 0} (o : Outside W) where
  pub update_guards-Ready :
      (id : Text) (dto : UpdateNodeDto) (user : Text) (x : Node)
      → Leads
          (Found id x)
          (update_guards o id dto user x)
          (λ shape nodes.
            Ready id x (target_port dto x) shape.implementation nodes
            × (is_other_server dto x ≡ false))
          (Found id x)
  unfolding update_guards
  update_guards-Ready id dto user x =
      Leads-bind (reject (is_other_server dto x) server_change) _ (Leads-reject _ _) (λ _.
        Leads-bind (reject (is_some dto.xhttp_mode && not (is_node_cf_xhttp x)) mode_needs_cdn) _
          (Leads-falls _ (λ nodes n. n.0) (Holds-reject _ _))
          (λ _.
            Leads-bind (lift (normalize_node_shape (target_input dto x))) _
              (Leads-falls _ (λ nodes n. n.0) (Holds-lift _))
              (λ shape.
                Leads-bind (reject (replaces_pilot dto x shape) pilot_in_place) _
                  (Leads-falls _ (λ nodes n. n.0) (Holds-reject _ _))
                  (λ _.
                    Leads-bind
                      (lift (
                        assert_egress_ip_policy_supported shape
                          (or_default x.egress_ip_policy dto.egress_ip_policy)))
                      _ (Leads-falls _ (λ nodes n. n.0) (Holds-lift _))
                      (λ _.
                        Leads-bind (lift (recommended_port dto x shape)) _
                          (Leads-falls _ (λ nodes n. n.0) (Holds-lift _))
                          (λ _.
                            Leads-bind
                              (assert_port_available o x.server_id (target_port dto x)
                                shape.implementation (some id))
                              _
                              (Leads-weak _ (λ nodes n. n) (λ a nodes n. n) (λ nodes n. n.0)
                                (assert_port_available-Clear o x.server_id (target_port dto x)
                                  shape.implementation (some id)))
                              (λ _.
                                Leads-bind
                                  (when (requires_managed_dns shape)
                                    (assert_active_cloudflare o user))
                                  _
                                  (Leads-falls _ (λ nodes n. n.0.0)
                                    (when-Holds o _ _ (assert_active_cloudflare-Holds o user)))
                                  (λ _. record { at = λ s n. ((n.0.0, n.1), n.0.1) }))))))))

  edge_checked-Holds :
      {N : Table} (user : Text) (shape : NodeShape) (c : Creds) (x : Node)
      → Holds N (edge_checked o user shape c x)
  unfolding edge_checked
  edge_checked-Holds user shape c x = Leads-bind (lift (cf_xhttp_profile c)) _ (Holds-lift _) (λ _.
      Leads-bind (ask o.draw) _ (Leads-ask _) (λ draw.
        Leads-bind (ask o.draw) _ (Leads-ask _) (λ keys.
          Leads-bind (lift (ensure_credentials draw keys shape (as_given c))) _ (Holds-lift _)
            (λ complete. check_xhttp_edge-Holds o user complete x.cf_origin_route))))

  given-Holds : {N : Table} (given : Option Given) → Holds N (given_credentials o given)
  unfolding given_credentials
  given-Holds none = Holds-pure none
  given-Holds (some given) =
      Leads-bind (ask (o.encrypt (defined given))) _ (Leads-ask _)
        (λ sealed. Holds-pure (some sealed))

  pub new_credentials-Holds :
      {N : Table} (normalized : Bool) (dto : UpdateNodeDto) (user : Text) (shape : NodeShape)
      (x : Node)
      → Holds N (new_credentials o normalized dto user shape x)
  unfolding new_credentials normalized_credentials
  new_credentials-Holds true dto user shape x =
      Leads-bind (ask (o.decrypt x.credentials_enc)) _ (Leads-ask _) (λ current.
        Leads-bind
          (when (is_some dto.xhttp_mode) (edge_checked o user shape (merged current dto) x)) _
          (when-Holds o _ _ (edge_checked-Holds user shape (merged current dto) x))
          (λ _.
            Leads-bind (sealed_credentials o shape (as_given (merged current dto))) _
              (sealed_credentials-Holds o shape _) (λ sealed. Holds-pure (some sealed))))
  new_credentials-Holds false dto user shape x = given-Holds dto.credentials

  pub pending_record-Holds :
      {N : Table} (needed : Bool) (id : Text) (dto : UpdateNodeDto) (user : Text) (x : Node)
      → Holds N (pending_record o needed id dto user x)
  unfolding pending_record
  pending_record-Holds false id dto user x = Holds-pure none
  pending_record-Holds true id dto user x =
      Leads-bind
        (create_cloudflare_dns_record o user id (or_default x.server_id dto.server_id) false
          (is_filled x.cf_dns_record_id))
        _ (create_cloudflare_dns_record-Holds o user id _ false _) (λ r. Holds-pure (some r))

  cleanup_record-Holds :
      {N : Table} (user : Text) (old : Option Text) → Holds N (cleanup_record o user old)
  cleanup_record-Holds user none = Holds-pure tt
  cleanup_record-Holds user (some old) = cleanup_cloudflare_dns-Holds o user old

  pub retire_record-Holds :
      {N : Table} (retired : Bool) (user : Text) (x : Node)
      → Holds N (retire_record o retired user x)
  unfolding retire_record
  retire_record-Holds false user x = Holds-pure tt
  retire_record-Holds true user x = cleanup_record-Holds user x.cf_dns_record_id

  pub write_change-Replaced :
      (id : Text) (dto : UpdateNodeDto) (user : Text) (x : Node) (shape : NodeShape)
      (enc : Option Text) (pending : Option DnsRecord)
      → Leads
          (λ nodes.
            Ready id x (target_port dto x) shape.implementation nodes
            × (is_other_server dto x ≡ false))
          (write_change o id dto user x shape enc pending)
          (λ _. Replaced id x (target_port dto x) shape.implementation)
          IsSound
  unfolding write_change
  write_change-Replaced id dto user x shape enc pending =
      Leads-catch (update_node o id (changed_node dto (change_of dto x shape enc pending))) _
        (Leads-update_node o (λ nodes n. n.0.0.0) id _
          (λ y nodes n e. changed-Replaced id dto x shape enc pending nodes n.1 n.0))
        (λ e.
          Leads-bind (cleanup_pending o user pending) _ (cleanup_pending-Holds o user pending)
            (λ _. record { at = λ s n. n }))

  pub restore-IsSound :
      (id user : Text) (x : Node) (pending : Option DnsRecord) (port : ℕ)
      (impl : Option Implementation)
      → Leads (Replaced id x port impl) (restore o id user x pending) (λ _. IsSound) IsSound
  unfolding restore
  restore-IsSound id user x pending port impl =
      Leads-bind (catch (update_node o id (restored_node x)) (λ _. throw restore_failed)) _
        (Leads-catch (update_node o id (restored_node x)) _
          (Leads-update_node o (λ nodes n. n.sound) id _
            (λ y nodes n e. restored-IsSound id x port impl y nodes n e))
          (λ e. record { at = λ s n. n }))
        (λ _.
          Leads-bind (cleanup_pending o user pending) _ (cleanup_pending-Holds o user pending)
            (λ _. Holds-throw deploy_failed_restored))
