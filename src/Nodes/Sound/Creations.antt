-- ===== src/Nodes/Sound/Creations.antt =====
-- apps/server/src/nodes/nodes.service.ts: a node that is created takes no port of another.
use nextpanel.Prelude.{◌≡◌, refl, Bool, true, false, none, List, [], ◌∷◌, Text, All, All-map, any}
use nextpanel.Nodes.Model.{Node}
use nextpanel.Nodes.Shape.{NodeShape, is_managed_certificate_protocol}
use nextpanel.Nodes.Ports.{taken_stats_port}
use nextpanel.Nodes.Ports.Apart.{Apart, Fits, Fits-Apart}
use nextpanel.Nodes.Ports.Tables.{IsSound}
use nextpanel.Nodes.World.{Outside, ask, has_node_id, with_database_locks, own_node, start}
use nextpanel.Nodes.Dns.{assert_owned_server, provision_cloudflare_dns, rollback_created_node}
use nextpanel.Nodes.Create.{
  CreateNodeDto, create_row, created_node, create, assert_port_available, provision_or_remove,
  checked_shape, sealed_credentials, when, answer, server_port_lock, default_options,
}
use nextpanel.Nodes.Leads.{
  Leads-bind, Leads-weak, Leads-catch, Leads-ask, Leads-falls, Leads-insert_node,
  Leads-with_database_locks, Leads-own_node, Leads-start,
}
use nextpanel.Nodes.Leads.Quiet.{
  Holds, Holds-pure, Holds-throw, assert_owned_server-Holds, checked_shape-Holds,
  sealed_credentials-Holds, when-Holds,
}
use nextpanel.Nodes.Sound.{
  provision_cloudflare_dns-Holds, rollback_created_node-Holds, assert_port_available-Clear,
}

-- A row whose ports fit those of every other may be added.
pub insert-IsSound :
    (node : Node) (nodes : List Node)
    → All (Fits node) nodes
    → IsSound nodes
    → any (has_node_id node.id) nodes ≡ false
    → IsSound (node ∷ nodes)
insert-IsSound node nodes fits h new = record {
  keyed = (new, h.keyed);
  apart = (All-map (Fits node) (Apart node) (λ z f. Fits-Apart node z f) nodes fits, h.apart);
}

module _ {W : Type 0} (o : Outside W) where
  pub provision_or_remove-Holds :
      (user : Text) (node : Node) (proxied strict : Bool)
      → Holds IsSound (provision_or_remove o user node proxied strict)
  unfolding provision_or_remove
  provision_or_remove-Holds user node proxied strict =
      Leads-catch (provision_cloudflare_dns o user node.id node.server_id proxied strict) _
        (provision_cloudflare_dns-Holds o user node.id node.server_id proxied strict)
        (λ e.
          Leads-bind (rollback_created_node o node.id) _ (rollback_created_node-Holds o node.id)
            (λ _. Holds-throw e))

  create_row-Holds :
      (dto : CreateNodeDto) (shape : NodeShape) (user credentials_enc : Text)
      → Holds IsSound (create_row o dto shape user credentials_enc)
  unfolding create_row taken_stats_port
  create_row-Holds dto shape user credentials_enc =
      Leads-bind (assert_owned_server dto.server_id user) _ (assert_owned_server-Holds _ _) (λ _.
        Leads-bind (assert_port_available o dto.server_id dto.listen_port shape.implementation none)
          _ (assert_port_available-Clear o dto.server_id dto.listen_port shape.implementation none)
          (λ _.
            Leads-bind (ask o.new_id) _ (Leads-falls _ (λ nodes n. n.0) (Leads-ask o.new_id)) (λ id.
              Leads-insert_node o (λ nodes n. n.0) (created_node dto shape user id credentials_enc)
                (λ nodes n new.
                  insert-IsSound _ nodes (All-map _ _ (λ z f. (f refl, λ exit e. cc)) nodes n.1) n.0
                    new))))

  pub own-Holds : (id user : Text) → Holds IsSound (own_node {W = W} id user)
  own-Holds id user =
      Leads-weak (own_node id user) (λ nodes n. n) (λ a nodes n. n.0) (λ nodes n. n)
        (Leads-own_node id user)

  answer-Holds :
      (again : Bool) (node : Node) (user : Text) → Holds IsSound (answer o again node user)
  answer-Holds true node user = own-Holds node.id user
  answer-Holds false node user = Holds-pure node

  -- `create`, whatever its outcome, keeps the identifiers of the nodes distinct and their ports apart.
  pub create-IsSound : (dto : CreateNodeDto) (user : Text) → Holds IsSound (create o dto user)
  unfolding create
  create-IsSound dto user =
      Leads-bind (assert_owned_server dto.server_id user) _ (assert_owned_server-Holds _ _) (λ _.
        Leads-bind (checked_shape o dto user) _ (checked_shape-Holds o dto user) (λ shape.
          Leads-bind (sealed_credentials o shape dto.credentials) _
            (sealed_credentials-Holds o shape _)
            (λ enc.
              Leads-bind
                (with_database_locks o (server_port_lock dto.server_id ∷ [])
                  (create_row o dto shape user enc))
                _
                (Leads-with_database_locks o _ _ (λ nodes n. n) (λ a nodes n. n)
                  (create_row-Holds dto shape user enc))
                (λ node.
                  Leads-bind
                    (when (is_managed_certificate_protocol shape.protocol)
                      (provision_or_remove o user node false true))
                    _ (when-Holds o _ _ (provision_or_remove-Holds user node false true))
                    (λ _.
                      Leads-bind (start o node.id default_options) _
                        (Leads-start o node.id default_options)
                        (λ _.
                          answer-Holds (is_managed_certificate_protocol shape.protocol) node
                            user))))))
