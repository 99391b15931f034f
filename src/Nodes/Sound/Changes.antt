-- ===== src/Nodes/Sound/Changes.antt =====
-- apps/server/src/nodes/nodes.service.ts: `rename`, `toggle` and `remove` keep the ports of the nodes
-- apart.
use nextpanel.Prelude.{◌≡◌, refl, Bool, not, ◌⊎◌, Option, none, some, [], ◌∷◌, Text, update_where}
use nextpanel.Prelude.Exec.{reject}
use nextpanel.Nodes.Model.{Node, origin_unavailable}
use nextpanel.Nodes.Ports.{node_ports, taken_stats_port, derived_stats_port}
use nextpanel.Nodes.Ports.Tables.{IsSound, keep-IsSound}
use nextpanel.Nodes.Ports.Rewrites.{update_place-IsSound}
use nextpanel.Nodes.World.{Outside, DeployOptions, Db, has_node_id, own_node}
use nextpanel.Nodes.Update.{node_operation_lock, deployed, outcome_of}
use nextpanel.Nodes.Manage.{
  rename, toggle, toggle_exclusive, toggled, remove, remove_exclusive, clean_held, clean_record,
}
use nextpanel.Nodes.Leads.{
  Table, Leads-bind, Leads-ask, Leads-update_node, Leads-delete_node, Leads-with_database_locks,
  Leads-own_node,
}
use nextpanel.Nodes.Leads.Quiet.{Holds, Holds-pure, Holds-reject, cleanup_cloudflare_dns-Holds}
use nextpanel.Nodes.Sound.Creations.{own-Holds}

-- What places a node: its server with its port there, and where it leaves.
pub record SamePlace (a b : Node) : Type 0 where
  pub same_server : a.server_id ≡ b.server_id
  pub same_port : a.listen_port ≡ b.listen_port
  pub same_implementation : a.implementation ≡ b.implementation
  pub same_exit : a.exit_server_id ≡ b.exit_server_id
  pub same_exit_port : a.exit_port ≡ b.exit_port

-- What is taken for granted of the deployments: each writes the row of its node at most, leaves its
-- place alone, and changes the statistics port only when it succeeds, to the one that its port has.
pub record Deploys {W : Type 0} (o : Outside W) : Type 0 where
  pub writes : Text → DeployOptions → Db W → Node → Node
  pub deploy_writes :
      (id : Text) (options : DeployOptions) (s : Db W)
      → (o.deploy id options s).1.nodes
        ≡ update_where (has_node_id id) (writes id options s) s.nodes
  pub id_kept :
      (id : Text) (options : DeployOptions) (s : Db W) (n : Node)
      → (writes id options s n).id ≡ n.id
  pub place_kept :
      (id : Text) (options : DeployOptions) (s : Db W) (n : Node)
      → SamePlace (writes id options s n) n
  pub stats_kept :
      (id : Text) (options : DeployOptions) (s : Db W) (n : Node)
      → ((writes id options s n).stats_port ≡ n.stats_port)
        ⊎ ((outcome_of (o.deploy id options s).0 ≡ deployed)
            × ((writes id options s n).stats_port
                ≡ derived_stats_port n.listen_port n.implementation))
  pub undeploy-Holds : (id : Text) → Holds IsSound (o.undeploy id)
  pub toggle_service-Holds :
      (id : Text) (enable : Bool) → Holds IsSound (o.toggle_service id enable)

taken_stats_port-place :
    (a b : Node)
    → SamePlace a b
    → a.stats_port ≡ b.stats_port
    → taken_stats_port a ≡ taken_stats_port b
unfolding taken_stats_port
taken_stats_port-place a b h e = λ i. elim (e i) [
  | some p ↦ some p
  | none ↦ derived_stats_port (h.same_port i) (h.same_implementation i)
]

pub node_ports-place :
    (server : Text) (a b : Node)
    → SamePlace a b
    → a.stats_port ≡ b.stats_port
    → node_ports server a ≡ node_ports server b
unfolding node_ports
node_ports-place server a b h e =
    simp (h.same_server, h.same_port, h.same_exit, h.same_exit_port, taken_stats_port-place a b h e)
      refl

module _ {W : Type 0} (o : Outside W) where
  pub rename-IsSound : (id name user : Text) → Holds IsSound (rename o id name user)
  unfolding rename node_ports
  rename-IsSound id name user = Leads-bind (own_node id user) _ (Leads-own_node id user) (λ node.
      Leads-update_node o (λ nodes n. n.0) id (λ n. record n { name = name })
        (λ y nodes n e. update_place-IsSound id _ y nodes (λ z. refl) (λ server. refl) n.0 e))

  clean_record-Holds :
      {N : Table} (node : Node) (record_id : Option Text) → Holds N (clean_record o node record_id)
  clean_record-Holds node none = Holds-pure tt
  clean_record-Holds node (some []) = Holds-pure tt
  clean_record-Holds node (some (c ∷ s)) = cleanup_cloudflare_dns-Holds o node.user_id (c ∷ s)

  clean_held-Holds :
      {N : Table} (user : Text) (node : Node) (route : Option Text)
      → Holds N (clean_held o user node route)
  unfolding clean_held
  clean_held-Holds user node none = clean_record-Holds node node.cf_dns_record_id
  clean_held-Holds user node (some route) =
      Leads-bind (reject (not o.has_cf_origin) origin_unavailable) _ (Holds-reject _ _)
        (λ _. Leads-ask (o.remove_origin user route))

  module _ (d : Deploys o) where
    toggle_exclusive-Holds : (id user : Text) → Holds IsSound (toggle_exclusive o id user)
    unfolding toggle_exclusive node_ports
    toggle_exclusive-Holds id user = Leads-bind (own_node id user) _ (own-Holds o id user) (λ node.
        Leads-bind (o.toggle_service id (not node.enabled)) _ (d.toggle_service-Holds id _) (λ _.
          Leads-update_node o (λ nodes n. n) id (toggled o (not node.enabled))
            (λ y nodes n e. update_place-IsSound id _ y nodes (λ z. refl) (λ server. refl) n e)))

    pub toggle-IsSound : (id user : Text) → Holds IsSound (toggle o id user)
    unfolding toggle
    toggle-IsSound id user = Leads-bind (own_node id user) _ (own-Holds o id user) (λ node.
        Leads-with_database_locks o (node_operation_lock id ∷ []) _ (λ nodes n. n) (λ a nodes n. n)
          (toggle_exclusive-Holds id user))

    remove_exclusive-Holds : (id user : Text) → Holds IsSound (remove_exclusive o id user)
    unfolding remove_exclusive
    remove_exclusive-Holds id user = Leads-bind (own_node id user) _ (own-Holds o id user) (λ node.
        Leads-bind (o.undeploy id) _ (d.undeploy-Holds id) (λ _.
          Leads-bind (clean_held o user node node.cf_origin_route) _ (clean_held-Holds user node _)
            (λ _. Leads-delete_node o (λ nodes n. n) id (λ u nodes n. keep-IsSound _ nodes n))))

    pub remove-IsSound : (id user : Text) → Holds IsSound (remove o id user)
    unfolding remove
    remove-IsSound id user = Leads-bind (own_node id user) _ (own-Holds o id user) (λ node.
        Leads-with_database_locks o (node_operation_lock id ∷ []) _ (λ nodes n. n) (λ a nodes n. n)
          (remove_exclusive-Holds id user))
