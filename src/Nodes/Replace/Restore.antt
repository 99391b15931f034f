-- ===== src/Nodes/Replace/Restore.antt =====
-- apps/server/src/nodes/nodes.service.ts: a deployment that fails and was undone on the server.
use nextpanel.Prelude.{
  ◌≡◌, refl, subst, Option, none, some, Text, find, update_where, find_holds, find-update_where,
}
use nextpanel.Prelude.Exec.{ok}
use nextpanel.Nodes.Model.{Node}
use nextpanel.Nodes.World.{Outside, Db, has_node_id, update_node}
use nextpanel.Nodes.Dns.{DnsRecord}
use nextpanel.Nodes.Update.{restored_node, outcome_of, undone, transactional_options}
use nextpanel.Nodes.Replace.{deploy_or_restore, restore, after_deploy, cleanup_pending, cleaned_up}
use nextpanel.Nodes.Leads.{Table, After, Leads, Leads-bind}
use nextpanel.Nodes.Leads.Quiet.{Holds, Holds-pure, cleanup_cloudflare_dns-Holds}

-- The columns that neither an update nor the way back writes.
pub record SameRest (y x : Node) : Type 0 where
  pub id : y.id ≡ x.id
  pub user_id : y.user_id ≡ x.user_id
  pub public_port : y.public_port ≡ x.public_port
  pub cf_origin_route : y.cf_origin_route ≡ x.cf_origin_route
  pub exit_server_id : y.exit_server_id ≡ x.exit_server_id
  pub exit_port : y.exit_port ≡ x.exit_port
  pub exit_type : y.exit_type ≡ x.exit_type
  pub chain_cred_enc : y.chain_cred_enc ≡ x.chain_cred_enc
  pub socks_exit_enc : y.socks_exit_enc ≡ x.socks_exit_enc
  pub socks_exit_name : y.socks_exit_name ≡ x.socks_exit_name

restored_row :
    (x y : Node) → SameRest y x → restored_node x y ≡ record x { stats_port = y.stats_port }
restored_row x y h = λ i. record x {
  id = h.id i;
  user_id = h.user_id i;
  public_port = h.public_port i;
  cf_origin_route = h.cf_origin_route i;
  stats_port = y.stats_port;
  exit_server_id = h.exit_server_id i;
  exit_port = h.exit_port i;
  exit_type = h.exit_type i;
  chain_cred_enc = h.chain_cred_enc i;
  socks_exit_enc = h.socks_exit_enc i;
  socks_exit_name = h.socks_exit_name i;
}

module _ {W : Type 0} (o : Outside W) where
  pub cleanup_pending-Holds :
      {N : Table} (user : Text) (pending : Option DnsRecord)
      → Holds N (cleanup_pending o user pending)
  cleanup_pending-Holds user none = Holds-pure tt
  cleanup_pending-Holds user (some r) = cleanup_cloudflare_dns-Holds o user r.record_id

  written :
      (id : Text) (f : Node → Node) (s : Db W) (y : Node) (u : Unit {0})
      → (o.write s.world).0 ≡ ok u
      → find (has_node_id id) s.nodes ≡ some y
      → update_node o id f s ≡ (
        ok (f y),
        record s { nodes = update_where (has_node_id id) f s.nodes; world = (o.write s.world).1 },
      )
  unfolding update_node
  written id f s y u w e = rw (w, e) refl

  -- from the write on
  cleaned :
      (user : Text) (pending : Option DnsRecord) (P : Table)
      → Leads P (cleaned_up o user pending) (λ _ _. ⊥) P
  cleaned user pending P =
      Leads-bind (cleanup_pending o user pending) _ (cleanup_pending-Holds user pending)
        (λ _. record { at = λ s n. n })

  -- A deployment that fails, and that the server has undone, is answered by an exception, and the row
  -- is the one from before the update, but for the statistics port, which a deployment writes. The row
  -- must still be there, with the columns that the update does not write, and the write must go
  -- through.
  pub deploy_or_restore-restored :
      (id user : Text) (x y : Node) (pending : Option DnsRecord) (s : Db W) (u : Unit {0})
      → let (r, s1) = o.deploy id (transactional_options x) s in
        outcome_of r ≡ undone
        → find (has_node_id id) s1.nodes ≡ some y
        → SameRest y x
        → (o.write s1.world).0 ≡ ok u
        → After
            (λ _ _. ⊥)
            (λ nodes. find (has_node_id id) nodes ≡ some (record x { stats_port = y.stats_port }))
            (deploy_or_restore o id user x pending s).0
            (deploy_or_restore o id user x pending s).1.nodes
  unfolding deploy_or_restore after_deploy restore
  deploy_or_restore-restored id user x y pending s u failed found same w =
      let s1 = (o.deploy id (transactional_options x) s).1 in
      let e = written id (restored_node x) s1 y u w found in
      let row =
        find-update_where (has_node_id id) (has_node_id id) (restored_node x) s1.nodes y (λ n. refl)
          found (find_holds _ s1.nodes y found) in
      rw (failed, e)
        ((cleaned user pending (λ nodes.
            find (has_node_id id) nodes ≡ some (record x { stats_port = y.stats_port }))).at
          _
          (subst
            (λ t.
              find (has_node_id id) (update_where (has_node_id id) (restored_node x) s1.nodes)
              ≡ some t)
            (restored_row x y same) row))
