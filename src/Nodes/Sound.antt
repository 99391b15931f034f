-- ===== src/Nodes/Sound.antt =====
-- apps/server/src/nodes/nodes.service.ts: the choice of ports and the DNS record of a node keep the
-- ports of the nodes apart.
pub mod Creations
pub mod Presets
pub mod Chains
pub mod Changes
pub mod Updates
pub mod Replacing
pub mod Deployments
pub mod Runs
pub mod Undone
use nextpanel.Prelude.{
  ℕ, ◌≡◌, refl, sym, subst, ◌∙◌, Bool, true, false, not, ◌&&◌, Option, none, some, List, [], ◌∷◌,
  ◌++◌, Text, text_eq, All, All-map, inl, inr, Bool-cases, keep, is_some,
}
use nextpanel.Prelude.Exec.{Result, ok, err, ◌>>=◌, ◌>>◌, pure, throw, lift, gets, reject}
use nextpanel.Prelude.Results.{Result-cases}
use nextpanel.Nodes.Model.{Node, NodeError, Implementation, preset_misconfigured}
use nextpanel.Nodes.Ports.{
  node_ports, candidate_ports, collect_server_ports, has_port, choose_port, choose_exit_port,
  check_nodes, check_remote,
}
use nextpanel.Nodes.Ports.Free.{
  Misses, choose_port-IsFree, choose_exit_port-IsFree, first_free_found,
}
use nextpanel.Nodes.Ports.Apart.{Clear, collect-Clear, check_nodes-Clear, Misses-left}
use nextpanel.Nodes.Ports.Tables.{IsSound, keep-IsSound}
use nextpanel.Nodes.Ports.Rewrites.{update_place-IsSound}
use nextpanel.Nodes.World.{Outside, Db, Service, ask, has_node_id, delete_node, update_node}
use nextpanel.Nodes.Dns.{
  DnsRecord, cleanup_cloudflare_dns, rollback_created_node, provision_cloudflare_dns, set_dns,
  store_record, rethrow, stored_or_thrown, create_cloudflare_dns_record,
}
use nextpanel.Nodes.Create.{
  used_ports, pick_port, pick_chain_exit_port, assert_port_available, is_excluded,
  provision_or_remove,
}
use nextpanel.Nodes.Leads.{
  Table, After, Leads, Leads-bind, Leads-weak, Leads-catch, Leads-ask, Leads-lift, Leads-gets_rows,
  Leads-falls, Leads-update_node, Leads-delete_node,
}
use nextpanel.Nodes.Leads.Quiet.{
  Holds, Holds-reject, Holds-pure, Holds-throw, Holds-lift, cleanup_cloudflare_dns-Holds,
  create_cloudflare_dns_record-Holds,
}

-- The rows that the check looks at.
abbrev pub Unexcluded : Option Text → (Node → Type 0) → Table
Unexcluded exclude P nodes = All (λ z. is_excluded exclude z ≡ false → P z) nodes

All-unexcluded :
    (exclude : Option Text) (P : Node → Type 0) (nodes : List Node)
    → All P (keep (λ z. not (is_excluded exclude z)) nodes)
    → Unexcluded exclude P nodes
All-unexcluded exclude P [] h = tt
All-unexcluded exclude P (z ∷ zs) h = elim (Bool-cases (is_excluded exclude z)) [
  | inl e ↦ (λ f. let bad : true ≡ false = sym e ∙ f in cc, All-unexcluded exclude P zs (rw e at h))
  | inr e ↦ let (here, rest) = rw e at h in (λ f. here, All-unexcluded exclude P zs rest)
]

pub either_way :
    {A : Type 0} (N : Table) (nodes : List Node) (r : Result NodeError A)
    → After (λ _. N) N r nodes
    → N nodes
either_way N nodes (ok a) h = h
either_way N nodes (err e) h = h

module _ {W : Type 0} (o : Outside W) where
  pub rollback_created_node-Holds : (id : Text) → Holds IsSound (rollback_created_node o id)
  unfolding rollback_created_node
  rollback_created_node-Holds id =
      Leads-catch (delete_node o id) _
        (Leads-delete_node o (λ nodes n. n) id (λ u nodes n. keep-IsSound _ nodes n))
        (λ e. Holds-pure tt)

  pub rethrow-Holds : {N : Table} (strict : Bool) (e : NodeError) → Holds N (rethrow o strict e)
  rethrow-Holds true e = Holds-throw e
  rethrow-Holds false e = Holds-pure tt

  store_record-Holds :
      (user id : Text) (strict : Bool) (r : DnsRecord)
      → Holds IsSound (store_record o user id strict r)
  unfolding store_record node_ports
  store_record-Holds user id strict r =
      Leads-catch (update_node o id (set_dns o r) >> pure tt) _
        (Leads-bind (update_node o id (set_dns o r)) _
          (Leads-update_node o (λ nodes n. n) id (set_dns o r)
            (λ y nodes n e.
              update_place-IsSound id (set_dns o r) y nodes (λ z. refl) (λ server. refl) n e))
          (λ _. Holds-pure tt))
        (λ e.
          Leads-bind (cleanup_cloudflare_dns o user r.record_id) _
            (cleanup_cloudflare_dns-Holds o user _) (λ _. rethrow-Holds strict e))

  stored_or_thrown-Holds :
      (user id : Text) (strict : Bool) (r : Result NodeError DnsRecord)
      → Holds IsSound (stored_or_thrown o user id strict r)
  unfolding stored_or_thrown
  stored_or_thrown-Holds user id strict (ok r) = store_record-Holds user id strict r
  stored_or_thrown-Holds user id strict (err e) = rethrow-Holds strict e

  pub provision_cloudflare_dns-Holds :
      (user id server : Text) (proxied strict : Bool)
      → Holds IsSound (provision_cloudflare_dns o user id server proxied strict)
  unfolding provision_cloudflare_dns
  provision_cloudflare_dns-Holds user id server proxied strict = record {
    at = λ s n.
        let (r, s') = create_cloudflare_dns_record o user id server proxied false s in
        (stored_or_thrown-Holds user id strict r).at s' (
          either_way IsSound s'.nodes r
            ((create_cloudflare_dns_record-Holds o user id server proxied false).at s n));
  }

  -- what is read as used holds all that the nodes take
  pub used_ports-Clear :
      {N : Table} (server : Text)
      → Leads N
          (used_ports o server)
          (λ used nodes.
            N nodes × ((ports : List ℕ) → Misses used ports → Clear server ports nodes))
          N
  unfolding used_ports
  used_ports-Clear server = record {
    at = λ s n. elim (Result-cases (o.unavailable_ports server none s.world).0) [
      | inl (e, eq) ↦ rw eq n
      | inr (remote, eq) ↦ rw eq (
        n,
        λ ports h.
            collect-Clear server ports s.nodes
              (Misses-left (collect_server_ports s.nodes server) remote ports h),
      )
    ];
  }

  pub pick_port-Clear :
      {N : Table} (server : Text) (fixed base : Option ℕ) (impl : Option Implementation)
      (allow : Bool)
      → Leads N
          (pick_port o server fixed base impl allow)
          (λ port nodes. N nodes × Clear server (candidate_ports port impl) nodes)
          N
  unfolding pick_port
  pick_port-Clear server fixed base impl allow =
      Leads-bind (reject (not (is_some fixed) && not (is_some base)) preset_misconfigured) _
        (Holds-reject _ _)
        (λ _. Leads-bind (used_ports o server) _ (used_ports-Clear server) (λ used.
          Leads-lift (choose_port used fixed base impl allow)
            (λ port nodes e n. (
              n.0,
              n.1 (candidate_ports port impl)
                  (choose_port-IsFree used fixed base impl allow port e).0,
            ))
            (λ nodes n. n.0)))

  pub pick_chain_exit_port-Clear :
      {N : Table} (server : Text)
      → Leads N
          (pick_chain_exit_port o server)
          (λ port nodes. N nodes × Clear server (port ∷ []) nodes)
          N
  unfolding pick_chain_exit_port
  pick_chain_exit_port-Clear server =
      Leads-bind (used_ports o server) _ (used_ports-Clear server) (λ used.
        Leads-lift (choose_exit_port used)
          (λ port nodes e n. (n.0, n.1 (port ∷ []) (choose_exit_port-IsFree used port e)))
          (λ nodes n. n.0))

  pub assert_port_available-Clear :
      {N : Table} (server : Text) (port : ℕ) (impl : Option Implementation) (exclude : Option Text)
      → Leads N
          (assert_port_available o server port impl exclude)
          (λ _ nodes.
            N nodes
            × Unexcluded exclude
                (λ z. Misses (node_ports server z) (candidate_ports port impl))
                nodes)
          N
  unfolding assert_port_available
  assert_port_available-Clear server port impl exclude =
      Leads-bind (gets (λ s. keep (λ z. not (is_excluded exclude z)) s.nodes)) _
        (Leads-gets_rows (keep (λ z. not (is_excluded exclude z))))
        (λ others.
          Leads-bind (lift (check_nodes (candidate_ports port impl) server others)) _
            (Leads-lift (check_nodes (candidate_ports port impl) server others)
              (λ u nodes e n. (
                n.0,
                All-unexcluded exclude _ nodes (
                    check_nodes-Clear (candidate_ports port impl) server _ u
                      (subst (λ l. check_nodes (candidate_ports port impl) server l ≡ ok u) n.1 e)),
              ))
              (λ nodes n. n.0))
            (λ u.
              Leads-bind (ask (o.unavailable_ports server exclude)) _
                (Leads-falls _ (λ nodes n. n.0) (Leads-ask (o.unavailable_ports server exclude)))
                (λ remote.
                  Leads-falls _ (λ nodes n. n.0)
                    (Holds-lift (check_remote remote (candidate_ports port impl))))))
