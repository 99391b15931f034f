-- ===== src/Nodes/Sound/Deployments.antt =====
-- apps/server/src/nodes/nodes.service.ts: `update` from its deployment on, and as a whole.
use nextpanel.Nodes.Sound.Replacing.{
  update_guards-Ready, new_credentials-Holds, pending_record-Holds, write_change-Replaced,
  retire_record-Holds, restore-IsSound,
}
use nextpanel.Prelude.{
  ℕ, ◌≡◌, refl, sym, subst, ◌∙◌, Bool, true, false, inl, inr, Option, [], ◌∷◌, Text,
}
use nextpanel.Nodes.Model.{Node, Implementation, deploy_failed_kept}
use nextpanel.Nodes.Shape.{needs_credential_normalization}
use nextpanel.Nodes.Ports.Tables.{IsSound}
use nextpanel.Nodes.Ports.Rewrites.{found_by_id}
use nextpanel.Nodes.World.{Outside, Db, own_node}
use nextpanel.Nodes.Dns.{DnsRecord}
use nextpanel.Nodes.Create.{server_port_lock}
use nextpanel.Nodes.Update.{
  UpdateNodeDto, is_transactional, Outcome, deployed, undone, not_undone, outcome_of,
  transactional_options, legacy_options, node_operation_lock,
}
use nextpanel.Nodes.Replace.{
  needs_record, is_retired, after_deploy, deploy_or_restore, update_guards, new_credentials,
  pending_record, write_change, retire_record, redeploy, update_exclusive, update,
}
use nextpanel.Nodes.Leads.{
  Table, Leads, Leads-bind, Leads-weak, Leads-falls, Leads-with_database_locks, Leads-own_node,
  Leads-start,
}
use nextpanel.Nodes.Leads.Quiet.{Holds, Holds-pure, Holds-throw}
use nextpanel.Nodes.Sound.Creations.{own-Holds}
use nextpanel.Nodes.Sound.Changes.{Deploys}
use nextpanel.Nodes.Sound.Updates.{Replaced, deployed-IsSound, undone-Replaced}

module _ {W : Type 0} (o : Outside W) where
  -- how the table stands after a deployment
  abbrev Ended : Outcome → Text → Node → ℕ → Option Implementation → Table
  Ended undone id x port impl = Replaced id x port impl
  Ended _ id x port impl = IsSound

  after_deploy-IsSound :
      (outcome : Outcome) (id user : Text) (x : Node) (pending : Option DnsRecord) (port : ℕ)
      (impl : Option Implementation)
      → Leads
          (Ended outcome id x port impl)
          (after_deploy o outcome id user x pending)
          (λ _. IsSound)
          IsSound
  unfolding after_deploy
  after_deploy-IsSound deployed id user x pending port impl = Holds-pure tt
  after_deploy-IsSound undone id user x pending port impl =
      restore-IsSound o id user x pending port impl
  after_deploy-IsSound not_undone id user x pending port impl = Holds-throw deploy_failed_kept

  module _ (d : Deploys o) where
    deploy-IsSound :
        (id : Text) (x : Node) (port : ℕ) (impl : Option Implementation) (s : Db W)
        → Replaced id x port impl s.nodes
        → IsSound (o.deploy id (transactional_options x) s).1.nodes
    deploy-IsSound id x port impl s r =
        let options = transactional_options x in
        subst IsSound (sym (d.deploy_writes id options s)) (
          deployed-IsSound id x port impl (d.writes id options s) (d.id_kept id options s)
            (d.place_kept id options s) s.nodes r
            (λ n. elim (d.stats_kept id options s n) [ inl k ↦ inl k | inr (f, k) ↦ inr k ]))

    deploy-Ended :
        (id : Text) (x : Node) (port : ℕ) (impl : Option Implementation) (s : Db W)
        → Replaced id x port impl s.nodes
        → (outcome : Outcome) → outcome_of (o.deploy id (transactional_options x) s).0 ≡ outcome
        → Ended outcome id x port impl (o.deploy id (transactional_options x) s).1.nodes
    deploy-Ended id x port impl s r undone e =
        let options = transactional_options x in
        subst (Replaced id x port impl) (sym (d.deploy_writes id options s)) (
          undone-Replaced id x port impl (d.writes id options s) (d.id_kept id options s)
            (d.place_kept id options s) s.nodes r
            (λ n. elim (d.stats_kept id options s n) [
              | inl k ↦ k
              | inr (f, k) ↦ let bad : undone ≡ deployed = sym e ∙ f in cc
            ]))
    deploy-Ended id x port impl s r deployed e = deploy-IsSound id x port impl s r
    deploy-Ended id x port impl s r not_undone e = deploy-IsSound id x port impl s r

    deploy_or_restore-IsSound :
        (id user : Text) (x : Node) (pending : Option DnsRecord) (port : ℕ)
        (impl : Option Implementation)
        → Leads
            (Replaced id x port impl)
            (deploy_or_restore o id user x pending)
            (λ _. IsSound)
            IsSound
    unfolding deploy_or_restore
    deploy_or_restore-IsSound id user x pending port impl = record {
      at = λ s n.
          let (r, s') = o.deploy id (transactional_options x) s in
          (after_deploy-IsSound (outcome_of r) id user x pending port impl).at s'
            (deploy-Ended id x port impl s n (outcome_of r) refl);
    }

    redeploy-IsSound :
        (transactional : Bool) (id user : Text) (x : Node) (pending : Option DnsRecord) (port : ℕ)
        (impl : Option Implementation)
        → Leads
            (Replaced id x port impl)
            (redeploy o transactional id user x pending)
            (λ _. IsSound)
            IsSound
    unfolding redeploy
    redeploy-IsSound true id user x pending port impl =
        deploy_or_restore-IsSound id user x pending port impl
    redeploy-IsSound false id user x pending port impl =
        Leads-weak _ (λ nodes n. n.sound) (λ a nodes n. n) (λ nodes n. n)
          (Leads-start o id (legacy_options x))

    update_exclusive-Holds :
        (id : Text) (dto : UpdateNodeDto) (user : Text)
        → Holds IsSound (update_exclusive o id dto user)
    unfolding update_exclusive
    update_exclusive-Holds id dto user =
        Leads-bind (own_node id user) _ (Leads-own_node id user) (λ x.
          Leads-bind (update_guards o id dto user x) _
            (Leads-weak _ (λ nodes n. (n.0, found_by_id id user x nodes n.0 n.1)) (λ a nodes n. n)
              (λ nodes n. n.0) (update_guards-Ready o id dto user x))
            (λ shape.
              Leads-bind (new_credentials o (needs_credential_normalization shape) dto user shape x)
                _ (Leads-falls _ (λ nodes n. n.0.0.0) (new_credentials-Holds o _ dto user shape x))
                (λ enc.
                  Leads-bind (pending_record o (needs_record dto x shape) id dto user x) _
                    (Leads-falls _ (λ nodes n. n.0.0.0) (pending_record-Holds o _ id dto user x))
                    (λ pending.
                      Leads-bind (write_change o id dto user x shape enc pending) _
                        (write_change-Replaced o id dto user x shape enc pending)
                        (λ node.
                          Leads-bind (redeploy o (is_transactional x shape) id user x pending) _
                            (redeploy-IsSound _ id user x pending _ _)
                            (λ _.
                              Leads-bind (retire_record o (is_retired x shape pending) user x) _
                                (retire_record-Holds o _ user x) (λ _. Holds-pure node)))))))

    -- `update`, whatever its outcome, keeps the identifiers of the nodes distinct and their ports apart,
    -- also where its deployment fails and the old row is put back, provided that the deployments write
    -- what `Deploys` says.
    pub update-IsSound :
        (id : Text) (dto : UpdateNodeDto) (user : Text) → Holds IsSound (update o id dto user)
    unfolding update
    update-IsSound id dto user = Leads-bind (own_node id user) _ (own-Holds o id user) (λ target.
        Leads-with_database_locks o
          (node_operation_lock id ∷ server_port_lock target.server_id ∷ []) _ (λ nodes n. n)
          (λ a nodes n. n) (update_exclusive-Holds id dto user))
