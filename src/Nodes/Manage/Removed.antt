-- ===== src/Nodes/Manage/Removed.antt =====
-- apps/server/src/nodes/nodes.service.ts: `remove` deletes a row only behind an undeploy.
use nextpanel.Prelude.{
  ◌≡◌, refl, subst, Bool, false, not, List, [], ◌∷◌, Text, any, keep, Option-cases, inl, inr, arith,
}
use nextpanel.Prelude.Exec.{Result, ok, err, ok_of_continue, continue, ◌>>◌}
use nextpanel.Nodes.Model.{Node, NodeError}
use nextpanel.Nodes.World.{Outside, Db, Service, has_node_id, own_node, find_owned, delete_node}
use nextpanel.Nodes.Manage.{remove_exclusive, clean_held}
use nextpanel.Nodes.Leads.{Table, After, Leads, Leads-bind, Leads-delete_node}

keep-not_lem : (p : Node → Bool) (nodes : List Node) → any p (keep (λ n. not (p n)) nodes) ≡ false
keep-not_lem p [] = refl
keep-not_lem p (n ∷ nodes) = ground (arith, keep-not_lem p nodes)

nothing : Table
nothing nodes = Unit

whatever :
    {A : Type 0} (nodes : List Node) (r : Result NodeError A) → After (λ _. nothing) nothing r nodes
unfolding nothing
whatever nodes (ok a) = tt
whatever nodes (err e) = tt

any_call : {W A : Type 0} (m : Service W A) → Leads nothing m (λ _. nothing) nothing
any_call m = record { at = λ s n. whatever (m s).1.nodes (m s).0 }

own_node-same : {W : Type 0} (id user : Text) (s : Db W) → (own_node id user s).1 ≡ s
unfolding own_node
own_node-same id user s = elim (Option-cases (find_owned id user s)) [
  | inl e ↦ rw e refl
  | inr (x, e) ↦ rw e refl
]

module _ {W : Type 0} (o : Outside W) where
  gone :
      (id user : Text)
      → Leads nothing
          (remove_exclusive o id user)
          (λ _ nodes. any (has_node_id id) nodes ≡ false)
          nothing
  unfolding remove_exclusive
  gone id user = Leads-bind (own_node id user) _ (any_call _) (λ x.
      Leads-bind (o.undeploy id) _ (any_call _) (λ _.
        Leads-bind (clean_held o user x x.cf_origin_route) _ (any_call _) (λ _.
          Leads-delete_node o (λ nodes n. n) id
            (λ u nodes n. keep-not_lem (has_node_id id) nodes))))

  after_ok :
      {A : Type 0} (Q : A → Table) (F : Table) (r : Result NodeError A) (a : A) (nodes : List Node)
      → r ≡ ok a
      → After Q F r nodes
      → Q a nodes
  after_ok Q F r a nodes e h = subst (λ t. After Q F t nodes) e h

  -- A removal that returns has undeployed the node first, from the state that it was called in, and
  -- leaves no row under its identifier.
  pub remove_exclusive-undeployed :
      (id user : Text) (s : Db W) (u : Unit {0})
      → (remove_exclusive o id user s).0 ≡ ok u
      → ((o.undeploy id s).0 ≡ ok tt)
        × (any (has_node_id id) (remove_exclusive o id user s).1.nodes ≡ false)
  unfolding remove_exclusive nothing
  remove_exclusive-undeployed id user s u h =
      let (x, _, rest) = ok_of_continue (own_node id user s).0 _ (own_node id user s).1 u h in
      let there =
        subst
          (λ t.
            (continue (o.undeploy id t).0
              (λ _. clean_held o user x x.cf_origin_route >> delete_node o id)
              (o.undeploy id t).1).0
            ≡ ok u)
          (own_node-same id user s) rest in
      let (v, undeployed, _) = ok_of_continue (o.undeploy id s).0 _ (o.undeploy id s).1 u there in
      (
        undeployed,
        after_ok (λ _ nodes. any (has_node_id id) nodes ≡ false) nothing _ u _ h
            ((gone id user).at s tt),
      )
