-- ===== src/Nodes/Leads.antt =====
-- What a call of apps/server/src/nodes/nodes.service.ts does to the table Node: from a table that
-- fits `N` it returns a value and leaves a table that fit `Q`, or throws and leaves one that fits `F`.
pub mod Quiet
use nextpanel.Prelude.{
  ◌≡◌, refl, sym, subst, Bool, true, false, not, ◌&&◌, text_eq, Option, none, some, List, [], ◌∷◌,
  Text, find, any, keep, update_where, Option-cases, inl, inr, Bool-cases,
}
use nextpanel.Prelude.Exec.{
  Result, ok, err, Exec, continue, handled, pure, throw, lift, gets, reject, catch, ◌>>=◌, ◌>>◌,
}
use nextpanel.Prelude.Results.{Result-cases}
use nextpanel.Nodes.Model.{Node, NodeError, record_missing, node_not_found}
use nextpanel.Nodes.World.{
  Outside, Db, Service, Foreign, ask, required, find_owned, has_node_id, own_node, update_node,
  delete_node, insert_node, with_database_locks, released, settled, start, DeployOptions,
}

abbrev pub Table : Type 1
Table = List Node → Type 0

abbrev pub After : {A : Type 0} → (A → Table) → Table → Result NodeError A → Table
After Q F (ok a) nodes = Q a nodes
After Q F (err e) nodes = F nodes

pub record Leads {W A : Type 0} (N : Table) (m : Service W A) (Q : A → Table) (F : Table)
    : Type 0 where
  pub at : (s : Db W) → N s.nodes → After Q F (m s).0 (m s).1.nodes

module _ {W A : Type 0} {N F : Table} {Q : A → Table} where
  pub Leads-lift :
      (r : Result NodeError A)
      → ((a : A) (nodes : List Node) → r ≡ ok a → N nodes → Q a nodes)
      → ((nodes : List Node) → N nodes → F nodes)
      → Leads N (λ (s : Db W). (r, s)) Q F
  Leads-lift (ok a) q f = record { at = λ s n. q a s.nodes refl n }
  Leads-lift (err e) q f = record { at = λ s n. f s.nodes n }

  -- the table of the result is the one before
  pub Leads-same :
      (m : Service W A)
      → ((s : Db W) → (m s).1.nodes ≡ s.nodes)
      → ((a : A) (nodes : List Node) → N nodes → Q a nodes)
      → ((nodes : List Node) → N nodes → F nodes)
      → Leads N m Q F
  Leads-same m same q f = record { at = λ s n. after (m s).0 (subst N (sym (same s)) n) }
    where
      after : {nodes : List Node} (r : Result NodeError A) → N nodes → After Q F r nodes
      after {nodes} (ok a) n = q a nodes n
      after {nodes} (err e) n = f nodes n

  pub Leads-weak :
      {N' F' : Table} {Q' : A → Table} (m : Service W A)
      → ((nodes : List Node) → N nodes → N' nodes)
      → ((a : A) (nodes : List Node) → Q' a nodes → Q a nodes)
      → ((nodes : List Node) → F' nodes → F nodes)
      → Leads N' m Q' F'
      → Leads N m Q F
  Leads-weak {N'} {F'} {Q'} m n q f h = record {
    at = λ s k. after (m s).1.nodes (m s).0 (h.at s (n s.nodes k));
  }
    where
      after : (nodes : List Node) (r : Result NodeError A) → After Q' F' r nodes → After Q F r nodes
      after nodes (ok a) k = q a nodes k
      after nodes (err e) k = f nodes k

module _ {W A B : Type 0} {N F : Table} {Q : A → Table} {R : B → Table} where
  pub Leads-bind :
      (m : Service W A) (f : A → Service W B)
      → Leads N m Q F
      → ((a : A) → Leads (Q a) (f a) R F)
      → Leads N (λ s. continue (m s).0 f (m s).1) R F
  Leads-bind m f hm hf = record { at = λ s n. after (m s).0 (m s).1 (hm.at s n) }
    where
      after :
          (r : Result NodeError A) (s : Db W)
          → After Q F r s.nodes
          → After R F (continue r f s).0 (continue r f s).1.nodes
      after (ok a) s k = (hf a).at s k
      after (err e) s k = k

module _ {W A : Type 0} {N F G : Table} {Q : A → Table} where
  pub Leads-catch :
      (m : Service W A) (f : NodeError → Service W A)
      → Leads N m Q G
      → ((e : NodeError) → Leads G (f e) Q F)
      → Leads N (λ s. handled (m s).0 f (m s).1) Q F
  Leads-catch m f hm hf = record { at = λ s n. after (m s).0 (m s).1 (hm.at s n) }
    where
      after :
          (r : Result NodeError A) (s : Db W)
          → After Q G r s.nodes
          → After Q F (handled r f s).0 (handled r f s).1.nodes
      after (ok a) s k = k
      after (err e) s k = (hf e).at s k

-- Calls that leave the table alone.
module _ {W A : Type 0} {N : Table} where
  pub Leads-ask : (m : Foreign W A) → Leads N (ask m) (λ _. N) N
  Leads-ask m = Leads-same (ask m) (λ s. refl) (λ a nodes n. n) (λ nodes n. n)

  pub Leads-gets : (g : Db W → A) → Leads N (λ (s : Db W). (ok (g s), s)) (λ _. N) N
  Leads-gets g = record { at = λ s n. n }

  pub Leads-gets_rows :
      (g : List Node → A)
      → Leads N (λ (s : Db W). (ok (g s.nodes), s)) (λ a nodes. N nodes × (a ≡ g nodes)) N
  Leads-gets_rows g = record { at = λ s n. (n, refl) }

module _ {W : Type 0} {N : Table} where
  pub Leads-reject :
      (bad : Bool) (e : NodeError)
      → Leads N (reject {S = Db W} bad e) (λ _ nodes. N nodes × (bad ≡ false)) N
  Leads-reject true e = record { at = λ s n. n }
  Leads-reject false e = record { at = λ s n. (n, refl) }

-- A call that leaves the table alone, where what is thrown may leave less.
module _ {W A : Type 0} {N F : Table} where
  pub Leads-falls :
      (m : Service W A)
      → ((nodes : List Node) → N nodes → F nodes)
      → Leads N m (λ _. N) N
      → Leads N m (λ _. N) F
  Leads-falls m f h = Leads-weak m (λ nodes n. n) (λ a nodes n. n) f h

-- Calls that write the table.
module _ {W : Type 0} (o : Outside W) {N F : Table}
    (f : (nodes : List Node) → N nodes → F nodes) where
  pub Leads-update_node :
      {Q : Node → Table} (id : Text) (g : Node → Node)
      → ((y : Node) (nodes : List Node)
          → N nodes
          → find (has_node_id id) nodes ≡ some y
          → Q (g y) (update_where (has_node_id id) g nodes))
      → Leads N (update_node o id g) Q F
  unfolding update_node
  Leads-update_node {Q} id g q =
      Leads-bind (ask o.write) _
        (Leads-weak _ (λ nodes n. n) (λ a nodes n. n) f (Leads-ask o.write))
        (λ u. record {
          at = λ s n. elim (Option-cases (find (has_node_id id) s.nodes)) [
            | inl e ↦ rw e (f s.nodes n)
            | inr (y, e) ↦ rw e (q y s.nodes n e)
          ];
        })

  pub Leads-delete_node :
      {Q : Unit {0} → Table} (id : Text)
      → ((u : Unit {0}) (nodes : List Node)
          → N nodes
          → Q u (keep (λ node. not (has_node_id id node)) nodes))
      → Leads N (delete_node o id) Q F
  unfolding delete_node
  Leads-delete_node {Q} id q =
      Leads-bind (ask o.write) _
        (Leads-weak _ (λ nodes n. n) (λ a nodes n. n) f (Leads-ask o.write))
        (λ u. record {
          at = λ s n. elim (Bool-cases (any (has_node_id id) s.nodes)) [
            | inl e ↦ rw e (q tt s.nodes n)
            | inr e ↦ rw e (f s.nodes n)
          ];
        })

  pub Leads-insert_node :
      {Q : Node → Table} (node : Node)
      → ((nodes : List Node)
          → N nodes
          → any (has_node_id node.id) nodes ≡ false
          → Q node (node ∷ nodes))
      → Leads N (insert_node o node) Q F
  unfolding insert_node
  Leads-insert_node {Q} node q =
      Leads-bind (ask o.write) _
        (Leads-weak _ (λ nodes n. n) (λ a nodes n. n) f (Leads-ask o.write))
        (λ u. record {
          at = λ s n. elim (Bool-cases (any (has_node_id node.id) s.nodes)) [
            | inl e ↦ rw e (f s.nodes n)
            | inr e ↦ rw e (q s.nodes n e)
          ];
        })

module _ {W : Type 0} (o : Outside W) {A : Type 0} {N F : Table} {Q : A → Table} where
  pub Leads-with_database_locks :
      (keys : List Text) (work : Service W A)
      → ((nodes : List Node) → N nodes → F nodes)
      → ((a : A) (nodes : List Node) → Q a nodes → F nodes)
      → Leads N work Q F
      → Leads N (with_database_locks o keys work) Q F
  unfolding with_database_locks
  Leads-with_database_locks keys work f lost h =
      Leads-bind (ask (o.lock keys)) _
        (Leads-weak _ (λ nodes n. n) (λ a nodes n. n) f (Leads-ask (o.lock keys)))
        (λ u. record { at = λ s n. after (work s).0 (work s).1 (h.at s n) })
    where
      after :
          (r : Result NodeError A) (s : Db W)
          → After Q F r s.nodes
          → After Q F (released o r keys s).0 (released o r keys s).1.nodes
      after (ok a) s k = elim (Result-cases (o.unlock keys s.world).0) [
        | inl (e, eq) ↦ rw eq (lost a s.nodes k)
        | inr (u, eq) ↦ rw eq k
      ]
      after (err e) s k = k

module _ {W : Type 0} {N : Table} where
  pub Leads-own_node :
      (id user : Text)
      → Leads N
          (own_node {W = W} id user)
          (λ node nodes.
            N nodes × (find (λ n. has_node_id id n && text_eq n.user_id user) nodes ≡ some node))
          N
  unfolding own_node
  Leads-own_node id user = record {
    at = λ s n. elim (Option-cases (find_owned id user s)) [
      | inl e ↦ rw e n
      | inr (y, e) ↦ rw e (n, e)
    ];
  }

  pub Leads-start :
      (o : Outside W) (id : Text) (options : DeployOptions)
      → Leads N (start o id options) (λ _. N) N
  unfolding start
  Leads-start o id options = record { at = λ s n. n }
