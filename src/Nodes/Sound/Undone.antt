-- ===== src/Nodes/Sound/Undone.antt =====
-- apps/server/src/nodes/nodes.service.ts: a `create` that throws leaves nothing behind.
use nextpanel.Prelude.{
  ◌≡◌, refl, sym, subst, ap, ◌∙◌, Bool, true, false, not, ◌&&◌, none, some, List, [], ◌∷◌, Text,
  text_eq, text_eq_iff, any, find, keep, update_where, update_where_none, arith,
}
use nextpanel.Prelude.Exec.{Result, ok, err, ◌>>◌, pure}
use nextpanel.Nodes.Model.{Node, NodeError}
use nextpanel.Nodes.Shape.{NodeShape, is_managed_certificate_protocol}
use nextpanel.Nodes.World.{
  Outside, Db, Service, ask, has_node_id, delete_node, update_node, own_node, find_owned,
  with_database_locks, released, start,
}
use nextpanel.Nodes.Dns.{
  DnsRecord, assert_owned_server, rollback_created_node, provision_cloudflare_dns, set_dns,
  store_record, stored_or_thrown, create_cloudflare_dns_record, cleanup_cloudflare_dns,
}
use nextpanel.Nodes.Create.{
  CreateNodeDto, create, create_row, created_node, checked_shape, sealed_credentials,
  provision_or_remove, answer, when, server_port_lock, default_options, assert_port_available,
}
use nextpanel.Nodes.Leads.{
  Table, After, Leads, Leads-bind, Leads-weak, Leads-catch, Leads-ask, Leads-insert_node,
  Leads-update_node,
}
use nextpanel.Nodes.Leads.Quiet.{
  Holds, Holds-pure, assert_owned_server-Holds, checked_shape-Holds, sealed_credentials-Holds,
  cleanup_cloudflare_dns-Holds, create_cloudflare_dns_record-Holds,
}
use nextpanel.Nodes.Sound.{assert_port_available-Clear, rethrow-Holds, either_way}

-- The database takes every write, and gives the locks back without an error.
pub record IsReliable {W : Type 0} (o : Outside W) : Type 0 where
  pub writes : (w : W) → (o.write w).0 ≡ ok tt
  pub unlocks : (keys : List Text) (w : W) → (o.unlock keys w).0 ≡ ok tt

-- The table is as it was.
abbrev Was : List Node → Table
Was before nodes = nodes ≡ before

-- The table has one row more, that of the node, which is new.
record Added (before : List Node) (id user : Text) (nodes : List Node) : Type 0 where
  pub row : Node
  pub row_id : row.id ≡ id
  pub row_user : row.user_id ≡ user
  pub is_new : any (has_node_id id) before ≡ false
  pub rows : nodes ≡ row ∷ before

has_row_id :
    (before : List Node) (id user : Text) (nodes : List Node) (a : Added before id user nodes)
    → has_node_id id a.row ≡ true
has_row_id before id user nodes a = (text_eq_iff a.row.id id).1 a.row_id

keep_all :
    (id : Text) (nodes : List Node)
    → any (has_node_id id) nodes ≡ false
    → keep (λ n. not (has_node_id id n)) nodes ≡ nodes
keep_all id [] h = refl
keep_all id (n ∷ nodes) h = ground (arith, keep_all id nodes)

-- The deletion gives back the table from before.
deleted :
    (before : List Node) (id user : Text) (nodes : List Node)
    → Added before id user nodes
    → keep (λ n. not (has_node_id id n)) nodes ≡ before
deleted before id user nodes a =
    ap (keep (λ n. not (has_node_id id n))) a.rows
    ∙ rw (has_row_id before id user nodes a) (keep_all id before a.is_new)

redone :
    (before : List Node) (id user : Text) (nodes : List Node) (f : Node → Node)
    → ((n : Node) → (f n).id ≡ n.id)
    → ((n : Node) → (f n).user_id ≡ n.user_id)
    → Added before id user nodes
    → Added before id user (update_where (has_node_id id) f nodes)
unfolding update_where
redone before id user nodes f same same_user a = record {
  row = f a.row;
  row_id = same a.row ∙ a.row_id;
  row_user = same_user a.row ∙ a.row_user;
  is_new = a.is_new;
  rows =
      ap (update_where (has_node_id id) f) a.rows
      ∙ rw (has_row_id before id user nodes a, update_where_none (has_node_id id) f before a.is_new)
          refl;
}

module _ {W : Type 0} (o : Outside W) (reliable : IsReliable o) (before : List Node) where
  -- a row that is there is deleted
  delete_node-sure :
      (id user : Text) → Leads (Added before id user) (delete_node o id) (λ _. Was before) (λ _. ⊥)
  unfolding delete_node
  delete_node-sure id user = record {
    at = λ s a.
        let there : any (has_node_id id) s.nodes ≡ true =
          subst (λ l. any (has_node_id id) l ≡ true) (sym a.rows)
            (rw (has_row_id before id user s.nodes a) refl) in
        rw (reliable.writes s.world, there) (deleted before id user s.nodes a);
  }

  rollback-Was :
      (id user : Text)
      → Leads (Added before id user) (rollback_created_node o id) (λ _. Was before) (Was before)
  unfolding rollback_created_node
  rollback-Was id user =
      Leads-catch (delete_node o id) _ (delete_node-sure id user)
        (λ e. record { at = λ s n. elim n [ ] })

  locks-Was :
      {A : Type 0} {N : Table} {Q : A → Table} (keys : List Text) (work : Service W A)
      → Leads N work Q N
      → Leads N (with_database_locks o keys work) Q N
  unfolding with_database_locks
  locks-Was {A} {N} {Q} keys work h =
      Leads-bind (ask (o.lock keys)) _ (Leads-ask (o.lock keys))
        (λ u. record { at = λ s n. after (work s).0 (work s).1 (h.at s n) })
    where
      after :
          (r : Result NodeError A) (s : Db W)
          → After Q N r s.nodes
          → After Q N (released o r keys s).0 (released o r keys s).1.nodes
      after (ok a) s k = rw (reliable.unlocks keys s.world) k
      after (err e) s k = k

  module _ (id user : Text) where
    store_record-Added :
        (strict : Bool) (r : DnsRecord)
        → Holds (Added before id user) (store_record o user id strict r)
    unfolding store_record
    store_record-Added strict r =
        Leads-catch (update_node o id (set_dns o r) >> pure tt) _
          (Leads-bind (update_node o id (set_dns o r)) _
            (Leads-update_node o (λ nodes a. a) id (set_dns o r)
              (λ y nodes a e. redone before id user nodes (set_dns o r) (λ n. refl) (λ n. refl) a))
            (λ _. Holds-pure tt))
          (λ e.
            Leads-bind (cleanup_cloudflare_dns o user r.record_id) _
              (cleanup_cloudflare_dns-Holds o user _) (λ _. rethrow-Holds o strict e))

    stored_or_thrown-Added :
        (strict : Bool) (r : Result NodeError DnsRecord)
        → Holds (Added before id user) (stored_or_thrown o user id strict r)
    unfolding stored_or_thrown
    stored_or_thrown-Added strict (ok r) = store_record-Added strict r
    stored_or_thrown-Added strict (err e) = rethrow-Holds o strict e

    provision-Added :
        (server : Text) (proxied strict : Bool)
        → Holds (Added before id user) (provision_cloudflare_dns o user id server proxied strict)
    unfolding provision_cloudflare_dns
    provision-Added server proxied strict = record {
      at = λ s a.
          let (r, s') = create_cloudflare_dns_record o user id server proxied false s in
          (stored_or_thrown-Added strict r).at s' (
            either_way (Added before id user) s'.nodes r
              ((create_cloudflare_dns_record-Holds o user id server proxied false).at s a));
    }

    own_node-sure :
        Leads (Added before id user) (own_node {W = W} id user) (λ _ _. Unit) (Was before)
    unfolding own_node
    own_node-sure = record {
      at = λ s a.
          let both : has_node_id id a.row && text_eq a.row.user_id user ≡ true =
            rw (has_row_id before id user s.nodes a)
              ((text_eq_iff a.row.user_id user).1 a.row_user) in
          let found : find_owned id user s ≡ some a.row =
            subst (λ l. find (λ n. has_node_id id n && text_eq n.user_id user) l ≡ some a.row)
              (sym a.rows) (rw both refl) in
          rw found tt;
    }

  provision_or_remove-Was :
      (user : Text) (node : Node) (proxied strict : Bool)
      → Leads
          (Added before node.id user)
          (provision_or_remove o user node proxied strict)
          (λ _. Added before node.id user)
          (Was before)
  unfolding provision_or_remove
  provision_or_remove-Was user node proxied strict =
      Leads-catch (provision_cloudflare_dns o user node.id node.server_id proxied strict) _
        (provision-Added node.id user node.server_id proxied strict)
        (λ e.
          Leads-bind (rollback_created_node o node.id) _ (rollback-Was node.id user)
            (λ _. record { at = λ s n. n }))

  provision_if-Was :
      (managed : Bool) (user : Text) (node : Node)
      → Leads
          (Added before node.id user)
          (when managed (provision_or_remove o user node false true))
          (λ _. Added before node.id user)
          (Was before)
  provision_if-Was true user node = provision_or_remove-Was user node false true
  provision_if-Was false user node = record { at = λ s a. a }

  answer-Was :
      (again : Bool) (node : Node) (user : Text)
      → Leads (Added before node.id user) (answer o again node user) (λ _ _. Unit) (Was before)
  answer-Was true node user = own_node-sure node.id user
  answer-Was false node user = record { at = λ s a. tt }

  create_row-Added :
      (dto : CreateNodeDto) (shape : NodeShape) (user enc : Text)
      → Leads
          (Was before)
          (create_row o dto shape user enc)
          (λ node. Added before node.id user)
          (Was before)
  unfolding create_row
  create_row-Added dto shape user enc =
      Leads-bind (assert_owned_server dto.server_id user) _ (assert_owned_server-Holds _ _) (λ _.
        Leads-bind (assert_port_available o dto.server_id dto.listen_port shape.implementation none)
          _
          (Leads-weak _ (λ nodes n. n) (λ a nodes n. n.0) (λ nodes n. n)
            (assert_port_available-Clear o dto.server_id dto.listen_port shape.implementation none))
          (λ _. Leads-bind (ask o.new_id) _ (Leads-ask o.new_id) (λ id.
            Leads-insert_node o (λ nodes n. n) (created_node dto shape user id enc)
              (λ nodes n new. record {
                row = created_node dto shape user id enc;
                row_id = refl;
                row_user = refl;
                is_new = subst (λ l. any (has_node_id id) l ≡ false) n new;
                rows = ap (λ l. created_node dto shape user id enc ∷ l) n;
              }))))

  create-Was :
      (dto : CreateNodeDto) (user : Text)
      → Leads (Was before) (create o dto user) (λ _ _. Unit) (Was before)
  unfolding create start
  create-Was dto user =
      Leads-bind (assert_owned_server dto.server_id user) _ (assert_owned_server-Holds _ _) (λ _.
        Leads-bind (checked_shape o dto user) _ (checked_shape-Holds o dto user) (λ shape.
          Leads-bind (sealed_credentials o shape dto.credentials) _
            (sealed_credentials-Holds o shape _)
            (λ enc.
              Leads-bind
                (with_database_locks o (server_port_lock dto.server_id ∷ [])
                  (create_row o dto shape user enc))
                _ (locks-Was _ _ (create_row-Added dto shape user enc))
                (λ node.
                  Leads-bind
                    (when (is_managed_certificate_protocol shape.protocol)
                      (provision_or_remove o user node false true))
                    _ (provision_if-Was _ user node)
                    (λ _.
                      Leads-bind (start o node.id default_options) _ (record { at = λ s a. a })
                        (λ _.
                          answer-Was (is_managed_certificate_protocol shape.protocol) node
                            user))))))

thrown :
    {A : Type 0} (Q : A → Table) (F : Table) (r : Result NodeError A) (e : NodeError)
    (nodes : List Node)
    → r ≡ err e
    → After Q F r nodes
    → F nodes
thrown Q F r e nodes h k = subst (λ t. After Q F t nodes) h k

-- A `create` that throws leaves the table as it was, also where the row was there already and its DNS
-- record could not be made, provided that the database takes every write and gives the locks back.
pub create-undone :
    {W : Type 0} (o : Outside W) (dto : CreateNodeDto) (user : Text) (s : Db W) (e : NodeError)
    → IsReliable o
    → (create o dto user s).0 ≡ err e
    → (create o dto user s).1.nodes ≡ s.nodes
create-undone o dto user s e reliable h =
    thrown (λ _ _. Unit) (Was s.nodes) (create o dto user s).0 e _ h
      ((create-Was o reliable s.nodes dto user).at s refl)
