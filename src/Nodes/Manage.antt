-- ===== src/Nodes/Manage.antt =====
-- apps/server/src/nodes/nodes.service.ts: the queries, `rename`, `toggle`, `remove` and
-- `getCredentials`.
pub mod Removed
use nextpanel.Prelude.{
  ℕ, Bool, true, false, ◌&&◌, not, Option, none, some, List, [], ◌∷◌, Text, text_eq, keep, is_some,
  if◌then◌else◌,
}
use nextpanel.Prelude.Exec.{Exec, pure, throw, gets, reject, ◌>>=◌, ◌>>◌}
use nextpanel.Nodes.Model.{Node, NodeError, origin_unavailable, running, stopped}
use nextpanel.Nodes.Credentials.{Creds, is_filled}
use nextpanel.Nodes.World.{
  Outside, Db, Service, ask, own_node, update_node, delete_node, with_database_locks,
}
use nextpanel.Nodes.Dns.{cleanup_cloudflare_dns}
use nextpanel.Nodes.Create.{when}
use nextpanel.Nodes.Update.{node_operation_lock}

-- an empty `serverId` is no filter
abbrev is_listed : Option Text → Node → Bool
is_listed none node = true
is_listed (some []) node = true
is_listed (some (c ∷ s)) node = text_eq node.server_id (c ∷ s)

module _ {W : Type 0} where
  unfoldable pub find_all : Text → Option Text → Service W (List Node)
  find_all user server =
      gets (λ s. keep (λ node. text_eq node.user_id user && is_listed server node) s.nodes)

module _ {W : Type 0} (o : Outside W) where
  unfoldable pub rename : Text → Text → Text → Service W Node
  rename id name user = do node ← own_node id user; update_node o id (λ n. record n { name = name })

  abbrev pub toggled : Bool → Node → Node
  toggled enabled n = record n { enabled = enabled; status = if enabled then running else stopped }

  unfoldable pub toggle_exclusive : Text → Text → Service W Node
  toggle_exclusive id user = do
    node ← own_node id user
    o.toggle_service id (not node.enabled)
    update_node o id (toggled (not node.enabled))

  unfoldable pub toggle : Text → Text → Service W Node
  toggle id user = do
    node ← own_node id user
    with_database_locks o (node_operation_lock id ∷ []) (toggle_exclusive id user)

  abbrev pub clean_record : Node → Option Text → Service W Unit
  clean_record node none = pure tt
  clean_record node (some []) = pure tt
  clean_record node (some (c ∷ s)) = cleanup_cloudflare_dns o node.user_id (c ∷ s)

  -- what Cloudflare holds of a node: a mapping of its origin, or a record of its own
  unfoldable pub clean_held : Text → Node → Option Text → Service W Unit
  clean_held user node (some route) =
      reject (not o.has_cf_origin) origin_unavailable >> ask (o.remove_origin user route)
  clean_held user node none = clean_record node node.cf_dns_record_id

  unfoldable pub remove_exclusive : Text → Text → Service W Unit
  remove_exclusive id user = do
    node ← own_node id user
    o.undeploy id
    clean_held user node node.cf_origin_route
    delete_node o id

  unfoldable pub remove : Text → Text → Service W Unit
  remove id user = do
    node ← own_node id user
    with_database_locks o (node_operation_lock id ∷ []) (remove_exclusive id user)

  unfoldable pub get_credentials : Text → Text → Service W Creds
  get_credentials id user = do node ← own_node id user; ask (o.decrypt node.credentials_enc)
