-- ===== src/Nodes/Dns.antt =====
-- apps/server/src/nodes/nodes.service.ts: the guards on the server and on Cloudflare, the DNS record
-- of a node, and the removal of a node whose creation failed.
use nextpanel.Prelude.{
  Bool, true, false, not, Option, none, some, [], ◌∷◌, ◌++◌, Text, text, text_eq, find, take, ◌&&◌,
  ◌==◌,
}
use nextpanel.Prelude.Exec.{Result, ok, err, pure, throw, lift, gets, reject, catch, ◌>>=◌, ◌>>◌}
use nextpanel.Nodes.Model.{
  Node, Server, NodeError, server_not_found, server_deleting, cloudflare_not_configured,
  cloudflare_not_valid, zone_not_active, edge_unavailable, wrapped,
}
use nextpanel.Nodes.Credentials.{Creds}
use nextpanel.Nodes.Identity.{cf_xhttp_profile}
use nextpanel.Nodes.World.{
  Outside, Settings, Db, Service, ask, required, has_server_id, update_node, delete_node,
}

pub record DnsRecord : Type 0 where
  pub domain : Text
  pub record_id : Text

abbrev pub dns_name : Text → Text → Settings → Text
dns_name node suffix settings = text "np-" ++ (take 8 node ++ (suffix ++ (b'.' ∷ settings.domain)))

module _ {W : Type 0} where
  abbrev pub find_own_server : Text → Text → Db W → Option Server
  find_own_server server user s =
      find (λ v. has_server_id server v && text_eq v.user_id user) s.servers

  unfoldable pub assert_owned_server : Text → Text → Service W Unit
  assert_owned_server server user = do
    found ← gets (find_own_server server user)
    v ← required server_not_found found
    reject v.deleting server_deleting

module _ {W : Type 0} (o : Outside W) where
  unfoldable pub assert_active_cloudflare : Text → Service W Unit
  assert_active_cloudflare user = do
    cf ← ask (o.verify user)
    reject (not cf.valid) cloudflare_not_valid
    reject (not cf.zone_active) zone_not_active

  -- a failure is logged: the node is deleted regardless
  unfoldable pub delete_logged : Settings → Text → Service W Unit
  delete_logged settings record_id = catch (ask (o.delete_record settings record_id)) (λ _. pure tt)

  unfoldable pub delete_with : Option Settings → Text → Service W Unit
  unfolding delete_logged
  delete_with none record_id = pure tt
  delete_with (some settings) record_id = delete_logged settings record_id

  unfoldable pub cleanup_cloudflare_dns : Text → Text → Service W Unit
  unfolding delete_with
  cleanup_cloudflare_dns user record_id = do
    settings ← ask (o.get_decrypted_token user)
    delete_with settings record_id

  -- '-' and three random bytes in hexadecimal, for a transition
  unfoldable pub transition_suffix : Bool → Service W Text
  transition_suffix true = do draw ← ask o.draw; pure (b'-' ∷ draw.hex (draw.random_bytes 3))
  transition_suffix false = pure []

  unfoldable pub create_cloudflare_dns_record :
      Text → Text → Text → Bool → Bool → Service W DnsRecord
  unfolding transition_suffix
  create_cloudflare_dns_record user node server proxied use_transition_hostname = do
    settings ← ask (o.get_decrypted_token user)
    settings ← required cloudflare_not_configured settings
    found ← gets (λ s. find (has_server_id server) s.servers)
    v ← required server_not_found found
    suffix ← transition_suffix use_transition_hostname
    record_id ← ask (o.create_a_record settings (dns_name node suffix settings) v.ip proxied)
    pure (record { domain = dns_name node suffix settings; record_id = record_id })

  -- the `delete` may fail, which is logged
  unfoldable pub rollback_created_node : Text → Service W Unit
  rollback_created_node node = catch (delete_node o node) (λ _. pure tt)

  abbrev pub set_dns : DnsRecord → Node → Node
  set_dns r node = record node { domain = some r.domain; cf_dns_record_id = some r.record_id }

  -- what the handler does: an error is thrown again only in the strict case
  abbrev pub rethrow : Bool → NodeError → Service W Unit
  rethrow true e = throw e
  rethrow false e = pure tt

  -- the write of the record's columns; where it fails the record is deleted
  unfoldable pub store_record : Text → Text → Bool → DnsRecord → Service W Unit
  store_record user node strict r =
      catch (update_node o node (set_dns r) >> pure tt)
        (λ e. cleanup_cloudflare_dns user r.record_id >> rethrow strict e)

  unfoldable pub stored_or_thrown : Text → Text → Bool → Result NodeError DnsRecord → Service W Unit
  unfolding store_record
  stored_or_thrown user node strict (ok r) = store_record user node strict r
  stored_or_thrown user node strict (err e) = rethrow strict e

  unfoldable pub provision_cloudflare_dns : Text → Text → Text → Bool → Bool → Service W Unit
  unfolding stored_or_thrown
  provision_cloudflare_dns user node server proxied strict s =
      let (r, s') = create_cloudflare_dns_record user node server proxied false s in
      stored_or_thrown user node strict r s'

  -- only H2 packet-up needs nothing of the edge
  unfoldable pub check_edge : Bool → Text → Creds → Option Text → Service W Unit
  check_edge true user c route = pure tt
  check_edge false user c route = do
    reject (not o.has_cf_origin) edge_unavailable
    catch (ask (o.check_xhttp_edge user c route)) (λ e. throw (wrapped e))

  unfoldable pub check_xhttp_edge : Text → Creds → Option Text → Service W Unit
  unfolding check_edge
  check_xhttp_edge user c route = do
    profile ← lift (cf_xhttp_profile c)
    check_edge (profile.protocol == 3) user c route
