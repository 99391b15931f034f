-- ===== src/Nodes/World.antt =====
-- What apps/server/src/nodes/nodes.service.ts works on: the tables Node and Server, and the services
-- that it calls. Of those only the deployments write the table Node; the others act on a state of
-- their own, of any type, so that an answer may depend on all that went before.
use nextpanel.Prelude.{
  ℕ, Bool, ◌&&◌, not, Option, none, some, List, ◌∷◌, Text, text_eq, find, any, keep, update_where,
}
use nextpanel.Prelude.Exec.{Result, ok, err, Exec, pure, throw, gets, modify, reject, ◌>>=◌, ◌>>◌}
use nextpanel.Nodes.Model.{Node, Server, Protocol, NodeError, node_not_found, record_missing}
use nextpanel.Uri.Platform.{Host}
use nextpanel.Uri.Socks.{SocksExit}
use nextpanel.Nodes.Credentials.{Creds, Draw}

pub record DeployOptions : Type 0 where
  pub force_rollback : Bool
  pub skip_advisory_lock : Bool
  pub previous_firewall : Option (ℕ × Protocol)

pub record DeployResult : Type 0 where
  pub success : Bool
  pub rollback_failed : Bool

-- `cfSettings.verify` and `cfSettings.getDecryptedToken`
pub record Verification : Type 0 where
  pub valid : Bool
  pub zone_active : Bool

pub record Settings : Type 0 where
  pub api_token : Text
  pub zone_id : Text
  pub domain : Text

-- A deployment that was started and not awaited.
pub record Started : Type 0 where
  pub node_id : Text
  pub options : DeployOptions

pub record Db (W : Type 0) : Type 0 where
  pub nodes : List Node
  pub servers : List Server
  pub started : List Started
  pub world : W

abbrev pub Service : Type 0 → Type 0 → Type 0
Service W A = Exec (Db W) NodeError A

abbrev pub Foreign : Type 0 → Type 0 → Type 0
Foreign W A = Exec W NodeError A

pub record Outside (W : Type 0) : Type 1 where
  -- NodeDeployService
  pub deploy : Text → DeployOptions → Service W DeployResult
  pub undeploy : Text → Service W Unit
  pub toggle_service : Text → Bool → Service W Unit
  -- ResourceLifecycleService
  pub unavailable_ports : Text → Option Text → Foreign W (List ℕ)
  -- CloudflareSettingsService and CloudflareService
  pub verify : Text → Foreign W Verification
  pub get_decrypted_token : Text → Foreign W (Option Settings)
  pub create_a_record : Settings → Text → Text → Bool → Foreign W Text
  pub delete_record : Settings → Text → Foreign W Unit
  -- CfOriginService, which is optional
  pub has_cf_origin : Bool
  pub preflight : Text → Text → Bool → Foreign W Unit
  pub remove_origin : Text → Text → Foreign W Unit
  pub check_xhttp_edge : Text → Creds → Option Text → Foreign W Unit
  -- the advisory locks: taking them, and giving them back
  pub lock : List Text → Foreign W Unit
  pub unlock : List Text → Foreign W Unit
  -- a write to the table Node may fail
  pub write : Foreign W Unit
  -- node:crypto, the identifier that the database gives, and the cipher over JSON
  pub draw : Foreign W Draw
  pub new_id : Foreign W Text
  pub encrypt : Creds → Foreign W Text
  pub encrypt_exit : SocksExit → Foreign W Text
  pub decrypt : Text → Foreign W Creds
  -- the decoders of the runtime
  pub host : Host
  -- process.env.CF_XHTTP_PILOT_ENABLED is 'true'
  pub pilot_enabled : Bool

abbrev pub has_node_id : Text → Node → Bool
has_node_id id node = text_eq node.id id

abbrev pub has_server_id : Text → Server → Bool
has_server_id id server = text_eq server.id id

module _ {W : Type 0} where
  -- a call of a service that does not write the tables
  abbrev pub ask : {A : Type 0} → Foreign W A → Service W A
  ask m s = let (r, w) = m s.world in (r, record s { world = w })

  abbrev pub required : {A : Type 0} → NodeError → Option A → Service W A
  required e none = throw e
  required e (some a) = pure a

  -- `findFirst({ where: { id, userId } })`
  abbrev pub find_owned : Text → Text → Db W → Option Node
  find_owned id user s = find (λ node. has_node_id id node && text_eq node.user_id user) s.nodes

  unfoldable pub own_node : Text → Text → Service W Node
  own_node id user = do found ← gets (find_owned id user); required node_not_found found

module _ {W : Type 0} (o : Outside W) where
  -- `update({ where: { id }, data })`, which throws if there is no such row
  unfoldable pub update_node : Text → (Node → Node) → Service W Node
  unfolding update_where
  update_node id f = do
    ask o.write
    found ← gets (λ s. find (has_node_id id) s.nodes)
    node ← required record_missing found
    modify (λ s. record s { nodes = update_where (has_node_id id) f s.nodes })
    pure (f node)

  unfoldable pub delete_node : Text → Service W Unit
  delete_node id = do
    ask o.write
    there ← gets (λ s. any (has_node_id id) s.nodes)
    reject (not there) record_missing
    modify (λ s. record s { nodes = keep (λ node. not (has_node_id id node)) s.nodes })

  -- `create`: the primary key is unique
  unfoldable pub insert_node : Node → Service W Node
  insert_node node = do
    ask o.write
    there ← gets (λ s. any (has_node_id node.id) s.nodes)
    reject there record_missing
    modify (λ s. record s { nodes = node ∷ s.nodes })
    pure node

  abbrev pub settled : {A : Type 0} → A → Result NodeError (Unit {0}) → Result NodeError A
  settled a (ok _) = ok a
  settled a (err e) = err e

  -- an error of the work is thrown, and else one of the locks
  abbrev pub released : {A : Type 0} → Result NodeError A → List Text → Service W A
  released (ok a) keys s = let (r, s') = ask (o.unlock keys) s in (settled a r, s')
  released (err e) keys s = (err e, (ask (o.unlock keys) s).1)

  unfoldable pub with_database_locks : {A : Type 0} → List Text → Service W A → Service W A
  with_database_locks keys work =
      ask (o.lock keys) >> (λ s. let (r, s') = work s in released r keys s')

  unfoldable pub start : Text → DeployOptions → Service W Unit
  start id options =
      modify (λ s. record s { started = record { node_id = id; options = options } ∷ s.started })
