-- ===== src/Nodes/Sound/Runs.antt =====
-- apps/server/src/nodes/nodes.service.ts: any series of calls of the service.
use nextpanel.Prelude.{List, [], ◌∷◌, Text}
use nextpanel.Nodes.Ports.Tables.{IsSound}
use nextpanel.Nodes.World.{Outside, Db, Service}
use nextpanel.Nodes.Create.{CreateNodeDto, create}
use nextpanel.Nodes.FromPreset.{CreateNodeFromPresetDto, CreateChainNodeDto, create_from_preset}
use nextpanel.Nodes.Chain.{create_chain_node}
use nextpanel.Nodes.Update.{UpdateNodeDto}
use nextpanel.Nodes.Replace.{update}
use nextpanel.Nodes.Manage.{rename, toggle, remove}
use nextpanel.Nodes.Leads.Quiet.{Holds}
use nextpanel.Nodes.Sound.{either_way}
use nextpanel.Nodes.Sound.Creations.{create-IsSound}
use nextpanel.Nodes.Sound.Presets.{create_from_preset-IsSound}
use nextpanel.Nodes.Sound.Chains.{create_chain_node-IsSound}
use nextpanel.Nodes.Sound.Changes.{Deploys, rename-IsSound, toggle-IsSound, remove-IsSound}
use nextpanel.Nodes.Sound.Deployments.{update-IsSound}

-- One call, with the user who makes it.
pub data Request : Type 0 where
  creates : CreateNodeDto → Text → Request
  creates_from_preset : Text → CreateNodeFromPresetDto → Request
  creates_chain : Text → CreateChainNodeDto → Request
  updates : Text → UpdateNodeDto → Text → Request
  renames : Text → Text → Text → Request
  toggles : Text → Text → Request
  removes : Text → Text → Request

module _ {W : Type 0} (o : Outside W) where
  -- the state that a call leaves, whether it returns or throws
  unfoldable pub serve : Request → Db W → Db W
  serve (creates dto user) s = (create o dto user s).1
  serve (creates_from_preset user dto) s = (create_from_preset o user dto s).1
  serve (creates_chain user dto) s = (create_chain_node o user dto s).1
  serve (updates id dto user) s = (update o id dto user s).1
  serve (renames id name user) s = (rename o id name user s).1
  serve (toggles id user) s = (toggle o id user s).1
  serve (removes id user) s = (remove o id user s).1

  unfoldable pub serve_all : List Request → Db W → Db W
  serve_all [] s = s
  serve_all (r ∷ rs) s = serve_all rs (serve r s)

  kept :
      {A : Type 0} (m : Service W A)
      → Holds IsSound m
      → (s : Db W) → IsSound s.nodes
      → IsSound (m s).1.nodes
  kept m h s n = either_way IsSound (m s).1.nodes (m s).0 (h.at s n)

  serve-IsSound : Deploys o → (r : Request) (s : Db W) → IsSound s.nodes → IsSound (serve r s).nodes
  unfolding serve
  serve-IsSound d (creates dto user) s h = kept (create o dto user) (create-IsSound o dto user) s h
  serve-IsSound d (creates_from_preset user dto) s h =
      kept (create_from_preset o user dto) (create_from_preset-IsSound o user dto) s h
  serve-IsSound d (creates_chain user dto) s h =
      kept (create_chain_node o user dto) (create_chain_node-IsSound o user dto) s h
  serve-IsSound d (updates id dto user) s h =
      kept (update o id dto user) (update-IsSound o d id dto user) s h
  serve-IsSound d (renames id name user) s h =
      kept (rename o id name user) (rename-IsSound o id name user) s h
  serve-IsSound d (toggles id user) s h = kept (toggle o id user) (toggle-IsSound o d id user) s h
  serve-IsSound d (removes id user) s h = kept (remove o id user) (remove-IsSound o d id user) s h

  -- Whatever calls the service answers, and however each ends, the identifiers of the nodes stay
  -- distinct and no two nodes take the same port of a server: as listening port, as statistics port or
  -- as the exit of a chain. The deployments that the service awaits write only what `Deploys` says;
  -- those that it starts and does not await are not among the steps.
  pub serve_all-IsSound :
      Deploys o → (rs : List Request) (s : Db W) → IsSound s.nodes → IsSound (serve_all rs s).nodes
  unfolding serve_all
  serve_all-IsSound d [] s h = h
  serve_all-IsSound d (r ∷ rs) s h = serve_all-IsSound d rs (serve r s) (serve-IsSound d r s h)
