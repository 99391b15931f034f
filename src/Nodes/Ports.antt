-- ===== src/Nodes/Ports.antt =====
-- apps/server/src/nodes/nodes.service.ts: which ports a server's nodes take, and the choice of a new
-- one.
pub mod Free
pub mod Apart
pub mod Tables
pub mod Rewrites
pub mod Moves
use nextpanel.Prelude.{
  ℕ, zero, suc, ◌+◌, ◌-◌, ◌%◌, Bool, true, false, ◌&&◌, ◌||◌, not, Option, none, some, List, [],
  ◌∷◌, ◌++◌, Text, text_eq, ◌==◌, leb, if◌then◌else◌, any, is_some,
}
use nextpanel.Prelude.Exec.{Result, ok, err}
use nextpanel.Nodes.Model.{
  Implementation, xray, v2ray, Node, NodeError, preset_misconfigured, range_exhausted,
  exit_range_exhausted, origin_pool_exhausted, port_occupied, remote_port_occupied,
}

abbrev pub has_stats : Option Implementation → Bool
has_stats none = true
has_stats (some xray) = true
has_stats (some v2ray) = true
has_stats (some _) = false

-- `listenPort - 20000 >= 1` is 20001 at least
abbrev pub stats_port_of : ℕ → ℕ
stats_port_of listen_port =
    if leb (listen_port + 20000) 65535
    then listen_port + 20000
    else (if leb 20001 listen_port then listen_port - 20000 else 40000 + listen_port % 10000)

unfoldable pub derived_stats_port : ℕ → Option Implementation → Option ℕ
derived_stats_port listen_port implementation =
    if has_stats implementation then some (stats_port_of listen_port) else none

-- membership of a set of ports, as `usedPorts.has(port)`
abbrev pub has_port : List ℕ → ℕ → Bool
has_port ports p = any (λ q. q == p) ports

abbrev pub has_option : List ℕ → Option ℕ → Bool
has_option ports none = false
has_option ports (some p) = has_port ports p

abbrev pub to_list : Option ℕ → List ℕ
to_list none = []
to_list (some p) = p ∷ []

-- `statsPort ?? derivedStatsPort(listenPort, implementation)`
unfoldable pub taken_stats_port : Node → Option ℕ
unfolding derived_stats_port
taken_stats_port node = elim node.stats_port [
  | some p ↦ some p
  | none ↦ derived_stats_port node.listen_port node.implementation
]

abbrev pub is_at : Text → Option Text → Bool
is_at server none = false
is_at server (some s) = text_eq s server

-- the ports that one node adds to the set
unfoldable pub node_ports : Text → Node → List ℕ
unfolding taken_stats_port
node_ports server node =
    (if text_eq node.server_id server
      then node.listen_port ∷ to_list (taken_stats_port node)
      else [])
    ++ (if is_at server node.exit_server_id then to_list node.exit_port else [])

unfoldable pub collect_server_ports : List Node → Text → List ℕ
collect_server_ports [] server = []
collect_server_ports (node ∷ nodes) server =
    node_ports server node ++ collect_server_ports nodes server

-- neither the port nor its statistics port is taken
unfoldable pub is_free : List ℕ → Option Implementation → ℕ → Bool
unfolding derived_stats_port
is_free used implementation port =
    not (has_port used port) && not (has_option used (derived_stats_port port implementation))

-- the first of `count` ports from `port` on that passes the test
unfoldable pub first_free : (ℕ → Bool) → ℕ → ℕ → Option ℕ
first_free test zero port = none
first_free test (suc count) port =
    let rest = first_free test count (suc port) in if test port then some port else rest

abbrev pub found_or : NodeError → Option ℕ → Result NodeError ℕ
found_or e none = err e
found_or e (some port) = ok port

-- the port that the message names
abbrev pub conflicting_port : List ℕ → Option Implementation → ℕ → ℕ
conflicting_port used implementation port =
    if has_port used port
    then port
    else elim (derived_stats_port port implementation) [ some p ↦ p | none ↦ port ]

-- [8443, 18000, …, 18999]
unfoldable pub origin_port : List ℕ → Option Implementation → Result NodeError ℕ
unfolding is_free
origin_port used implementation =
    if is_free used implementation 8443
    then ok 8443
    else found_or origin_pool_exhausted (first_free (is_free used implementation) 1000 18000)

abbrev fixed_choice : List ℕ → Option Implementation → Bool → ℕ → Result NodeError ℕ
fixed_choice used implementation allow_origin_mapping port =
    if is_free used implementation port
    then ok port
    else (if allow_origin_mapping
        then origin_port used implementation
        else err (port_occupied (conflicting_port used implementation port)))

-- `pickPort` once it has read the ports that are taken
unfoldable pub choose_port :
    List ℕ → Option ℕ → Option ℕ → Option Implementation → Bool → Result NodeError ℕ
unfolding is_free first_free origin_port
choose_port used (some port) port_base implementation allow =
    fixed_choice used implementation allow port
choose_port used none none implementation allow = err preset_misconfigured
choose_port used none (some base) implementation allow =
    found_or range_exhausted (first_free (is_free used implementation) 1000 base)

-- `pickChainExitPort` once it has read the ports that are taken
unfoldable pub choose_exit_port : List ℕ → Result NodeError ℕ
unfolding first_free
choose_exit_port used =
    found_or exit_range_exhausted (first_free (λ port. not (has_port used port)) 1000 15000)

-- `occupied.find((port) => candidatePorts.has(port))`
unfoldable pub first_in : List ℕ → List ℕ → Option ℕ
first_in candidates [] = none
first_in candidates (port ∷ ports) =
    if has_port candidates port then some port else first_in candidates ports

abbrev pub candidate_ports : ℕ → Option Implementation → List ℕ
candidate_ports listen_port implementation =
    listen_port ∷ to_list (derived_stats_port listen_port implementation)

-- the loop over the other nodes, and the one over the remote ports
unfoldable pub check_nodes : List ℕ → Text → List Node → Result NodeError (Unit {0})
unfolding first_in node_ports
check_nodes candidates server [] = ok tt
check_nodes candidates server (node ∷ nodes) = elim (first_in candidates (node_ports server node)) [
  | some port ↦ err (port_occupied port)
  | none ↦ check_nodes candidates server nodes
]

unfoldable pub check_remote : List ℕ → List ℕ → Result NodeError (Unit {0})
unfolding first_in
check_remote remote candidates = elim (first_in remote candidates) [
  | some port ↦ err (remote_port_occupied port)
  | none ↦ ok tt
]
