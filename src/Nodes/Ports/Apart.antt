-- ===== src/Nodes/Ports/Apart.antt =====
-- apps/server/src/nodes/nodes.service.ts: no two nodes take the same port of a server.
use nextpanel.Prelude.{
  ℕ, ◌≡◌, refl, subst, false, Option, none, some, List, [], ◌∷◌, ◌++◌, Text, text_eq, text_eq_iff,
  All, All-append, arith, Bool-cases, Option-cases, inl, inr, if◌then◌else◌,
}
use nextpanel.Prelude.Exec.{ok}
use nextpanel.Nodes.Model.{Node}
use nextpanel.Nodes.Ports.{
  has_port, to_list, taken_stats_port, is_at, node_ports, collect_server_ports, first_in,
  check_nodes,
}
use nextpanel.Nodes.Ports.Free.{Misses}

-- On no server does the one take a port of the other.
abbrev pub Apart : Node → Node → Type 0
Apart x y = (server : Text) → Misses (node_ports server y) (node_ports server x)

abbrev pub PortsApart : List Node → Type 0
PortsApart [] = Unit
PortsApart (x ∷ xs) = All (Apart x) xs × PortsApart xs

pub has_port-append :
    (xs ys : List ℕ) (p : ℕ)
    → has_port (xs ++ ys) p ≡ false
    → (has_port xs p ≡ false) × (has_port ys p ≡ false)
has_port-append [] ys p h = (refl, h)
has_port-append (x ∷ xs) ys p h = ground (arith, has_port-append xs ys p)

pub Misses-left : (xs ys ports : List ℕ) → Misses (xs ++ ys) ports → Misses xs ports
Misses-left xs ys [] h = tt
Misses-left xs ys (p ∷ ports) (h, k) = ((has_port-append xs ys p h).0, Misses-left xs ys ports k)

pub Misses-right : (xs ys ports : List ℕ) → Misses (xs ++ ys) ports → Misses ys ports
Misses-right xs ys [] h = tt
Misses-right xs ys (p ∷ ports) (h, k) = ((has_port-append xs ys p h).1, Misses-right xs ys ports k)

Misses-nil : (ports : List ℕ) → Misses [] ports
Misses-nil [] = tt
Misses-nil (p ∷ ports) = (refl, Misses-nil ports)

Misses-cons :
    (x : ℕ) (xs ports : List ℕ) → has_port ports x ≡ false → Misses xs ports → Misses (x ∷ xs) ports
Misses-cons x xs [] h k = tt
Misses-cons x xs (p ∷ ports) h (k, ks) = (ground arith, Misses-cons x xs ports (ground arith) ks)

pub Misses-sym : (xs ys : List ℕ) → Misses xs ys → Misses ys xs
Misses-sym xs [] h = Misses-nil xs
Misses-sym xs (y ∷ ys) (h, k) = Misses-cons y ys xs h (Misses-sym xs ys k)

-- The ports of a list miss those of every node on a server.
abbrev pub Clear : Text → List ℕ → List Node → Type 0
Clear server ports nodes = All (λ node. Misses (node_ports server node) ports) nodes

pub collect-Clear :
    (server : Text) (ports : List ℕ) (nodes : List Node)
    → Misses (collect_server_ports nodes server) ports
    → Clear server ports nodes
unfolding collect_server_ports
collect-Clear server ports [] h = tt
collect-Clear server ports (x ∷ xs) h = (
  Misses-left (node_ports server x) _ ports h,
  collect-Clear server ports xs (Misses-right (node_ports server x) _ ports h),
)

first_in-none :
    (candidates ports : List ℕ) → first_in candidates ports ≡ none → Misses candidates ports
unfolding first_in
first_in-none candidates [] h = tt
first_in-none candidates (p ∷ ports) h = elim (Bool-cases (has_port candidates p)) [
  | inl taken ↦ ground (arith, taken, h)
  | inr free ↦ (free, first_in-none candidates ports (rw free at h))
]

pub check_nodes-Clear :
    (candidates : List ℕ) (server : Text) (nodes : List Node) (u : Unit {0})
    → check_nodes candidates server nodes ≡ ok u
    → Clear server candidates nodes
unfolding check_nodes
check_nodes-Clear candidates server [] u h = tt
check_nodes-Clear candidates server (x ∷ xs) u h =
    elim (Option-cases (first_in candidates (node_ports server x))) [
      | inl e ↦ (
        Misses-sym candidates (node_ports server x) (first_in-none candidates _ e),
        check_nodes-Clear candidates server xs u (rw (e, check_nodes) at h),
      )
      | inr (port, e) ↦ let bad = rw (e, check_nodes) at h in cc
    ]

-- What a node takes on its server, and on the server where it leaves.
abbrev pub Fits : Node → Node → Type 0
Fits x y =
    Misses (node_ports x.server_id y) (x.listen_port ∷ to_list (taken_stats_port x))
    × ((exit : Text)
        → x.exit_server_id ≡ some exit
        → Misses (node_ports exit y) (to_list x.exit_port))

at_server :
    (server here : Text) (taken : List ℕ) (P : Text → List ℕ)
    → Misses (P here) taken
    → Misses (P server) (if text_eq here server then taken else [])
at_server server here taken P h = elim (Bool-cases (text_eq here server)) [
  | inl e ↦ rw e (subst (λ s. Misses (P s) taken) ((text_eq_iff here server).0 e) h)
  | inr e ↦ rw e tt
]

at_exit :
    (server : Text) (exit : Option Text) (taken : List ℕ) (P : Text → List ℕ)
    → ((e : Text) → exit ≡ some e → Misses (P e) taken)
    → Misses (P server) (if is_at server exit then taken else [])
at_exit server none taken P h = tt
at_exit server (some e) taken P h = at_server server e taken P (h e refl)

pub Fits-Apart : (x y : Node) → Fits x y → Apart x y
unfolding node_ports
Fits-Apart x y (listens, leaves) server =
    All-append (λ p. has_port (node_ports server y) p ≡ false) _ _
      (at_server server x.server_id _ (λ s. node_ports s y) listens)
      (at_exit server x.exit_server_id (to_list x.exit_port) (λ s. node_ports s y) leaves)

pub Apart-sym : (x y : Node) → Apart x y → Apart y x
Apart-sym x y h server = Misses-sym _ _ (h server)
