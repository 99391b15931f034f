-- ===== src/Nodes/Sound/Updates.antt =====
-- apps/server/src/nodes/nodes.service.ts: the rewrites of `update`, its deployment and its way back keep the
-- ports of the nodes apart.
use nextpanel.Prelude.{
  ℕ, ◌≡◌, refl, sym, ap, subst, ◌∙◌, Bool, true, false, not, ◌⊎◌, inl, inr, Option, none, some,
  List, [], ◌∷◌, Text, text_eq, text_eq_iff, find, find_holds, find-update_where, update_where,
  Bool-cases, Option-cases,
}
use mathlib.Core.Option.{some-injective}
use nextpanel.Nodes.Model.{Node, Implementation}
use nextpanel.Nodes.Shape.{NodeShape}
use nextpanel.Nodes.Ports.{node_ports, derived_stats_port, candidate_ports}
use nextpanel.Nodes.Ports.Free.{Misses}
use nextpanel.Nodes.Ports.Apart.{Apart, Fits-Apart}
use nextpanel.Nodes.Ports.Tables.{IsSound, update-IsSound}
use nextpanel.Nodes.Ports.Rewrites.{Others, Others-map, Others-update, row-Apart}
use nextpanel.Nodes.Ports.Moves.{Moved, Moved-Fits}
use nextpanel.Nodes.World.{has_node_id}
use nextpanel.Nodes.Dns.{DnsRecord}
use nextpanel.Nodes.Create.{or_default}
use nextpanel.Nodes.Update.{
  UpdateNodeDto, changed_node, restored_node, target_port, is_other_server,
}
use nextpanel.Nodes.Replace.{change_of}
use nextpanel.Nodes.Leads.{Table}
use nextpanel.Nodes.Sound.Changes.{SamePlace, node_ports-place}

-- The table between the write of an update and the end of its deployment: the old row still fits, and
-- so does the new one.
pub record Replaced (id : Text) (x : Node) (port : ℕ) (impl : Option Implementation)
    (nodes : List Node) : Type 0 where
  pub sound : IsSound nodes
  pub present : (y : Node) × (find (has_node_id id) nodes ≡ some y)
  pub old_apart : Others id (Apart x) nodes
  pub free : Others id (λ z. Misses (node_ports x.server_id z) (candidate_ports port impl)) nodes
  pub row :
      (y : Node)
      → find (has_node_id id) nodes ≡ some y
      → Moved x port impl y × (y.stats_port ≡ x.stats_port)

Others-both :
    (id : Text) (P Q : Node → Type 0) (nodes : List Node)
    → Others id P nodes
    → Others id Q nodes
    → Others id (λ z. P z × Q z) nodes
Others-both id P Q [] h k = tt
Others-both id P Q (z ∷ zs) (h, hs) (k, ks) = (λ e. (h e, k e), Others-both id P Q zs hs ks)

-- A row is moved to a place where its new ports are free.
move-IsSound :
    (id : Text) (f : Node → Node) (x y : Node) (port : ℕ) (impl : Option Implementation)
    (nodes : List Node)
    → ((n : Node) → (f n).id ≡ n.id)
    → IsSound nodes
    → find (has_node_id id) nodes ≡ some y
    → Moved x port impl (f y)
    → ((f y).stats_port ≡ x.stats_port) ⊎ ((f y).stats_port ≡ derived_stats_port port impl)
    → Others id (Apart x) nodes
    → Others id (λ z. Misses (node_ports x.server_id z) (candidate_ports port impl)) nodes
    → IsSound (update_where (has_node_id id) f nodes)
move-IsSound id f x y port impl nodes same h e m s apart free =
    update-IsSound id f same y nodes h e (
      Others-map id _ (Apart (f y)) nodes
        (λ z k. Fits-Apart (f y) z (Moved-Fits x (f y) z port impl m s k.0 k.1))
        (Others-both id (Apart x)
          (λ z. Misses (node_ports x.server_id z) (candidate_ports port impl)) nodes apart free))

of_not-false : (b : Bool) → not b ≡ false → b ≡ true
of_not-false true h = refl
of_not-false false h = cc

same_text : (s t : Text) → not (text_eq s t) ≡ false → s ≡ t
same_text s t h = (text_eq_iff s t).0 (of_not-false _ h)

-- The row that a search finds after a rewrite is the rewritten one.
found_rewritten :
    (id : Text) (f : Node → Node) (nodes : List Node) (y : Node)
    → ((n : Node) → (f n).id ≡ n.id)
    → find (has_node_id id) (update_where (has_node_id id) f nodes) ≡ some y
    → (x : Node) × (find (has_node_id id) nodes ≡ some x) × (f x ≡ y)
unfolding update_where
found_rewritten id f [] y same e = cc
found_rewritten id f (x ∷ xs) y same e = elim (Bool-cases (has_node_id id x)) [
  | inl here ↦
      let kept : has_node_id id (f x) ≡ true = ap (λ k. text_eq k id) (same x) ∙ here in
      (x, rw here refl, some-injective (f x) y (rw (here, kept) at e))
  | inr there ↦
      let (z, found, is) = found_rewritten id f xs y same (rw there at (rw there at e)) in
      (z, rw there found, is)
]

shape_of_change :
    (dto : UpdateNodeDto) (x : Node) (shape : NodeShape) (enc : Option Text)
    (pending : Option DnsRecord)
    → (change_of dto x shape enc pending).shape ≡ shape
shape_of_change dto x shape enc none = refl
shape_of_change dto x shape enc (some r) = refl

server_kept :
    (dto : UpdateNodeDto) (x : Node)
    → is_other_server dto x ≡ false
    → or_default x.server_id dto.server_id ≡ x.server_id
server_kept dto x h = elim (Option-cases dto.server_id) [
  | inl e ↦ rw e refl
  | inr (s, e) ↦
      let r : not (text_eq s x.server_id) ≡ false = rw e at h in rw e (same_text s x.server_id r)
]

-- Before the write the row is as it was read, and the new ports are free.
abbrev pub Ready : Text → Node → ℕ → Option Implementation → Table
Ready id x port impl nodes =
    (IsSound nodes × (find (has_node_id id) nodes ≡ some x))
    × Others id (λ z. Misses (node_ports x.server_id z) (candidate_ports port impl)) nodes

pub changed-Replaced :
    (id : Text) (dto : UpdateNodeDto) (x : Node) (shape : NodeShape) (enc : Option Text)
    (pending : Option DnsRecord) (nodes : List Node)
    → is_other_server dto x ≡ false
    → Ready id x (target_port dto x) shape.implementation nodes
    → Replaced id x
        (target_port dto x)
        shape.implementation
        (update_where (has_node_id id) (changed_node dto (change_of dto x shape enc pending)) nodes)
changed-Replaced id dto x shape enc pending nodes other ((h, e), free) =
    let f = changed_node dto (change_of dto x shape enc pending) in
    let m : Moved x (target_port dto x) shape.implementation (f x) = record {
      same_server = server_kept dto x other;
      new_port = refl;
      new_implementation = ap (λ s. s.implementation) (shape_of_change dto x shape enc pending);
      same_exit = refl;
      same_exit_port = refl;
    } in
    let apart = row-Apart id x nodes h e in
    record {
      sound = move-IsSound id f x x _ _ nodes (λ n. refl) h e m (inl refl) apart free;
      present = (
        f x,
        find-update_where (has_node_id id) (has_node_id id) f nodes x (λ n. refl) e
            (find_holds _ nodes x e),
      );
      old_apart = Others-update id f _ nodes (λ n. refl) apart;
      free = Others-update id f _ nodes (λ n. refl) free;
      row = λ y found.
          let (z, was, is) = found_rewritten id f nodes y (λ n. refl) found in
          let same : x ≡ z = some-injective x z (sym e ∙ was) in
          subst
            (λ t.
              Moved x (target_port dto x) shape.implementation t × (t.stats_port ≡ x.stats_port))
            (ap f same ∙ is) (m, refl);
    }

SamePlace-Moved :
    (x a b : Node) (port : ℕ) (impl : Option Implementation)
    → SamePlace a b
    → Moved x port impl b
    → Moved x port impl a
SamePlace-Moved x a b port impl p m = record {
  same_server = p.same_server ∙ m.same_server;
  new_port = p.same_port ∙ m.new_port;
  new_implementation = p.same_implementation ∙ m.new_implementation;
  same_exit = p.same_exit ∙ m.same_exit;
  same_exit_port = p.same_exit_port ∙ m.same_exit_port;
}

-- What a deployment writes, whether it keeps the statistics port or gives the row its own.
module _ (id : Text) (x : Node) (port : ℕ) (impl : Option Implementation) (g : Node → Node)
    (same : (n : Node) → (g n).id ≡ n.id) (place : (n : Node) → SamePlace (g n) n) where
  pub deployed-IsSound :
      (nodes : List Node)
      → Replaced id x port impl nodes
      → ((n : Node)
          → ((g n).stats_port ≡ n.stats_port)
            ⊎ ((g n).stats_port ≡ derived_stats_port n.listen_port n.implementation))
      → IsSound (update_where (has_node_id id) g nodes)
  deployed-IsSound nodes r stats =
      let (y, e) = r.present in
      let (m, s) = r.row y e in
      move-IsSound id g x y port impl nodes same r.sound e
        (SamePlace-Moved x (g y) y port impl (place y) m)
        (elim (stats y) [
          | inl k ↦ inl (k ∙ s)
          | inr k ↦ inr (k ∙ (λ i. derived_stats_port (m.new_port i) (m.new_implementation i)))
        ])
        r.old_apart r.free

  pub undone-Replaced :
      (nodes : List Node)
      → Replaced id x port impl nodes
      → ((n : Node) → (g n).stats_port ≡ n.stats_port)
      → Replaced id x port impl (update_where (has_node_id id) g nodes)
  undone-Replaced nodes r stats = record {
    sound = deployed-IsSound nodes r (λ n. inl (stats n));
    present = (
      g r.present.0,
      find-update_where (has_node_id id) (has_node_id id) g nodes r.present.0
          (λ n. ap (λ k. text_eq k id) (same n)) r.present.1 (find_holds _ nodes _ r.present.1),
    );
    old_apart = Others-update id g _ nodes same r.old_apart;
    free = Others-update id g _ nodes same r.free;
    row = λ y found.
        let (z, was, is) = found_rewritten id g nodes y same found in
        let (m, s) = r.row z was in
        subst (λ t. Moved x port impl t × (t.stats_port ≡ x.stats_port)) is
          (SamePlace-Moved x (g z) z port impl (place z) m, stats z ∙ s);
  }

-- The way back: the row is where it was.
pub restored-IsSound :
    (id : Text) (x : Node) (port : ℕ) (impl : Option Implementation) (y : Node) (nodes : List Node)
    → Replaced id x port impl nodes
    → find (has_node_id id) nodes ≡ some y
    → IsSound (update_where (has_node_id id) (restored_node x) nodes)
restored-IsSound id x port impl y nodes r e =
    let (m, s) = r.row y e in
    let place : SamePlace (restored_node x y) x = record {
      same_server = refl;
      same_port = refl;
      same_implementation = refl;
      same_exit = m.same_exit;
      same_exit_port = m.same_exit_port;
    } in
    update-IsSound id (restored_node x) (λ n. refl) y nodes r.sound e
      (Others-map id (Apart x) (Apart (restored_node x y)) nodes
        (λ z a server.
          subst (λ ps. Misses (node_ports server z) ps)
            (sym (node_ports-place server (restored_node x y) x place s)) (a server))
        r.old_apart)
