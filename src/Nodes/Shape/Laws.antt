-- ===== src/Nodes/Shape/Laws.antt =====
-- apps/server/src/nodes/nodes.service.ts: which shapes a node can have.
use nextpanel.Prelude.{◌≡◌, ◌↔◌, ◌≢◌, true, none, some, arith}
use nextpanel.Prelude.Exec.{ok}
use nextpanel.Nodes.Model.{vless, quic, xhttp, xray, sing_box, plain, tls_on, reality}
use nextpanel.Nodes.Shape.{
  NodeShape, ShapeInput, normalize_node_shape, is_managed_certificate_protocol,
}

-- What the service promises of a node's shape, one rule to a field.
pub record IsAllowed (s : NodeShape) : Type 0 where
  pub no_quic : s.transport ≢ some quic
  pub xhttp_rule :
      s.transport ≡ some xhttp
      → (s.protocol ≡ vless) × (s.implementation ≡ some xray) × (s.tls ≢ plain)
  pub managed_rule :
      is_managed_certificate_protocol s.protocol ≡ true
      → (s.implementation ≡ some sing_box) × (s.transport ≡ none) × (s.tls ≡ tls_on)
  pub reality_rule : s.tls ≡ reality → s.protocol ≡ vless

abbrev pub as_input : NodeShape → ShapeInput
as_input s = record {
  protocol = s.protocol;
  implementation = s.implementation;
  transport = s.transport;
  tls = some s.tls;
}

-- A shape that the normalization gives is one that the rules allow.
pub normalize_node_shape-IsAllowed :
    (i : ShapeInput) (s : NodeShape) → normalize_node_shape i ≡ ok s → IsAllowed s
unfolding normalize_node_shape
normalize_node_shape-IsAllowed i s h = record {
  no_quic = λ q. ground arith;
  xhttp_rule = λ q. ground arith;
  managed_rule = λ q. ground arith;
  reality_rule = λ q. ground arith;
}

-- A shape that the rules allow is given back unchanged.
pub normalize_node_shape-allowed :
    (s : NodeShape) → IsAllowed s → normalize_node_shape (as_input s) ≡ ok s
unfolding normalize_node_shape
normalize_node_shape-allowed s h = ground (arith, h)

-- The normalization leaves a shape alone exactly if the rules allow it.
pub normalize_node_shape-fixed :
    (s : NodeShape) → (normalize_node_shape (as_input s) ≡ ok s) ↔ IsAllowed s
normalize_node_shape-fixed s =
    (normalize_node_shape-IsAllowed (as_input s) s, normalize_node_shape-allowed s)
