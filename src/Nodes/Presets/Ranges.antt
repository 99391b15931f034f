-- ===== src/Nodes/Presets/Ranges.antt =====
-- apps/server/src/nodes/protocols/presets.ts: the pools of ports that the presets draw from.
use nextpanel.Prelude.{
  ℕ, ◌+◌, ◌<◌, ◌≤◌, ◌≡◌, ◌≢◌, ◌⊎◌, inl, inr, Option, none, some, arith, ◌==◌, sym, ap, ◌∙◌, ◌*◌,
  ◌/◌, if◌then◌else◌,
}
use nextpanel.Nodes.Shape.{NodeShape}
use nextpanel.Nodes.Shape.Laws.{IsAllowed}
use nextpanel.Nodes.Model.{Implementation}
use nextpanel.Nodes.Ports.Free.{Misses}
use nextpanel.Nodes.Ports.{candidate_ports, derived_stats_port}
use nextpanel.Nodes.Presets.{
  SupportedProtocol, protocol_presets, vless_reality, vless_tcp_tls, hysteria2_preset, vmess_tcp,
  tuic_v5, anytls_preset,
}

abbrev pub preset_shape : SupportedProtocol → NodeShape
preset_shape key =
    let preset = protocol_presets key in
    record {
      protocol = preset.protocol;
      implementation = some preset.implementation;
      transport = preset.transport;
      tls = preset.tls;
    }

-- Every preset is of a shape that the service would accept from a user.
pub protocol_presets-IsAllowed : (key : SupportedProtocol) → IsAllowed (preset_shape key)
unfolding protocol_presets
protocol_presets-IsAllowed key = record {
  no_quic = λ q. ground arith;
  xhttp_rule = λ q. ground arith;
  managed_rule = λ q. ground arith;
  reality_rule = λ q. ground arith;
}

preset_of_base : ℕ → SupportedProtocol
preset_of_base base =
    if base == 10000
    then vless_reality
    else (if base == 12000
        then vless_tcp_tls
        else (if base == 13000
            then hysteria2_preset
            else (if base == 14000
                then vmess_tcp
                else (if base == 16000 then tuic_v5 else anytls_preset))))

preset_of_base_lem :
    (key : SupportedProtocol) (base : ℕ)
    → (protocol_presets key).port_base ≡ some base
    → preset_of_base base ≡ key
unfolding preset_of_base protocol_presets
preset_of_base_lem key base h = ground arith

-- A pool starts at a multiple of 1000 that leaves 15000 and 18000 to others.
pool_start :
    (key : SupportedProtocol) (base : ℕ)
    → (protocol_presets key).port_base ≡ some base
    → (n : ℕ) × (base ≡ 1000 * n) × (10 ≤ n) × (n ≤ 17)
unfolding protocol_presets
pool_start key base h = (base / 1000, ground arith, ground arith, ground arith)

-- what a port takes: itself, and 20000 more where it has a statistics port
candidates_of :
    (port : ℕ) (impl : Option Implementation)
    → port ≤ 45535
    → (derived_stats_port port impl ≡ none) ⊎ (derived_stats_port port impl ≡ some (port + 20000))
unfolding derived_stats_port
candidates_of port impl h = ground arith

pools_apart :
    (base base' n m i j : ℕ) (impl impl' : Option Implementation)
    → base ≡ 1000 * n
    → base' ≡ 1000 * m
    → 10 ≤ n
    → n ≤ 17
    → 10 ≤ m
    → m ≤ 17
    → n ≢ m
    → i < 1000
    → j < 1000
    → Misses (candidate_ports (base + i) impl) (candidate_ports (base' + j) impl')
pools_apart base base' n m i j impl impl' eb eb' ln un lm um ne li lj =
    elim (candidates_of (base + i) impl (omega (arith, eb, un, li))) [
      | inl e ↦ elim (candidates_of (base' + j) impl' (omega (arith, eb', um, lj))) [
        | inl f ↦ rw (e, f) (ground arith)
        | inr f ↦ rw (e, f) (ground arith)
      ]
      | inr e ↦ elim (candidates_of (base' + j) impl' (omega (arith, eb', um, lj))) [
        | inl f ↦ rw (e, f) (ground arith)
        | inr f ↦ rw (e, f) (ground arith)
      ]
    ]

-- Two presets that draw from a pool never meet: no port of the one, nor its statistics port, is a
-- port of the other or its statistics port.
pub protocol_presets-Misses :
    (key key' : SupportedProtocol) (base base' i j : ℕ)
    → (protocol_presets key).port_base ≡ some base
    → (protocol_presets key').port_base ≡ some base'
    → key ≢ key'
    → i < 1000
    → j < 1000
    → Misses
        (candidate_ports (base + i) (some (protocol_presets key).implementation))
        (candidate_ports (base' + j) (some (protocol_presets key').implementation))
protocol_presets-Misses key key' base base' i j h h' ne li lj =
    let (n, e, ln, un) = pool_start key base h in
    let (m, e', lm, um) = pool_start key' base' h' in
    let differ : n ≢ m = λ same. ne (
      sym (preset_of_base_lem key base h)
      ∙ ap preset_of_base (e ∙ ap (λ k. 1000 * k) same ∙ sym e')
      ∙ preset_of_base_lem key' base' h') in
    pools_apart base base' n m i j _ _ e e' ln un lm um differ li lj
