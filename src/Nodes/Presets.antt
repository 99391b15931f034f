-- ===== src/Nodes/Presets.antt =====
-- apps/server/src/nodes/protocols/presets.ts: the presets that a user chooses from.
pub mod Ranges
use nextpanel.Prelude.{ℕ, List, [], ◌∷◌, Option, none, some, Text, text}
use nextpanel.Nodes.Model.{
  Protocol, vmess, vless, hysteria2, tuic, anytls, Implementation, xray, sing_box, Transport, tcp,
  ws, xhttp, TlsMode, plain, tls_on, reality,
}

pub data SupportedProtocol : Type 0 where
  vless_reality vless_xhttp_reality vless_xhttp_tls vless_xhttp_h3_tls : SupportedProtocol
  vless_ws_tls vless_tcp_tls hysteria2_preset tuic_v5 anytls_preset vmess_tcp : SupportedProtocol

pub data PresetTag : Type 0 where
  tag : Text → Text → PresetTag

pub data AccessMode : Type 0 where
  direct cdn : AccessMode

pub record ProtocolPreset : Type 0 where
  pub label : Text
  pub description : Text
  pub access_mode : AccessMode
  pub tags : List PresetTag
  pub protocol : Protocol
  pub implementation : Implementation
  pub transport : Option Transport
  pub tls : TlsMode
  pub fixed_port : Option ℕ
  pub port_base : Option ℕ

unfoldable pub protocol_presets : SupportedProtocol → ProtocolPreset
protocol_presets vless_reality = record {
  label = text "VLESS + REALITY";
  description = text "裸 IP 直连，抗识别能力最强，首选方案";
  access_mode = direct;
  tags =
      tag (text "极速") (text "green")
      ∷ tag (text "抗识别最强") (text "red")
      ∷ tag (text "无需域名") (text "blue")
      ∷ [];
  protocol = vless;
  implementation = xray;
  transport = some tcp;
  tls = reality;
  fixed_port = none;
  port_base = some 10000;
}
protocol_presets vless_xhttp_reality = record {
  label = text "VLESS + XHTTP + REALITY";
  description = text "基于 XHTTP 的新一代抗封锁传输，固定使用推荐的 443 端口";
  access_mode = direct;
  tags =
      tag (text "极速") (text "green")
      ∷ tag (text "抗封锁") (text "red")
      ∷ tag (text "无需域名") (text "blue")
      ∷ [];
  protocol = vless;
  implementation = xray;
  transport = some xhttp;
  tls = reality;
  fixed_port = some 443;
  port_base = none;
}
protocol_presets vless_ws_tls = record {
  label = text "VLESS + WS + TLS";
  description = text "经 Cloudflare CDN 中转，IP 被封时的保底方案";
  access_mode = cdn;
  tags =
      tag (text "中速") (text "orange")
      ∷ tag (text "高安全") (text "volcano")
      ∷ tag (text "需要 CF CDN + 域名") (text "gold")
      ∷ [];
  protocol = vless;
  implementation = xray;
  transport = some ws;
  tls = tls_on;
  fixed_port = some 443;
  port_base = none;
}
protocol_presets vless_xhttp_tls = record {
  label = text "VLESS + XHTTP + H2 + TLS (CDN)";
  description = text "经 Cloudflare CDN，独立试点；443 占用时自动选择回源端口，不替换网站或 WS。客户端须明确启用 XHTTP 导出。";
  access_mode = cdn;
  tags =
      tag (text "CDN 试点") (text "cyan")
      ∷ tag (text "新版 Mihomo") (text "blue")
      ∷ tag (text "保留 WS") (text "gold")
      ∷ [];
  protocol = vless;
  implementation = xray;
  transport = some xhttp;
  tls = tls_on;
  fixed_port = some 443;
  port_base = none;
}
protocol_presets vless_xhttp_h3_tls = record {
  label = text "VLESS + XHTTP + HTTP/3 + TLS (CDN)";
  description =
      text
        "客户端以 QUIC/HTTP/3 连接 Cloudflare，回源保持 TLS/H2；使用 packet-up，需开启 CF HTTP/3 且客户端网络允许 UDP/443。不自动回退直连。";
  access_mode = cdn;
  tags =
      tag (text "CDN") (text "cyan")
      ∷ tag (text "HTTP/3") (text "blue")
      ∷ tag (text "保留 H2 / WS") (text "gold")
      ∷ [];
  protocol = vless;
  implementation = xray;
  transport = some xhttp;
  tls = tls_on;
  fixed_port = some 443;
  port_base = none;
}
protocol_presets vless_tcp_tls = record {
  label = text "VLESS + TCP + TLS";
  description = text "直连，真实 TLS 证书，兼容不支持 REALITY 的客户端（Quantumult X 等）";
  access_mode = direct;
  tags =
      tag (text "快") (text "green")
      ∷ tag (text "高安全") (text "volcano")
      ∷ tag (text "需要域名") (text "gold")
      ∷ [];
  protocol = vless;
  implementation = xray;
  transport = some tcp;
  tls = tls_on;
  fixed_port = none;
  port_base = some 12000;
}
protocol_presets hysteria2_preset = record {
  label = text "Hysteria2";
  description = text "基于 QUIC/UDP，速度极快";
  access_mode = direct;
  tags =
      tag (text "极速") (text "green")
      ∷ tag (text "高安全") (text "volcano")
      ∷ tag (text "无需域名") (text "blue")
      ∷ [];
  protocol = hysteria2;
  implementation = sing_box;
  transport = none;
  tls = tls_on;
  fixed_port = none;
  port_base = some 13000;
}
protocol_presets tuic_v5 = record {
  label = text "TUIC v5";
  description = text "QUIC/UDP 直连；Cloudflare 仅用于 DNS 解析和证书验证，不经过 CDN。";
  access_mode = direct;
  tags =
      tag (text "极速") (text "green")
      ∷ tag (text "低延迟") (text "cyan")
      ∷ tag (text "CF DNS / 证书") (text "gold")
      ∷ [];
  protocol = tuic;
  implementation = sing_box;
  transport = none;
  tls = tls_on;
  fixed_port = none;
  port_base = some 16000;
}
protocol_presets anytls_preset = record {
  label = text "AnyTLS";
  description = text "TLS/TCP 直连；Cloudflare 仅用于 DNS 解析和证书验证，不经过 CDN。";
  access_mode = direct;
  tags =
      tag (text "稳定") (text "green")
      ∷ tag (text "高安全") (text "volcano")
      ∷ tag (text "CF DNS / 证书") (text "gold")
      ∷ [];
  protocol = anytls;
  implementation = sing_box;
  transport = none;
  tls = tls_on;
  fixed_port = none;
  port_base = some 17000;
}
protocol_presets vmess_tcp = record {
  label = text "VMess + TCP";
  description = text "兼容性最广的兜底方案，无需域名或证书，适合老旧客户端";
  access_mode = direct;
  tags =
      tag (text "快") (text "green")
      ∷ tag (text "基础加密") (text "default")
      ∷ tag (text "无需域名/证书") (text "blue")
      ∷ [];
  protocol = vmess;
  implementation = xray;
  transport = some tcp;
  tls = plain;
  fixed_port = none;
  port_base = some 14000;
}
