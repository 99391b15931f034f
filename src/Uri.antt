-- ===== src/Uri.antt =====
-- Proxy addresses and share links: apps/server/src/nodes/socks-uri.ts, nodes/protocols/xhttp.ts and
-- external-nodes/uri-parser.ts.
pub mod Numbers
pub mod Base64
pub mod HostPort
pub mod Platform
pub mod Socks
pub mod Xhttp
pub mod External
pub mod Vmess
pub mod Links
pub mod Compact
mod Tests
