-- ===== src/Probe.antt =====
-- The SOCKS5 UDP probe: apps/server/src/nodes/socks5-udp-probe.ts.
pub mod Reader
pub mod Dialog
mod Tests
