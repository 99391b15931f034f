-- ===== src/Cloudflare.antt =====
-- The mapping of a hostname to its origin port at Cloudflare: apps/server/src/cloudflare.
pub mod Route
pub mod Zone
pub mod Rules
pub mod Dns
pub mod Checks
pub mod Api
mod Tests
