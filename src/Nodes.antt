-- ===== src/Nodes.antt =====
-- apps/server/src/nodes: the service of proxy nodes, with its presets, credentials and ports.
pub mod Model
pub mod Shape
pub mod Presets
pub mod Ports
pub mod Credentials
pub mod Identity
pub mod World
pub mod Dns
pub mod Create
pub mod FromPreset
pub mod Chain
pub mod Leads
pub mod Sound
pub mod Update
pub mod Replace
pub mod Manage
mod Tests
