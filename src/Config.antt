-- ===== src/Config.antt =====
-- src/config/build.ts: the Xray configurations, as JSON values.
pub mod Settings
pub mod Transport
pub mod Outbound
pub mod Build
pub mod Reader
pub mod Routing
pub mod Networks
pub mod Streams
pub mod Security
pub mod Chain
pub mod Plain
mod Tests
