-- ===== src/Connection.antt =====
-- The local configuration service: the connection package.
pub mod Response
pub mod Request
pub mod Shutdown
pub mod Console
pub mod Serve
pub mod Server
pub mod Statistics
mod Examples
