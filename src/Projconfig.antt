-- ===== src/Projconfig.antt =====
-- Where the value of a setting comes from: projconfig/projconfig.go. The local database, the memory
-- and the server are explicit state; the cipher, the TOML parser and the server's answers are
-- arguments.
pub mod Base64
pub mod FetchLock
pub mod Local
pub mod Server
pub mod Config
pub mod Debug
mod Examples
