-- ===== src/Watcher.antt =====
-- The watcher of configuration: configwatcher/.
pub mod UpdateLock
pub mod NewValue
pub mod Update
pub mod Debounce
pub mod Invoke
pub mod Monitor
pub mod Watching
pub mod Nodes
pub mod SchemaUpdate
pub mod Compile
pub mod Gc
pub mod Local
pub mod Recheck
pub mod Start
mod Examples
