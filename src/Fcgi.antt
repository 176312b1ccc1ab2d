-- ===== src/Fcgi.antt =====
-- The FastCGI client, callbacks/fcgiclient/fcgiclient.go.
pub mod Size
pub mod Wire
pub mod Record
pub mod Params
mod Examples
