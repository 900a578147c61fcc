-- ===== src/Tests.antt =====
-- The theorems at concrete inputs.
mod Sessions
pub mod Matching
pub mod Redis
pub mod Messaging
pub mod Application
mod Auth
mod Profile
mod Websocket
mod Platform
pub mod Listing
mod Discovering
mod Http
