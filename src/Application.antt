-- ===== src/Application.antt =====
-- backend/internal/application: the services over their ports.
pub mod Paging
pub mod Health
pub mod Matching
pub mod Messaging
pub mod Auth
pub mod Profile
