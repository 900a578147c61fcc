-- ===== src/Domain.antt =====
-- backend/internal/domain: the entities and the sentinel errors of each bounded context.
pub mod User
pub mod Session
pub mod Matching
pub mod Messaging
pub mod Profile
