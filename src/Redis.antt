-- ===== src/Redis.antt =====
-- backend/internal/adapters/redis: the counters, locks and tickets that live in Redis.
pub mod Keys
pub mod RateLimiter
pub mod SwipeLimiter
pub mod MessageRate
pub mod Tickets
pub mod Denylist
