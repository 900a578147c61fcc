-- ===== src/Redis/SwipeLimiter.antt =====
-- backend/internal/adapters/redis/swipe_limiter.go: the fast counter of a user's swipes of a day.
pub mod Interleaving
use llm_dating_app.Prelude.{
  ℕ, ◌+◌, ◌-◌, ◌/◌, max, Bool, true, false, ltb, leb, if◌then◌else◌, Action, ◌>>=◌, ◌>>◌, pure,
}
use llm_dating_app.Redis.Keys.{
  Key, get_or_zero, Failure, current, set_ex, decr, failure, expire_in, incr,
}
use llm_dating_app.Connection.{Conn, exec, statement}

-- `reserveSwipeScript`
unfoldable pub reserve_script : ℕ → ℕ → ℕ → ℕ → Key → Bool × Key
reserve_script now persisted daily_limit ttl k =
    let seen = get_or_zero (current now k) in
    let raised = if ltb seen persisted then set_ex now persisted ttl else current now k in
    let count = if ltb seen persisted then persisted else seen in
    if leb daily_limit count then (false, raised) else (true, expire_in now ttl (incr now raised))

-- `releaseSwipeScript`
unfoldable pub release_script : ℕ → ℕ → Key → Key
release_script now floor k =
    if ltb floor (get_or_zero (current now k)) then decr now k else current now k

-- The time until the day ends, a second at least; milliseconds.
abbrev pub retry_after : ℕ → ℕ → ℕ
retry_after day_start now = max (day_start + 86_400_000 - now) 1000

unfoldable pub reserve : ℕ → ℕ → ℕ → ℕ → Action (Conn Key) Failure (Bool × ℕ)
reserve now day_start daily_limit persisted = do
  allowed ←
      statement failure
        (reserve_script now persisted daily_limit (retry_after day_start now / 1000 + 3600))
  pure (allowed, retry_after day_start now)

unfoldable pub release : ℕ → ℕ → Action (Conn Key) Failure (Unit {0})
release now floor = exec failure (release_script now floor)
