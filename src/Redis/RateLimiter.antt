-- ===== src/Redis/RateLimiter.antt =====
-- backend/internal/adapters/redis/rate_limiter.go: failed attempts per scope, and lockouts that
-- double with each violation.
pub mod Lockouts
use llm_dating_app.Prelude.{
  ℕ, ◌-◌, ◌*◌, ◌^◌, Bool, true, false, Option, none, some, ltb, leb, ◌==◌, if◌then◌else◌, Action,
}
use llm_dating_app.Redis.Keys.{
  Key, expire_in, incr, get_or_zero, Failure, set_ex, failure, remaining,
}
use llm_dating_app.Connection.{Conn, query, statement, exec}

pub record Limits : Type 0 where
  pub window : ℕ  -- seconds
  pub max_attempts : ℕ
  pub base_lockout : ℕ  -- seconds
  pub max_lockout : ℕ  -- seconds

-- `NewRateLimiter`
abbrev pub new_rate_limiter : Limits
new_rate_limiter = record { window = 900; max_attempts = 5; base_lockout = 300; max_lockout = 3600 }

-- The three keys of a scope. Their names end in different words, so no two scopes share one.
pub record Scope : Type 0 where
  pub attempts : Key
  pub lockout : Key
  pub violations : Key

pub lockout_seconds : Limits → ℕ → ℕ
lockout_seconds l violations =
    let doubled = l.base_lockout * 2 ^ (violations - 1) in
    if ltb l.max_lockout doubled then l.max_lockout else doubled

-- `if attempts == 1 then EXPIRE`
abbrev start_window : Limits → ℕ → Key → Key
start_window l now k = if get_or_zero k == 1 then expire_in now l.window k else k

lock_scope : Limits → ℕ → Scope → ℕ × Scope
lock_scope l now s =
    let violations = expire_in now 86400 (incr now s.violations) in
    let seconds = lockout_seconds l (get_or_zero violations) in
    (seconds, record { attempts = none; lockout = set_ex now 1 seconds; violations = violations })

-- `recordFailureScript`
unfoldable pub record_failure_script : Limits → ℕ → Scope → ℕ × Scope
unfolding lock_scope
record_failure_script l now s =
    let attempts = start_window l now (incr now s.attempts) in
    if leb l.max_attempts (get_or_zero attempts)
    then lock_scope l now (record s { attempts = attempts })
    else (0, record s { attempts = attempts })

-- `TTL` answers in whole seconds, by a rounding that is Redis's own: `seconds`.
module _ (seconds : ℕ → ℕ) where
  abbrev pub ttl_allows : Option ℕ → Bool × ℕ
  ttl_allows none = (true, 0)
  ttl_allows (some ms) = if ltb 0 (seconds ms) then (false, seconds ms) else (true, 0)

  unfoldable pub allowed : ℕ → Action (Conn Scope) Failure (Bool × ℕ)
  allowed now = query failure (λ s. ttl_allows (remaining now s.lockout))

unfoldable pub record_failure : Limits → ℕ → Action (Conn Scope) Failure ℕ
unfolding record_failure_script
record_failure l now = statement failure (record_failure_script l now)

unfoldable pub reset : Action (Conn Scope) Failure (Unit {0})
reset = exec failure (λ s. record s { attempts = none; lockout = none })
