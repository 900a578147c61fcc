-- ===== src/Application/Matching.antt =====
-- backend/internal/application/matching: the service over its ports (ports.go and
-- domain/matching/repository.go). Times are in milliseconds since the epoch; identifiers and the
-- clock's reading that a call draws are its arguments.
pub mod Live
pub mod Weights
pub mod Limits
pub mod Listing
pub mod Following
pub mod Cursors
pub mod Discovering
use llm_dating_app.Prelude.{
  ℕ, ◌+◌, ◌-◌, ◌*◌, ◌/◌, max, Bool, not, Option, none, some, ltb, leb, ◌==◌, if◌then◌else◌, Action,
  ◌>>=◌, ◌>>◌, pure, fail, try, ignore, or_else, fail_if, Result, ok, err, length, Text, trim_space,
}
use llm_dating_app.Domain.Matching.{
  Error, infra, SwipeOutcome, SwipeAction, ReportReason, daily_limit, is_valid_action,
  self_interaction, Report, Swipe, dependency_unavailable, invalid_swipe_action, is_valid_reason,
  invalid_report_reason, swipe_not_found, report_too_long, pending,
}
use llm_dating_app.Redis.Keys.{Failure}

pub record Repository (W : Type 0) : Type 0 where
  pub find_swipe : ℕ → ℕ → Action W Error SwipeOutcome
  pub record_swipe : Swipe → Action W Error (Option SwipeOutcome)
  pub count_swipes_since : ℕ → ℕ → Action W Error ℕ
  pub unmatch : ℕ → ℕ → ℕ → Action W Error (Unit {0})
  pub block : ℕ → ℕ → ℕ → Action W Error (Unit {0})
  pub create_report : Report → Action W Error (Unit {0})
  pub touch_activity : ℕ → ℕ → Action W Error (Unit {0})

pub record DailySwipeLimiter (W : Type 0) : Type 0 where
  pub reserve : ℕ → ℕ → ℕ → ℕ → Action W Failure (Bool × ℕ)
  pub release : ℕ → ℕ → ℕ → Action W Failure (Unit {0})

pub record SwipeInput : Type 0 where
  pub target_id : ℕ
  pub action : SwipeAction

pub record ReportInput : Type 0 where
  pub reported_id : ℕ
  pub reason : ReportReason
  pub description : Text

-- `now.Truncate(24 * time.Hour)`
abbrev pub start_of_day : ℕ → ℕ
start_of_day now = now / 86_400_000 * 86_400_000

-- `newDailyLimitError`
unfoldable pub new_daily_limit_error : ℕ → ℕ → Error
new_daily_limit_error day_start now = daily_limit (max (day_start + 86_400_000 - now) 1000)

module _ {W : Type 0} (repository : Repository W) (limiter : DailySwipeLimiter W) (daily : ℕ) where
  -- What follows the attempt to record: a reservation that stored nothing is released.
  unfoldable pub after_record :
      ℕ → ℕ → ℕ → Result Error (Option SwipeOutcome) → Action W Error SwipeOutcome
  after_record actor now persisted (err e) = do
    ignore (limiter.release actor (start_of_day now) persisted)
    fail e
  after_record actor now persisted (ok none) = do
    ignore (limiter.release actor (start_of_day now) persisted)
    fail infra
  after_record actor now persisted (ok (some outcome)) = do
    if outcome.created
        then pure tt
        else or_else (λ _. dependency_unavailable)
            (limiter.release actor (start_of_day now) persisted)
    ignore (repository.touch_activity actor now)
    pure outcome

  unfoldable pub record_reserved : ℕ → SwipeInput → ℕ → ℕ → ℕ → Action W Error SwipeOutcome
  record_reserved actor input now id persisted = do
    recorded ← try (
        repository.record_swipe (record {
          id = id;
          actor_id = actor;
          target_id = input.target_id;
          action = input.action;
          created_at = now;
        }))
    after_record actor now persisted recorded

  unfoldable pub swipe_counted : ℕ → SwipeInput → ℕ → ℕ → ℕ → Action W Error SwipeOutcome
  swipe_counted actor input now id persisted = do
    fail_if (leb daily persisted) (new_daily_limit_error (start_of_day now) now)
    (reserved, retry) ←
        or_else (λ _. dependency_unavailable)
          (limiter.reserve actor (start_of_day now) daily persisted)
    fail_if (not reserved) (daily_limit retry)
    record_reserved actor input now id persisted

  unfoldable pub swipe_new : ℕ → SwipeInput → ℕ → ℕ → Action W Error SwipeOutcome
  swipe_new actor input now id = do
    persisted ← repository.count_swipes_since actor (start_of_day now)
    swipe_counted actor input now id persisted

  unfoldable pub after_find :
      ℕ → SwipeInput → ℕ → ℕ → Result Error SwipeOutcome → Action W Error SwipeOutcome
  after_find actor input now id (ok existing) = pure existing
  after_find actor input now id (err swipe_not_found) = swipe_new actor input now id
  after_find actor input now id (err e) = fail e

  unfoldable pub swipe : ℕ → SwipeInput → ℕ → ℕ → Action W Error SwipeOutcome
  swipe actor input now id = do
    fail_if (actor == input.target_id) self_interaction
    fail_if (not (is_valid_action input.action)) invalid_swipe_action
    existing ← try (repository.find_swipe actor input.target_id)
    after_find actor input now id existing

  unfoldable pub unmatch : ℕ → ℕ → ℕ → Action W Error (Unit {0})
  unmatch user match_id now = repository.unmatch match_id user now

  unfoldable pub block : ℕ → ℕ → ℕ → Action W Error (Unit {0})
  block blocker blocked now = do
    fail_if (blocker == blocked) self_interaction
    repository.block blocker blocked now

  unfoldable pub report : ℕ → ReportInput → ℕ → ℕ → Action W Error Report
  report reporter input now id = do
    fail_if (reporter == input.reported_id) self_interaction
    fail_if (not (is_valid_reason input.reason)) invalid_report_reason
    let description = trim_space input.description
    fail_if (ltb 1000 (length description)) report_too_long
    let row : Report = record {
      id = id;
      reporter_id = reporter;
      reported_id = input.reported_id;
      reason = input.reason;
      description = description;
      status = pending;
      created_at = now;
      resolved_at = none;
    }
    repository.create_report row
    pure row
