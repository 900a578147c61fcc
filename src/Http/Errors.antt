-- ===== src/Http/Errors.antt =====
-- The wait that the matching handler tells a client to keep when the swipes of the day are used up.
use llm_dating_app.Prelude.{
  ℕ, ◌+◌, ◌-◌, ◌*◌, ◌/◌, ◌≤◌, ◌<◌, max, ◌≡◌, ◌≢◌, ◌⊎◌, inl, inr, Bool, true, false, Option, some,
  arith, leb, ◌==◌, Action, ok, err, Text, ℤ,
}
use llm_dating_app.Http.Matching
use llm_dating_app.Application.Matching as Services
use llm_dating_app.Http.Matching.{write_service_error, SwipeRequest}
use llm_dating_app.Http.Swiping.{live_service, live_swipe}
use llm_dating_app.Application.Matching.Live.{World}
use llm_dating_app.Application.Paging.{Config}
use llm_dating_app.Postgres.Matching.{find_swipe, count_swipes_since}
use llm_dating_app.Redis.SwipeLimiter.{reserve}
use llm_dating_app.Redis.Keys.{Key, Failure}
use llm_dating_app.Domain.Matching.{RankingWeights, swipe_not_found, daily_limit, is_valid_action}
use llm_dating_app.Http.{Response, Identity}
use llm_dating_app.Application.Matching.{SwipeInput}
use llm_dating_app.Http.{retry_seconds, write_error}
use llm_dating_app.Application.Matching.{new_daily_limit_error, start_of_day}
use llm_dating_app.Connection.{Conn}
use llm_dating_app.Postgres.Schema.{Postgis, Ranking}
use llm_dating_app.Application.Matching.Listing.{Codec, DiscoveryCursorPayload, MatchCursorPayload}
use llm_dating_app.Middleware.{Identity}
use llm_dating_app.Http.Responses.{SwipeResponse}

-- The wait in seconds, rounded up, and a second at least.
retry_seconds-bounds :
    (wait : ℕ)
    → (1 ≤ retry_seconds wait)
      × (wait ≤ retry_seconds wait * 1000)
      × (retry_seconds wait * 1000 < max wait 1 + 1000)
unfolding retry_seconds
retry_seconds-bounds wait = omega arith

-- The milliseconds to the end of the day, a second at least.
abbrev day_wait : ℕ → ℕ
day_wait now = max (start_of_day now + 86_400_000 - now) 1000

-- A refusal of SwipeLimiter.Reserve comes with the time to the end of the day.
reserve-day_wait :
    (now daily persisted retry : ℕ) (c : Conn Key)
    → (reserve now (start_of_day now) daily persisted c).0 ≡ ok (false, retry)
    → retry ≡ day_wait now
unfolding reserve
reserve-day_wait now daily persisted retry c e = ground (arith, e)

-- The start of the next day.
abbrev pub next_day : ℕ → ℕ
next_day now = (now / 86_400_000 + 1) * 86_400_000

-- A response that is a 429 whose Retry-After is a second at least: a client that waits as long comes back
-- when the day is over, and less than two seconds later.
abbrev pub IsDailyLimit : {B : Type 0} → ℕ → Response B → Type 0
IsDailyLimit now r =
    (s : ℕ) × (r.status ≡ 429)
    × (r.retry_after ≡ some s)
    × (1 ≤ s)
    × (next_day now ≤ now + s * 1000)
    × (now + s * 1000 < next_day now + 2000)

write_service_error-IsDailyLimit :
    (B : Type 0) (now : ℕ)
    → IsDailyLimit {B = B} now (write_service_error (daily_limit (day_wait now)))
unfolding write_service_error write_error
write_service_error-IsDailyLimit B now =
    let b = retry_seconds-bounds (day_wait now) in
    (
      retry_seconds (day_wait now),
      ground arith,
      ground arith,
      ground (arith, b.0),
      ground (arith, b.1),
      ground (arith, b.2),
    )

module _ {File : Type 0} (g : Postgis) (r : Ranking) (config : Config) (weights : RankingWeights)
    (is_finite : ℕ → Bool) (discovery_codec : Codec DiscoveryCursorPayload)
    (match_codec : Codec MatchCursorPayload) (get : Text → Action World Failure File) where
  swipe-daily_limit :
      (now id match_id actor persisted : ℕ) (input : SwipeInput) (w : World)
      → (actor == input.target_id) ≡ false
      → is_valid_action input.action ≡ true
      → (find_swipe actor input.target_id w.db).0 ≡ err swipe_not_found
      → (count_swipes_since actor (start_of_day now) (find_swipe actor input.target_id w.db).1).0
        ≡ ok persisted
      → (leb config.daily_swipe_limit persisted ≡ true)
        ⊎ ((retry : ℕ) × ((reserve now
                (start_of_day now)
                config.daily_swipe_limit
                persisted
                w.counter).0
              ≡ ok (false, retry)))
      → ((live_service g r config weights is_finite discovery_codec match_codec get now id
            match_id).swipe
          actor input w).0
        ≡ err (daily_limit (day_wait now))
  unfolding Services.swipe Services.after_find Services.swipe_new Services.swipe_counted
      new_daily_limit_error
  swipe-daily_limit now id match_id actor persisted input w ne a f c (inl e) =
      ground (arith, ne, a, f, c, e)
  swipe-daily_limit now id match_id actor persisted input w ne a f c (inr (retry, e)) =
      let same = reserve-day_wait now config.daily_swipe_limit persisted retry w.counter e in
      ground (arith, ne, a, f, c, e, same)

  module _ (parse_uuid : Text → Option ℕ) (atoi : Text → Option ℤ) (sanitize : Text → Text) where
    -- A first swipe on a target is refused when the swipes of the day are used up, by the count in the
    -- database or by the counter in Redis, with a 429 whose Retry-After is a second at least: a client
    -- that waits as long comes back when the day is over, and less than two seconds later.
    pub live_swipe-IsDailyLimit :
        (now id match_id persisted : ℕ) (who : Identity) (request : SwipeRequest)
        (is_valid : SwipeRequest → Bool) (target : ℕ) (w : World)
        → is_valid request ≡ true
        → parse_uuid request.target_id ≡ some target
        → who.user_id ≢ target
        → is_valid_action request.action ≡ true
        → let (found, c) = find_swipe who.user_id target w.db in
          found ≡ err swipe_not_found
          → (count_swipes_since who.user_id (start_of_day now) c).0 ≡ ok persisted
          → (leb config.daily_swipe_limit persisted ≡ true)
            ⊎ ((retry : ℕ) × ((reserve now
                    (start_of_day now)
                    config.daily_swipe_limit
                    persisted
                    w.counter).0
                  ≡ ok (false, retry)))
          → IsDailyLimit now
              (live_swipe g r config weights is_finite discovery_codec match_codec get parse_uuid
                atoi sanitize now id match_id who request is_valid w).0
    unfolding Matching.swipe
    live_swipe-IsDailyLimit now id match_id persisted who request is_valid target w v p ne a f c u =
        let input : SwipeInput = record { target_id = target; action = request.action } in
        let refused =
          swipe-daily_limit now id match_id who.user_id persisted input w (ground (arith, ne)) a f c
            u in
        let (s, status, after, one, late, soon) =
          write_service_error-IsDailyLimit SwipeResponse now in
        (
          s,
          ground (arith, v, p, refused, status),
          ground (arith, v, p, refused, after),
          one,
          late,
          soon,
        )
