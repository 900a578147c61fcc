-- ===== src/Application/Matching/Live.antt =====
-- The matching service as cmd/api/main.go wires it: PostgreSQL behind the repository and Redis behind
-- the limiter. Of Redis the world has the one key of the actor's day.
use llm_dating_app.Prelude.{ℕ, Option, some, Action, ok, err}
use llm_dating_app.Domain.Matching.{Error, SwipeOutcome}
use llm_dating_app.Postgres.Matching
use llm_dating_app.Redis.SwipeLimiter
use llm_dating_app.Application.Matching.{Repository, DailySwipeLimiter, SwipeOutcome, Failure}
use llm_dating_app.Connection.{Conn}
use llm_dating_app.Postgres.Schema.{Postgis, Tables, Ranking}
use llm_dating_app.Postgres.Matching.Listing.{list_candidates, list_matches, get_visible_photo}
use llm_dating_app.Application.Matching.Listing.{Listings}
use llm_dating_app.Redis.Keys.{Key, Failure}

pub record World : Type 0 where
  pub db : Conn Tables
  pub counter : Conn Key

abbrev pub on_db : {A : Type 0} → Action (Conn Tables) Error A → Action World Error A
on_db m w = let (r, c) = m w.db in (r, record w { db = c })

abbrev pub on_counter : {A : Type 0} → Action (Conn Key) Failure A → Action World Failure A
on_counter m w = let (r, c) = m w.counter in (r, record w { counter = c })

-- The repository never returns a swipe without an outcome.
abbrev pub outcome_of : Action World Error SwipeOutcome → Action World Error (Option SwipeOutcome)
outcome_of m w = let (r, w') = m w in (elim r [ ok o ↦ ok (some o) | err e ↦ err e ], w')

abbrev pub live_repository : Postgis → ℕ → Repository World
live_repository g match_id = record {
  find_swipe = λ actor target. on_db (Matching.find_swipe actor target);
  record_swipe = λ s. outcome_of (on_db (Matching.record_swipe g s match_id));
  count_swipes_since = λ actor since. on_db (Matching.count_swipes_since actor since);
  unmatch = λ match_id actor at. on_db (Matching.unmatch match_id actor at);
  block = λ blocker blocked at. on_db (Matching.block blocker blocked at);
  create_report = λ r. on_db (Matching.create_report r);
  touch_activity = λ user at. on_db (Matching.touch_activity user at);
}

abbrev pub live_limiter : ℕ → DailySwipeLimiter World
live_limiter now = record {
  reserve = λ user day_start limit persisted.
      on_counter (SwipeLimiter.reserve now day_start limit persisted);
  release = λ user day_start floor. on_counter (SwipeLimiter.release now floor);
}

-- The methods of the same repository that the listings use; `now` is its clock.
abbrev pub live_listings : Postgis → Ranking → ℕ → Listings World
live_listings g r now = record {
  ensure_discovery_ready = λ user. on_db (Matching.ensure_discovery_ready user);
  list_candidates = λ p. on_db (list_candidates g r p);
  list_matches = λ p. on_db (list_matches p);
  get_visible_photo = λ viewer photo. on_db (get_visible_photo g viewer photo now);
  touch_activity = λ user at. on_db (Matching.touch_activity user at);
}
