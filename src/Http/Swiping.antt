-- ===== src/Http/Swiping.antt =====
-- Requests of matching through the handler of http/matching and the service down to the tables, as
-- cmd/api/main.go wires them.
use llm_dating_app.Prelude.{
  ℕ, ◌≡◌, refl, ◌≢◌, Bool, true, false, Option, some, [], arith, ◌==◌, Action, err, Text, ℤ,
}
use llm_dating_app.Middleware.{Identity}
use llm_dating_app.Http.Matching
use llm_dating_app.Http.Matching.{Service, SwipeRequest}
use llm_dating_app.Application.Matching as Services
use llm_dating_app.Application.Matching.Listing as Listings
use llm_dating_app.Application.Matching.Live.{World, live_repository, live_limiter, live_listings}
use llm_dating_app.Application.Paging.{Config}
use llm_dating_app.Postgres.Schema.{Postgis, Ranking, Tables}
use llm_dating_app.Postgres.Matching.{find_swipe}
use llm_dating_app.Domain.Matching.{
  Error, infra, interaction_blocked, RankingWeights, is_valid_action, not_found,
}
use llm_dating_app.Application.Matching.Listing.{Codec, DiscoveryCursorPayload, MatchCursorPayload}
use llm_dating_app.Redis.Keys.{Failure}
use llm_dating_app.Http.{Response, respond, write_error, not_found}
use llm_dating_app.Http.Responses.{SwipeResponse}
use llm_dating_app.Postgres.Queries.{is_blocked}
use llm_dating_app.Application.Matching.{SwipeInput}
use llm_dating_app.Connection.{Conn, query}

query-tables :
    {A : Type 0} (e : Error) (f : Tables → A) (c : Conn Tables) → (query e f c).1.tables ≡ c.tables
query-tables e f c = ground arith

module _ {File : Type 0} (g : Postgis) (r : Ranking) (config : Config) (weights : RankingWeights)
    (is_finite : ℕ → Bool) (discovery_codec : Codec DiscoveryCursorPayload)
    (match_codec : Codec MatchCursorPayload) (get : Text → Action World Failure File) where
  -- The service at a reading of the clock, with the id of a new row and of a new match.
  abbrev pub live_service : ℕ → ℕ → ℕ → Service World File
  live_service now id match_id =
      let repository = live_repository g match_id in
      let limiter = live_limiter now in
      let daily = config.daily_swipe_limit in
      let listings = live_listings g r now in
      record {
        discover = λ user cursor limit.
            Listings.discover listings config weights is_finite discovery_codec user cursor limit
              now now;
        swipe = λ user input. Services.swipe repository limiter daily user input now id;
        list_matches = λ user cursor limit.
            Listings.list_matches listings config match_codec user cursor limit now;
        unmatch = λ user match_row. Services.unmatch repository limiter daily user match_row now;
        block = λ user blocked. Services.block repository limiter daily user blocked now;
        report = λ user input. Services.report repository limiter daily user input now id;
        get_photo_content = λ user photo. Listings.get_photo_content listings get user photo;
      }

  swipe-blocked :
      (now id match_id actor : ℕ) (input : SwipeInput) (w : World)
      → (actor == input.target_id) ≡ false
      → is_valid_action input.action ≡ true
      → w.db.faults ≡ []
      → is_blocked actor input.target_id w.db.tables ≡ true
      → let (x, w') = (live_service now id match_id).swipe actor input w in
        (x ≡ err interaction_blocked) × (w'.db.tables ≡ w.db.tables)
  unfolding Services.swipe Services.after_find find_swipe
  swipe-blocked now id match_id actor input w ne a nf b =
      rw ne (rw a (rw nf (rw b (refl, query-tables infra (is_blocked actor input.target_id) w.db))))

  module _ (parse_uuid : Text → Option ℕ) (atoi : Text → Option ℤ) (sanitize : Text → Text) where
    abbrev pub live_swipe :
        ℕ
        → ℕ
        → ℕ
        → Identity
        → SwipeRequest
        → (SwipeRequest → Bool)
        → World
        → Response SwipeResponse × World
    live_swipe now id match_id who request is_valid = respond (
        Matching.swipe (live_service now id match_id) parse_uuid atoi sanitize (some who)
          (some request) is_valid)

    -- While PostgreSQL answers, a swipe on a user who is in a block with the actor is a 404,
    -- whichever of the two has blocked the other; and no table changes.
    pub live_swipe-blocked :
        (now id match_id : ℕ) (who : Identity) (request : SwipeRequest)
        (is_valid : SwipeRequest → Bool) (target : ℕ) (w : World)
        → is_valid request ≡ true
        → parse_uuid request.target_id ≡ some target
        → who.user_id ≢ target
        → is_valid_action request.action ≡ true
        → w.db.faults ≡ []
        → is_blocked who.user_id target w.db.tables ≡ true
        → let (response, w') = live_swipe now id match_id who request is_valid w in
          (response ≡ write_error 404 not_found) × (w'.db.tables ≡ w.db.tables)
    unfolding Matching.swipe Matching.write_service_error
    live_swipe-blocked now id match_id who request is_valid target w v p ne a nf b =
        let input : SwipeInput = record { target_id = target; action = request.action } in
        let refused =
          swipe-blocked now id match_id who.user_id input w (ground (arith, ne)) a nf b in
        ground (arith, v, p, refused.0, refused.1)
