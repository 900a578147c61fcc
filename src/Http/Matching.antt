-- ===== src/Http/Matching.antt =====
-- backend/internal/adapters/http/matching/handler.go over the service. What the request holds is an
-- argument of a handler: the identity of the access check, and what was read of the body, the path and
-- the query.
use llm_dating_app.Prelude.{
  ℕ, Bool, Option, none, some, map, if◌then◌else◌, Action, ◌>>=◌, ◌>>◌, pure, or_else, or_fail,
  Text, is_empty_text, trim_space, is_below, ℤ, pos,
}
use llm_dating_app.Middleware.{Identity}
use llm_dating_app.Domain.Matching.{
  Error, SwipeAction, ReportReason, SwipeOutcome, Report, daily_limit, invalid_swipe_action,
  invalid_report_reason, report_too_long, self_interaction, swipe_not_found, photo_not_found, infra,
}
use llm_dating_app.Application.Matching.Listing.{DiscoveryPage, MatchPage}
use llm_dating_app.Http.{
  write_error, require_identity, retry_seconds, write_json, write_no_content, Response, Handler,
  validation_error, read_body, read_id, with_retry_after, daily_swipe_limit, Code, internal_error,
}
use llm_dating_app.Application.Matching.{SwipeInput, ReportInput}
use llm_dating_app.Http.Responses.{
  candidate_response, swipe_response, match_response, report_response, PageResponse, SwipeResponse,
  ReportResponse, CandidateResponse, MatchResponse,
}

-- The operations of the service, at the clock of the call.
pub record Service (W File : Type 0) : Type 0 where
  pub discover : ℕ → Text → ℤ → Action W Error DiscoveryPage
  pub swipe : ℕ → SwipeInput → Action W Error SwipeOutcome
  pub list_matches : ℕ → Text → ℤ → Action W Error MatchPage
  pub unmatch : ℕ → ℕ → Action W Error (Unit {0})
  pub block : ℕ → ℕ → Action W Error (Unit {0})
  pub report : ℕ → ReportInput → Action W Error Report
  pub get_photo_content : ℕ → ℕ → Action W Error (File × Text)

pub record SwipeRequest : Type 0 where
  pub target_id : Text
  pub action : SwipeAction

pub record ReportRequest : Type 0 where
  pub user_id : Text
  pub reason : ReportReason
  pub description : Text

-- `writeServiceError`
unfoldable pub write_service_error : {B : Type 0} → Error → Response B
unfolding write_error retry_seconds
write_service_error (daily_limit wait) =
    with_retry_after (retry_seconds wait) (write_error 429 daily_swipe_limit)
write_service_error Error.invalid_cursor = write_error 400 validation_error
write_service_error Error.invalid_page_size = write_error 400 validation_error
write_service_error Error.discovery_not_ready = write_error 422 Code.discovery_not_ready
write_service_error invalid_swipe_action = write_error 422 validation_error
write_service_error invalid_report_reason = write_error 422 validation_error
write_service_error report_too_long = write_error 422 validation_error
write_service_error self_interaction = write_error 422 validation_error
write_service_error Error.not_found = write_error 404 Code.not_found
write_service_error swipe_not_found = write_error 404 Code.not_found
write_service_error Error.match_not_found = write_error 404 Code.not_found
write_service_error photo_not_found = write_error 404 Code.not_found
write_service_error Error.interaction_blocked = write_error 404 Code.not_found
write_service_error Error.dependency_unavailable = write_error 503 Code.dependency_unavailable
write_service_error infra = write_error 500 internal_error

-- `parseLimit`: the parameter of the query, with what `strconv.Atoi` makes of a text.
abbrev pub positive : Option ℤ → Option ℤ
positive none = none
positive (some n) = if is_below 1 n then none else some n

unfoldable pub parse_limit : (Text → Option ℤ) → Text → Option ℤ
parse_limit atoi raw =
    if is_empty_text (trim_space raw) then some (pos 0) else positive (atoi (trim_space raw))

module _ {W File : Type 0} (service : Service W File) (parse_uuid : Text → Option ℕ)
    (atoi : Text → Option ℤ) (sanitize : Text → Text) where
  unfoldable pub discover :
      Option Identity → Text → Text → Handler W (PageResponse CandidateResponse Text)
  unfolding require_identity parse_limit write_service_error write_json candidate_response
  discover identity cursor limit_text = do
    who ← require_identity identity
    limit ← or_fail (parse_limit atoi limit_text) (write_error 400 validation_error)
    page ← or_else write_service_error (service.discover who.user_id cursor limit)
    pure (
        write_json 200 (record {
          entries = map candidate_response page.candidates;
          next_cursor = page.next_cursor;
        }))

  unfoldable pub swipe :
      Option Identity → Option SwipeRequest → (SwipeRequest → Bool) → Handler W SwipeResponse
  unfolding require_identity write_service_error write_json swipe_response
  swipe identity decoded is_valid = do
    who ← require_identity identity
    request ← read_body decoded is_valid
    target ← read_id (parse_uuid request.target_id)
    outcome ←
        or_else write_service_error
          (service.swipe who.user_id (record { target_id = target; action = request.action }))
    pure (write_json (if outcome.created then 201 else 200) (swipe_response outcome))

  unfoldable pub list_matches :
      Option Identity → Text → Text → Handler W (PageResponse MatchResponse Text)
  unfolding require_identity parse_limit write_service_error write_json match_response
  list_matches identity cursor limit_text = do
    who ← require_identity identity
    limit ← or_fail (parse_limit atoi limit_text) (write_error 400 validation_error)
    page ← or_else write_service_error (service.list_matches who.user_id cursor limit)
    pure (
        write_json 200
          (record { entries = map match_response page.matches; next_cursor = page.next_cursor }))

  unfoldable pub unmatch : Option Identity → Text → Handler W (Unit {0})
  unfolding require_identity write_service_error write_no_content
  unmatch identity match_id = do
    who ← require_identity identity
    id ← read_id (parse_uuid match_id)
    or_else write_service_error (service.unmatch who.user_id id)
    pure write_no_content

  unfoldable pub block : Option Identity → Option Text → (Text → Bool) → Handler W (Unit {0})
  unfolding require_identity write_service_error write_no_content
  block identity decoded is_valid = do
    who ← require_identity identity
    user ← read_body decoded is_valid
    blocked ← read_id (parse_uuid user)
    or_else write_service_error (service.block who.user_id blocked)
    pure write_no_content

  unfoldable pub report :
      Option Identity → Option ReportRequest → (ReportRequest → Bool) → Handler W ReportResponse
  unfolding require_identity write_service_error write_json report_response
  report identity decoded is_valid = do
    who ← require_identity identity
    request ← read_body decoded is_valid
    reported ← read_id (parse_uuid request.user_id)
    row ← or_else write_service_error (
        service.report who.user_id (record {
          reported_id = reported;
          reason = request.reason;
          description = trim_space (sanitize request.description);
        }))
    pure (write_json 201 (report_response row))

  -- With `Cache-Control: private, no-store`.
  unfoldable pub get_photo_content : Option Identity → Text → Handler W (File × Text)
  unfolding require_identity write_service_error write_json
  get_photo_content identity photo_id = do
    who ← require_identity identity
    id ← read_id (parse_uuid photo_id)
    content ← or_else write_service_error (service.get_photo_content who.user_id id)
    pure (write_json 200 content)
