-- ===== src/Tests/Http.antt =====
-- Requests, by users whose identifiers are the first characters of their texts.
use mathlib.Core.List.Perm
use llm_dating_app.Prelude.{
  ℕ, suc, ◌/◌, ◌≡◌, refl, inr, true, false, Option, none, some, [], ◌∷◌, arith, ◌==◌, ok, err, any,
  Text, text_eq, is_empty_text, trim_space,
}
use llm_dating_app.Middleware.{Identity}
use llm_dating_app.Http.Messaging
use llm_dating_app.Domain.Messaging.{MessageType}
use llm_dating_app.Postgres.Messaging.{get_active_participants}
use llm_dating_app.Application.Messaging.{send_text, admit, persist_and_publish}
use llm_dating_app.Postgres.Messaging as Rows
use llm_dating_app.Domain.User
use llm_dating_app.Http.{not_found, Response, write_json, write_error, respond, value}
use llm_dating_app.Application.Auth.{infra, dependency_unavailable}
use llm_dating_app.Http.Messaging.{SendMessageRequest}
use llm_dating_app.Http.Matching.{SwipeRequest}
use llm_dating_app.Http.Swiping
use llm_dating_app.Http.Auth
use llm_dating_app.Http.Auth.{HandlerConfig, Headers, origin_allowed}
use llm_dating_app.Application.Matching.Live as MatchingLive
use llm_dating_app.Application.Messaging.Live as MessagingLive
use llm_dating_app.Http.Responses.{MessageResponse, SwipeResponse}
use llm_dating_app.Tests.Application.{before_send, before_swipe, two_a_minute}
use llm_dating_app.Application.Matching.Listing.{Codec}
use llm_dating_app.Domain.Matching.{like, is_valid_action}
use llm_dating_app.Postgres.Queries.{is_blocked}
use llm_dating_app.Application.Matching.{start_of_day}
use llm_dating_app.Application.Health.{Finished}
use llm_dating_app.Http.Health.{ready, ready-Perm}
use llm_dating_app.Http.Requests.{live_send, live_send-again}
use llm_dating_app.Tests.Matching.{conn, liked_once, postgis}
use llm_dating_app.Http.Swiping.{live_swipe-blocked}
use llm_dating_app.Http.Cookies.{refresh-cookie}
use llm_dating_app.Tests.Listing.{ranking, paging, weights}
use llm_dating_app.Http.Errors.{live_swipe-IsDailyLimit, IsDailyLimit}
use llm_dating_app.Postgres.Matching.{find_swipe, find_swipe_outcome, count_swipes_since}
use llm_dating_app.Postgres.Queries.{get_swipe, count_swipes_since_rows}
use llm_dating_app.Redis.SwipeLimiter.{reserve, reserve_script}
use llm_dating_app.Domain.Matching.{swipe_not_found}
use llm_dating_app.Application.Messaging.Live.{publish}
use llm_dating_app.Redis.MessageRate.{allow}
use llm_dating_app.Postgres.Messaging.{
  get_active_participants, get_active_participants_row, insert_message, get_message_by_nonce,
}

abbrev first_rune : Text → Option ℕ
first_rune [] = none
first_rune (c ∷ s) = some c

abbrev who : Identity
who = record { user_id = 1; jti = 5; expires_at = 100 }

abbrev hello : SendMessageRequest
hello = record { client_nonce = 77 ∷ []; type = []; content = 32 ∷ 72 ∷ [] }

abbrev sent_message : MessageResponse
sent_message = record {
  id = 40;
  match_id = 30;
  sender_id = 1;
  client_nonce = some 77;
  type = MessageType.text;
  content = 72 ∷ [];
  storage_key = [];
  read_at = none;
  created_at = 5000;
}

abbrev sending : ℕ → ℕ → MessagingLive.World → Response MessageResponse × MessagingLive.World
sending now id =
    live_send (λ u. u ∷ []) (λ t. none) (λ ms. ms / 1000) two_a_minute (λ t. some none) (9 ∷ []) 30
      first_rune (λ t. none) (λ s. s) (λ q. true) now id who (30 ∷ []) hello

hello_sent : (sending 5000 40 before_send).0.body ≡ value sent_message
unfolding Messaging.send write_json send_text admit persist_and_publish publish trim_space allow
    get_active_participants get_active_participants_row Rows.send insert_message
hello_sent = refl

hello_again : (sending 6000 41 (sending 5000 40 before_send).1).0.body ≡ value sent_message
unfolding Messaging.send write_json send_text admit persist_and_publish publish trim_space allow
    get_active_participants get_active_participants_row Rows.send insert_message
    get_message_by_nonce
hello_again = refl

live_send-again_example :
    let w' = (sending 5000 40 before_send).1 in
    let (b, w2) = sending 6000 41 w' in
    (sent_message ≡ sent_message) × (b.status ≡ 200) × (w2.db.tables ≡ w'.db.tables)
live_send-again_example =
    live_send-again (λ u. u ∷ []) (λ t. none) (λ ms. ms / 1000) two_a_minute (λ t. some none)
      (9 ∷ []) 30 first_rune (λ t. none) (λ s. s) (λ q. true) 5000 6000 40 41 who (30 ∷ []) hello 30
      77 before_send sent_message sent_message refl refl refl refl hello_sent hello_again

-- The services of matching, with no payload that can be encoded.
abbrev no_codec : {P : Type 0} → Codec P
no_codec = record {
  base64_encode = λ s. s;
  base64_decode = some;
  marshal = λ p. none;
  decode_one = λ s. none;
  is_end = is_empty_text;
}

abbrev blocked_world : MatchingLive.World
blocked_world = record before_swipe {
  db = conn (record liked_once {
    blocks = record { blocker_id = 2; blocked_id = 1; created_at = 40 } ∷ [];
  });
}

abbrev like_2 : SwipeRequest
like_2 = record { target_id = 2 ∷ []; action = like }

is_blocked_1 : is_blocked 1 2 blocked_world.db.tables ≡ true
unfolding is_blocked
is_blocked_1 = refl

like_is_valid : is_valid_action like ≡ true
unfolding is_valid_action
like_is_valid = refl

abbrev swiping : MatchingLive.World → Response SwipeResponse × MatchingLive.World
swiping =
    Swiping.live_swipe postgis ranking paging weights (λ x. true) no_codec no_codec
      (λ key w. (ok key, w)) first_rune (λ t. none) (λ s. s) 1000 21 30 who like_2 (λ q. true)

live_swipe-blocked_example :
    ((swiping blocked_world).0 ≡ write_error 404 not_found)
    × ((swiping blocked_world).1.db.tables ≡ blocked_world.db.tables)
live_swipe-blocked_example =
    live_swipe-blocked postgis ranking paging weights (λ x. true) no_codec no_codec
      (λ key w. (ok key, w)) first_rune (λ t. none) (λ s. s) 1000 21 30 who like_2 (λ q. true) 2
      blocked_world refl refl (omega arith) like_is_valid refl is_blocked_1

-- A service that fails whatever it is asked, and counts the calls.
abbrev failing_service : Auth.Service ℕ
failing_service = record {
  register = λ i n. (err infra, suc n);
  login = λ i n. (err infra, suc n);
  refresh = λ i n. (err dependency_unavailable, suc n);
  logout = λ i t n. (err infra, suc n);
  logout_all = λ u n. (err infra, suc n);
  me = λ u n. (err User.Error.infra, suc n);
}

abbrev cookies : HandlerConfig
cookies = record { cookie_path = 47 ∷ []; cookie_secure = true; allowed_origins = [] }

abbrev from_app : Headers
from_app = record { client_ip = []; user_agent = []; origin = []; refresh_cookie = some (7 ∷ []) }

from_app_allowed : origin_allowed cookies from_app.origin ≡ true
unfolding origin_allowed
from_app_allowed = refl

refresh-cookie_example :
    let (r, n) = respond (Auth.refresh failing_service cookies (λ t. none) (λ s. s) from_app) 0 in
    (n ≡ 1)
    × (r.cookie
        ≡ some (record {
          content = [];
          path = cookies.cookie_path;
          is_secure = true;
          expires = none;
          is_cleared = true;
        }))
    × ((r.status == 200) ≡ false)
    × (any (λ n. n == r.status) (200 ∷ 401 ∷ 429 ∷ 500 ∷ 503 ∷ []) ≡ true)
refresh-cookie_example =
    refresh-cookie failing_service cookies (λ t. none) (λ s. s) from_app (7 ∷ []) 0 from_app_allowed
      refl

-- The counter of the actor is at the limit, although the database counts no swipe.
abbrev counted_out : MatchingLive.World
counted_out = record before_swipe {
  counter = record {
    tables = some (record { value = 100; expires = some 90_000_000 });
    saved = none;
    faults = [];
  };
}

no_swipe : (find_swipe 1 2 counted_out.db).0 ≡ err swipe_not_found
unfolding find_swipe find_swipe_outcome is_blocked get_swipe
no_swipe = refl

none_counted : (count_swipes_since 1 (start_of_day 1000) (find_swipe 1 2 counted_out.db).1).0 ≡ ok 0
unfolding find_swipe find_swipe_outcome is_blocked get_swipe count_swipes_since
    count_swipes_since_rows
none_counted = refl

not_reserved :
    (reserve 1000 (start_of_day 1000) 100 0 counted_out.counter).0 ≡ ok (false, 86_399_000)
unfolding reserve reserve_script
not_reserved = refl

live_swipe-IsDailyLimit_example : IsDailyLimit 1000 (swiping counted_out).0
live_swipe-IsDailyLimit_example =
    live_swipe-IsDailyLimit postgis ranking paging weights (λ x. true) no_codec no_codec
      (λ key w. (ok key, w)) first_rune (λ t. none) (λ s. s) 1000 21 30 0 who like_2 (λ q. true) 2
      counted_out refl refl (omega arith) like_is_valid no_swipe none_counted
      (inr (86_399_000, not_reserved))

abbrev postgres_up : Finished
postgres_up = record { name = 112 ∷ []; has_failed = false }

abbrev redis_down : Finished
redis_down = record { name = 114 ∷ []; has_failed = true }

names_differ : text_eq redis_down.name postgres_up.name ≡ false
unfolding text_eq
names_differ = refl

ready-Perm_example : (ready (redis_down ∷ postgres_up ∷ [])).status ≡ 503
ready-Perm_example =
    ready-Perm (postgres_up ∷ redis_down ∷ []) (redis_down ∷ postgres_up ∷ [])
      (Perm.swap postgres_up redis_down []) ((names_differ, tt), (tt, tt))
