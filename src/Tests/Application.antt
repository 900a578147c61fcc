-- ===== src/Tests/Application.antt =====
-- The services over PostgreSQL and Redis.
use llm_dating_app.Prelude.{
  ◌+◌, ◌/◌, ◌≡◌, refl, true, none, some, List, [], ◌∷◌, arith, if◌then◌else◌, ok, trim_space, pos,
}
use llm_dating_app.Tests.Matching.{conn, matched, liked_once, postgis}
use llm_dating_app.Domain.Matching.{like}
use llm_dating_app.Application.Matching.Live as MatchingLive
use llm_dating_app.Application.Messaging.Live as MessagingLive
use llm_dating_app.Application.Matching.Limits.{
  live_swipe, counted_swipes, is_new, swipe-counted_swipes,
}
use llm_dating_app.Redis.MessageRate.{Window}
use llm_dating_app.Application.Messaging.Delivery.{Published, live_send_text, send_text-Published}
use llm_dating_app.Application.Paging.{RawConfig, page_limit, with_defaults, normalize_page_size}
use llm_dating_app.Application.Matching.{SwipeInput}
use llm_dating_app.Domain.Messaging.{MessageType, SendResult, Message}
use llm_dating_app.Postgres.Messaging.{
  send, get_active_participants, get_active_participants_row, insert_message,
}
use llm_dating_app.Application.Messaging.{send_text, admit, persist_and_publish, SendTextInput}
use llm_dating_app.Application.Messaging.Live.{publish}
use llm_dating_app.Redis.MessageRate.{allow}

-- A swipe back, on day 0, with no counter yet.
abbrev pub before_swipe : MatchingLive.World
before_swipe = record {
  db = conn (record liked_once { swipes = [] });
  counter = record { tables = none; saved = none; faults = [] };
}

abbrev swipe_back : SwipeInput
swipe_back = record { target_id = 2; action = like }

swipe-counted_swipes_example :
    let (r, w) = live_swipe postgis 30 100 1 1000 swipe_back 21 before_swipe in
    counted_swipes 1000 w ≡ 0 + (if is_new r then 1 else 0)
unfolding llm_dating_app.Postgres.Queries.count_swipes_since_rows
swipe-counted_swipes_example =
    swipe-counted_swipes postgis 30 100 1 1000 swipe_back 21 before_swipe refl tt (omega arith)

abbrev pub before_send : MessagingLive.World
before_send = record {
  db = conn matched;
  rate = record { tables = none; saved = none; faults = [] };
  bus = record { tables = []; saved = none; faults = [] };
  tickets = record { tables = record { stored = λ t. none }; saved = none; faults = [] };
}

abbrev pub two_a_minute : Window
two_a_minute = record { window = 60; limit = 2 }

send_text-Published_example : Published before_send (
    live_send_text
      (λ u. u ∷ [])
      (λ t. none)
      (λ ms. ms / 1000)
      two_a_minute
      5000
      (record { match_id = 30; sender_id = 1; client_nonce = 77; content = 72 ∷ [] })
      40
      before_send)
send_text-Published_example =
    send_text-Published (λ u. u ∷ []) (λ t. none) (λ ms. ms / 1000) two_a_minute 5000
      (record { match_id = 30; sender_id = 1; client_nonce = 77; content = 72 ∷ [] }) 40 before_send

abbrev greeting : SendTextInput
greeting = record { match_id = 30; sender_id = 1; client_nonce = 77; content = 32 ∷ 72 ∷ [] }

abbrev stored_greeting : SendResult
stored_greeting = record {
  message = record {
    id = 40;
    match_id = 30;
    sender_id = 1;
    client_nonce = 77;
    type = MessageType.text;
    content = 72 ∷ [];
    storage_key = [];
    read_at = none;
    created_at = 5000;
    deleted_at = none;
  };
  created = true;
}

greeting_sent :
    (live_send_text
      (λ u. u ∷ [])
      (λ t. none)
      (λ ms. ms / 1000)
      two_a_minute
      5000
      greeting
      40
      before_send).0
    ≡ ok stored_greeting
unfolding send_text admit persist_and_publish publish trim_space allow get_active_participants
    get_active_participants_row send insert_message
greeting_sent = refl

abbrev settings : RawConfig
settings = record { daily_swipe_limit = pos 0; default_page_size = pos 0; max_page_size = pos 10 }

default_page : page_limit (with_defaults settings) (pos 0) ≡ some 20
unfolding page_limit with_defaults
default_page = refl

whole_page : normalize_page_size (pos 100) ≡ some 100
unfolding normalize_page_size
whole_page = refl

abbrev three_messages : List Message
three_messages = stored_greeting.message ∷ stored_greeting.message ∷ stored_greeting.message ∷ []
