-- ===== src/Http/Requests.antt =====
-- Requests through the handlers down to the tables.
use llm_dating_app.Prelude.{
  ℕ, ◌≡◌, refl, sym, ap, subst, ◌∙◌, inl, inr, Bool, true, false, Option, some, [], arith,
  if◌then◌else◌, Action, Result-cases, Result, ok, Text, trim_space, ℤ,
}
use llm_dating_app.Middleware.{Identity}
use llm_dating_app.Http.Messaging
use llm_dating_app.Application.Messaging as Services
use llm_dating_app.Application.Messaging.Live.{
  World, live_repository, live_tickets, on_rate, on_bus, publish,
}
use llm_dating_app.Http.Messaging.{Service, SendMessageRequest, write_service_error}
use llm_dating_app.Domain.Messaging.{Error, Cursor}
use llm_dating_app.Application.Messaging.{SendTextInput, MessageEvent}
use llm_dating_app.Http.Responses.{MessageResponse, message_response}
use llm_dating_app.Http.{
  respond, value, Body, write_error, write_json, problem, no_content, Response,
}
use llm_dating_app.Domain.Messaging.{SendResult}
use llm_dating_app.Redis.MessageRate
use llm_dating_app.Redis.MessageRate.{Window}
use llm_dating_app.Application.Messaging.Delivery.{live_send_text}
use llm_dating_app.Application.Messaging.Retrying.{send_text-again}
use llm_dating_app.Redis.Keys.{Failure}

abbrev is_value : {B : Type 0} → Body B → Bool
is_value no_content = false
is_value (problem c) = false
is_value (value b) = true

write_service_error-is_value :
    (x : Error) → is_value (write_service_error {B = MessageResponse} x).body ≡ false
unfolding write_service_error write_error
write_service_error-is_value x = ground arith

-- A message is sent through any service.
module _ {W : Type 0} (service : Service W) (parse_uuid : Text → Option ℕ) (atoi : Text → Option ℤ)
    (sanitize : Text → Text) where
  abbrev pub sent_text : Identity → ℕ → ℕ → SendMessageRequest → SendTextInput
  sent_text who match_id nonce request = record {
    match_id = match_id;
    sender_id = who.user_id;
    client_nonce = nonce;
    content = trim_space (sanitize request.content);
  }

  pub send-message_response :
      (who : Identity) (match_text : Text) (request : SendMessageRequest)
      (is_valid : SendMessageRequest → Bool) (match_id nonce : ℕ) (w : W) (m : MessageResponse)
      → is_valid request ≡ true
      → parse_uuid match_text ≡ some match_id
      → parse_uuid request.client_nonce ≡ some nonce
      → let (a, w') =
          respond
            (Messaging.send service parse_uuid atoi sanitize
              (some who)
              match_text
              (some request)
              is_valid)
            w in
        let (x, w2) = service.send_text (sent_text who match_id nonce request) w in
        a.body ≡ value m
        → (r : SendResult) × (x ≡ ok r)
          × (m ≡ message_response r.message)
          × (a.status ≡ (if r.created then 201 else 200))
          × (w' ≡ w2)
  unfolding Messaging.send write_json
  send-message_response who match_text request is_valid match_id nonce w m v p q e =
      elim (Result-cases (service.send_text (sent_text who match_id nonce request) w).0) [
        | inl (r, h) ↦ (
          r,
          h,
          ground (arith, v, p, q, h, e),
          ground (arith, v, p, q, h),
          ground (arith, v, p, q, h),
        )
        | inr (x, h) ↦ absurd (ground (arith, v, p, q, h, e, write_service_error-is_value x))
      ]

-- The service over PostgreSQL and Redis, at a reading of the clock and with the id of a new message.
-- `read_cursor` is `decodeCursor` of a text that may be empty.
module _ (print : ℕ → Text) (parse : Text → Option ℕ) (seconds : ℕ → ℕ) (window : Window)
    (read_cursor : Text → Option (Option Cursor)) (ticket : Text) (ttl : ℕ) where
  abbrev pub live_service : ℕ → ℕ → Service World
  live_service now id =
      let repository = live_repository now in
      let tickets = live_tickets print parse now in
      let allow : ℕ → Action World Failure (Bool × ℕ) =
        λ s. on_rate (MessageRate.allow seconds window now) in
      let bus : MessageEvent → Action World Failure (Unit {0}) = λ e. on_bus (publish e) in
      record {
        history = λ match_id user cursor limit.
            Services.history repository tickets bus allow match_id user (read_cursor cursor) limit;
        send_text = λ input. live_send_text print parse seconds window now input id;
        mark_read =
            λ match_id user. Services.mark_read repository tickets bus allow match_id user now;
        conversations =
            λ user limit. Services.conversations repository tickets bus allow user limit;
        issue_ticket =
            λ user. Services.issue_ticket repository tickets bus allow user ticket ttl now;
      }

  module _ (parse_uuid : Text → Option ℕ) (atoi : Text → Option ℤ) (sanitize : Text → Text)
      (is_valid : SendMessageRequest → Bool) where
    abbrev pub live_send :
        ℕ → ℕ → Identity → Text → SendMessageRequest → World → Response MessageResponse × World
    live_send now id who match_text request = respond (
        Messaging.send (live_service now id) parse_uuid atoi sanitize (some who) match_text
          (some request) is_valid)

    -- Sending is idempotent through the nonce: while PostgreSQL answers, a request that is sent again
    -- after it was answered with a message is answered, if with a message at all, with the same message
    -- and status 200, and no table changes.
    pub live_send-again :
        (now later id other_id : ℕ) (who : Identity) (match_text : Text)
        (request : SendMessageRequest) (match_id nonce : ℕ) (w : World) (m m' : MessageResponse)
        → is_valid request ≡ true
        → parse_uuid match_text ≡ some match_id
        → parse_uuid request.client_nonce ≡ some nonce
        → w.db.faults ≡ []
        → (live_send now id who match_text request w).0.body ≡ value m
        → (live_send later other_id who match_text request
            (live_send now id who match_text request w).1).0.body
          ≡ value m'
        → let w' = (live_send now id who match_text request w).1 in
          let (b, w2) = live_send later other_id who match_text request w' in
          (m' ≡ m) × (b.status ≡ 200) × (w2.db.tables ≡ w'.db.tables)
    live_send-again now later id other_id who match_text request match_id nonce w m m' v p q nf e
          f =
        let w' = (live_send now id who match_text request w).1 in
        let input =
          sent_text (live_service now id) parse_uuid atoi sanitize who match_id nonce request in
        let (r, x, same, _, w1) =
          send-message_response (live_service now id) parse_uuid atoi sanitize who match_text
            request is_valid match_id nonce w m v p q e in
        let (r', x', same', status, w2) =
          send-message_response (live_service later other_id) parse_uuid atoi sanitize who
            match_text request is_valid match_id nonce w' m' v p q f in
        let resend : World → Result Error SendResult × World =
          live_send_text print parse seconds window later input other_id in
        let kept =
          send_text-again print parse seconds window now later input input id other_id w r r' nf
            refl refl x (subst (λ u. (resend u).0 ≡ ok r') w1 x') in
        let stays = subst (λ u. (resend u).1.db.tables ≡ u.db.tables) (sym w1) kept.1 in
        (
          same' ∙ ap (λ o. message_response o.message) kept.0 ∙ sym same,
          status ∙ ap (λ o. if o.created then 201 else 200) kept.0,
          ap (λ u. u.db.tables) w2 ∙ stays,
        )
