-- ===== src/Application/Messaging/Delivery.antt =====
-- SendText of application/messaging/service.go, over its adapters: what it publishes.
use mathlib.Core.Path.{subst}
use llm_dating_app.Prelude.{
  ℕ, ◌≡◌, refl, ◌⊎◌, Bool, true, false, Option, none, List, [], ◌∷◌, arith, ltb, ◌==◌, Action,
  ◌>>=◌, ◌>>◌, fail_if, Result, ok, err, length, Text, is_empty_text, trim_space,
}
use llm_dating_app.Domain.Messaging.{
  Error, SendResult, Participants, Message, MessageType, max_content_length, invalid_nonce,
  empty_content, content_too_long,
}
use llm_dating_app.Redis.MessageRate
use llm_dating_app.Application.Messaging.Live.{
  World, publish, live_repository, live_tickets, on_bus, on_rate,
}
use llm_dating_app.Application.Messaging.{
  send_text, SendTextInput, SendResult, MessageEvent, new_message_payload, MessagePayload, admit,
  persist_and_publish, Participants, Message, MessageType, max_content_length, invalid_nonce,
  empty_content, content_too_long,
}
use llm_dating_app.Redis.MessageRate.{Window}

abbrev payloads : List MessageEvent → List MessagePayload
payloads [] = []
payloads (e ∷ es) = e.message ∷ payloads es

-- What a send did to the messages of the log.
abbrev pub Published : World → Result Error SendResult × World → Type 0
Published w (err e, w') = payloads w'.bus.tables ≡ payloads w.bus.tables
Published w (ok r, w') =
    (payloads w'.bus.tables ≡ payloads w.bus.tables)
    ⊎ ((r.created ≡ true)
        × (payloads w'.bus.tables ≡ new_message_payload r.message ∷ payloads w.bus.tables))

module _ (print : ℕ → Text) (parse : Text → Option ℕ) (seconds : ℕ → ℕ) (window : Window)
    (now : ℕ) where
  abbrev pub live_send_text : SendTextInput → ℕ → World → Result Error SendResult × World
  live_send_text input id =
      send_text (live_repository now) (live_tickets print parse now) (λ e. on_bus (publish e))
        (λ sender. on_rate (MessageRate.allow seconds window now)) input id

  abbrev pub live_admit : SendTextInput → Action World Error Participants
  live_admit input =
      admit (live_repository now) (live_tickets print parse now) (λ e. on_bus (publish e))
        (λ sender. on_rate (MessageRate.allow seconds window now)) input.match_id input.sender_id

  abbrev pub live_persist : Message → Participants → Action World Error SendResult
  live_persist m participants =
      persist_and_publish (live_repository now) (live_tickets print parse now)
        (λ e. on_bus (publish e)) (λ sender. on_rate (MessageRate.allow seconds window now))
        participants m

  abbrev pub text_message : SendTextInput → ℕ → Message
  text_message input id = record {
    id = id;
    match_id = input.match_id;
    sender_id = input.sender_id;
    client_nonce = input.client_nonce;
    type = MessageType.text;
    content = trim_space input.content;
    storage_key = [];
    read_at = none;
    created_at = 0;
    deleted_at = none;
  }

  admit-bus : (input : SendTextInput) (w : World) → (live_admit input w).1.bus ≡ w.bus
  unfolding admit
  admit-bus input w = ground arith

  persist_and_publish-Published :
      (m : Message) (participants : Participants) (w : World)
      → Published w (live_persist m participants w)
  unfolding persist_and_publish publish
  persist_and_publish-Published m participants w = ground arith

  Published-then :
      {A : Type 0} (f : A → Action World Error SendResult) (r : Result Error A) (w w' : World)
      → w'.bus ≡ w.bus
      → ((a : A) → Published w' (f a w'))
      → Published w (elim r [ ok a ↦ f a w' | err e ↦ (err e, w') ])
  Published-then f (ok a) w w' same each =
      subst (λ b. Published (record w { bus = b }) (f a w')) same (each a)
  Published-then f (err e) w w' same each = rw same refl

  guard :
      (b : Bool) (e : Error) (m : Action World Error SendResult) (w : World)
      → Published w (m w)
      → Published w ((fail_if b e >> m) w)
  guard true e m w h = refl
  guard false e m w h = h

  -- Whatever fails, a send that reports an error publishes nothing, and one that succeeds publishes
  -- nothing or, where it stored a new message, that message once.
  pub send_text-Published :
      (input : SendTextInput) (id : ℕ) (w : World) → Published w (live_send_text input id w)
  unfolding send_text
  send_text-Published input id w =
      let store : Action World Error SendResult =
        live_admit input >>= live_persist (text_message input id) in
      let checked : Action World Error SendResult =
        fail_if (ltb max_content_length (length (trim_space input.content))) content_too_long
        >> store in
      let filled : Action World Error SendResult =
        fail_if (is_empty_text (trim_space input.content)) empty_content >> checked in
      guard (input.client_nonce == 0) invalid_nonce filled w (
        guard (is_empty_text (trim_space input.content)) empty_content checked w (
          guard (ltb max_content_length (length (trim_space input.content))) content_too_long store
            w
            (Published-then (live_persist (text_message input id)) (live_admit input w).0 w
              (live_admit input w).1 (admit-bus input w)
              (λ p.
                persist_and_publish-Published (text_message input id) p (live_admit input w).1))))
