-- ===== src/Application/Messaging/Retrying.antt =====
-- SendText of application/messaging/service.go, over its adapters, when a client sends again.
use llm_dating_app.Prelude.{
  ℕ, ◌≡◌, subst, inl, inr, true, false, Option, [], arith, Result-cases, ok, Text, trim_space,
}
use llm_dating_app.Redis.MessageRate.{Window}
use llm_dating_app.Postgres.Messaging.{send, get_active_participants, is_coherent}
use llm_dating_app.Postgres.Schema.{Tables}
use llm_dating_app.Application.Messaging.{
  send_text, SendTextInput, SendResult, admit, persist_and_publish, Message, MessageType,
  Participants,
}
use llm_dating_app.Application.Messaging.Delivery.{
  live_send_text, live_admit, live_persist, text_message,
}
use llm_dating_app.Domain.Messaging.{Message, MessageType, Participants}
use llm_dating_app.Application.Messaging.Live.{World, publish}
use llm_dating_app.Connection.{Conn}
use llm_dating_app.Postgres.Messaging.Sending.{send-again}

send-faults : (at : ℕ) (m : Message) (c : Conn Tables) → c.faults ≡ [] → (send at m c).1.faults ≡ []
unfolding send
send-faults at m c nf = ground (arith, nf)

module _ (print : ℕ → Text) (parse : Text → Option ℕ) (seconds : ℕ → ℕ) (window : Window)
    (now : ℕ) where
  admit-db :
      (input : SendTextInput) (w : World)
      → w.db.faults ≡ []
      → (live_admit print parse seconds window now input w).1.db ≡ w.db
  unfolding admit get_active_participants
  admit-db input w nf = ground (arith, nf)

  persist-send :
      (m : Message) (p : Participants) (w : World) (r : SendResult)
      → (live_persist print parse seconds window now m p w).0 ≡ ok r
      → ((send now m w.db).0 ≡ ok r)
        × ((send now m w.db).1 ≡ (live_persist print parse seconds window now m p w).1.db)
  unfolding persist_and_publish publish
  persist-send m p w r e = elim (Result-cases (send now m w.db).0) [
    | inl (x, h) ↦ ground (arith, h, e)
    | inr (x, h) ↦ ground (arith, h, e)
  ]

  -- Where SendText succeeds, its message could be stored, and the send of the repository is all that it
  -- did to the tables.
  send_text-send :
      (input : SendTextInput) (id : ℕ) (w : World) (r : SendResult)
      → w.db.faults ≡ []
      → (live_send_text print parse seconds window now input id w).0 ≡ ok r
      → let m = text_message print parse seconds window now input id in
        ((send now m w.db).0 ≡ ok r)
        × ((send now m w.db).1 ≡ (live_send_text print parse seconds window now input id w).1.db)
        × (is_coherent MessageType.text (trim_space input.content) [] ≡ true)
  unfolding send_text
  send_text-send input id w r nf e =
      let a = live_admit print parse seconds window now input w in
      let m = text_message print parse seconds window now input id in
      elim (Result-cases a.0) [
        | inr (x, h) ↦ absurd (ground (arith, h, e))
        | inl (p, h) ↦ ground (arith, h, e, admit-db input w nf, persist-send m p a.1 r)
      ]

-- While PostgreSQL answers, a text that was sent answers the next one of its sender under the same
-- nonce, if that is sent at all: the first message comes back as not new, and no table changes.
pub send_text-again :
    (print : ℕ → Text) (parse : Text → Option ℕ) (seconds : ℕ → ℕ) (window : Window) (now later : ℕ)
    (input again : SendTextInput) (id other_id : ℕ) (w : World) (r r' : SendResult)
    → w.db.faults ≡ []
    → again.sender_id ≡ input.sender_id
    → again.client_nonce ≡ input.client_nonce
    → (live_send_text print parse seconds window now input id w).0 ≡ ok r
    → let w' = (live_send_text print parse seconds window now input id w).1 in
      (live_send_text print parse seconds window later again other_id w').0 ≡ ok r'
      → (r' ≡ record r { created = false })
        × ((live_send_text print parse seconds window later again other_id w').1.db.tables
            ≡ w'.db.tables)
send_text-again print parse seconds window now later input again id other_id w r r' nf who nonce e
      f =
    let m = text_message print parse seconds window now input id in
    let m' = text_message print parse seconds window later again other_id in
    let w' = (live_send_text print parse seconds window now input id w).1 in
    let first = send_text-send print parse seconds window now input id w r nf e in
    let left : w'.db.faults ≡ [] = subst (λ c. c.faults ≡ []) first.1 (send-faults now m w.db nf) in
    let second = send_text-send print parse seconds window later again other_id w' r' left f in
    let kept = send-again now later m m' w.db r nf first.0 who nonce second.2 in
    ground (arith, first.1, second.0, second.1, kept.0, kept.1)
