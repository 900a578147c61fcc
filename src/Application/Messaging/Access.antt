-- ===== src/Application/Messaging/Access.antt =====
-- SendText of application/messaging/service.go, over its adapters: who may send.
use llm_dating_app.Application.Messaging.Live.{
  live_repository, live_tickets, on_bus, on_rate, publish, World,
}
use llm_dating_app.Application.Messaging.Delivery.{live_send_text}
use llm_dating_app.Postgres.Messaging.{get_active_participants, get_active_participants_row}
use llm_dating_app.Redis.MessageRate.{Window}
use llm_dating_app.Prelude.{
  ℕ, ◌≡◌, inl, inr, true, Option, arith, is_some, Option-cases, Result-cases, ok, Text,
}
use llm_dating_app.Redis.MessageRate
use llm_dating_app.Domain.Messaging.{Participants, SendResult}
use llm_dating_app.Application.Messaging.{admit, send_text, SendTextInput, SendResult}

module _ (print : ℕ → Text) (parse : Text → Option ℕ) (seconds : ℕ → ℕ) (window : Window)
    (now : ℕ) where
  admit-open :
      (match_id sender : ℕ) (w : World) (p : Participants)
      → (admit
          (live_repository now)
          (live_tickets print parse now)
          (λ e. on_bus (publish e))
          (λ s. on_rate (MessageRate.allow seconds window now))
          match_id
          sender
          w).0
        ≡ ok p
      → is_some (get_active_participants_row match_id sender w.db.tables) ≡ true
  unfolding admit get_active_participants
  admit-open match_id sender w p e =
      elim (Option-cases (get_active_participants_row match_id sender w.db.tables)) [
        | inl h ↦ ground arith
        | inr (m, h) ↦ ground arith
      ]

  -- Where SendText succeeds, the conversation was open to its sender when the call began: the sender
  -- takes part in an active match of that id with no block between its users.
  pub send_text-open :
      (input : SendTextInput) (id : ℕ) (w : World) (r : SendResult)
      → (live_send_text print parse seconds window now input id w).0 ≡ ok r
      → is_some (get_active_participants_row input.match_id input.sender_id w.db.tables) ≡ true
  unfolding send_text
  send_text-open input id w r e =
      let a =
        admit (live_repository now) (live_tickets print parse now) (λ e. on_bus (publish e))
          (λ s. on_rate (MessageRate.allow seconds window now)) input.match_id input.sender_id w in
      elim (Result-cases a.0) [
        | inl (p, h) ↦ admit-open input.match_id input.sender_id w p h
        | inr (x, h) ↦ ground arith
      ]
