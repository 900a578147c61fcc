-- ===== src/Application/Messaging/Live.antt =====
-- The messaging service over PostgreSQL, the window of the sender in Redis and the bus
-- (redis/message_bus.go), whose log keeps what was published, newest first.
use llm_dating_app.Prelude.{ℕ, Option, List, ◌∷◌, Action, Text}
use llm_dating_app.Domain.Messaging.{Error}
use llm_dating_app.Postgres.Messaging
use llm_dating_app.Redis.Tickets
use llm_dating_app.Postgres.Messaging.Conversations.{list_conversations}
use llm_dating_app.Application.Messaging.{Repository, TicketStore, MessageEvent, Failure}
use llm_dating_app.Connection.{Conn, exec}
use llm_dating_app.Postgres.Schema.{Tables}
use llm_dating_app.Redis.Keys.{Key, Failure, failure}

pub record World : Type 0 where
  pub db : Conn Tables
  pub rate : Conn Key
  pub bus : Conn (List MessageEvent)
  pub tickets : Conn Tickets.Tickets

abbrev pub on_db : {A : Type 0} → Action (Conn Tables) Error A → Action World Error A
on_db m w = let (r, c) = m w.db in (r, record w { db = c })

abbrev pub on_rate : {A : Type 0} → Action (Conn Key) Failure A → Action World Failure A
on_rate m w = let (r, c) = m w.rate in (r, record w { rate = c })

abbrev pub on_bus :
    {A : Type 0} → Action (Conn (List MessageEvent)) Failure A → Action World Failure A
on_bus m w = let (r, c) = m w.bus in (r, record w { bus = c })

abbrev pub on_tickets : {A : Type 0} → Action (Conn Tickets.Tickets) Error A → Action World Error A
on_tickets m w = let (r, c) = m w.tickets in (r, record w { tickets = c })

-- `at` is the clock of the database, which stamps the row.
abbrev pub live_repository : ℕ → Repository World
live_repository at = record {
  get_active_participants =
      λ match_id viewer. on_db (Messaging.get_active_participants match_id viewer);
  send = λ m. on_db (Messaging.send at m);
  list_history = λ p. on_db (Messaging.list_history p);
  mark_read = λ match_id viewer now. on_db (Messaging.mark_read match_id viewer now);
  list_conversations = λ viewer limit. on_db (list_conversations viewer limit);
}

-- `MessageBus.Publish`
unfoldable pub publish : MessageEvent → Action (Conn (List MessageEvent)) Failure (Unit {0})
publish e = exec failure (λ log. e ∷ log)

module _ (print : ℕ → Text) (parse : Text → Option ℕ) (now : ℕ) where
  abbrev pub live_tickets : TicketStore World
  live_tickets = record {
    issue = λ ticket user ttl. on_tickets (Tickets.issue print parse now ticket user ttl);
    consume = λ ticket. on_tickets (Tickets.consume print parse now ticket);
  }
