-- ===== src/Websocket.antt =====
-- backend/internal/adapters/websocket: the sockets of one instance, their bounded queues, and the events
-- that go through them. What the socket itself does is not modelled.
pub mod Client
pub mod Queue
pub mod Hub
pub mod Connections
pub mod Typing
pub mod Frames
use llm_dating_app.Prelude.{ℕ, Option}
use llm_dating_app.Application.Messaging.{MessagePayload}

pub data ServerEventType : Type 0 where
  message_event typing_event closed_event ready_event : ServerEventType

pub record ServerEvent : Type 0 where
  pub type : ServerEventType
  pub message : Option MessagePayload
  pub match_id : Option ℕ
  pub user_id : Option ℕ
  pub sent_at : ℕ

-- What a browser may send; an event of another type is ignored. A typing event without a match has the
-- nil UUID, `none`.
pub data ClientEvent : Type 0 where
  typing : Option ℕ → ClientEvent
  ping other_event : ClientEvent
