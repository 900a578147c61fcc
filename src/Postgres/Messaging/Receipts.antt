-- ===== src/Postgres/Messaging/Receipts.antt =====
-- MarkMessagesRead of adapters/postgres/sqlc/messages.sql.go: read receipts.
use llm_dating_app.Prelude.{
  ℕ, ◌≡◌, refl, some, List, [], ◌∷◌, arith, ◌==◌, select, update_where, count_where,
}
use llm_dating_app.Domain.Messaging.{Message}
use llm_dating_app.Postgres.Messaging.{mark_messages_read, is_unread, Tables}
use llm_dating_app.Postgres.Schema.{Tables}

abbrev mark : ℕ → Message → Message
mark at m = record m { read_at = some at }

none_unread :
    (match_id viewer at : ℕ) (ms : List Message)
    → count_where
        (is_unread match_id viewer at)
        (update_where (is_unread match_id viewer at) (mark at) ms)
      ≡ 0
none_unread match_id viewer at [] = refl
none_unread match_id viewer at (m ∷ ms) = ground (arith, none_unread match_id viewer at ms)

none_left :
    (match_id viewer at : ℕ) (ms : List Message)
    → count_where (is_unread match_id viewer at) ms ≡ 0
    → update_where (is_unread match_id viewer at) (mark at) ms ≡ ms
none_left match_id viewer at [] h = refl
none_left match_id viewer at (m ∷ ms) h = ground (arith, none_left match_id viewer at ms)

-- To mark a conversation read again at the same time changes no row, and reports none.
pub mark_messages_read-again :
    (match_id viewer at : ℕ) (t : Tables)
    → let t' = (mark_messages_read match_id viewer at t).1 in
      mark_messages_read match_id viewer at t' ≡ (0, t')
unfolding mark_messages_read
mark_messages_read-again match_id viewer at t = ground (
  arith,
  none_unread match_id viewer at t.messages,
  none_left match_id viewer at (update_where (is_unread match_id viewer at) (mark at) t.messages),
)

abbrev pub sent_by : ℕ → List Message → List Message
sent_by sender = select (λ m. m.sender_id == sender)

sent_by-mark :
    (match_id viewer at : ℕ) (ms : List Message)
    → sent_by viewer (update_where (is_unread match_id viewer at) (mark at) ms) ≡ sent_by viewer ms
sent_by-mark match_id viewer at [] = refl
sent_by-mark match_id viewer at (m ∷ ms) = ground (arith, sent_by-mark match_id viewer at ms)

-- Nobody's receipt touches a message that they sent.
pub mark_messages_read-own :
    (match_id viewer at : ℕ) (t : Tables)
    → sent_by viewer (mark_messages_read match_id viewer at t).1.messages
      ≡ sent_by viewer t.messages
unfolding mark_messages_read
mark_messages_read-own match_id viewer at t = sent_by-mark match_id viewer at t.messages
