-- ===== src/Postgres/Messaging/Conversations.antt =====
-- ListConversations of backend/internal/adapters/postgres/repositories/messaging_repository.go, with its
-- statement in sqlc/messages.sql.go.
use llm_dating_app.Keyset.{sort_by}
use llm_dating_app.Prelude.{
  ℕ, Bool, not, ◌&&◌, ◌||◌, Option, none, some, List, [], ◌∷◌, ltb, ◌==◌, if◌then◌else◌, Action,
  take, count_where,
}
use llm_dating_app.Postgres.Queries.{is_blocked, takes_part, is_open}
use llm_dating_app.Domain.Messaging.{ConversationSummary, Message, Error, infra}
use llm_dating_app.Postgres.Schema.{PhotoRow, Tables, Member}
use llm_dating_app.Connection.{Conn, query}
use llm_dating_app.Domain.Matching.{Match}
use llm_dating_app.Postgres.Messaging.{
  comes_first, select, is_some, takes_part, is_visible, is_open, find,
}
use llm_dating_app.Postgres.Rows.{collect}
use llm_dating_app.Postgres.Matching.Listing.{other_user}

abbrev pub newest : List Message → Option Message
newest [] = none
newest (m ∷ ms) = some m

-- The columns of the last message that the statement selects. The others are left at zero.
abbrev pub projected : Option Message → Option Message
projected none = none
projected (some m) = some (record m { client_nonce = 0; storage_key = []; deleted_at = none })

-- The lateral join `last_message`.
unfoldable pub last_message : ℕ → Tables → Option Message
last_message match_id t =
    newest (take 1 (sort_by comes_first (select (is_visible match_id) t.messages)))

abbrev pub awaits : ℕ → ℕ → Message → Bool
awaits match_id viewer m =
    m.match_id == match_id
    && not (m.sender_id == viewer)
    && not (is_some m.read_at)
    && not (is_some m.deleted_at)

-- The lateral join `unread`.
unfoldable pub unread : ℕ → ℕ → Tables → ℕ
unread match_id viewer t = count_where (awaits match_id viewer) t.messages

abbrev pub photo_or_nil : Option PhotoRow → ℕ
photo_or_nil none = 0
photo_or_nil (some p) = p.id

abbrev pub conversation_with : ℕ → Tables → Match → Option Member → Option ConversationSummary
conversation_with viewer t m none = none
conversation_with viewer t m (some other) = some (record {
  match_id = m.id;
  other_user_id = other.id;
  display_name = other.display_name;
  primary_photo_id = photo_or_nil other.primary_photo;
  last_message = projected (last_message m.id t);
  unread_count = unread m.id viewer t;
  matched_at = m.matched_at;
})

-- The joins of a match of the viewer, and `WHERE`.
unfoldable pub conversation : ℕ → Tables → Match → Option ConversationSummary
unfolding is_blocked last_message unread
conversation viewer t m =
    if takes_part viewer m && is_open m && not (is_blocked viewer (other_user viewer m) t)
    then conversation_with viewer t m (find (λ u. u.id == other_user viewer m) t.members)
    else none

abbrev pub or_matched : ℕ → Option Message → ℕ
or_matched at none = at
or_matched at (some m) = m.created_at

-- `COALESCE(last_message.created_at, match.matched_at) DESC, match.id DESC`
abbrev pub is_more_recent : ConversationSummary → ConversationSummary → Bool
is_more_recent a b =
    let at = or_matched a.matched_at a.last_message in
    let bt = or_matched b.matched_at b.last_message in
    ltb bt at || (at == bt && ltb b.match_id a.match_id)

unfoldable pub conversation_rows : ℕ → ℕ → Tables → List ConversationSummary
unfolding conversation
conversation_rows viewer limit t =
    take limit (sort_by is_more_recent (collect (conversation viewer t) t.matches))

unfoldable pub list_conversations : ℕ → ℕ → Action (Conn Tables) Error (List ConversationSummary)
list_conversations viewer limit = query infra (conversation_rows viewer limit)
