-- ===== src/Application/Messaging/Following.antt =====
-- The pages of History that a client gets by following the cursors.
use llm_dating_app.Prelude.{ℕ, ◌+◌, ◌≤◌, ◌<◌, ◌≡◌, Option, none, length, select}
use llm_dating_app.Domain.Messaging.{Cursor}
use llm_dating_app.Postgres.Schema.{Tables}
use llm_dating_app.Postgres.Messaging.{comes_first, is_visible}
use llm_dating_app.Postgres.Messaging.{list_messages_before}
use llm_dating_app.Application.Messaging.{HistoryPage, page_of, history_cursor}
use llm_dating_app.Keyset.Sorting.{HasDistinctIds}
use llm_dating_app.Keyset.{page_of, sort_by}
use llm_dating_app.Application.Messaging.Ordering.{history_keyset, history_keyset-IsKeyset}
use llm_dating_app.Keyset.Following.{follow, follow-wanted}

-- The listing of History behind a cursor, asked for with one message more than the page and cut to it.
abbrev pub history_page : ℕ → ℕ → Tables → Option Cursor → HistoryPage
history_page size match_id t before =
    page_of history_cursor size
      (list_messages_before (record { match_id = match_id; limit = size + 1; before = before }) t)

-- The pages of a positive size that a client gets by following the cursors are, put together, the
-- messages of the conversation that are not deleted, newest first and each once; and no more pages are
-- needed than there are messages, and one.
pub follow-visible :
    (size match_id fuel : ℕ) (t : Tables)
    → 1 ≤ size
    → HasDistinctIds history_keyset t.messages
    → length t.messages < fuel
    → follow (history_page size match_id t) fuel none
      ≡ sort_by comes_first (select (is_visible match_id) t.messages)
unfolding list_messages_before
follow-visible size match_id fuel t one d h =
    follow-wanted history_keyset history_keyset-IsKeyset (is_visible match_id) t.messages d size
      fuel one h
