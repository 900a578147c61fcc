-- ===== src/Application/Messaging/Ordering.antt =====
-- `ORDER BY created_at DESC, id DESC` of ListMessagesBefore, and the condition of its cursor.
use llm_dating_app.Prelude.{◌≡◌, refl, true, ◌&&◌, Option, none, some, arith}
use llm_dating_app.Domain.Messaging.{Cursor, Message}
use llm_dating_app.Application.Messaging.{history_cursor}
use llm_dating_app.Keyset.{Keyset, IsKeyset}
use llm_dating_app.Postgres.Messaging.{comes_first, is_before}

-- The listing of History.
abbrev pub history_keyset : Keyset Message Cursor
history_keyset = record {
  id = λ m. m.id;
  precedes = comes_first;
  cursor = history_cursor;
  is_after = is_before;
}

is_before_cursor :
    (b : Option Cursor) (x m : Message)
    → is_before b x ≡ true
    → is_before (some (history_cursor x)) m ≡ (is_before b m && comes_first x m)
is_before_cursor none x m h = ground arith
is_before_cursor (some c) x m h = ground arith

pub history_keyset-IsKeyset : IsKeyset history_keyset
history_keyset-IsKeyset = record {
  precedes_trans = λ a b c h l. ground arith;
  precedes_asym = λ a b h. ground arith;
  precedes_total = λ a b n h. ground arith;
  is_after_none = λ x. refl;
  is_after_cursor = is_before_cursor;
}
