-- ===== src/Postgres/Messaging/Listed.antt =====
-- ListConversations, GetActiveParticipants and MarkRead of
-- backend/internal/adapters/postgres/repositories/messaging_repository.go together.
use llm_dating_app.Keyset.{sort_by}
use llm_dating_app.Keyset.Sorting.{All-sort_by}
use llm_dating_app.Keyset.Selecting.{All-take}
use llm_dating_app.Postgres.Schema.{Tables, Member}
use llm_dating_app.Postgres.Messaging.{
  get_active_participants_row, is_unread, ℕ, Match, leb, List, Bool, Option, is_some, update_where,
  count_where, takes_part, some, true, ◌∷◌, find, mark_read, is_open, mark_messages_read,
  blocks_pair, Conn,
}
use llm_dating_app.Domain.Messaging.{Message, ConversationSummary}
use llm_dating_app.Prelude.{
  ◌≡◌, refl, sym, ap, subst, ◌∙◌, inl, inr, not, ◌&&◌, none, [], arith, ◌==◌, if◌then◌else◌,
  Bool-cases, Option-cases, ok, any, All, All-mono,
}
use llm_dating_app.Postgres.Messaging.Conversations.{
  conversation, conversation_rows, awaits, conversation_with, unread, is_more_recent,
}
use llm_dating_app.Postgres.Queries.{is_blocked, takes_part, is_open, blocks_pair}
use llm_dating_app.Domain.Matching.{Match}
use llm_dating_app.Postgres.Rows.{IsAmong, collect, All-collect, All-IsAmong, find-none-any}
use llm_dating_app.Postgres.Matching.Listing.{other_user}
use llm_dating_app.Postgres.Messaging.Sending.{is_blocked_comm}
use llm_dating_app.Connection.{Conn}

abbrev guard : ℕ → Tables → Match → Bool
guard viewer t m =
    takes_part viewer m && is_open m && not (is_blocked viewer (other_user viewer m) t)

conversation_with-same :
    (viewer : ℕ) (t : Tables) (m : Match) (o : Option Member) (s : ConversationSummary)
    → conversation_with viewer t m o ≡ some s
    → (s.match_id ≡ m.id) × (s.unread_count ≡ unread m.id viewer t)
conversation_with-same viewer t m none s e = cc
conversation_with-same viewer t m (some u) s e = ground (arith, e)

conversation-same :
    (viewer : ℕ) (t : Tables) (m : Match) (s : ConversationSummary)
    → conversation viewer t m ≡ some s
    → (guard viewer t m ≡ true) × (s.match_id ≡ m.id) × (s.unread_count ≡ unread m.id viewer t)
unfolding conversation
conversation-same viewer t m s e = elim (Bool-cases (guard viewer t m)) [
  | inr h ↦ absurd (ground (arith, h, e))
  | inl h ↦
      let row = find (λ u. u.id == other_user viewer m) t.members in
      let found : conversation_with viewer t m row ≡ some s = ground (arith, h, e) in
      let same = conversation_with-same viewer t m row s found in (h, same.0, same.1)
]

module _ (P : ConversationSummary → Type 0) (viewer limit : ℕ) (t : Tables) where
  All-conversation_rows :
      ((m : Match)
        → IsAmong t.matches m
        → (s : ConversationSummary) → conversation viewer t m ≡ some s
        → P s)
      → All P (conversation_rows viewer limit t)
  unfolding conversation_rows
  All-conversation_rows h =
      let rows = collect (conversation viewer t) t.matches in
      All-take P limit (sort_by is_more_recent rows) (
        All-sort_by is_more_recent P rows (
          All-collect P (conversation viewer t) t.matches (
            All-mono (IsAmong t.matches)
              (λ m. (s : ConversationSummary) → conversation viewer t m ≡ some s → P s) t.matches h
              (All-IsAmong t.matches))))

guard-open :
    (viewer : ℕ) (t : Tables) (m : Match)
    → IsAmong t.matches m
    → guard viewer t m ≡ true
    → is_some (get_active_participants_row m.id viewer t) ≡ true
unfolding get_active_participants_row is_blocked
guard-open viewer t m hm e =
    let p : Match → Bool = λ x.
      x.id == m.id
      && is_open x
      && takes_part viewer x
      && not (any (blocks_pair x.user_low_id x.user_high_id) t.blocks) in
    let same = is_blocked_comm m.user_low_id m.user_high_id t in
    let h = hm p (ground (arith, e, same)) in
    elim (Option-cases (find p t.matches)) [
      | inl k ↦ absurd (cc (h, find-none-any p t.matches k))
      | inr (x, k) ↦ rw k refl
    ]

-- Every conversation that is listed for a user is open to the user.
pub conversation_rows-open :
    (viewer limit : ℕ) (t : Tables)
    → All
        (λ s. is_some (get_active_participants_row s.match_id viewer t) ≡ true)
        (conversation_rows viewer limit t)
conversation_rows-open viewer limit t =
    All-conversation_rows (λ s. is_some (get_active_participants_row s.match_id viewer t) ≡ true)
      viewer limit t
      (λ m hm s e.
        let (h, same, _) = conversation-same viewer t m s e in
        subst (λ i. is_some (get_active_participants_row i viewer t) ≡ true) (sym same)
          (guard-open viewer t m hm h))

abbrev IsSentBy : ℕ → Message → Type 0
IsSentBy at m = leb m.created_at at ≡ true

abbrev marked : ℕ → ℕ → ℕ → List Message → List Message
marked match_id viewer at =
    update_where (is_unread match_id viewer at) (λ m. record m { read_at = some at })

unread-marked :
    (match_id viewer at other : ℕ) (ms : List Message)
    → All (IsSentBy at) ms
    → count_where (awaits other viewer) (marked match_id viewer at ms)
      ≡ (if other == match_id then 0 else count_where (awaits other viewer) ms)
unread-marked match_id viewer at other [] h = ground arith
unread-marked match_id viewer at other (m ∷ ms) h =
    ground (arith, unread-marked match_id viewer at other ms h.1, h.0)

unread-is_unread :
    (match_id viewer at : ℕ) (ms : List Message)
    → All (IsSentBy at) ms
    → count_where (is_unread match_id viewer at) ms ≡ count_where (awaits match_id viewer) ms
unread-is_unread match_id viewer at [] h = refl
unread-is_unread match_id viewer at (m ∷ ms) h =
    ground (arith, unread-is_unread match_id viewer at ms h.1, h.0)

-- To mark a conversation read at a time that is not before any message reports the number of unread
-- messages that it was listed with. Afterwards it is listed with none, and every other conversation
-- with as many as before.
pub mark_read-conversation_rows :
    (match_id viewer at limit : ℕ) (c : Conn Tables) (n : ℕ)
    → All (IsSentBy at) c.tables.messages
    → (mark_read match_id viewer at c).0 ≡ ok n
    → (n ≡ unread match_id viewer c.tables)
      × All
          (λ s.
            s.unread_count
            ≡ (if s.match_id == match_id then 0 else unread s.match_id viewer c.tables))
          (conversation_rows viewer limit (mark_read match_id viewer at c).1.tables)
unfolding mark_read mark_messages_read unread
mark_read-conversation_rows match_id viewer at limit c n sent e =
    let t = (mark_read match_id viewer at c).1.tables in
    let stored : t.messages ≡ marked match_id viewer at c.tables.messages = ground (arith, e) in
    (
      ground (arith, e, unread-is_unread match_id viewer at c.tables.messages sent),
      All-conversation_rows
          (λ s.
            s.unread_count
            ≡ (if s.match_id == match_id then 0 else unread s.match_id viewer c.tables))
          viewer limit t
          (λ m hm s k.
            let (_, same, count) = conversation-same viewer t m s k in
            rw same (
              count
              ∙ ap (count_where (awaits m.id viewer)) stored
              ∙ unread-marked match_id viewer at m.id c.tables.messages sent)),
    )
