-- ===== src/Websocket/Typing.antt =====
-- handleClientEvent of handler.go over PostgreSQL: the typing indicator after a block.
use llm_dating_app.Prelude.{
  ℕ, ◌≡◌, ap, ◌∙◌, ◌≢◌, ◌⊎◌, inl, inr, Bool, true, false, some, [], ◌∷◌, map, arith, Option-cases,
  Result-cases, ok, count_where,
}
use llm_dating_app.Domain.Messaging.{Participants, includes, other}
use llm_dating_app.Postgres.Schema.{Tables}
use llm_dating_app.Postgres.Matching.{block}
use llm_dating_app.Postgres.Messaging.{get_active_participants, get_active_participants_row}
use llm_dating_app.Postgres.Messaging.Sending.{
  get_active_participants_row-allowed, block-get_active_participants,
}
use llm_dating_app.Websocket.{ServerEvent, typing, typing_event, closed_event}
use llm_dating_app.Websocket.Hub.{
  notice, Socket, Sockets, targets, deliver, relay_typing, handle_client_event, is_socket,
  connections,
}
use llm_dating_app.Connection.{Conn}
use llm_dating_app.Websocket.Connections.{
  count_where-append, enqueue_all-clients, count_where-sockets, times,
}
use llm_dating_app.Websocket.Client.{enqueue}

open-includes :
    (match_id viewer : ℕ) (c : Conn Tables) (p : Participants)
    → (get_active_participants match_id viewer c).0 ≡ ok p
    → includes p viewer ≡ true
unfolding get_active_participants includes
open-includes match_id viewer c p e =
    elim (Option-cases (get_active_participants_row match_id viewer c.tables)) [
      | inl h ↦ ground arith
      | inr (m, h) ↦
          ground (arith, get_active_participants_row-allowed match_id viewer c.tables m h)
    ]

other-not_included : (p : Participants) (u v : ℕ) → includes p v ≡ false → other p u ≢ v
unfolding includes other
other-not_included p u v h = ground arith

-- An event to one user reaches no connection of another.
deliver-other_user :
    (pick : Socket → Bool) (event : ServerEvent) (user : ℕ) (r : Socket) (w : Sockets)
    → user ≢ r.user_id
    → (deliver pick (user ∷ []) event w).clients r ≡ w.clients r
unfolding deliver targets
deliver-other_user pick event user r w ne =
    let none_there : count_where (is_socket r) (targets (user ∷ []) w.connected) ≡ 0 = ground (
      arith,
      count_where-append (is_socket r)
          (map (λ id. record { user_id = user; id = id }) (connections (w.connected user))) [],
      count_where-sockets r user (connections (w.connected user)),
    ) in
    enqueue_all-clients pick event r (targets (user ∷ []) w.connected) w
    ∙ ap (λ n. times n (λ c. (enqueue (pick r) event c).1) (w.clients r)) none_there

-- After a block of another user that succeeds, a typing event between the two reaches no connection of
-- the one who does not type, whoever of them types, for whatever match, and whether PostgreSQL answers
-- or not.
pub block-handle_client_event :
    (blocker blocked at match_id now : ℕ) (pick : Socket → Bool) (s r : Socket) (c : Conn Tables)
    (w : Sockets)
    → blocker ≢ blocked
    → (block blocker blocked at c).0 ≡ ok tt
    → ((s.user_id ≡ blocker) × (r.user_id ≡ blocked))
      ⊎ ((s.user_id ≡ blocked) × (r.user_id ≡ blocker))
    → (handle_client_event get_active_participants pick s
          (typing (some match_id))
          now
          (block blocker blocked at c).1
          w).1.clients
        r
      ≡ w.clients r
unfolding handle_client_event relay_typing
block-handle_client_event blocker blocked at match_id now pick s r c w ne e users =
    elim (Result-cases
      (get_active_participants match_id s.user_id (block blocker blocked at c).1).0) [
        | inl (p, h) ↦
            let apart : other p s.user_id ≢ r.user_id = other-not_included p s.user_id r.user_id (
              ground (
                arith,
                block-get_active_participants blocker blocked at match_id s.user_id c p ne e h,
                open-includes match_id s.user_id (block blocker blocked at c).1 p h,
              )) in
            ground (
              arith,
              h,
              deliver-other_user pick
                  (record (notice typing_event (some match_id) now) { user_id = some s.user_id })
                  (other p s.user_id) r w apart,
            )
        | inr (x, h) ↦ ground (
          arith,
          h,
          ne,
          enqueue_all-clients pick (notice closed_event (some match_id) now) r (s ∷ []) w,
        )
      ]
