-- ===== src/Websocket/Hub.antt =====
-- hub.go and the events of handler.go: the connections of each user, and what is delivered to them.
use llm_dating_app.Prelude.{
  ℕ, Bool, not, ◌&&◌, Option, none, some, List, [], ◌∷◌, ◌++◌, map, ◌==◌, if◌then◌else◌, Action, ok,
  err, length, any, select,
}
use llm_dating_app.Domain.Messaging.{Participants, other}
use llm_dating_app.Application.Messaging.{MessageEvent}
use llm_dating_app.Websocket.{
  ServerEvent, ClientEvent, typing, ping, other_event, message_event, typing_event, closed_event,
  ready_event, ServerEventType,
}
use llm_dating_app.Websocket.Client.{Client, enqueue}

-- A `*Client`: its user, and what tells the clients of one user apart.
pub record Socket : Type 0 where
  pub user_id : ℕ
  pub id : ℕ

abbrev pub is_socket : Socket → Socket → Bool
is_socket a b = a.user_id == b.user_id && a.id == b.id

-- The map of the clients: a user without an entry has none.
abbrev pub Connected : Type 0
Connected = ℕ → Option (List ℕ)

abbrev pub new_hub : Connected
new_hub user = none

-- `h.clients[user]`, which is empty where there is no entry.
abbrev pub connections : Option (List ℕ) → List ℕ
connections none = []
connections (some ids) = ids

abbrev pub set_entry : ℕ → Option (List ℕ) → Connected → Connected
set_entry user entry h u = if u == user then entry else h u

abbrev pub add_id : ℕ → List ℕ → List ℕ
add_id id ids = if any (λ i. i == id) ids then ids else id ∷ ids

abbrev pub unless_empty : List ℕ → Option (List ℕ)
unless_empty [] = none
unless_empty (id ∷ ids) = some (id ∷ ids)

unfoldable pub register_socket : Socket → Connected → Connected
register_socket c h = set_entry c.user_id (some (add_id c.id (connections (h c.user_id)))) h

-- An entry that becomes empty is deleted.
unfoldable pub unregister_socket : Socket → Connected → Connected
unregister_socket c h = elim (h c.user_id) [
  | none ↦ h
  | some ids ↦ set_entry c.user_id (unless_empty (select (λ i. not (i == c.id)) ids)) h
]

unfoldable pub connection_count : ℕ → Connected → ℕ
connection_count user h = length (connections (h user))

-- The connections of the recipients; a map gives those of one user in any order.
unfoldable pub targets : List ℕ → Connected → List Socket
targets [] h = []
targets (user ∷ users) h =
    map (λ id. record { user_id = user; id = id }) (connections (h user)) ++ targets users h

-- The hub with the state of every client.
pub record Sockets : Type 0 where
  pub connected : Connected
  pub clients : Socket → Client

-- One after the other; `pick` is what the selects take.
unfoldable pub enqueue_all : (Socket → Bool) → ServerEvent → List Socket → Sockets → Sockets
enqueue_all pick event [] w = w
enqueue_all pick event (s ∷ ss) w = enqueue_all pick event ss (record w {
  clients = λ t. if is_socket t s then (enqueue (pick t) event (w.clients t)).1 else w.clients t;
})

unfoldable pub deliver : (Socket → Bool) → List ℕ → ServerEvent → Sockets → Sockets
unfolding targets enqueue_all
deliver pick recipients event w = enqueue_all pick event (targets recipients w.connected) w

-- `Broadcast`
unfoldable pub broadcast : (Socket → Bool) → MessageEvent → ℕ → Sockets → Sockets
broadcast pick e now = deliver pick e.recipients (record {
  type = message_event;
  message = some e.message;
  match_id = some e.match_id;
  user_id = none;
  sent_at = now;
})

abbrev pub notice : ServerEventType → Option ℕ → ℕ → ServerEvent
notice type match_id now = record {
  type = type;
  message = none;
  match_id = match_id;
  user_id = none;
  sent_at = now;
}

module _ {M E : Type 0} (authorize : ℕ → ℕ → Action M E Participants) where
  -- `handleClientEvent`, on the state of the service and the sockets.
  unfoldable pub relay_typing : (Socket → Bool) → Socket → ℕ → ℕ → M → Sockets → M × Sockets
  relay_typing pick s match_id now m w =
      let (r, m') = authorize match_id s.user_id m in
      elim r [
        | err e ↦ (m', enqueue_all pick (notice closed_event (some match_id) now) (s ∷ []) w)
        | ok participants ↦ (
          m',
          deliver pick (other participants s.user_id ∷ [])
              (record (notice typing_event (some match_id) now) { user_id = some s.user_id }) w,
        )
      ]

  unfoldable pub handle_client_event :
      (Socket → Bool) → Socket → ClientEvent → ℕ → M → Sockets → M × Sockets
  unfolding relay_typing
  handle_client_event pick s ping now m w =
      (m, enqueue_all pick (notice ready_event none now) (s ∷ []) w)
  handle_client_event pick s (typing none) now m w = (m, w)
  handle_client_event pick s (typing (some match_id)) now m w = relay_typing pick s match_id now m w
  handle_client_event pick s other_event now m w = (m, w)
