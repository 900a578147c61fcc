-- ===== src/Tests/Websocket.antt =====
-- Sockets: user 1 with two connections, of which one left, and user 2 with one.
use llm_dating_app.Prelude.{
  ℕ, ◌≤◌, ◌≡◌, refl, Bool, true, false, none, List, [], ◌∷◌, arith, length, any,
}
use llm_dating_app.Websocket.{ServerEvent, ready_event}
use llm_dating_app.Websocket.Client.{Client, new_client}
use llm_dating_app.Websocket.Hub.{Socket, Sockets, notice, new_hub}
use llm_dating_app.Websocket.Connections.{Change, joined_hub, left_hub, history}
use llm_dating_app.Websocket.Queue.{
  Move, arrive, turn_at, pump, moves, moves-bounded, is_panicked, moves-panicked, overflow,
}

abbrev ready : ServerEvent
ready = notice ready_event none 5

abbrev socket : ℕ → ℕ → Socket
socket user id = record { user_id = user; id = id }

abbrev changes : List Change
changes =
    joined_hub (socket 1 1)
    ∷ joined_hub (socket 1 2)
    ∷ joined_hub (socket 2 1)
    ∷ left_hub (socket 1 1)
    ∷ []

abbrev first : Socket → Bool
first s = true

abbrev sockets : Sockets
sockets = record { connected = history changes new_hub; clients = λ s. new_client 4 }

abbrev full_client : Client
full_client = record { queue_size = 1; send = ready ∷ []; closed = false; disconnects = 0 }

abbrev some_moves : List Move
some_moves =
    arrive ready ∷ turn_at 0 true ∷ arrive ready ∷ turn_at 0 true ∷ pump ∷ turn_at 0 true ∷ []

moves-bounded_example :
    let c = (moves some_moves (record { client = new_client 1; calls = [] })).client in
    (length c.send ≤ 1) × (c.disconnects ≤ 1) × (c.closed ≡ false → c.disconnects ≡ 0)
moves-bounded_example = moves-bounded 1 some_moves

abbrev idle_client : Client
idle_client = new_client 2

moves-panicked_example :
    let ms = overflow 2 ready in
    any is_panicked (moves ms (record { client = idle_client; calls = [] })).calls ≡ true
moves-panicked_example = moves-panicked ready idle_client (omega arith) refl
