-- ===== src/Websocket/Client.antt =====
-- client.go: the queue of a connection, which is closed when it overflows. Several goroutines enqueue at
-- the same time, so a call is a sequence of turns, one for each operation on a channel.
use llm_dating_app.Prelude.{
  ℕ, ◌+◌, Bool, true, false, ◌&&◌, ◌||◌, List, [], ◌∷◌, ◌++◌, leb, if◌then◌else◌, length,
}
use llm_dating_app.Websocket.{ServerEvent}

-- `send` is a channel with room for `queue_size` events, oldest first; `closed` is whether `closeOnce`
-- is closed; `disconnects` counts the calls of `disconnect`.
pub record Client : Type 0 where
  pub queue_size : ℕ
  pub send : List ServerEvent
  pub closed : Bool
  pub disconnects : ℕ

-- `newClient`
abbrev pub new_client : ℕ → Client
new_client queue_size = record {
  queue_size = queue_size;
  send = [];
  closed = false;
  disconnects = 0;
}

abbrev pub is_full : Client → Bool
is_full c = leb c.queue_size (length c.send)

-- Where a call of Enqueue stands: before its select, at the start of closeSlow, before the close of
-- `closeOnce`, before `disconnect`, at its end; or it panicked, as the close of a closed channel does.
pub data Call : Type 0 where
  enqueuing : ServerEvent → Call
  close_slow closing disconnecting returned panicked : Call

-- The select of Enqueue. Of two cases that are ready it takes either: `pick`.
unfoldable pub select_queue : Bool → ServerEvent → Client → Call × Client
select_queue pick e c =
    if c.closed && (is_full c || pick)
    then (returned, c)
    else if is_full c
    then (close_slow, c)
    else (returned, record c { send = c.send ++ e ∷ [] })

-- One turn of a call.
unfoldable pub turn : Bool → Call → Client → Call × Client
unfolding select_queue
turn pick (enqueuing e) c = select_queue pick e c
turn pick close_slow c = (if c.closed then returned else closing, c)
turn pick closing c =
    if c.closed then (panicked, c) else (disconnecting, record c { closed = true })
turn pick disconnecting c = (returned, record c { disconnects = c.disconnects + 1 })
turn pick returned c = (returned, c)
turn pick panicked c = (panicked, c)

abbrev pub later_turn : Bool → Call × Client → Call × Client
later_turn pick (k, c) = turn pick k c

-- A call that no other call interrupts. Four turns are enough for it to return.
unfoldable pub enqueue : Bool → ServerEvent → Client → Call × Client
enqueue pick e c = later_turn pick (later_turn pick (later_turn pick (turn pick (enqueuing e) c)))

-- The write pump takes the oldest event.
abbrev pub rest_of : List ServerEvent → List ServerEvent
rest_of [] = []
rest_of (e ∷ es) = es

unfoldable pub drain : Client → Client
drain c = record c { send = rest_of c.send }
