-- ===== src/Websocket/Queue.antt =====
-- The queue of client.go when calls of Enqueue run one at a time, and when they interleave.
use llm_dating_app.Prelude.{
  ℕ, zero, suc, ◌+◌, ◌-◌, ◌≤◌, ◌≡◌, refl, Bool, true, false, List, [], ◌∷◌, ◌++◌, arith,
  if◌then◌else◌, length, any, count_where,
}
use llm_dating_app.Websocket.{ServerEvent}
use llm_dating_app.Websocket.Client.{
  Client, is_full, Call, enqueuing, close_slow, closing, disconnecting, returned, panicked,
  select_queue, turn, drain, new_client, rest_of,
}

-- What a call is to do: nothing on a closed connection, or else to append the event, or to close.
abbrev pub enqueued : ServerEvent → Client → Client
enqueued e c =
    if is_full c
    then record c { closed = true; disconnects = c.disconnects + 1 }
    else record c { send = c.send ++ e ∷ [] }

-- A client with the calls that are in flight, and what may happen next: a new call, a turn of the call
-- at a position, or the write pump.
pub record System : Type 0 where
  pub client : Client
  pub calls : List Call

pub data Move : Type 0 where
  arrive : ServerEvent → Move
  turn_at : ℕ → Bool → Move
  pump : Move

unfoldable pub turn_nth : ℕ → Bool → List Call → Client → List Call × Client
turn_nth i pick [] c = ([], c)
turn_nth zero pick (k ∷ ks) c = let (k', c') = turn pick k c in (k' ∷ ks, c')
turn_nth (suc i) pick (k ∷ ks) c = let (ks', c') = turn_nth i pick ks c in (k ∷ ks', c')

unfoldable pub move : Move → System → System
unfolding turn_nth
move (arrive e) s = record s { calls = enqueuing e ∷ s.calls }
move (turn_at i pick) s =
    let (ks, c) = turn_nth i pick s.calls s.client in record { client = c; calls = ks }
move pump s = record s { client = drain s.client }

unfoldable pub moves : List Move → System → System
moves [] s = s
moves (m ∷ ms) s = moves ms (move m s)

abbrev pub is_panicked : Call → Bool
is_panicked panicked = true
is_panicked _ = false

abbrev pub is_disconnecting : Call → Bool
is_disconnecting disconnecting = true
is_disconnecting _ = false

abbrev pub bit : Bool → ℕ
bit b = if b then 1 else 0

-- The queue has room for what it holds, and a connection is closed exactly when it was disconnected
-- once, `n` counting the calls that are to disconnect.
abbrev pub IsBounded : ℕ → ℕ → Client → Type 0
IsBounded size n c =
    (c.queue_size ≡ size) × (length c.send ≤ size) × (n + c.disconnects ≡ bit c.closed)

length-append : (es : List ServerEvent) (e : ServerEvent) → length (es ++ e ∷ []) ≡ length es + 1
length-append [] e = refl
length-append (x ∷ es) e = ground (arith, length-append es e)

length-rest_of : (es : List ServerEvent) → length (rest_of es) ≤ length es
length-rest_of [] = omega arith
length-rest_of (e ∷ es) = omega arith

turn-IsBounded :
    (size : ℕ) (pick : Bool) (k : Call) (n : ℕ) (c : Client)
    → IsBounded size (bit (is_disconnecting k) + n) c
    → let (k', c') = turn pick k c in IsBounded size (bit (is_disconnecting k') + n) c'
unfolding turn select_queue
turn-IsBounded size pick (enqueuing e) n c h = ground (arith, length-append c.send e)
turn-IsBounded size pick close_slow n c h = ground arith
turn-IsBounded size pick closing n c h = ground arith
turn-IsBounded size pick disconnecting n c h = ground arith
turn-IsBounded size pick returned n c h = h
turn-IsBounded size pick panicked n c h = h

turn_nth-IsBounded :
    (size i : ℕ) (pick : Bool) (ks : List Call) (n : ℕ) (c : Client)
    → IsBounded size (count_where is_disconnecting ks + n) c
    → let (ks', c') = turn_nth i pick ks c in
      IsBounded size (count_where is_disconnecting ks' + n) c'
unfolding turn_nth
turn_nth-IsBounded size i pick [] n c h = h
turn_nth-IsBounded size zero pick (k ∷ ks) n c h =
    ground (arith, turn-IsBounded size pick k (count_where is_disconnecting ks + n) c)
turn_nth-IsBounded size (suc i) pick (k ∷ ks) n c h =
    ground (arith, turn_nth-IsBounded size i pick ks (bit (is_disconnecting k) + n) c)

abbrev pub IsSound : ℕ → System → Type 0
IsSound size s = IsBounded size (count_where is_disconnecting s.calls) s.client

move-IsSound : (size : ℕ) (m : Move) (s : System) → IsSound size s → IsSound size (move m s)
unfolding move drain
move-IsSound size (arrive e) s h = h
move-IsSound size (turn_at i pick) s h =
    ground (arith, turn_nth-IsBounded size i pick s.calls 0 s.client)
move-IsSound size pump s h = ground (arith, length-rest_of s.client.send)

moves-IsSound :
    (size : ℕ) (ms : List Move) (s : System) → IsSound size s → IsSound size (moves ms s)
unfolding moves
moves-IsSound size [] s h = h
moves-IsSound size (m ∷ ms) s h = moves-IsSound size ms (move m s) (move-IsSound size m s h)

-- However calls of Enqueue and the write pump interleave on a new connection, the queue never exceeds
-- its size, and the connection is disconnected at most once, and not before it is closed.
pub moves-bounded :
    (queue_size : ℕ) (ms : List Move)
    → let c = (moves ms (record { client = new_client queue_size; calls = [] })).client in
      (length c.send ≤ queue_size) × (c.disconnects ≤ 1) × (c.closed ≡ false → c.disconnects ≡ 0)
moves-bounded queue_size ms = ground (
  arith,
  moves-IsSound queue_size ms (record { client = new_client queue_size; calls = [] })
      (ground arith),
)

-- Two calls that find the queue full both pass the test of closeSlow before either closes.
abbrev race : ServerEvent → List Move
race e =
    arrive e
    ∷ arrive e
    ∷ turn_at 0 true
    ∷ turn_at 0 true
    ∷ turn_at 1 true
    ∷ turn_at 1 true
    ∷ turn_at 0 true
    ∷ turn_at 1 true
    ∷ []

race-panicked :
    (e : ServerEvent) (ks : List Call) (c : Client)
    → is_full c ≡ true
    → c.closed ≡ false
    → any is_panicked (moves (race e) (record { client = c; calls = ks })).calls ≡ true
unfolding moves move turn_nth turn select_queue
race-panicked e ks c full open' = ground arith

-- As many calls as there is room for, one after the other, and then the race.
unfoldable pub overflow : ℕ → ServerEvent → List Move
overflow zero e = race e
overflow (suc n) e = arrive e ∷ turn_at 0 true ∷ overflow n e

overflow-panicked :
    (n : ℕ) (e : ServerEvent) (ks : List Call) (c : Client)
    → c.queue_size ≡ length c.send + n
    → c.closed ≡ false
    → any is_panicked (moves (overflow n e) (record { client = c; calls = ks })).calls ≡ true
unfolding overflow moves move turn_nth turn select_queue
overflow-panicked zero e ks c room open' = race-panicked e ks c (ground arith) open'
overflow-panicked (suc n) e ks c room open' =
    let next =
      overflow-panicked n e (returned ∷ ks) (record c { send = c.send ++ e ∷ [] })
        (ground (arith, length-append c.send e)) open' in
    ground (arith, next)

-- An open connection whose events nobody reads is at risk: when its queue has been filled, two calls of
-- Enqueue that interleave close `closeOnce` twice, and one of them panics.
pub moves-panicked :
    (e : ServerEvent) (c : Client)
    → length c.send ≤ c.queue_size
    → c.closed ≡ false
    → let ms = overflow (c.queue_size - length c.send) e in
      any is_panicked (moves ms (record { client = c; calls = [] })).calls ≡ true
moves-panicked e c room open' =
    overflow-panicked (c.queue_size - length c.send) e [] c (omega arith) open'
