-- ===== src/Websocket/Frames.antt =====
-- handler.go: the handshake, and the fixed window over inbound frames. Times are milliseconds.
use llm_dating_app.Prelude.{
  ℕ, suc, ◌+◌, ◌-◌, ◌*◌, ◌≤◌, ◌<◌, ◌≡◌, refl, Bool, true, not, ◌&&◌, Option, none, some, List, [],
  ◌∷◌, arith, leb, if◌then◌else◌, Action, ◌>>◌, or_else, fail_if, All, All-mono, Text, text_eq,
  is_empty_text, trim_space, cut_prefix, split_at,
}
use llm_dating_app.Domain.Messaging
use llm_dating_app.Domain.Messaging.{dependency_unavailable}

-- "llmatch.v1"
abbrev pub subprotocol : Text
subprotocol = b'l' ∷ b'l' ∷ b'm' ∷ b'a' ∷ b't' ∷ b'c' ∷ b'h' ∷ b'.' ∷ b'v' ∷ b'1' ∷ []

abbrev pub is_ticket : Text → Bool
is_ticket part =
    not (is_empty_text (trim_space part)) && not (text_eq (trim_space part) subprotocol)

unfoldable pub ticket_of : List Text → Option Text
ticket_of [] = none
ticket_of (part ∷ parts) = if is_ticket part then some (trim_space part) else ticket_of parts

abbrev pub or_ticket : Option Text → Text → Text
or_ticket none t = t
or_ticket (some t) _ = t

-- Of the headers Sec-WebSocket-Protocol; the empty text is no ticket.
unfoldable pub ticket_from_protocols : List Text → Text
unfolding ticket_of
ticket_from_protocols [] = []
ticket_from_protocols (header ∷ headers) =
    or_ticket (ticket_of (split_at b',' header)) (ticket_from_protocols headers)

abbrev https : Text
https = b'h' ∷ b't' ∷ b't' ∷ b'p' ∷ b's' ∷ b':' ∷ b'/' ∷ b'/' ∷ []

abbrev http : Text
http = b'h' ∷ b't' ∷ b't' ∷ b'p' ∷ b':' ∷ b'/' ∷ b'/' ∷ []

abbrev pub or_same : Option Text → Text → Text
or_same none s = s
or_same (some t) s = t

unfoldable pub strip_scheme : Text → Text
strip_scheme origin = or_same (cut_prefix https origin) (or_same (cut_prefix http origin) origin)

-- 401 for the ticket, 503 for Redis.
pub data Handshake : Type 0 where
  missing_ticket invalid_ticket unavailable : Handshake

abbrev pub handshake_error : Messaging.Error → Handshake
handshake_error dependency_unavailable = unavailable
handshake_error _ = invalid_ticket

-- `ServeHTTP` up to the upgrade of the connection, with `ConsumeTicket` of the service.
unfoldable pub handshake :
    {W : Type 0} → (Text → Action W Messaging.Error ℕ) → List Text → Action W Handshake ℕ
handshake consume headers = do
  let ticket = ticket_from_protocols headers
  fail_if (is_empty_text ticket) missing_ticket
  or_else handshake_error (consume ticket)

-- `frameLimiter`. A new one is at Go's zero time, long before any frame: `none`.
pub record FrameLimiter : Type 0 where
  pub limit : ℕ
  pub window : ℕ
  pub window_start : Option ℕ
  pub count : ℕ

abbrev pub new_frame_limiter : ℕ → ℕ → FrameLimiter
new_frame_limiter limit window = record {
  limit = limit;
  window = window;
  window_start = none;
  count = 0;
}

abbrev pub is_over : ℕ → Option ℕ → ℕ → Bool
is_over window none now = true
is_over window (some start) now = leb (start + window) now

unfoldable pub allow_frame : ℕ → FrameLimiter → Bool × FrameLimiter
allow_frame now l =
    if is_over l.window l.window_start now
    then (leb 1 l.limit, record l { window_start = some now; count = 1 })
    else (leb (l.count + 1) l.limit, record l { count = l.count + 1 })

-- How many of the frames at these times are let through.
unfoldable pub admitted_frames : List ℕ → FrameLimiter → ℕ
admitted_frames [] l = 0
admitted_frames (t ∷ ts) l =
    let (allowed, l') = allow_frame t l in
    let rest = admitted_frames ts l' in if allowed then suc rest else rest

within_window :
    (start : ℕ) (ts : List ℕ) (l : FrameLimiter)
    → l.window_start ≡ some start
    → All (λ t. t < start + l.window) ts
    → admitted_frames ts l ≤ l.limit - l.count
unfolding admitted_frames allow_frame
within_window start [] l e h = omega arith
within_window start (t ∷ ts) l e h =
    ground (arith, e, within_window start ts (record l { count = l.count + 1 }) e h.1)

-- The frames before the first reset, and those after it.
admitted_frames-le :
    (from : ℕ) (ts : List ℕ) (l : FrameLimiter)
    → All (λ t. (from ≤ t) × (t < from + l.window)) ts
    → admitted_frames ts l ≤ (l.limit - l.count) + l.limit
unfolding admitted_frames allow_frame
admitted_frames-le from [] l h = omega arith
admitted_frames-le from (t ∷ ts) l h =
    let later : All (λ u. u < t + l.window) ts =
      All-mono (λ u. (from ≤ u) × (u < from + l.window)) (λ u. u < t + l.window) ts
        (λ u k. omega arith) h.1 in
    ground (
      arith,
      within_window t ts (record l { window_start = some t; count = 1 }) refl later,
      admitted_frames-le from ts (record l { count = l.count + 1 }) h.1,
    )

-- From whatever state of the limiter, within any span as long as the window no more frames are let
-- through than twice the limit.
pub admitted_frames-le-limit :
    (from : ℕ) (ts : List ℕ) (l : FrameLimiter)
    → All (λ t. (from ≤ t) × (t < from + l.window)) ts
    → admitted_frames ts l ≤ 2 * l.limit
admitted_frames-le-limit from ts l h = let k = admitted_frames-le from ts l h in omega arith
