-- ===== src/Redis/Tickets.antt =====
-- backend/internal/adapters/redis/ws_tickets.go: single-use handshake tickets. The text of a user id
-- and its parser belong to the uuid package.
use llm_dating_app.Prelude.{
  ℕ, ◌+◌, ◌<◌, ◌≡◌, ◌≢◌, Bool, true, false, not, Option, none, some, [], arith, ltb, if◌then◌else◌,
  is_some, Action, ◌>>=◌, or_fail, fail_if, ok, err, Text, text_eq, text_eq_iff,
}
use llm_dating_app.Domain.Messaging.{Error, dependency_unavailable, infra}
use llm_dating_app.Connection.{Conn, next_fault, statement}
use llm_dating_app.Domain.Messaging.{ticket_invalid}

pub record Stored : Type 0 where
  pub owner : Text
  pub expires : ℕ

-- Keys by the ticket's text, behind one prefix.
pub record Tickets : Type 0 where
  pub stored : Text → Option Stored

abbrev pub live_ticket : ℕ → Option Stored → Option Stored
live_ticket now none = none
live_ticket now (some s) = if ltb now s.expires then some s else none

abbrev pub put : Text → Option Stored → Tickets → Tickets
put key v ts = record { stored = λ k. if text_eq k key then v else ts.stored k }

-- SET … NX with a lifetime in milliseconds: whether the key was free, and the keys.
unfoldable pub set_nx : ℕ → Text → Text → ℕ → Tickets → Bool × Tickets
set_nx now key owner ttl ts =
    if is_some (live_ticket now (ts.stored key))
    then (false, ts)
    else (true, put key (some (record { owner = owner; expires = now + ttl })) ts)

-- `consumeTicketScript`
unfoldable pub consume_ticket_script : ℕ → Text → Tickets → Option Text × Tickets
consume_ticket_script now key ts = elim (live_ticket now (ts.stored key)) [
  | none ↦ (none, ts)
  | some s ↦ (some s.owner, put key none ts)
]

module _ (print : ℕ → Text) (parse : Text → Option ℕ) where
  unfoldable pub issue : ℕ → Text → ℕ → ℕ → Action (Conn Tickets) Error (Unit {0})
  unfolding set_nx
  issue now ticket user ttl = do
    stored ← statement infra (set_nx now ticket (print user) ttl)
    fail_if (not stored) infra

  unfoldable pub consume : ℕ → Text → Action (Conn Tickets) Error ℕ
  unfolding consume_ticket_script
  consume now ticket = do
    raw ← statement dependency_unavailable (consume_ticket_script now ticket)
    owner ← or_fail raw ticket_invalid
    or_fail (parse owner) ticket_invalid

  -- While Redis answers, a handshake ticket that was issued is redeemed by its owner before it expires,
  -- and a second redemption at any time is refused.
  pub consume-issue :
      (issued now later user ttl : ℕ) (ticket : Text) (c : Conn Tickets)
      → ((u : ℕ) → parse (print u) ≡ some u)
      → c.faults ≡ []
      → now < issued + ttl
      → (issue issued ticket user ttl c).0 ≡ ok tt
      → let (first, c') = consume now ticket (issue issued ticket user ttl c).1 in
        let (second, _) = consume later ticket c' in
        (first ≡ ok user) × (second ≡ err ticket_invalid)
  unfolding issue consume
  consume-issue issued now later user ttl ticket c law nf h e =
      ground (arith, law user, text_eq_iff ticket ticket)

  -- To redeem a ticket touches no other.
  pub consume_others :
      (now : ℕ) (ticket other : Text) (c : Conn Tickets)
      → other ≢ ticket
      → (consume now ticket c).1.tables.stored other ≡ c.tables.stored other
  unfolding consume
  consume_others now ticket other c h = ground (arith, text_eq_iff other ticket)

  -- A server that does not answer, a ticket that is unknown and one that has expired all refuse.
  pub consume_refuses :
      (now : ℕ) (ticket : Text) (c : Conn Tickets)
      → live_ticket now (c.tables.stored ticket) ≡ none
      → (consume now ticket c).0
        ≡ err (if next_fault c.faults then dependency_unavailable else ticket_invalid)
  unfolding consume
  consume_refuses now ticket c h = ground arith
