-- ===== src/Tests/Redis.antt =====
-- The Redis adapters at small limits.
use llm_dating_app.Prelude.{
  ℕ, ◌+◌, ◌/◌, ◌≤◌, ◌<◌, ◌≡◌, refl, true, false, Option, none, some, [], ◌∷◌, arith, ◌==◌,
  if◌then◌else◌, ok, err, Text,
}
use llm_dating_app.Domain.Messaging.{ticket_invalid}
use llm_dating_app.Redis.Tickets.{issue, consume, consume-issue, Tickets}
use llm_dating_app.Redis.Denylist.{Revocations}
use llm_dating_app.Redis.RateLimiter.{Scope}
use llm_dating_app.Redis.SwipeLimiter.{reserve_script}
use llm_dating_app.Redis.SwipeLimiter.Interleaving.{
  swipes-le-limit, Reach, next, start, reserves, records,
}
use llm_dating_app.Redis.MessageRate.{Window, allow, message_rate_script}
use llm_dating_app.Redis.MessageRate.Answers.{allow_all, answers, allow_all-fresh}
use llm_dating_app.Connection.{Conn}
use llm_dating_app.Redis.Keys.{Key}

-- Whole seconds, rounded up.
abbrev seconds_up : ℕ → ℕ
seconds_up ms = (ms + 999) / 1000

abbrev untouched : Scope
untouched = record { attempts = none; lockout = none; violations = none }

-- Two swipes of a limit of two: one recorded, one still in flight.
two_swipes : Reach 0 2 (record {
  now = 0;
  counter = some (record { value = 2; expires = some 90_000_000 });
  persisted = 1;
  in_flight = 1;
})
unfolding reserve_script
two_swipes =
    next (next (next start (reserves 0 _ 1 (omega arith) refl refl)) (records 0 refl))
      (reserves 0 _ 1 (omega arith) refl refl)

swipes-le-limit_example : 1 + 1 ≤ 2
swipes-le-limit_example = swipes-le-limit 0 2 two_swipes

abbrev two_a_minute : Window
two_a_minute = record { window = 60; limit = 2 }

seconds_up-positive : (ms : ℕ) → 0 < ms → 0 < seconds_up ms
seconds_up-positive ms h = omega arith

abbrev no_sends : Conn Key
no_sends = record { tables = none; saved = none; faults = [] }

-- The third send is refused for 59 seconds; before the fourth, the rest of the window, 400 milliseconds, is
-- rounded to zero seconds.
four_sends :
    allow_all (λ ms. ms / 1000) two_a_minute (0 ∷ 500 ∷ 1000 ∷ 59_600 ∷ []) no_sends
    ≡ ok (true, 0) ∷ ok (true, 0) ∷ ok (false, 59) ∷ ok (true, 0) ∷ []
unfolding allow message_rate_script
four_sends = refl

allow_all-fresh_example :
    allow_all (λ ms. ms / 1000) two_a_minute (0 ∷ 500 ∷ 1000 ∷ 59_600 ∷ []) no_sends
    ≡ answers (λ ms. ms / 1000) two_a_minute 60_000 1 (0 ∷ 500 ∷ 1000 ∷ 59_600 ∷ [])
allow_all-fresh_example =
    allow_all-fresh (λ ms. ms / 1000) two_a_minute 0 (500 ∷ 1000 ∷ 59_600 ∷ []) no_sends
      (omega arith) refl refl (omega arith, (omega arith, (omega arith, tt)))

abbrev no_tickets : Conn Tickets
no_tickets = record { tables = record { stored = λ t. none }; saved = none; faults = [] }

abbrev print_one : ℕ → Text
print_one u = u ∷ []

abbrev parse_one : Text → Option ℕ
parse_one [] = none
parse_one (u ∷ s) = some u

issued : (issue print_one parse_one 0 (65 ∷ []) 9 30_000 no_tickets).0 ≡ ok tt
unfolding issue
issued = refl

consume-issue_example :
    let (first, c) =
      consume print_one parse_one 100
        (65 ∷ [])
        (issue print_one parse_one 0 (65 ∷ []) 9 30_000 no_tickets).1 in
    let (second, _) = consume print_one parse_one 200 (65 ∷ []) c in
    (first ≡ ok 9) × (second ≡ err ticket_invalid)
consume-issue_example =
    consume-issue print_one parse_one 0 100 200 9 30_000 (65 ∷ []) no_tickets (λ u. refl) refl
      (omega arith) issued

abbrev one_active : Conn Revocations
one_active = record {
  tables = record {
    denied = λ jti. none;
    active = λ user. if user == 1 then record { jti = 40; expires = 900 } ∷ [] else [];
  };
  saved = none;
  faults = [];
}
