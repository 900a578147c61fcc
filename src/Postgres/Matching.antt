-- ===== src/Postgres/Matching.antt =====
-- backend/internal/adapters/postgres/repositories/matching_repository.go: swipes, matches, blocks and
-- reports. The advisory lock of a pair serialises the transactions on it, and changes no table.
pub mod Atomicity
pub mod Swiping
pub mod Recording
pub mod Safety
pub mod Listing
pub mod Discovery
pub mod Visibility
pub mod Shown
use llm_dating_app.Prelude.{
  ℕ, Bool, true, false, not, Option, none, some, ltb, if◌then◌else◌, Action, ◌>>=◌, ◌>>◌, pure,
  fail, try, or_fail, fail_if, Result, ok, err,
}
use llm_dating_app.Postgres.Queries
use llm_dating_app.Domain.Matching.{
  Error, infra, Match, Swipe, Report, ordered_pair, SwipeOutcome, is_positive, not_found,
  discovery_not_ready, swipe_not_found, interaction_blocked, match_not_found,
}
use llm_dating_app.Connection.{Conn, query, statement, transaction, exec, commit}
use llm_dating_app.Postgres.Queries.{
  get_swipe, is_blocked, has_positive_reverse_swipe, can_swipe_target, count_swipes_since_rows,
  unmatch_rows, Written, insert_block, insert_report, touch_user_activity, is_open,
  get_match_by_pair, insert_match, insert_swipe, match_participant_exists, unmatch_pair_for_block,
  written, missing_user, refused_row,
}
use llm_dating_app.Postgres.Schema.{Postgis, Tables}

unfoldable pub ensure_discovery_ready : ℕ → Action (Conn Tables) Error (Unit {0})
ensure_discovery_ready user = do
  ready ← query infra (Queries.ensure_discovery_ready user)
  fail_if (not ready) discovery_not_ready

abbrev pub active_match : Option Match → Option Match
active_match none = none
active_match (some m) = if is_open m then some m else none

-- A stored swipe, with the match of the pair while it is active.
unfoldable pub find_swipe_outcome : ℕ → ℕ → Action (Conn Tables) Error SwipeOutcome
find_swipe_outcome actor target = do
  row ← query infra (get_swipe actor target)
  swipe ← or_fail row swipe_not_found
  let (low, high) = ordered_pair actor target
  found ← query infra (get_match_by_pair low high)
  pure (record { swipe = swipe; match_made = active_match found; created = false })

unfoldable pub find_swipe : ℕ → ℕ → Action (Conn Tables) Error SwipeOutcome
unfolding find_swipe_outcome
find_swipe actor target = do
  blocked ← query infra (is_blocked actor target)
  fail_if blocked interaction_blocked
  find_swipe_outcome actor target

-- The match that a mutual swipe makes.
unfoldable pub new_match : Swipe → ℕ → Match
new_match s match_id =
    let (low, high) = ordered_pair s.actor_id s.target_id in
    record {
      id = match_id;
      user_low_id = low;
      user_high_id = high;
      matched_at = s.created_at;
      unmatched_at = none;
      unmatched_by = none;
    }

-- A positive swipe that is returned makes a match.
unfoldable pub match_if_mutual : Swipe → ℕ → Bool → Action (Conn Tables) Error (Option Match)
match_if_mutual s match_id false = pure none
match_if_mutual s match_id true = do
  is_mutual ← query infra (has_positive_reverse_swipe s.actor_id s.target_id)
  if is_mutual
      then (do made ← statement infra (insert_match (new_match s match_id)); pure (some made))
      else pure none

-- What follows once no swipe of the pair is found, up to the commit.
unfoldable pub record_new : Postgis → Swipe → ℕ → Action (Conn Tables) Error SwipeOutcome
unfolding match_if_mutual
record_new g s match_id = do
  allowed ← query infra (can_swipe_target g s.actor_id s.target_id s.created_at)
  fail_if (not allowed) not_found
  row ← statement infra (insert_swipe s)
  inserted ← or_fail row infra
  made ← match_if_mutual s match_id (is_positive s.action)
  commit infra
  pure (record { swipe = inserted; match_made = made; created = true })

-- The swipe that is there is returned, the lack of one goes on, and any other error ends the call.
unfoldable pub record_after :
    Postgis → Swipe → ℕ → Result Error SwipeOutcome → Action (Conn Tables) Error SwipeOutcome
unfolding record_new
record_after g s match_id (ok existing) = do commit infra; pure existing
record_after g s match_id (err swipe_not_found) = record_new g s match_id
record_after g s match_id (err e) = fail e

unfoldable pub record_swipe : Postgis → Swipe → ℕ → Action (Conn Tables) Error SwipeOutcome
unfolding find_swipe_outcome record_after
record_swipe g s match_id = transaction infra (do
  exec infra (λ t. t)
  blocked ← query infra (is_blocked s.actor_id s.target_id)
  fail_if blocked interaction_blocked
  existing ← try (find_swipe_outcome s.actor_id s.target_id)
  record_after g s match_id existing)

unfoldable pub count_swipes_since : ℕ → ℕ → Action (Conn Tables) Error ℕ
count_swipes_since actor since = query infra (count_swipes_since_rows actor since)

unfoldable pub unmatch : ℕ → ℕ → ℕ → Action (Conn Tables) Error (Unit {0})
unmatch match_id actor at = do
  affected ← statement infra (unmatch_rows match_id actor at)
  if ltb 0 affected then pure tt else (do
    exists ← query infra (match_participant_exists match_id actor)
    fail_if (not exists) match_not_found)

abbrev pub written_or_fail : Written → Action (Conn Tables) Error (Unit {0})
written_or_fail written = pure tt
written_or_fail missing_user = fail not_found
written_or_fail refused_row = fail infra

unfoldable pub block : ℕ → ℕ → ℕ → Action (Conn Tables) Error (Unit {0})
block blocker blocked at = transaction infra (do
  exec infra (λ t. t)
  result ←
      statement infra
        (insert_block (record { blocker_id = blocker; blocked_id = blocked; created_at = at }))
  written_or_fail result
  exec infra (unmatch_pair_for_block blocker blocked at)
  commit infra)

unfoldable pub create_report : Report → Action (Conn Tables) Error (Unit {0})
create_report r = do result ← statement infra (insert_report r); written_or_fail result

unfoldable pub touch_activity : ℕ → ℕ → Action (Conn Tables) Error (Unit {0})
touch_activity user at = exec infra (touch_user_activity user at)
