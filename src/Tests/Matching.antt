-- ===== src/Tests/Matching.antt =====
-- Two members, 1 and 2, who suit one another; 2 has liked 1.
use llm_dating_app.Domain.User.{Status}
use llm_dating_app.Prelude.{
  ℕ, ◌+◌, ◌≡◌, refl, ap, ◌∙◌, ◌⊎◌, true, false, ◌&&◌, none, some, [], ◌∷◌, arith, is_some, ok, err,
}
use llm_dating_app.Domain.Matching.{
  infra, Swipe, Match, SwipeOutcome, is_positive, like, is_valid_action, ordered_pair,
}
use llm_dating_app.Postgres.Matching.{record_swipe, block, new_match}
use llm_dating_app.Postgres.Schema.{Postgis, Member, Tables}
use llm_dating_app.Postgres.Matching.Atomicity.{
  swipe_effect, record_swipe-swipe_effect, record_swipe-swipe_effect_no_faults, mutual_effect,
}
use llm_dating_app.Postgres.Matching.Safety.{IsSafe, record_swipe-IsSafe, block-IsSafe}
use llm_dating_app.Postgres.Matching.Swiping.{IsConsistent, likes}
use llm_dating_app.Connection.{Conn}
use llm_dating_app.Postgres.Queries.{
  is_blocked, get_swipe, can_swipe_target, insert_swipe, has_positive_reverse_swipe, insert_match,
  get_match_by_pair,
}
use llm_dating_app.Postgres.Matching.Recording.{record_swipe-IsConsistent, record_swipe-match}

abbrev pub postgis : Postgis
postgis = record { age_years = λ at birth. 30; within = λ a b metres. true }

abbrev pub member : ℕ → Member
member id = record {
  id = id;
  status = Status.active;
  display_name = [];
  gender = 1;
  birth_date = 0;
  last_active_at = 0;
  profile = some (record {
    onboarding_completed = true;
    location = some 0;
    bio = [];
    city = [];
    interests = [];
    questionnaire = 0;
  });
  preferences =
      some (record { min_age = 18; max_age = 99; max_distance_km = 50; genders = 1 ∷ [] });
  has_consent = true;
  primary_photo = some (record { id = 100 + id; storage_key = []; mime_type = [] });
}

abbrev liked : ℕ → ℕ → ℕ → Swipe
liked id actor target = record {
  id = id;
  actor_id = actor;
  target_id = target;
  action = like;
  created_at = 50;
}

abbrev pub liked_once : Tables
liked_once = record {
  members = member 1 ∷ member 2 ∷ [];
  swipes = liked 20 2 1 ∷ [];
  matches = [];
  blocks = [];
  reports = [];
  messages = [];
}

abbrev pub pair : Match
pair = record {
  id = 30;
  user_low_id = 1;
  user_high_id = 2;
  matched_at = 50;
  unmatched_at = none;
  unmatched_by = none;
}

abbrev pub matched : Tables
matched = record liked_once { swipes = liked 21 1 2 ∷ liked 20 2 1 ∷ []; matches = pair ∷ [] }

abbrev pub conn : Tables → Conn Tables
conn t = record { tables = t; saved = none; faults = [] }

-- The fourth round trip fails.
abbrev failing : Tables → Conn Tables
failing t = record (conn t) { faults = false ∷ false ∷ false ∷ true ∷ [] }

abbrev made : SwipeOutcome
made = record { swipe = liked 21 1 2; match_made = some pair; created = true }

match_made_at_once : swipe_effect postgis (liked 21 1 2) 30 liked_once ≡ (ok made, matched)
unfolding swipe_effect is_blocked get_swipe can_swipe_target get_match_by_pair insert_swipe
    is_valid_action mutual_effect is_positive has_positive_reverse_swipe insert_match new_match
    ordered_pair
match_made_at_once = refl

record_swipe-IsSafe_example :
    IsSafe (record_swipe postgis (liked 21 1 2) 30 (conn liked_once)).1.tables
record_swipe-IsSafe_example = record_swipe-IsSafe postgis (liked 21 1 2) 30 (conn liked_once) tt

matched-IsSafe : IsSafe matched
matched-IsSafe = ground arith

block-IsSafe_example : IsSafe (block 2 1 60 (conn matched)).1.tables
block-IsSafe_example = block-IsSafe 2 1 60 (conn matched) matched-IsSafe

record_swipe-swipe_effect_example :
    let (r, c) = record_swipe postgis (liked 21 1 2) 30 (failing liked_once) in
    let (x, t) = swipe_effect postgis (liked 21 1 2) 30 liked_once in
    ((r ≡ x) × (c.tables ≡ t)) ⊎ ((r ≡ err infra) × (c.tables ≡ liked_once))
record_swipe-swipe_effect_example =
    record_swipe-swipe_effect postgis (liked 21 1 2) 30 (failing liked_once)

recorded : (record_swipe postgis (liked 21 1 2) 30 (conn liked_once)).0 ≡ ok made
recorded =
    (record_swipe-swipe_effect_no_faults postgis (liked 21 1 2) 30 (conn liked_once) refl).0
    ∙ ap (λ p. p.0) match_made_at_once

record_swipe-IsConsistent_example :
    IsConsistent (record_swipe postgis (liked 21 1 2) 30 (conn liked_once)).1.tables
record_swipe-IsConsistent_example =
    record_swipe-IsConsistent postgis (liked 21 1 2) 30 (conn liked_once)
      (record { mutual_matches = tt; one_for_each_pair = tt })

record_swipe-match_example :
    is_some made.match_made ≡ (is_positive like && likes 2 1 liked_once.swipes)
record_swipe-match_example =
    record_swipe-match postgis (liked 21 1 2) 30 (conn liked_once) made (omega arith) recorded refl
