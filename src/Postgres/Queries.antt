-- ===== src/Postgres/Queries.antt =====
-- The SQL statements of backend/internal/adapters/postgres/sqlc/matching.sql.go, on the tables.
use llm_dating_app.Prelude.{
  ℕ, ◌+◌, ◌*◌, min, max, Bool, true, false, not, ◌&&◌, ◌||◌, Option, none, some, List, [], ◌∷◌, ltb,
  leb, ◌==◌, if◌then◌else◌, is_some, length, find, any, update_where, count_where,
}
use llm_dating_app.Domain.Matching.{
  Match, Swipe, Report, is_valid_action, is_positive, is_valid_reason,
}
use llm_dating_app.Postgres.Schema.{PreferencesRow, Member, Tables, Postgis, Block, ProfileRow}
use llm_dating_app.Domain.User.{is_active_status}

-- What the joins of the discovery queries require of either side, and what they read of it.
pub record Seeker : Type 0 where
  pub gender : ℕ
  pub birth_date : ℕ
  pub location : ℕ
  pub preferences : PreferencesRow

abbrev pub seeker_at : Member → Option ℕ → PreferencesRow → Option Seeker
seeker_at m none prefs = none
seeker_at m (some l) prefs =
    some
      (record { gender = m.gender; birth_date = m.birth_date; location = l; preferences = prefs })

abbrev pub has_genders : List ℕ → Bool
has_genders [] = false
has_genders (_ ∷ _) = true

abbrev pub seeker_of : Member → Option ProfileRow → Option PreferencesRow → Option Seeker
seeker_of m none prefs = none
seeker_of m (some p) none = none
seeker_of m (some p) (some prefs) =
    if is_active_status m.status
      && p.onboarding_completed
      && has_genders prefs.genders
      && m.has_consent
    then seeker_at m p.location prefs
    else none

unfoldable pub seeker : Member → Option Seeker
seeker m = seeker_of m m.profile m.preferences

unfoldable pub ensure_discovery_ready : ℕ → Tables → Bool
unfolding seeker
ensure_discovery_ready user t =
    any (λ m. m.id == user && is_some (seeker m) && is_some m.primary_photo) t.members

abbrev pub wants : Postgis → ℕ → Seeker → Seeker → Bool
wants g as_of v c =
    any (λ x. x == c.gender) v.preferences.genders
    && leb v.preferences.min_age (g.age_years as_of c.birth_date)
    && leb (g.age_years as_of c.birth_date) v.preferences.max_age

abbrev pub near : Postgis → Seeker → Seeker → Bool
near g v c =
    g.within v.location c.location
      (min v.preferences.max_distance_km c.preferences.max_distance_km * 1000)

abbrev pub suits : Postgis → ℕ → Option Seeker → Option Seeker → Bool
suits g as_of none c = false
suits g as_of (some v) none = false
suits g as_of (some v) (some c) = wants g as_of v c && wants g as_of c v && near g v c

abbrev pub is_pair : ℕ → ℕ → Match → Bool
is_pair low high m = m.user_low_id == low && m.user_high_id == high

unfoldable pub can_swipe_target : Postgis → ℕ → ℕ → ℕ → Tables → Bool
unfolding seeker
can_swipe_target g actor target as_of t =
    any
      (λ v.
        v.id == actor
        && any
            (λ c. c.id == target && suits g as_of (seeker v) (seeker c) && is_some c.primary_photo)
            t.members)
      t.members
    && not (any (is_pair (min actor target) (max actor target)) t.matches)

abbrev pub blocks_pair : ℕ → ℕ → Block → Bool
blocks_pair a b k =
    (k.blocker_id == a && k.blocked_id == b) || (k.blocker_id == b && k.blocked_id == a)

unfoldable pub is_blocked : ℕ → ℕ → Tables → Bool
is_blocked a b t = any (blocks_pair a b) t.blocks

abbrev pub is_swipe : ℕ → ℕ → Swipe → Bool
is_swipe actor target s = s.actor_id == actor && s.target_id == target

unfoldable pub get_swipe : ℕ → ℕ → Tables → Option Swipe
get_swipe actor target t = find (is_swipe actor target) t.swipes

-- No row comes back on a conflict, nor where the constraints of the table refuse the row.
unfoldable pub insert_swipe : Swipe → Tables → Option Swipe × Tables
insert_swipe s t =
    if any (is_swipe s.actor_id s.target_id) t.swipes
      || not (is_valid_action s.action)
      || s.actor_id == s.target_id
    then (none, t)
    else (some s, record t { swipes = s ∷ t.swipes })

unfoldable pub has_positive_reverse_swipe : ℕ → ℕ → Tables → Bool
has_positive_reverse_swipe actor target t =
    any (λ s. is_swipe target actor s && is_positive s.action) t.swipes

unfoldable pub get_match_by_pair : ℕ → ℕ → Tables → Option Match
get_match_by_pair low high t = find (is_pair low high) t.matches

abbrev pub insert_match_on : Match → Tables → Option Match → Match × Tables
insert_match_on m t none = (m, record t { matches = m ∷ t.matches })
insert_match_on m t (some old) = (old, t)

-- `ON CONFLICT … DO UPDATE` writes the row that is there onto itself, and returns it.
unfoldable pub insert_match : Match → Tables → Match × Tables
unfolding get_match_by_pair
insert_match m t = insert_match_on m t (get_match_by_pair m.user_low_id m.user_high_id t)

unfoldable pub count_swipes_since_rows : ℕ → ℕ → Tables → ℕ
count_swipes_since_rows actor since t =
    count_where (λ s. s.actor_id == actor && leb since s.created_at) t.swipes

abbrev pub is_open : Match → Bool
is_open m = not (is_some m.unmatched_at)

abbrev pub takes_part : ℕ → Match → Bool
takes_part user m = m.user_low_id == user || m.user_high_id == user

abbrev pub close : ℕ → ℕ → Match → Match
close by at m = record m { unmatched_at = some at; unmatched_by = some by }

-- The number of rows that change, and the tables.
unfoldable pub unmatch_rows : ℕ → ℕ → ℕ → Tables → ℕ × Tables
unmatch_rows match_id actor at t =
    let p : Match → Bool = λ m. m.id == match_id && takes_part actor m && is_open m in
    (count_where p t.matches, record t { matches = update_where p (close actor at) t.matches })

unfoldable pub match_participant_exists : ℕ → ℕ → Tables → Bool
match_participant_exists match_id actor t =
    any (λ m. m.id == match_id && takes_part actor m) t.matches

pub data Written : Type 0 where
  written missing_user refused_row : Written

abbrev pub is_member : ℕ → Tables → Bool
is_member user t = any (λ m. m.id == user) t.members

-- On a conflict nothing is written; the row must name two users, and different ones.
unfoldable pub insert_block : Block → Tables → Written × Tables
insert_block b t =
    if b.blocker_id == b.blocked_id
    then (refused_row, t)
    else if any (λ k. k.blocker_id == b.blocker_id && k.blocked_id == b.blocked_id) t.blocks
    then (written, t)
    else if is_member b.blocker_id t && is_member b.blocked_id t
    then (written, record t { blocks = b ∷ t.blocks })
    else (missing_user, t)

unfoldable pub unmatch_pair_for_block : ℕ → ℕ → ℕ → Tables → Tables
unmatch_pair_for_block blocker blocked at t = record t {
  matches =
      update_where (λ m. is_pair (min blocker blocked) (max blocker blocked) m && is_open m)
        (close blocker at) t.matches;
}

unfoldable pub insert_report : Report → Tables → Written × Tables
insert_report r t =
    if r.reporter_id == r.reported_id
      || not (is_valid_reason r.reason)
      || ltb 1000 (length r.description)
    then (refused_row, t)
    else if is_member r.reporter_id t && is_member r.reported_id t
    then (written, record t { reports = r ∷ t.reports })
    else (missing_user, t)

-- At most once in fifteen minutes.
unfoldable pub touch_user_activity : ℕ → ℕ → Tables → Tables
touch_user_activity user at t = record t {
  members =
      update_where (λ m. m.id == user && ltb (m.last_active_at + 900_000) at)
        (λ m. record m { last_active_at = at }) t.members;
}
