-- ===== src/Postgres/Matching/Listing.antt =====
-- ListMatches, ListCandidates and GetVisiblePhoto of
-- backend/internal/adapters/postgres/repositories/matching_repository.go, with their statements in
-- sqlc/matching.sql.go.
use llm_dating_app.Prelude.{
  ℕ, min, max, Bool, true, false, not, ◌&&◌, ◌||◌, Option, none, some, List, [], ltb, ◌==◌,
  if◌then◌else◌, is_some, Action, ◌>>=◌, or_fail, take, find, any, select,
}
use llm_dating_app.Postgres.Schema.{Postgis, Tables, Ranking, PhotoRow, Member, ProfileRow}
use llm_dating_app.Domain.Matching.{
  Match, MatchSummary, MatchCursor, MatchListParams, RankingWeights, Candidate, DiscoveryCursor,
  DiscoveryParams, Error, VisiblePhoto, infra, photo_not_found,
}
use llm_dating_app.Postgres.Queries.{
  is_blocked, seeker, takes_part, suits, get_swipe, is_pair, Seeker, is_open,
}
use llm_dating_app.Connection.{Conn, query}
use llm_dating_app.Keyset.{sort_by}
use llm_dating_app.Postgres.Rows.{collect}

abbrev pub other_user : ℕ → Match → ℕ
other_user user m = if m.user_low_id == user then m.user_high_id else m.user_low_id

abbrev pub summary_with : Match → Member → Option ProfileRow → Option PhotoRow → Option MatchSummary
summary_with m other none photo = none
summary_with m other (some p) none = none
summary_with m other (some p) (some photo) = some (record {
  match_row = m;
  other_user_id = other.id;
  display_name = other.display_name;
  bio = p.bio;
  city = p.city;
  primary_photo_id = photo.id;
  other_last_active = other.last_active_at;
})

abbrev pub summary_of : Match → Option Member → Option MatchSummary
summary_of m none = none
summary_of m (some other) = summary_with m other other.profile other.primary_photo

-- The joins of a match of the user, and `WHERE` but for the cursor.
unfoldable pub match_summary : ℕ → Tables → Match → Option MatchSummary
unfolding is_blocked
match_summary user t m =
    if takes_part user m && is_open m && not (is_blocked user (other_user user m) t)
    then summary_of m (find (λ u. u.id == other_user user m) t.members)
    else none

-- `matched_at DESC, id DESC`
abbrev pub match_first : MatchSummary → MatchSummary → Bool
match_first a b =
    ltb b.match_row.matched_at a.match_row.matched_at
    || (a.match_row.matched_at == b.match_row.matched_at && ltb b.match_row.id a.match_row.id)

abbrev pub is_match_before : Option MatchCursor → MatchSummary → Bool
is_match_before none s = true
is_match_before (some c) s =
    ltb s.match_row.matched_at c.matched_at
    || (s.match_row.matched_at == c.matched_at && ltb s.match_row.id c.match_id)

unfoldable pub list_active_matches : MatchListParams → Tables → List MatchSummary
unfolding match_summary
list_active_matches p t = take p.limit (
    sort_by match_first
      (select (is_match_before p.cursor) (collect (match_summary p.user_id t) t.matches)))

unfoldable pub list_matches : MatchListParams → Action (Conn Tables) Error (List MatchSummary)
list_matches p = query infra (list_active_matches p)

abbrev pub is_photo : ℕ → Option PhotoRow → Bool
is_photo id none = false
is_photo id (some p) = p.id == id

abbrev pub photo_of : Member → Option PhotoRow → Option VisiblePhoto
photo_of m none = none
photo_of m (some p) =
    some
      (record { id = p.id; owner_id = m.id; storage_key = p.storage_key; mime_type = p.mime_type })

abbrev pub visible_photo : Option Member → Option VisiblePhoto
visible_photo none = none
visible_photo (some m) = photo_of m m.primary_photo

-- `total_score DESC, user_id`
abbrev pub ranks_before : Candidate → Candidate → Bool
ranks_before a b =
    ltb b.score.total a.score.total || (a.score.total == b.score.total && ltb a.user_id b.user_id)

abbrev pub is_ranked_after : Option DiscoveryCursor → Candidate → Bool
is_ranked_after none x = true
is_ranked_after (some c) x =
    ltb x.score.total c.score || (x.score.total == c.score && ltb c.user_id x.user_id)

module _ (g : Postgis) where
  -- A member who suits the viewer, and has not been swiped.
  abbrev pub is_fresh : ℕ → Member → Member → Tables → Bool
  is_fresh as_of v c t =
      suits g as_of (seeker v) (seeker c) && not (is_some (get_swipe v.id c.id t))

  -- The conditions of `eligible`, but for the photo.
  unfoldable pub is_eligible : ℕ → Tables → Member → Member → Bool
  unfolding seeker is_blocked get_swipe
  is_eligible as_of t v c =
      not (c.id == v.id)
      && is_fresh as_of v c t
      && not (is_blocked v.id c.id t)
      && not (any (is_pair (min v.id c.id) (max v.id c.id)) t.matches)

  -- The last disjunct of the statement's condition is the conditions of discovery.
  abbrev pub may_see : ℕ → ℕ → Tables → Member → Bool
  may_see viewer as_of t owner =
      owner.id == viewer
      || any (λ m. is_pair (min viewer owner.id) (max viewer owner.id) m && is_open m) t.matches
      || any (λ v. v.id == viewer && is_fresh as_of v owner t) t.members

  unfoldable pub get_visible_matching_photo : ℕ → ℕ → ℕ → Tables → Option VisiblePhoto
  unfolding seeker is_blocked get_swipe
  get_visible_matching_photo viewer photo as_of t = visible_photo (
      find
        (λ m.
          is_photo photo m.primary_photo
          && may_see viewer as_of t m
          && not (is_blocked viewer m.id t))
        t.members)

  -- `now` is the clock of the repository.
  unfoldable pub get_visible_photo : ℕ → ℕ → ℕ → Action (Conn Tables) Error VisiblePhoto
  get_visible_photo viewer photo now = do
    row ← query infra (get_visible_matching_photo viewer photo now)
    or_fail row photo_not_found

module _ (g : Postgis) (r : Ranking) where
  abbrev pub candidate_with :
      RankingWeights
      → ℕ
      → Member
      → Member
      → Option Seeker
      → Option Seeker
      → Option ProfileRow
      → Option PhotoRow
      → Option Candidate
  candidate_with w as_of v c (some from) (some to) (some p) (some photo) = some (record {
    user_id = c.id;
    display_name = c.display_name;
    age = g.age_years as_of c.birth_date;
    gender = c.gender;
    bio = p.bio;
    interests = p.interests;
    city = p.city;
    distance_km = r.distance_km from.location to.location;
    last_active_at = c.last_active_at;
    primary_photo_id = photo.id;
    score = r.score w as_of 720 v c;
  })
  candidate_with w as_of v c _ _ _ _ = none

  unfoldable pub candidate : RankingWeights → ℕ → Tables → Member → Member → Option Candidate
  unfolding is_eligible seeker
  candidate w as_of t v c =
      if is_eligible g as_of t v c
      then candidate_with w as_of v c (seeker v) (seeker c) c.profile c.primary_photo
      else none

  -- The candidates of the viewer's row, if there is one.
  abbrev pub candidates_of : RankingWeights → ℕ → Tables → Option Member → List Candidate
  candidates_of w as_of t none = []
  candidates_of w as_of t (some v) = collect (candidate w as_of t v) t.members

  unfoldable pub ranked : RankingWeights → ℕ → ℕ → Tables → List Candidate
  unfolding candidate
  ranked w as_of viewer t = candidates_of w as_of t (find (λ m. m.id == viewer) t.members)

  unfoldable pub list_discovery_candidates : DiscoveryParams → Tables → List Candidate
  unfolding ranked
  list_discovery_candidates p t = take p.limit (
      sort_by ranks_before
        (select (is_ranked_after p.cursor) (ranked p.weights p.as_of p.viewer_id t)))

  unfoldable pub list_candidates : DiscoveryParams → Action (Conn Tables) Error (List Candidate)
  list_candidates p = query infra (list_discovery_candidates p)
