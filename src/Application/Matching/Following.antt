-- ===== src/Application/Matching/Following.antt =====
-- The listings of ListMatches and of Discover, and the pages that a client gets by following their cursors.
use llm_dating_app.Postgres.Schema.{Tables, Postgis, Ranking}
use llm_dating_app.Prelude.{
  ℕ, ◌+◌, ◌≤◌, ◌<◌, ◌≡◌, refl, ap, ◌∙◌, inl, inr, Bool, true, ◌&&◌, Option, none, some, arith, ◌==◌,
  Option-cases, length, find,
}
use llm_dating_app.Domain.Matching.{
  MatchSummary, MatchCursor, Candidate, DiscoveryCursor, RankingWeights,
}
use llm_dating_app.Keyset.{Keyset, IsKeyset, Page, page_of, sort_by, page_at}
use llm_dating_app.Postgres.Matching.Listing.{
  match_first, is_match_before, ranks_before, is_ranked_after, list_active_matches, ranked,
  match_summary, candidate,
}
use llm_dating_app.Keyset.Sorting.{HasDistinct}
use llm_dating_app.Keyset.Following.{follow, follow-wanted}
use llm_dating_app.Postgres.Rows.{collect, length-collect, collect-HasDistinct}
use llm_dating_app.Postgres.Matching.Visibility.{match_summary-id}
use llm_dating_app.Postgres.Matching.Discovery.{candidate-is_eligible}
use llm_dating_app.Keyset.Selecting.{select-every}

abbrev pub match_cursor : MatchSummary → MatchCursor
match_cursor s = record { matched_at = s.match_row.matched_at; match_id = s.match_row.id }

-- The listing of ListMatches.
abbrev pub match_keyset : Keyset MatchSummary MatchCursor
match_keyset = record {
  id = λ s. s.match_row.id;
  precedes = match_first;
  cursor = match_cursor;
  is_after = is_match_before;
}

is_match_before_cursor :
    (b : Option MatchCursor) (x m : MatchSummary)
    → is_match_before b x ≡ true
    → is_match_before (some (match_cursor x)) m ≡ (is_match_before b m && match_first x m)
is_match_before_cursor none x m h = ground arith
is_match_before_cursor (some c) x m h = ground arith

match_keyset-IsKeyset : IsKeyset match_keyset
match_keyset-IsKeyset = record {
  precedes_trans = λ a b c h l. ground arith;
  precedes_asym = λ a b h. ground arith;
  precedes_total = λ a b n h. ground arith;
  is_after_none = λ x. refl;
  is_after_cursor = is_match_before_cursor;
}

abbrev pub discovery_cursor : ℕ → Candidate → DiscoveryCursor
discovery_cursor as_of y = record { as_of = as_of; score = y.score.total; user_id = y.user_id }

-- The listing of Discover at a moment.
abbrev pub discovery_keyset : ℕ → Keyset Candidate DiscoveryCursor
discovery_keyset as_of = record {
  id = λ y. y.user_id;
  precedes = ranks_before;
  cursor = discovery_cursor as_of;
  is_after = is_ranked_after;
}

is_ranked_after_cursor :
    (as_of : ℕ) (b : Option DiscoveryCursor) (x m : Candidate)
    → is_ranked_after b x ≡ true
    → is_ranked_after (some (discovery_cursor as_of x)) m
      ≡ (is_ranked_after b m && ranks_before x m)
is_ranked_after_cursor as_of none x m h = ground arith
is_ranked_after_cursor as_of (some c) x m h = ground arith

discovery_keyset-IsKeyset : (as_of : ℕ) → IsKeyset (discovery_keyset as_of)
discovery_keyset-IsKeyset as_of = record {
  precedes_trans = λ a b c h l. ground arith;
  precedes_asym = λ a b h. ground arith;
  precedes_total = λ a b n h. ground arith;
  is_after_none = λ x. refl;
  is_after_cursor = is_ranked_after_cursor as_of;
}

-- The listing of ListMatches behind a cursor, asked for with one match more than the page and cut to it.
abbrev pub match_page : ℕ → ℕ → Tables → Option MatchCursor → Page MatchSummary MatchCursor
match_page size user t before =
    page_of match_cursor size
      (list_active_matches (record { user_id = user; limit = size + 1; cursor = before }) t)

-- The pages of a positive size that a client gets by following the cursors of ListMatches are, put
-- together, the active matches of the user that are in no block and whose other user has a profile and a
-- primary photo, newest first and each once; and no more pages are needed than there are matches, and
-- one.
pub follow-match_page :
    (size user fuel : ℕ) (t : Tables)
    → 1 ≤ size
    → HasDistinct (λ m. m.id) t.matches
    → length t.matches < fuel
    → follow (match_page size user t) fuel none
      ≡ sort_by match_first (collect (match_summary user t) t.matches)
unfolding list_active_matches
follow-match_page size user fuel t one d h =
    let rows = collect (match_summary user t) t.matches in
    let few = length-collect (match_summary user t) t.matches in
    let distinct =
      collect-HasDistinct (match_summary user t) (λ m. m.id) (λ s. s.match_row.id)
        (λ m s e. match_summary-id user t m s e) t.matches d in
    follow-wanted match_keyset match_keyset-IsKeyset (λ s. true) rows distinct size fuel one
      (omega arith)
    ∙ ap (sort_by match_first) (select-every rows)

module _ (g : Postgis) (r : Ranking) (w : RankingWeights) (viewer : ℕ) (t : Tables) where
  abbrev pub every_candidate : Candidate → Bool
  every_candidate y = true

  -- The pages of Discover at one moment.
  abbrev pub steady_page : ℕ → ℕ → Option DiscoveryCursor → Page Candidate DiscoveryCursor
  steady_page size now =
      page_at (discovery_keyset now) every_candidate (ranked g r w now viewer t) size

  ranked-rows :
      (now : ℕ)
      → HasDistinct (λ m. m.id) t.members
      → HasDistinct (λ y. y.user_id) (ranked g r w now viewer t)
        × (length (ranked g r w now viewer t) ≤ length t.members)
  unfolding ranked
  ranked-rows now d = elim (Option-cases (find (λ m. m.id == viewer) t.members)) [
    | inl e ↦ rw e (tt, omega arith)
    | inr (v, e) ↦
        let offer = candidate g r w now t v in
        rw e (
          collect-HasDistinct offer (λ m. m.id) (λ y. y.user_id)
              (λ c y k. (candidate-is_eligible g r w now t v c y k).1) t.members d,
          length-collect offer t.members,
        )
  ]

  pub follow-steady_page :
      (size fuel now : ℕ)
      → 1 ≤ size
      → HasDistinct (λ m. m.id) t.members
      → length t.members < fuel
      → follow (steady_page size now) fuel none ≡ sort_by ranks_before (ranked g r w now viewer t)
  follow-steady_page size fuel now one d h =
      let rows = ranked g r w now viewer t in
      let (distinct, few) = ranked-rows now d in
      follow-wanted (discovery_keyset now) (discovery_keyset-IsKeyset now) every_candidate rows
        distinct size fuel one (omega arith)
      ∙ ap (sort_by ranks_before) (select-every rows)
