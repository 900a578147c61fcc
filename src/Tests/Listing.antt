-- ===== src/Tests/Listing.antt =====
-- Three members, of whom 1 has matched the others, and before that.
use llm_dating_app.Platform.{finite}
use llm_dating_app.Prelude.{
  ◌≡◌, refl, subst, true, false, Option, none, some, [], ◌∷◌, arith, is_some, ok, length, All, Text,
  is_empty_text, pos,
}
use llm_dating_app.Postgres.Matching
use llm_dating_app.Postgres.Matching.{block}
use llm_dating_app.Postgres.Matching.Listing as Rows
use llm_dating_app.Application.Matching.Listing.{
  list_matches, MatchCursorPayload, Codec, MatchPage, decode_match_cursor, encode_cursor,
  decode_cursor,
}
use llm_dating_app.Application.Matching.Live.{World, live_listings}
use llm_dating_app.Postgres.Schema.{Tables, Ranking}
use llm_dating_app.Application.Paging.{Config, page_limit}
use llm_dating_app.Tests.Matching.{liked_once, pair, conn, member, postgis}
use llm_dating_app.Domain.Matching.{
  Match, RankingWeights, DiscoveryParams, MatchListParams, MatchSummary,
}
use llm_dating_app.Keyset.Following.{follow}
use llm_dating_app.Postgres.Matching.Listing.{
  match_summary, list_discovery_candidates, get_visible_matching_photo, ranked, candidate,
  list_active_matches, match_first, is_eligible,
}
use llm_dating_app.Postgres.Matching.Discovery.{CanSwipe, list_discovery_candidates-CanSwipe}
use llm_dating_app.Postgres.Queries.{
  insert_block, is_blocked, unmatch_pair_for_block, seeker, touch_user_activity, get_swipe,
}
use llm_dating_app.Postgres.Matching.Shown.{IsHidden, block-IsHidden, listed_photos-visible}
use llm_dating_app.Application.Matching.Cursors.{IsCodec, list_matches-decode_match_cursor}
use llm_dating_app.Application.Matching.Following.{match_page, follow-match_page}
use llm_dating_app.Keyset.{page_of, sort_by, insert_by}
use llm_dating_app.Postgres.Rows.{collect}

abbrev pub three : Tables
three = record liked_once { members = member 1 ∷ member 2 ∷ member 3 ∷ []; swipes = [] }

abbrev later_pair : Match
later_pair = record pair { id = 31; user_high_id = 3; matched_at = 60 }

abbrev two_matches : Tables
two_matches = record three { matches = pair ∷ later_pair ∷ [] }

abbrev pub ranking : Ranking
ranking = record {
  distance_km = λ a b. 0;
  score = λ w at hours v c. record {
    interests = 0;
    questionnaire = 0;
    distance = 0;
    activity = 0;
    total = c.id;
  };
}

abbrev pub weights : RankingWeights
weights = record {
  interests = finite (pos 350_000);
  questionnaire = finite (pos 300_000);
  distance = finite (pos 200_000);
  activity = finite (pos 150_000);
}

abbrev discovery : DiscoveryParams
discovery = record { viewer_id = 1; as_of = 70; limit = 20; cursor = none; weights = weights }

abbrev match_list : MatchListParams
match_list = record { user_id = 1; limit = 20; cursor = none }

follow-match_page_example :
    follow (match_page 1 1 two_matches) 3 none
    ≡ sort_by match_first (collect (match_summary 1 two_matches) two_matches.matches)
follow-match_page_example =
    follow-match_page 1 1 3 two_matches (omega arith) (ground arith) (omega arith)

two_listed :
    length (sort_by match_first (collect (match_summary 1 two_matches) two_matches.matches)) ≡ 2
unfolding match_summary is_blocked sort_by insert_by
two_listed = refl

two_offered : length (list_discovery_candidates postgis ranking discovery three) ≡ 2
unfolding list_discovery_candidates ranked candidate is_eligible seeker get_swipe is_blocked sort_by
    insert_by
two_offered = refl

list_discovery_candidates-CanSwipe_example :
    All
      (λ y. CanSwipe postgis 70 three 1 y.user_id)
      (list_discovery_candidates postgis ranking discovery three)
list_discovery_candidates-CanSwipe_example =
    list_discovery_candidates-CanSwipe postgis ranking discovery three

listed_photos-visible_example :
    All
      (λ y. is_some (get_visible_matching_photo postgis 1 y.primary_photo_id 70 two_matches) ≡ true)
      (list_discovery_candidates postgis ranking discovery two_matches)
    × All
        (λ s.
          is_some (get_visible_matching_photo postgis 1 s.primary_photo_id 80 two_matches) ≡ true)
        (list_active_matches match_list two_matches)
listed_photos-visible_example =
    listed_photos-visible postgis ranking two_matches discovery match_list 80 (refl, (refl, tt))

blocked_once : (block 1 2 60 (conn two_matches)).0 ≡ ok tt
unfolding block insert_block unmatch_pair_for_block
blocked_once = refl

block-IsHidden_example :
    IsHidden postgis ranking discovery match_list 102 80
      (block 1 2 60 (conn two_matches)).1.tables
      1
      2
    × IsHidden postgis ranking discovery match_list 102 80
        (block 1 2 60 (conn two_matches)).1.tables
        2
        1
block-IsHidden_example =
    block-IsHidden postgis ranking discovery match_list 102 80 1 2 60 (conn two_matches)
      blocked_once

-- A payload is three numbers.
abbrev numbers : MatchCursorPayload → Text
numbers p = p.version ∷ p.matched_at ∷ p.match_id ∷ []

abbrev read_numbers : Text → Option (MatchCursorPayload × Text)
read_numbers (v ∷ at ∷ id ∷ rest) =
    some (record { version = v; matched_at = at; match_id = id }, rest)
read_numbers _ = none

abbrev plain : Codec MatchCursorPayload
plain = record {
  base64_encode = λ s. s;
  base64_decode = some;
  marshal = λ p. some (numbers p);
  decode_one = read_numbers;
  is_end = is_empty_text;
}

plain-nonempty :
    (p : MatchCursorPayload) (s : Text) → some (numbers p) ≡ some s → is_empty_text s ≡ false
plain-nonempty p s e = ground (arith, e)

plain-json :
    (p : MatchCursorPayload) (s : Text) → some (numbers p) ≡ some s → read_numbers s ≡ some (p, [])
plain-json p s e =
    subst (λ o. elim o [ none ↦ Unit | some t ↦ read_numbers t ≡ some (p, []) ]) e refl

plain-IsCodec : IsCodec plain
plain-IsCodec = record {
  base64 = λ s. refl;
  json = plain-json;
  end_of_input = refl;
  nonempty = plain-nonempty;
}

abbrev pub paging : Config
paging = record { daily_swipe_limit = 100; default_page_size = 20; max_page_size = 50 }

abbrev pub listing_world : World
listing_world = record {
  db = conn two_matches;
  counter = record { tables = none; saved = none; faults = [] };
}

abbrev later_summary : MatchSummary
later_summary = record {
  match_row = later_pair;
  other_user_id = 3;
  display_name = [];
  bio = [];
  city = [];
  primary_photo_id = 103;
  other_last_active = 0;
}

abbrev first_page : MatchPage
first_page = record { matches = later_summary ∷ []; next_cursor = 1 ∷ 60 ∷ 31 ∷ [] }

first_page_listed :
    (list_matches (live_listings postgis ranking 70) paging plain 1 [] (pos 1) 70 listing_world).0
    ≡ ok first_page
unfolding list_matches page_limit page_of encode_cursor decode_match_cursor decode_cursor
    Rows.list_matches list_active_matches match_summary is_blocked sort_by insert_by
    Matching.touch_activity touch_user_activity
first_page_listed = refl

list_matches-decode_match_cursor_example :
    decode_match_cursor plain (1 ∷ 60 ∷ 31 ∷ []) ≡ some (record { matched_at = 60; match_id = 31 })
list_matches-decode_match_cursor_example =
    list_matches-decode_match_cursor (live_listings postgis ranking 70) paging plain 1 [] (pos 1) 70
      listing_world first_page later_summary plain-IsCodec first_page_listed refl refl refl refl
