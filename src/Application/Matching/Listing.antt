-- ===== src/Application/Matching/Listing.antt =====
-- Discover, ListMatches and GetPhotoContent of backend/internal/application/matching/service.go, with
-- their cursors. Base64 and JSON are parameters. Zero stands for the zero time and the nil UUID.
use llm_dating_app.Prelude.{
  ℕ, ◌+◌, Bool, not, ◌||◌, Option, none, some, List, [], ◌==◌, if◌then◌else◌, Action, ◌>>=◌, ◌>>◌,
  pure, ignore, or_else, or_fail, Text, is_empty_text, ℤ,
}
use llm_dating_app.Domain.Matching.{
  Error, Candidate, MatchSummary, DiscoveryCursor, MatchCursor, DiscoveryParams, RankingWeights,
  MatchListParams, infra, VisiblePhoto, invalid_page_size, invalid_cursor,
}
use llm_dating_app.Application.Paging.{Config, page_limit}
use llm_dating_app.Redis.Keys.{Failure}
use llm_dating_app.Keyset.{page_of}

pub record DiscoveryPage : Type 0 where
  pub candidates : List Candidate
  pub next_cursor : Text

pub record MatchPage : Type 0 where
  pub matches : List MatchSummary
  pub next_cursor : Text

pub record DiscoveryCursorPayload : Type 0 where
  pub version : ℕ
  pub as_of : ℕ
  pub score : ℕ
  pub user_id : ℕ

pub record MatchCursorPayload : Type 0 where
  pub version : ℕ
  pub matched_at : ℕ
  pub match_id : ℕ

-- The standard library's `base64.RawURLEncoding` and `encoding/json` for one type of payload: a decoder
-- that refuses unknown fields reads one value and leaves the rest, and finds the end of its input in a
-- rest that holds none.
pub record Codec (P : Type 0) : Type 0 where
  pub base64_encode : Text → Text
  pub base64_decode : Text → Option Text
  pub marshal : P → Option Text
  pub decode_one : Text → Option (P × Text)
  pub is_end : Text → Bool

abbrev pub mapped : {A B : Type 0} → (A → B) → Option A → Option B
mapped f none = none
mapped f (some a) = some (f a)

abbrev pub chained : {A B : Type 0} → Option A → (A → Option B) → Option B
chained none f = none
chained (some a) f = f a

module _ {P : Type 0} (codec : Codec P) where
  unfoldable pub encode_cursor : P → Option Text
  encode_cursor payload = mapped codec.base64_encode (codec.marshal payload)

  unfoldable pub decode_cursor : Text → Option P
  decode_cursor encoded =
      chained (codec.base64_decode encoded)
        (λ raw. chained (codec.decode_one raw) (λ r. if codec.is_end r.1 then some r.0 else none))

-- JSON has no number that is not finite, which `is_finite` tells.
unfoldable pub decode_discovery_cursor :
    (ℕ → Bool) → Codec DiscoveryCursorPayload → Text → Option DiscoveryCursor
unfolding decode_cursor
decode_discovery_cursor is_finite codec encoded = chained (decode_cursor codec encoded) (λ p.
    if not (p.version == 1) || p.as_of == 0 || p.user_id == 0 || not (is_finite p.score)
    then none
    else some (record { as_of = p.as_of; score = p.score; user_id = p.user_id }))

unfoldable pub decode_match_cursor : Codec MatchCursorPayload → Text → Option MatchCursor
unfolding decode_cursor
decode_match_cursor codec encoded = chained (decode_cursor codec encoded) (λ p.
    if not (p.version == 1) || p.matched_at == 0 || p.match_id == 0
    then none
    else some (record { matched_at = p.matched_at; match_id = p.match_id }))

-- The cursor of a request, which is empty in the first one.
abbrev pub cursor_from : {C : Type 0} → (Text → Option C) → Text → Option (Option C)
cursor_from decode encoded =
    if is_empty_text encoded then some none else mapped some (decode encoded)

-- The cursor of the response: empty where the page is the last.
abbrev pub next_text : {P : Type 0} → Codec P → Option P → Option Text
next_text codec none = some []
next_text codec (some payload) = encode_cursor codec payload

abbrev pub discovery_payload : ℕ → Candidate → DiscoveryCursorPayload
discovery_payload as_of c = record {
  version = 1;
  as_of = as_of;
  score = c.score.total;
  user_id = c.user_id;
}

abbrev pub match_payload : MatchSummary → MatchCursorPayload
match_payload s = record {
  version = 1;
  matched_at = s.match_row.matched_at;
  match_id = s.match_row.id;
}

-- The moment of the listing: that of the first page.
abbrev pub moment : ℕ → Option DiscoveryCursor → ℕ
moment now none = now
moment now (some c) = c.as_of

-- The methods of the repository that these calls use.
pub record Listings (W : Type 0) : Type 0 where
  pub ensure_discovery_ready : ℕ → Action W Error (Unit {0})
  pub list_candidates : DiscoveryParams → Action W Error (List Candidate)
  pub list_matches : MatchListParams → Action W Error (List MatchSummary)
  pub get_visible_photo : ℕ → ℕ → Action W Error VisiblePhoto
  pub touch_activity : ℕ → ℕ → Action W Error (Unit {0})

module _ {W : Type 0} (repository : Listings W) (config : Config) where
  module _ (weights : RankingWeights) (is_finite : ℕ → Bool)
      (codec : Codec DiscoveryCursorPayload) where
    -- `now` and `later` are the two readings of the clock.
    unfoldable pub discover : ℕ → Text → ℤ → ℕ → ℕ → Action W Error DiscoveryPage
    unfolding page_limit decode_discovery_cursor page_of encode_cursor
    discover viewer encoded requested now later = do
      limit ← or_fail (page_limit config requested) invalid_page_size
      cursor ←
          or_fail (cursor_from (decode_discovery_cursor is_finite codec) encoded) invalid_cursor
      repository.ensure_discovery_ready viewer
      candidates ← repository.list_candidates (record {
        viewer_id = viewer;
        as_of = moment now cursor;
        limit = limit + 1;
        cursor = cursor;
        weights = weights;
      })
      let page = page_of (discovery_payload (moment now cursor)) limit candidates
      next ← or_fail (next_text codec page.next_cursor) infra
      ignore (repository.touch_activity viewer later)
      pure (record { candidates = page.entries; next_cursor = next })

  unfoldable pub list_matches :
      Codec MatchCursorPayload → ℕ → Text → ℤ → ℕ → Action W Error MatchPage
  unfolding page_limit decode_match_cursor page_of encode_cursor
  list_matches codec user encoded requested now = do
    limit ← or_fail (page_limit config requested) invalid_page_size
    cursor ← or_fail (cursor_from (decode_match_cursor codec) encoded) invalid_cursor
    matches ←
        repository.list_matches (record { user_id = user; limit = limit + 1; cursor = cursor })
    let page = page_of match_payload limit matches
    next ← or_fail (next_text codec page.next_cursor) infra
    ignore (repository.touch_activity user now)
    pure (record { matches = page.entries; next_cursor = next })

module _ {W File : Type 0} (repository : Listings W) (get : Text → Action W Failure File) where
  unfoldable pub get_photo_content : ℕ → ℕ → Action W Error (File × Text)
  get_photo_content viewer photo = do
    row ← repository.get_visible_photo viewer photo
    file ← or_else (λ _. infra) (get row.storage_key)
    pure (file, row.mime_type)
