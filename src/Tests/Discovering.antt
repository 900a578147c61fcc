-- ===== src/Tests/Discovering.antt =====
-- A client that reads the pages of Discover with one candidate each. A payload is four numbers.
use llm_dating_app.Application.Matching.Discovering.{discover_all, discover_all-ranked, HasCursor}
use llm_dating_app.Application.Matching.Cursors.{IsCodec}
use llm_dating_app.Postgres.Queries
use llm_dating_app.Prelude.{
  ◌+◌, ◌≡◌, refl, subst, true, false, Option, none, some, [], ◌∷◌, arith, All, Text, is_empty_text,
  pos,
}
use llm_dating_app.Application.Matching.Listing.{DiscoveryCursorPayload, Codec}
use llm_dating_app.Application.Matching.Live.{World}
use llm_dating_app.Tests.Listing.{ranking, paging, weights, three, listing_world}
use llm_dating_app.Tests.Matching.{conn, postgis}
use llm_dating_app.Postgres.Queries.{seeker, get_swipe, is_blocked}
use llm_dating_app.Application.Paging.{page_limit}
use llm_dating_app.Postgres.Matching.Listing.{ranked, candidate, ranks_before, is_eligible}
use llm_dating_app.Keyset.{sort_by}

abbrev discovery_numbers : DiscoveryCursorPayload → Text
discovery_numbers p = p.version ∷ p.as_of ∷ p.score ∷ p.user_id ∷ []

abbrev read_discovery : Text → Option (DiscoveryCursorPayload × Text)
read_discovery (v ∷ at ∷ score ∷ id ∷ rest) =
    some (record { version = v; as_of = at; score = score; user_id = id }, rest)
read_discovery _ = none

abbrev plain_discovery : Codec DiscoveryCursorPayload
plain_discovery = record {
  base64_encode = λ s. s;
  base64_decode = some;
  marshal = λ p. some (discovery_numbers p);
  decode_one = read_discovery;
  is_end = is_empty_text;
}

plain_discovery-nonempty :
    (p : DiscoveryCursorPayload) (s : Text)
    → some (discovery_numbers p) ≡ some s
    → is_empty_text s ≡ false
plain_discovery-nonempty p s e = ground (arith, e)

plain_discovery-json :
    (p : DiscoveryCursorPayload) (s : Text)
    → some (discovery_numbers p) ≡ some s
    → read_discovery s ≡ some (p, [])
plain_discovery-json p s e =
    subst (λ o. elim o [ none ↦ Unit | some t ↦ read_discovery t ≡ some (p, []) ]) e refl

plain_discovery-IsCodec : IsCodec plain_discovery
plain_discovery-IsCodec = record {
  base64 = λ s. refl;
  json = plain_discovery-json;
  end_of_input = refl;
  nonempty = plain_discovery-nonempty;
}

abbrev offering_world : World
offering_world = record listing_world { db = conn three }

viewer_ready : Queries.ensure_discovery_ready 1 three ≡ true
unfolding Queries.ensure_discovery_ready seeker
viewer_ready = refl

one_a_page : page_limit paging (pos 1) ≡ some 1
unfolding page_limit
one_a_page = refl

have_cursors :
    All
      (HasCursor postgis ranking paging weights (λ x. true) plain_discovery 1)
      (ranked postgis ranking weights 70 1 three)
unfolding ranked candidate is_eligible seeker get_swipe is_blocked
have_cursors = ((refl, refl), ((refl, refl), tt))

-- The requests are sent at the times 70, 71, 72 and so on.
discover_all-ranked_example :
    discover_all postgis ranking paging weights
      (λ x. true)
      plain_discovery
      1
      (pos 1)
      (λ n. 70 + n)
      4
      0
      []
      offering_world
    ≡ sort_by ranks_before (ranked postgis ranking weights 70 1 three)
discover_all-ranked_example =
    discover_all-ranked postgis ranking paging weights (λ x. true) plain_discovery 1
      plain_discovery-IsCodec (λ p e. refl) (pos 1) (λ n. 70 + n) 1 4 offering_world refl
      viewer_ready one_a_page (omega arith) refl have_cursors (ground arith) (omega arith)
