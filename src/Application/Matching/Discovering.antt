-- ===== src/Application/Matching/Discovering.antt =====
-- A client that reads the pages of Discover (application/matching/service.go) one after the other.
use llm_dating_app.Postgres.Schema.{Tables, Postgis, Ranking}
use llm_dating_app.Domain.Matching.{RankingWeights, Candidate, DiscoveryCursor, Error}
use llm_dating_app.Keyset.{page_of, last, remaining, sort_by}
use llm_dating_app.Application.Paging.{Config, page_limit}
use llm_dating_app.Application.Matching.Live.{World, live_listings}
use llm_dating_app.Postgres.Queries
use llm_dating_app.Postgres.Matching
use llm_dating_app.Prelude.{
  ℕ, zero, suc, ◌+◌, ◌≤◌, ◌<◌, ◌≡◌, refl, ap, subst, ◌∙◌, ◌⊎◌, inl, inr, Bool, true, false, ◌&&◌,
  Option, none, some, List, [], ◌++◌, arith, ltb, ◌==◌, is_some, Bool-cases, Option-cases, Result,
  ok, err, length, take, select, All, Text, is_empty_text, ℤ,
}
use llm_dating_app.Application.Matching.Listing.{
  Codec, DiscoveryCursorPayload, Listings, discover, DiscoveryPage, cursor_from,
  decode_discovery_cursor, moment, next_text, discovery_payload, encode_cursor,
}
use llm_dating_app.Postgres.Matching.Listing.{
  list_discovery_candidates, ranked, list_candidates, is_ranked_after, ranks_before,
}
use llm_dating_app.Application.Matching.Following.{
  discovery_keyset, every_candidate, discovery_cursor, steady_page, follow-steady_page,
}
use llm_dating_app.Keyset.Selecting.{last-All, All-take, All-select}
use llm_dating_app.Application.Matching.Cursors.{IsCodec, decode-encode}
use llm_dating_app.Keyset.Following.{follow}
use llm_dating_app.Keyset.Sorting.{HasDistinct, All-sort_by}

-- The next cursors of one page by two kinds of cursor: none, or of the same entry.
page_of-next_cursor :
    {A C D : Type 0} (P : A → Type 0) (f : A → C) (h : A → D) (size : ℕ) (ms : List A)
    → All P ms
    → (((page_of f size ms).next_cursor ≡ none) × ((page_of h size ms).next_cursor ≡ none))
      ⊎ ((x : A) × P x
          × ((page_of f size ms).next_cursor ≡ some (f x))
          × ((page_of h size ms).next_cursor ≡ some (h x)))
unfolding page_of
page_of-next_cursor P f h size ms every = elim (Option-cases (last (take size ms))) [
  | inl e ↦ inl (ground (arith, e), ground (arith, e))
  | inr (x, e) ↦ elim (Bool-cases (ltb size (length ms))) [
    | inr k ↦ inl (ground (arith, k), ground (arith, k))
    | inl k ↦
        let p = last-All P (take size ms) x (All-take P size ms every) e in
        inr (x, p, ground (arith, k, e), ground (arith, k, e))
  ]
]

page_of-entries :
    {A C D : Type 0} (f : A → C) (h : A → D) (size : ℕ) (ms : List A)
    → (page_of f size ms).entries ≡ (page_of h size ms).entries
unfolding page_of
page_of-entries f h size ms = ground arith

module _ (g : Postgis) (r : Ranking) (config : Config) (weights : RankingWeights)
    (is_finite : ℕ → Bool) (codec : Codec DiscoveryCursorPayload) (viewer : ℕ) where
  -- The repository over PostgreSQL while nobody writes: the viewer's activity is not stored either.
  abbrev pub reading : Listings World
  reading = record (live_listings g r 0) { touch_activity = λ user at w. (ok tt, w) }

  abbrev pub ask : Text → ℤ → ℕ → World → Result Error DiscoveryPage × World
  ask text requested now =
      discover reading config weights is_finite codec viewer text requested now now

  -- The candidates of the pages in a row, `fuel` pages at most. The n-th request is sent with the cursor
  -- of the page before, at the n-th reading of the clock.
  abbrev pub discover_all : ℤ → (ℕ → ℕ) → ℕ → ℕ → Text → World → List Candidate
  discover_all requested clock zero n text w = []
  discover_all requested clock (suc fuel) n text w =
      let (x, w') = ask text requested (clock n) w in
      elim x [
        | err e ↦ []
        | ok page ↦ page.candidates ++ elim (is_empty_text page.next_cursor) [
          | true ↦ []
          | false ↦ discover_all requested clock fuel (suc n) page.next_cursor w'
        ]
      ]

  -- The tables that PostgreSQL answers from.
  abbrev IsSteady : Tables → World → Type 0
  IsSteady t w = (w.db.tables ≡ t) × (w.db.faults ≡ [])

  -- An entry of which a cursor can be made.
  abbrev pub HasCursor : Candidate → Type 0
  HasCursor y = ((y.user_id == 0) ≡ false) × (is_finite y.score.total ≡ true)

  abbrev rows_at : Tables → ℕ → ℕ → Option DiscoveryCursor → List Candidate
  rows_at t size now b = take (size + 1) (
      remaining (discovery_keyset now) (every_candidate g r weights viewer t)
        (ranked g r weights now viewer t) b)

  ask-page :
      (t : Tables) (text next : Text) (requested : ℤ) (size now clock : ℕ)
      (b : Option DiscoveryCursor) (w : World)
      → IsSteady t w
      → Queries.ensure_discovery_ready viewer t ≡ true
      → page_limit config requested ≡ some size
      → cursor_from (decode_discovery_cursor is_finite codec) text ≡ some b
      → moment clock b ≡ now
      → next_text codec (page_of (discovery_payload now) size (rows_at t size now b)).next_cursor
        ≡ some next
      → let (x, w') = ask text requested clock w in
        (x
          ≡ ok (record {
            candidates = (page_of (discovery_payload now) size (rows_at t size now b)).entries;
            next_cursor = next;
          }))
        × IsSteady t w'
  unfolding discover Matching.ensure_discovery_ready list_candidates list_discovery_candidates
  ask-page t text next requested size now clock b w (e, nf) ready limit cur at nx =
      ground (arith, e, nf, ready, limit, cur, at, nx)

  module _ (laws : IsCodec codec)
      (total : (p : DiscoveryCursorPayload)
        → is_finite p.score ≡ true
        → is_some (codec.marshal p) ≡ true) where
    handed_out :
        (now : ℕ) (x : Candidate)
        → (now == 0) ≡ false
        → HasCursor x
        → (text : Text) × (next_text codec (some (discovery_payload now x)) ≡ some text)
          × (is_empty_text text ≡ false)
          × (cursor_from (decode_discovery_cursor is_finite codec) text
              ≡ some (some (discovery_cursor now x)))
    unfolding encode_cursor decode_discovery_cursor
    handed_out now x there (id, score) =
        let p = discovery_payload now x in
        elim (Option-cases (codec.marshal p)) [
          | inl e ↦ absurd (cc (subst (λ o. is_some o ≡ true) e (total p score)))
          | inr (s, e) ↦
              let text = codec.base64_encode s in
              let encoded : encode_cursor codec p ≡ some text = ground (arith, e) in
              let (read, some') = decode-encode codec laws p text encoded in
              (text, encoded, some', ground (arith, read, some', there, id, score))
        ]

    rows_at-HasCursor :
        (t : Tables) (size now : ℕ) (b : Option DiscoveryCursor)
        → All HasCursor (ranked g r weights now viewer t)
        → All HasCursor (rows_at t size now b)
    rows_at-HasCursor t size now b h =
        let rows = ranked g r weights now viewer t in
        let behind : Candidate → Bool =
          λ x. every_candidate g r weights viewer t x && is_ranked_after b x in
        All-take HasCursor (size + 1) (sort_by ranks_before (select behind rows)) (
          All-sort_by ranks_before HasCursor (select behind rows)
            (All-select HasCursor behind rows h))

    discover_all-follow :
        (t : Tables) (requested : ℤ) (clock : ℕ → ℕ) (size now fuel n : ℕ) (text : Text)
        (b : Option DiscoveryCursor) (w : World)
        → IsSteady t w
        → Queries.ensure_discovery_ready viewer t ≡ true
        → page_limit config requested ≡ some size
        → (now == 0) ≡ false
        → All HasCursor (ranked g r weights now viewer t)
        → cursor_from (decode_discovery_cursor is_finite codec) text ≡ some b
        → moment (clock n) b ≡ now
        → discover_all requested clock fuel n text w
          ≡ follow (steady_page g r weights viewer t size now) fuel b
    unfolding follow
    discover_all-follow t requested clock size now zero n text b w st ready limit there h cur at =
        refl
    discover_all-follow t requested clock size now (suc fuel) n text b w st ready limit there h cur
          at =
        let rows = rows_at t size now b in
        let same = page_of-entries (discovery_payload now) (discovery_cursor now) size rows in
        elim (page_of-next_cursor HasCursor (discovery_payload now) (discovery_cursor now) size rows
          (rows_at-HasCursor t size now b h)) [
            | inl (p, q) ↦
                let a =
                  ask-page t text [] requested size now (clock n) b w st ready limit cur at
                    (ap (next_text codec) p) in
                ground (arith, a.0, q, same)
            | inr (x, hx, p, q) ↦
                let (next, encoded, some', read) = handed_out now x there hx in
                let a =
                  ask-page t text next requested size now (clock n) b w st ready limit cur at
                    (ap (next_text codec) p ∙ encoded) in
                let w' = (ask text requested (clock n) w).1 in
                let rest =
                  discover_all-follow t requested clock size now fuel (suc n) next
                    (some (discovery_cursor now x)) w' a.1 ready limit there h read refl in
                ground (arith, a.0, q, same, some', rest)
          ]

    -- While nobody writes and PostgreSQL answers, the pages that a client gets from Discover by sending
    -- each page's cursor with the next request, whenever it sends it, are, put together, everyone that is
    -- eligible at the moment of the first request, ranked by score and each once; and no more pages are
    -- needed than there are users, and one.
    pub discover_all-ranked :
        (requested : ℤ) (clock : ℕ → ℕ) (size fuel : ℕ) (w : World)
        → w.db.faults ≡ []
        → Queries.ensure_discovery_ready viewer w.db.tables ≡ true
        → page_limit config requested ≡ some size
        → 1 ≤ size
        → (clock 0 == 0) ≡ false
        → All HasCursor (ranked g r weights (clock 0) viewer w.db.tables)
        → HasDistinct (λ m. m.id) w.db.tables.members
        → length w.db.tables.members < fuel
        → discover_all requested clock fuel 0 [] w
          ≡ sort_by ranks_before (ranked g r weights (clock 0) viewer w.db.tables)
    discover_all-ranked requested clock size fuel w nf ready limit one there h d enough =
        discover_all-follow w.db.tables requested clock size (clock 0) fuel 0 [] none w (refl, nf)
          ready limit there h refl refl
        ∙ follow-steady_page g r weights viewer w.db.tables size fuel (clock 0) one d enough
