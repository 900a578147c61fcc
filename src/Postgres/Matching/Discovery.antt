-- ===== src/Postgres/Matching/Discovery.antt =====
-- ListDiscoveryCandidates and CanSwipeTarget of sqlc/matching.sql.go: who is offered can be swiped.
use llm_dating_app.Prelude.{
  ℕ, ◌≡◌, sym, subst, inl, inr, Bool, true, false, ◌&&◌, Option, none, some, arith, ◌==◌,
  if◌then◌else◌, is_some, Bool-cases, Option-cases, find, any, select, All, All-mono,
}
use llm_dating_app.Postgres.Schema.{Postgis, Tables, Ranking, Member, ProfileRow, PhotoRow}
use llm_dating_app.Domain.Matching.{RankingWeights, Candidate, DiscoveryParams}
use llm_dating_app.Postgres.Queries.{Seeker, can_swipe_target, seeker, is_blocked, get_swipe, suits}
use llm_dating_app.Keyset.Selecting.{All-take, All-select}
use llm_dating_app.Keyset.{sort_by}
use llm_dating_app.Keyset.Sorting.{All-sort_by}
use llm_dating_app.Postgres.Rows.{IsAmong, find-IsAmong, All-collect, All-IsAmong}
use llm_dating_app.Postgres.Matching.Listing.{
  candidate_with, candidate, is_eligible, ranked, list_discovery_candidates, is_photo,
  is_ranked_after, ranks_before,
}

-- The viewer has not swiped the user, no block is between them, and CanSwipeTarget passes.
abbrev pub CanSwipe : Postgis → ℕ → Tables → ℕ → ℕ → Type 0
CanSwipe g as_of t viewer user =
    (can_swipe_target g viewer user as_of t ≡ true)
    × (is_blocked viewer user t ≡ false)
    × (get_swipe viewer user t ≡ none)

module _ (g : Postgis) (r : Ranking) (w : RankingWeights) (as_of : ℕ) where
  candidate_with-same :
      (v c : Member) (from to : Option Seeker) (profile : Option ProfileRow)
      (photo : Option PhotoRow) (y : Candidate)
      → candidate_with g r w as_of v c from to profile photo ≡ some y
      → (y.user_id ≡ c.id) × (is_photo y.primary_photo_id photo ≡ true) × (is_some photo ≡ true)
  candidate_with-same v c (some a) (some b) (some p) (some photo) y e = ground (arith, e)
  candidate_with-same v c none to profile photo y e = cc
  candidate_with-same v c (some a) none profile photo y e = cc
  candidate_with-same v c (some a) (some b) none photo y e = cc
  candidate_with-same v c (some a) (some b) (some p) none y e = cc

  -- What a candidate comes from.
  pub candidate-is_eligible :
      (t : Tables) (v c : Member) (y : Candidate)
      → candidate g r w as_of t v c ≡ some y
      → (is_eligible g as_of t v c ≡ true)
        × (y.user_id ≡ c.id)
        × (is_photo y.primary_photo_id c.primary_photo ≡ true)
        × (is_some c.primary_photo ≡ true)
  unfolding candidate
  candidate-is_eligible t v c y e = elim (Bool-cases (is_eligible g as_of t v c)) [
    | inl h ↦
        let offer =
          candidate_with g r w as_of v c (seeker v) (seeker c) c.profile c.primary_photo in
        let same =
          candidate_with-same v c (seeker v) (seeker c) c.profile c.primary_photo y
            (subst (λ b. (if b then offer else none) ≡ some y) h e) in
        (h, same.0, same.1, same.2)
    | inr h ↦ absurd (ground (arith, h, e))
  ]

  eligible-CanSwipe :
      (t : Tables) (v c : Member)
      → IsAmong t.members v
      → IsAmong t.members c
      → is_eligible g as_of t v c ≡ true
      → is_some c.primary_photo ≡ true
      → CanSwipe g as_of t v.id c.id
  unfolding is_eligible can_swipe_target
  eligible-CanSwipe t v c hv hc e photo =
      let target : Member → Bool =
        λ x. x.id == c.id && suits g as_of (seeker v) (seeker x) && is_some x.primary_photo in
      let found = hc target (ground (arith, e, photo)) in
      let actor : Member → Bool = λ a.
        a.id == v.id
        && any (λ x. x.id == c.id && suits g as_of (seeker a) (seeker x) && is_some x.primary_photo)
            t.members in
      let both = hv actor (ground (arith, found)) in
      (
        ground (arith, e, both),
        ground (arith, e),
        elim (Option-cases (get_swipe v.id c.id t)) [
          | inl h ↦ h
          | inr (x, h) ↦ absurd (ground (arith, e, h))
        ],
      )

-- What holds of everyone that may be offered to the viewer holds of everyone that is listed.
pub All-list_discovery_candidates :
    (P : Candidate → Type 0) (g : Postgis) (r : Ranking) (p : DiscoveryParams) (t : Tables)
    → ((v c : Member)
        → v.id ≡ p.viewer_id
        → IsAmong t.members v
        → IsAmong t.members c
        → (y : Candidate) → candidate g r p.weights p.as_of t v c ≡ some y
        → P y)
    → All P (list_discovery_candidates g r p t)
unfolding list_discovery_candidates ranked
All-list_discovery_candidates P g r p t h =
    let found = ranked g r p.weights p.as_of p.viewer_id t in
    let behind = select (is_ranked_after p.cursor) found in
    let offers : All P found = elim (Option-cases (find (λ m. m.id == p.viewer_id) t.members)) [
      | inl e ↦ rw e tt
      | inr (v, e) ↦
          let offer = candidate g r p.weights p.as_of t v in
          let (same, hv) = find-IsAmong (λ m. m.id == p.viewer_id) t.members v e in
          rw e (
            All-collect P offer t.members (
              All-mono (IsAmong t.members) (λ c. (y : Candidate) → offer c ≡ some y → P y) t.members
                (λ c hc. h v c (ground (arith, same)) hv hc) (All-IsAmong t.members)))
    ] in
    All-take P p.limit (sort_by ranks_before behind)
      (All-sort_by ranks_before P behind (All-select P (is_ranked_after p.cursor) found offers))

-- Everyone that discovery lists for a viewer can be swiped by the viewer: passes CanSwipeTarget at the
-- moment of the listing, is in no block with the viewer, and has not been swiped.
pub list_discovery_candidates-CanSwipe :
    (g : Postgis) (r : Ranking) (p : DiscoveryParams) (t : Tables)
    → All (λ y. CanSwipe g p.as_of t p.viewer_id y.user_id) (list_discovery_candidates g r p t)
list_discovery_candidates-CanSwipe g r p t =
    All-list_discovery_candidates (λ y. CanSwipe g p.as_of t p.viewer_id y.user_id) g r p t
      (λ v c own hv hc y e.
        let h = candidate-is_eligible g r p.weights p.as_of t v c y e in
        subst (λ i. CanSwipe g p.as_of t i y.user_id) own
          (subst (CanSwipe g p.as_of t v.id) (sym h.1)
            (eligible-CanSwipe g r p.weights p.as_of t v c hv hc h.0 h.3)))
