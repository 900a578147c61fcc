-- ===== src/Postgres/Matching/Shown.antt =====
-- ListMatches, ListCandidates and GetVisiblePhoto together: what a user is shown of others.
use llm_dating_app.Prelude.{
  ℕ, ◌≡◌, refl, sym, subst, ◌∙◌, inl, inr, Bool, true, false, not, Option, none, some, arith, ltb,
  ◌==◌, is_some, Bool-cases, Option-cases, ok, select, All, All-mono,
}
use llm_dating_app.Postgres.Matching.{block, is_blocked, Conn}
use llm_dating_app.Postgres.Schema.{Postgis, Tables, Ranking}
use llm_dating_app.Domain.Matching.{
  MatchSummary, MatchListParams, Match, DiscoveryParams, VisiblePhoto,
}
use llm_dating_app.Postgres.Matching.Listing.{
  list_active_matches, match_summary, get_visible_matching_photo, is_match_before, match_first,
  list_discovery_candidates, other_user,
}
use llm_dating_app.Postgres.Rows.{
  IsAmong, collect, All-collect, All-IsAmong, IsAmong-All, find-IsAmong,
}
use llm_dating_app.Postgres.Matching.Discovery.{
  candidate-is_eligible, CanSwipe, All-list_discovery_candidates,
  list_discovery_candidates-CanSwipe,
}
use llm_dating_app.Keyset.Selecting.{All-take, All-select}
use llm_dating_app.Keyset.{sort_by}
use llm_dating_app.Keyset.Sorting.{All-sort_by}
use llm_dating_app.Postgres.Queries.{is_blocked}
use llm_dating_app.Connection.{Conn}
use llm_dating_app.Postgres.Matching.Visibility.{
  IsOrdered, eligible-visible, visible-is_blocked, match_summary-visible, match_summary-same,
}
use llm_dating_app.Postgres.Messaging.Sending.{block-is_blocked, is_blocked_comm}

module _ (P : MatchSummary → Type 0) (p : MatchListParams) (t : Tables) where
  All-list_active_matches :
      ((m : Match)
        → IsAmong t.matches m
        → (s : MatchSummary) → match_summary p.user_id t m ≡ some s
        → P s)
      → All P (list_active_matches p t)
  unfolding list_active_matches
  All-list_active_matches h =
      let rows = collect (match_summary p.user_id t) t.matches in
      let shown = select (is_match_before p.cursor) rows in
      All-take P p.limit (sort_by match_first shown) (
        All-sort_by match_first P shown (
          All-select P (is_match_before p.cursor) rows (
            All-collect P (match_summary p.user_id t) t.matches (
              All-mono (IsAmong t.matches)
                (λ m. (s : MatchSummary) → match_summary p.user_id t m ≡ some s → P s) t.matches h
                (All-IsAmong t.matches)))))

-- Whoever is listed is seen: the primary photo of everyone that ListMatches lists for a user is visible
-- to the user, and so is that of everyone that discovery lists, at the moment of the listing.
pub listed_photos-visible :
    (g : Postgis) (r : Ranking) (t : Tables) (p : DiscoveryParams) (q : MatchListParams) (at : ℕ)
    → All IsOrdered t.matches
    → All
        (λ y.
          is_some (get_visible_matching_photo g p.viewer_id y.primary_photo_id p.as_of t) ≡ true)
        (list_discovery_candidates g r p t)
      × All
          (λ s. is_some (get_visible_matching_photo g q.user_id s.primary_photo_id at t) ≡ true)
          (list_active_matches q t)
listed_photos-visible g r t p q at o = (
  All-list_discovery_candidates
      (λ y. is_some (get_visible_matching_photo g p.viewer_id y.primary_photo_id p.as_of t) ≡ true)
      g r p t
      (λ v c own hv hc y e.
        let h = candidate-is_eligible g r p.weights p.as_of t v c y e in
        subst (λ i. is_some (get_visible_matching_photo g i y.primary_photo_id p.as_of t) ≡ true)
          own (eligible-visible g p.as_of y.primary_photo_id t v c hv hc h.0 h.2)),
  All-list_active_matches
      (λ s. is_some (get_visible_matching_photo g q.user_id s.primary_photo_id at t) ≡ true) q t
      (λ m hm s e.
        match_summary-visible g q.user_id at t m s hm
          (IsAmong-All (λ m. ltb m.user_low_id m.user_high_id) t.matches m o hm) e),
)

-- Whether a photo that is visible is not the user's.
abbrev pub is_not_of : ℕ → Option VisiblePhoto → Bool
is_not_of user none = true
is_not_of user (some row) = not (row.owner_id == user)

is_blocked-other :
    (user other x : ℕ) (t : Tables)
    → is_blocked user other t ≡ true
    → is_blocked user x t ≡ false
    → (x == other) ≡ false
is_blocked-other user other x t h k = elim (Bool-cases (x == other)) [
  | inr e ↦ e
  | inl e ↦
      let same : x ≡ other = ground (arith, e) in
      absurd (cc (h, subst (λ y. is_blocked user y t ≡ false) same k))
]

match_summary-other :
    (user : ℕ) (t : Tables) (m : Match) (s : MatchSummary)
    → match_summary user t m ≡ some s
    → is_blocked user s.other_user_id t ≡ false
match_summary-other user t m s e =
    let (u, k, other, row, photo, where') = match_summary-same user t m s e in
    let (is_other, _) = find-IsAmong (λ x. x.id == other_user user m) t.members u k in
    let same : s.other_user_id ≡ other_user user m = ground (arith, is_other, other) in
    rw same (ground (arith, where'))

module _ (g : Postgis) (r : Ranking) (p : DiscoveryParams) (q : MatchListParams)
    (photo at : ℕ) where
  -- Nothing of `other` is shown to `user`: not as a match, not as a candidate, and no photo.
  abbrev pub IsHidden : Tables → ℕ → ℕ → Type 0
  IsHidden t user other =
      All (λ s. (s.other_user_id == other) ≡ false)
        (list_active_matches (record q { user_id = user }) t)
      × All (λ y. (y.user_id == other) ≡ false)
          (list_discovery_candidates g r (record p { viewer_id = user }) t)
      × (is_not_of other (get_visible_matching_photo g user photo at t) ≡ true)

  is_blocked-IsHidden :
      (t : Tables) (user other : ℕ) → is_blocked user other t ≡ true → IsHidden t user other
  is_blocked-IsHidden t user other h =
      let here : DiscoveryParams = record p { viewer_id = user } in
      (
        All-list_active_matches (λ s. (s.other_user_id == other) ≡ false)
            (record q { user_id = user }) t
            (λ m hm s e.
              is_blocked-other user other s.other_user_id t h (match_summary-other user t m s e)),
        All-mono (λ y. CanSwipe g p.as_of t user y.user_id) (λ y. (y.user_id == other) ≡ false)
            (list_discovery_candidates g r here t)
            (λ y can. is_blocked-other user other y.user_id t h can.1)
            (list_discovery_candidates-CanSwipe g r here t),
        elim (Option-cases (get_visible_matching_photo g user photo at t)) [
          | inl e ↦ rw e refl
          | inr (row, e) ↦
              let k =
                is_blocked-other user other row.owner_id t h
                  (visible-is_blocked g user photo at t row e) in
              rw e (ground (arith, k))
        ],
      )

  -- After a block that succeeds neither of the two users is shown anything of the other: no match and no
  -- candidate that is listed is the other, and no photo that is visible is the other's.
  pub block-IsHidden :
      (blocker blocked now : ℕ) (c : Conn Tables)
      → (block blocker blocked now c).0 ≡ ok tt
      → IsHidden (block blocker blocked now c).1.tables blocker blocked
        × IsHidden (block blocker blocked now c).1.tables blocked blocker
  block-IsHidden blocker blocked now c e =
      let t = (block blocker blocked now c).1.tables in
      let h = block-is_blocked blocker blocked now c e in
      (
        is_blocked-IsHidden t blocker blocked h,
        is_blocked-IsHidden t blocked blocker (sym (is_blocked_comm blocker blocked t) ∙ h),
      )
