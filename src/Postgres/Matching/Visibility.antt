-- ===== src/Postgres/Matching/Visibility.antt =====
-- GetVisibleMatchingPhoto of sqlc/matching.sql.go and the two listings: who is seen.
use llm_dating_app.Prelude.{
  ℕ, min, max, ◌≡◌, refl, ap, subst, inl, inr, Bool, true, false, not, ◌&&◌, Option, none, some,
  arith, ltb, ◌==◌, is_some, Bool-cases, Option-cases, find,
}
use llm_dating_app.Postgres.Schema.{Postgis, Tables, PhotoRow, Member, ProfileRow}
use llm_dating_app.Domain.Matching.{VisiblePhoto, Match, MatchSummary}
use llm_dating_app.Postgres.Queries.{is_blocked, takes_part, is_pair, is_open}
use llm_dating_app.Postgres.Matching.Listing.{
  is_photo, photo_of, get_visible_matching_photo, is_eligible, match_summary, may_see, summary_with,
  other_user, visible_photo, is_fresh, summary_of,
}
use llm_dating_app.Postgres.Rows.{IsAmong, find-IsAmong, find-none-any}

abbrev pub can_view : Postgis → ℕ → ℕ → ℕ → Tables → Member → Bool
can_view g viewer photo as_of t m =
    is_photo photo m.primary_photo && may_see g viewer as_of t m && not (is_blocked viewer m.id t)

photo_of-is_photo :
    (m : Member) (id : ℕ) (o : Option PhotoRow)
    → is_photo id o ≡ true
    → is_some (photo_of m o) ≡ true
photo_of-is_photo m id none h = cc
photo_of-is_photo m id (some p) h = refl

photo_of-owner :
    (m : Member) (o : Option PhotoRow) (row : VisiblePhoto)
    → photo_of m o ≡ some row
    → row.owner_id ≡ m.id
photo_of-owner m none row e = cc
photo_of-owner m (some p) row e = ground (arith, e)

module _ (g : Postgis) (viewer photo as_of : ℕ) (t : Tables) where
  can_view-visible :
      (m : Member)
      → IsAmong t.members m
      → can_view g viewer photo as_of t m ≡ true
      → is_some (get_visible_matching_photo g viewer photo as_of t) ≡ true
  unfolding get_visible_matching_photo
  can_view-visible m hm h =
      let q = can_view g viewer photo as_of t in
      elim (Option-cases (find q t.members)) [
        | inl e ↦ absurd (cc (hm q h, find-none-any q t.members e))
        | inr (x, e) ↦
            let seen = find-IsAmong q t.members x e in
            rw e (photo_of-is_photo x photo x.primary_photo (ground (arith, seen.0)))
      ]

  -- A photo that is visible belongs to a user who is in no block with the viewer.
  pub visible-is_blocked :
      (row : VisiblePhoto)
      → get_visible_matching_photo g viewer photo as_of t ≡ some row
      → is_blocked viewer row.owner_id t ≡ false
  unfolding get_visible_matching_photo
  visible-is_blocked row h =
      let q = can_view g viewer photo as_of t in
      elim (Option-cases (find q t.members)) [
        | inl e ↦ absurd (ground (arith, e, h))
        | inr (x, e) ↦
            let seen = find-IsAmong q t.members x e in
            let owner =
              photo_of-owner x x.primary_photo row (subst (λ o. visible_photo o ≡ some row) e h) in
            rw owner (ground (arith, seen.0))
      ]

pub eligible-visible :
    (g : Postgis) (as_of photo : ℕ) (t : Tables) (v c : Member)
    → IsAmong t.members v
    → IsAmong t.members c
    → is_eligible g as_of t v c ≡ true
    → is_photo photo c.primary_photo ≡ true
    → is_some (get_visible_matching_photo g v.id photo as_of t) ≡ true
unfolding is_eligible
eligible-visible g as_of photo t v c hv hc e h =
    let fresh = hv (λ a. a.id == v.id && is_fresh g as_of a c t) (ground (arith, e)) in
    can_view-visible g v.id photo as_of t c hc (ground (arith, e, h, fresh))

-- A match names its users in order, as the table's constraint has it.
abbrev pub IsOrdered : Match → Type 0
IsOrdered m = ltb m.user_low_id m.user_high_id ≡ true

summary_with-same :
    (m : Match) (u : Member) (profile : Option ProfileRow) (photo : Option PhotoRow)
    (s : MatchSummary)
    → summary_with m u profile photo ≡ some s
    → (s.other_user_id ≡ u.id) × (s.match_row ≡ m) × (is_photo s.primary_photo_id photo ≡ true)
summary_with-same m u none photo s e = cc
summary_with-same m u (some p) none s e = cc
summary_with-same m u (some p) (some photo) s e = ground (arith, e)

-- What a summary comes from.
pub match_summary-same :
    (user : ℕ) (t : Tables) (m : Match) (s : MatchSummary)
    → match_summary user t m ≡ some s
    → (u : Member) × (find (λ u. u.id == other_user user m) t.members ≡ some u)
      × (s.other_user_id ≡ u.id)
      × (s.match_row ≡ m)
      × (is_photo s.primary_photo_id u.primary_photo ≡ true)
      × ((takes_part user m && is_open m && not (is_blocked user (other_user user m) t)) ≡ true)
unfolding match_summary
match_summary-same user t m s e =
    let joined = λ (o : Option Member). summary_of m o ≡ some s in
    elim (Bool-cases
      (takes_part user m && is_open m && not (is_blocked user (other_user user m) t))) [
        | inr h ↦ absurd (ground (arith, h, e))
        | inl h ↦
            let found : joined (find (λ u. u.id == other_user user m) t.members) =
              ground (arith, h, e) in
            elim (Option-cases (find (λ u. u.id == other_user user m) t.members)) [
              | inl k ↦ absurd (cc (subst joined k found))
              | inr (u, k) ↦
                  let same =
                    summary_with-same m u u.profile u.primary_photo s (subst joined k found) in
                  (u, k, same.0, same.1, same.2, h)
            ]
      ]

pub match_summary-visible :
    (g : Postgis) (user as_of : ℕ) (t : Tables) (m : Match) (s : MatchSummary)
    → IsAmong t.matches m
    → IsOrdered m
    → match_summary user t m ≡ some s
    → is_some (get_visible_matching_photo g user s.primary_photo_id as_of t) ≡ true
unfolding match_summary
match_summary-visible g user as_of t m s hm o e =
    let (u, k, other, row, photo, where') = match_summary-same user t m s e in
    let (is_other, hu) = find-IsAmong (λ x. x.id == other_user user m) t.members u k in
    let among =
      hm (λ x. is_pair (min user u.id) (max user u.id) x && is_open x)
        (ground (arith, is_other, where', o)) in
    can_view-visible g user s.primary_photo_id as_of t u hu
      (ground (arith, is_other, where', photo, among))

pub match_summary-id :
    (user : ℕ) (t : Tables) (m : Match) (s : MatchSummary)
    → match_summary user t m ≡ some s
    → s.match_row.id ≡ m.id
match_summary-id user t m s e =
    let (u, k, other, row, _, _) = match_summary-same user t m s e in ap (λ x. x.id) row
