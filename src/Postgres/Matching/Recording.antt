-- ===== src/Postgres/Matching/Recording.antt =====
-- RecordSwipe of matching_repository.go, on the connection: swipes and matches.
use llm_dating_app.Prelude.{
  ℕ, ◌≡◌, sym, ap, subst, ◌∙◌, ◌≢◌, inl, inr, true, false, ◌&&◌, [], is_some, ok,
}
use llm_dating_app.Postgres.Matching.{record_swipe, Postgis, Swipe, Conn, Tables}
use llm_dating_app.Postgres.Schema.{Postgis, Tables}
use llm_dating_app.Domain.Matching.{Swipe, SwipeOutcome, is_positive}
use llm_dating_app.Connection.{Conn}
use llm_dating_app.Postgres.Matching.Swiping.{
  IsConsistent, swipe_effect-IsConsistent, likes, swipe_effect-again, swipe_effect-match,
}
use llm_dating_app.Postgres.Matching.Atomicity.{
  record_swipe-swipe_effect, record_swipe-swipe_effect_no_faults, swipe_effect,
}

-- If every match is between users who swiped positively on one another, and no pair has two matches,
-- a recorded swipe keeps it so, whatever statement of its transaction fails.
pub record_swipe-IsConsistent :
    (g : Postgis) (s : Swipe) (match_id : ℕ) (c : Conn Tables)
    → IsConsistent c.tables
    → IsConsistent (record_swipe g s match_id c).1.tables
record_swipe-IsConsistent g s match_id c h = elim (record_swipe-swipe_effect g s match_id c) [
  | inl (_, e) ↦ rw e (swipe_effect-IsConsistent g s match_id c.tables h)
  | inr (_, e) ↦ rw e h
]

-- A swipe on another user that comes back as stored comes with a match exactly when it is positive
-- and the target has swiped positively on the actor before.
pub record_swipe-match :
    (g : Postgis) (s : Swipe) (match_id : ℕ) (c : Conn Tables) (o : SwipeOutcome)
    → s.actor_id ≢ s.target_id
    → (record_swipe g s match_id c).0 ≡ ok o
    → o.created ≡ true
    → is_some o.match_made ≡ (is_positive s.action && likes s.target_id s.actor_id c.tables.swipes)
record_swipe-match g s match_id c o ne e new = elim (record_swipe-swipe_effect g s match_id c) [
  | inl (p, _) ↦ swipe_effect-match g s match_id c.tables o ne (sym p ∙ e) new
  | inr (p, _) ↦ cc p
]

-- With no failing statement, a swipe that was stored answers the next swipe of the same actor on the
-- same target, whatever its action: the stored swipe and its match come back as not new, and no table
-- changes.
pub record_swipe-again :
    (g : Postgis) (s again : Swipe) (match_id other_id : ℕ) (c : Conn Tables) (o : SwipeOutcome)
    → c.faults ≡ []
    → (record_swipe g s match_id c).0 ≡ ok o
    → o.created ≡ true
    → again.actor_id ≡ s.actor_id
    → again.target_id ≡ s.target_id
    → let c' = (record_swipe g s match_id c).1 in
      let (r, c'') = record_swipe g again other_id c' in
      (r ≡ ok (record o { created = false })) × (c''.tables ≡ c'.tables)
record_swipe-again g s again match_id other_id c o nf e new same_actor same_target =
    let first = record_swipe-swipe_effect_no_faults g s match_id c nf in
    let c' = (record_swipe g s match_id c).1 in
    let second = record_swipe-swipe_effect_no_faults g again other_id c' first.2 in
    let same =
      swipe_effect-again g s again match_id other_id c.tables o (sym first.0 ∙ e) new same_actor
        same_target in
    let same' =
      subst (λ t. swipe_effect g again other_id t ≡ (ok (record o { created = false }), t))
        (sym first.1) same in
    (second.0 ∙ ap (λ p. p.0) same', second.1 ∙ ap (λ p. p.1) same')
