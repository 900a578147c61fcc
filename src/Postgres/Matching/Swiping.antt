-- ===== src/Postgres/Matching/Swiping.antt =====
-- Swipes and matches, on the effect that Atomicity describes for RecordSwipe.
use llm_dating_app.Prelude.{
  ℕ, min, max, ◌≡◌, refl, ◌≢◌, Bool, true, false, ◌&&◌, none, some, List, [], ◌∷◌, arith, is_some,
  ok, find, any, All, All-mono,
}
use llm_dating_app.Domain.Matching.{Swipe, Match, ordered_pair, is_positive, SwipeOutcome}
use llm_dating_app.Postgres.Schema.{Tables, Postgis}
use llm_dating_app.Postgres.Matching.{
  new_match, insert_swipe, insert_match, has_positive_reverse_swipe, Postgis, is_blocked, get_swipe,
  can_swipe_target,
}
use llm_dating_app.Postgres.Queries.{
  get_match_by_pair, is_swipe, is_pair, insert_swipe, insert_match, has_positive_reverse_swipe,
  is_blocked, get_swipe, can_swipe_target,
}
use llm_dating_app.Postgres.Matching.Atomicity.{swipe_effect}
use llm_dating_app.Postgres.Rows.{find-none-any}

abbrev pub likes : ℕ → ℕ → List Swipe → Bool
likes actor target = any (λ s. is_swipe actor target s && is_positive s.action)

-- Both users of a match have swiped positively.
abbrev pub IsMutual : List Swipe → Match → Type 0
IsMutual ss m =
    (likes m.user_low_id m.user_high_id ss ≡ true) × (likes m.user_high_id m.user_low_id ss ≡ true)

-- The match of a pair is the only one.
abbrev pub IsOnly : Match → List Match → Type 0
IsOnly m ms = any (is_pair m.user_low_id m.user_high_id) ms ≡ false

abbrev pub AllDistinct : List Match → Type 0
AllDistinct [] = Unit
AllDistinct (m ∷ ms) = IsOnly m ms × AllDistinct ms

pub record IsConsistent (t : Tables) : Type 0 where
  pub mutual_matches : All (IsMutual t.swipes) t.matches
  pub one_for_each_pair : AllDistinct t.matches

IsMutual-cons : (s : Swipe) (ss : List Swipe) (m : Match) → IsMutual ss m → IsMutual (s ∷ ss) m
IsMutual-cons s ss m h = ground arith

new_match-IsMutual :
    (s : Swipe) (match_id : ℕ) (ss : List Swipe)
    → is_positive s.action ≡ true
    → likes s.target_id s.actor_id (s ∷ ss) ≡ true
    → IsMutual (s ∷ ss) (new_match s match_id)
unfolding new_match ordered_pair
new_match-IsMutual s match_id ss p q = ground arith

new_match-IsOnly :
    (s : Swipe) (match_id : ℕ) (t : Tables)
    → get_match_by_pair (new_match s match_id).user_low_id (new_match s match_id).user_high_id t
      ≡ none
    → IsOnly (new_match s match_id) t.matches
unfolding get_match_by_pair
new_match-IsOnly s match_id t e = find-none-any _ t.matches e

-- If every match is between users who swiped positively on one another, and no pair has two matches,
-- a swipe keeps it so.
pub swipe_effect-IsConsistent :
    (g : Postgis) (s : Swipe) (match_id : ℕ) (t : Tables)
    → IsConsistent t
    → IsConsistent (swipe_effect g s match_id t).1
unfolding swipe_effect insert_swipe insert_match has_positive_reverse_swipe
swipe_effect-IsConsistent g s match_id t h = record {
  mutual_matches = ground (
    arith,
    All-mono (IsMutual t.swipes) (IsMutual (s ∷ t.swipes)) t.matches (IsMutual-cons s t.swipes),
    new_match-IsMutual s match_id t.swipes,
  );
  one_for_each_pair =
      ground (arith, new_match-IsOnly s match_id (record t { swipes = s ∷ t.swipes }));
}

-- A swipe on another user that is stored as new comes with a match exactly when it is positive and the
-- target has swiped positively on the actor before.
pub swipe_effect-match :
    (g : Postgis) (s : Swipe) (match_id : ℕ) (t : Tables) (o : SwipeOutcome)
    → s.actor_id ≢ s.target_id
    → (swipe_effect g s match_id t).0 ≡ ok o
    → o.created ≡ true
    → is_some o.match_made ≡ (is_positive s.action && likes s.target_id s.actor_id t.swipes)
unfolding swipe_effect insert_swipe insert_match has_positive_reverse_swipe
swipe_effect-match g s match_id t o ne e new = ground arith

find-pair-cons :
    (s again : Swipe) (ss : List Swipe)
    → again.actor_id ≡ s.actor_id
    → again.target_id ≡ s.target_id
    → find (is_swipe again.actor_id again.target_id) (s ∷ ss) ≡ some s
find-pair-cons s again ss p q = ground arith

any-false-find : (p : Match → Bool) (ms : List Match) → any p ms ≡ false → find p ms ≡ none
any-false-find p [] e = refl
any-false-find p (m ∷ ms) e = ground (arith, any-false-find p ms)

ordered_pair-min-max : (a b : ℕ) → a ≢ b → ordered_pair a b ≡ (min a b, max a b)
unfolding ordered_pair
ordered_pair-min-max a b h = ground arith

-- A swipe that was stored as new answers the next swipe of the same actor on the same target, whatever
-- its action: the stored swipe and its match come back as not new, and nothing changes.
pub swipe_effect-again :
    (g : Postgis) (s again : Swipe) (match_id other_id : ℕ) (t : Tables) (o : SwipeOutcome)
    → (swipe_effect g s match_id t).0 ≡ ok o
    → o.created ≡ true
    → again.actor_id ≡ s.actor_id
    → again.target_id ≡ s.target_id
    → let t' = (swipe_effect g s match_id t).1 in
      swipe_effect g again other_id t' ≡ (ok (record o { created = false }), t')
unfolding swipe_effect insert_swipe insert_match is_blocked get_swipe get_match_by_pair
    can_swipe_target new_match
swipe_effect-again g s again match_id other_id t o e new same_actor same_target = ground (
  arith,
  ordered_pair-min-max s.actor_id s.target_id,
  find-pair-cons s again t.swipes same_actor same_target,
  any-false-find (is_pair (min s.actor_id s.target_id) (max s.actor_id s.target_id)) t.matches,
)
