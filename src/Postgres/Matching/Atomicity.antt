-- ===== src/Postgres/Matching/Atomicity.antt =====
-- The transactions of matching_repository.go against descriptions of their outcome without failures,
-- on the tables alone.
use llm_dating_app.Prelude.{
  ℕ, ◌≡◌, ◌⊎◌, Bool, true, false, Option, none, some, [], arith, if◌then◌else◌, Result, ok, err,
}
use llm_dating_app.Domain.Matching.{
  Error, infra, Swipe, Match, SwipeOutcome, is_positive, ordered_pair, interaction_blocked,
  not_found,
}
use llm_dating_app.Postgres.Schema.{Postgis, Tables, Block}
use llm_dating_app.Postgres.Matching.{
  record_swipe, Tables, Conn, has_positive_reverse_swipe, is_blocked, active_match, insert_match,
  new_match, get_match_by_pair, get_swipe, can_swipe_target, insert_swipe, block, unmatch, Written,
  unmatch_pair_for_block, insert_block, unmatch_rows,
}
use llm_dating_app.Connection.{Conn}
use llm_dating_app.Postgres.Queries.{
  has_positive_reverse_swipe, is_blocked, insert_match, get_match_by_pair, get_swipe,
  can_swipe_target, insert_swipe, Written, unmatch_pair_for_block, insert_block, unmatch_rows,
  written, missing_user, refused_row,
}

unfoldable pub mutual_effect : Swipe → ℕ → Bool → Tables → Option Match × Tables
mutual_effect s match_id false t = (none, t)
mutual_effect s match_id true t =
    if has_positive_reverse_swipe s.actor_id s.target_id t
    then (let (m, t') = insert_match (new_match s match_id) t in (some m, t'))
    else (none, t)

unfoldable pub inserted_effect :
    Swipe → ℕ → Option Swipe × Tables → Tables → Result Error SwipeOutcome × Tables
unfolding mutual_effect
inserted_effect s match_id (none, t') t = (err infra, t)
inserted_effect s match_id (some row, t') t =
    let (made, t'') = mutual_effect s match_id (is_positive s.action) t' in
    (ok (record { swipe = row; match_made = made; created = true }), t'')

unfoldable pub swipe_effect_on :
    Postgis → Swipe → ℕ → Option Swipe → Tables → Result Error SwipeOutcome × Tables
unfolding inserted_effect
swipe_effect_on g s match_id (some old) t =
    let (low, high) = ordered_pair s.actor_id s.target_id in
    (
      ok (record {
        swipe = old;
        match_made = active_match (get_match_by_pair low high t);
        created = false;
      }),
      t,
    )
swipe_effect_on g s match_id none t =
    if can_swipe_target g s.actor_id s.target_id s.created_at t
    then inserted_effect s match_id (insert_swipe s t) t
    else (err not_found, t)

-- A swipe that meets no failure: refused on a block, answered by the swipe that is there, refused
-- where the target may not be swiped, and else stored, with a match if it is mutual.
unfoldable pub swipe_effect : Postgis → Swipe → ℕ → Tables → Result Error SwipeOutcome × Tables
unfolding swipe_effect_on
swipe_effect g s match_id t =
    if is_blocked s.actor_id s.target_id t
    then (err interaction_blocked, t)
    else swipe_effect_on g s match_id (get_swipe s.actor_id s.target_id t) t

-- Whatever statements fail, a swipe has its whole effect, or reports an error of the
-- infrastructure and leaves the tables as they were.
pub record_swipe-swipe_effect :
    (g : Postgis) (s : Swipe) (match_id : ℕ) (c : Conn Tables)
    → let (r, c') = record_swipe g s match_id c in
      let (x, t) = swipe_effect g s match_id c.tables in
      ((r ≡ x) × (c'.tables ≡ t)) ⊎ ((r ≡ err infra) × (c'.tables ≡ c.tables))
unfolding record_swipe swipe_effect
record_swipe-swipe_effect g s match_id c = ground arith

-- With no failing statement a swipe has its whole effect.
pub record_swipe-swipe_effect_no_faults :
    (g : Postgis) (s : Swipe) (match_id : ℕ) (c : Conn Tables)
    → c.faults ≡ []
    → let (r, c') = record_swipe g s match_id c in
      let (x, t) = swipe_effect g s match_id c.tables in
      (r ≡ x) × (c'.tables ≡ t) × (c'.faults ≡ [])
unfolding record_swipe swipe_effect
record_swipe-swipe_effect_no_faults g s match_id c nf = ground arith

unfoldable pub block_effect_on :
    ℕ → ℕ → ℕ → Written → Tables → Tables → Result Error (Unit {0}) × Tables
block_effect_on blocker blocked at written t' t =
    (ok tt, unmatch_pair_for_block blocker blocked at t')
block_effect_on blocker blocked at missing_user t' t = (err not_found, t)
block_effect_on blocker blocked at refused_row t' t = (err infra, t)

-- A block that meets no failure: the block is stored and the match of the pair is closed.
unfoldable pub block_effect : ℕ → ℕ → ℕ → Tables → Result Error (Unit {0}) × Tables
unfolding block_effect_on
block_effect blocker blocked at t =
    let row : Block = record { blocker_id = blocker; blocked_id = blocked; created_at = at } in
    let (w, t') = insert_block row t in block_effect_on blocker blocked at w t' t

-- Whatever statements fail, a block has its whole effect, or reports an error of the infrastructure
-- and leaves the tables as they were.
pub block-block_effect :
    (blocker blocked at : ℕ) (c : Conn Tables)
    → let (r, c') = block blocker blocked at c in
      let (x, t) = block_effect blocker blocked at c.tables in
      ((r ≡ x) × (c'.tables ≡ t)) ⊎ ((r ≡ err infra) × (c'.tables ≡ c.tables))
unfolding block block_effect
block-block_effect blocker blocked at c = ground arith

-- Of an unmatch only the update writes: it has its effect, or the tables are as they were.
pub unmatch-unmatch_rows :
    (match_id actor at : ℕ) (c : Conn Tables)
    → let (_, c') = unmatch match_id actor at c in
      (c'.tables ≡ (unmatch_rows match_id actor at c.tables).1) ⊎ (c'.tables ≡ c.tables)
unfolding unmatch
unmatch-unmatch_rows match_id actor at c = ground arith
