-- ===== src/Postgres/Matching/Safety.antt =====
-- Blocks and active matches in adapters/postgres/repositories/matching_repository.go.
use llm_dating_app.Prelude.{
  ℕ, ◌<◌, min, max, ◌≡◌, refl, ◌≢◌, ◌⊎◌, inl, inr, false, ◌&&◌, List, [], ◌∷◌, arith, ◌==◌,
  if◌then◌else◌, any, All, All-update_where,
}
use llm_dating_app.Postgres.Schema.{Tables, Block, Postgis}
use llm_dating_app.Domain.Matching.{Match, ordered_pair, Swipe}
use llm_dating_app.Postgres.Queries.{
  blocks_pair, is_open, is_pair, close, unmatch_pair_for_block, unmatch_rows, insert_block,
  insert_swipe, is_blocked, insert_match, takes_part,
}
use llm_dating_app.Postgres.Matching.Atomicity.{
  block_effect, swipe_effect, record_swipe-swipe_effect, block-block_effect, unmatch-unmatch_rows,
}
use llm_dating_app.Postgres.Matching.{
  new_match, insert_block, insert_swipe, is_blocked, insert_match, Postgis, Conn, record_swipe,
  block, unmatch,
}
use llm_dating_app.Connection.{Conn}

-- A match lists its two users in order, and while it is active neither has blocked the other.
abbrev pub IsSafeMatch : List Block → Match → Type 0
IsSafeMatch bs m =
    (m.user_low_id < m.user_high_id)
    × ((is_open m ≡ false) ⊎ (any (blocks_pair m.user_low_id m.user_high_id) bs ≡ false))

abbrev pub IsSafe : Tables → Type 0
IsSafe t = All (IsSafeMatch t.blocks) t.matches

pub blocks_pair_comm :
    (a b : ℕ) (bs : List Block) → any (blocks_pair a b) bs ≡ any (blocks_pair b a) bs
blocks_pair_comm a b [] = refl
blocks_pair_comm a b (k ∷ bs) = ground (arith, blocks_pair_comm a b bs)

-- What one more block does to a match, before the matches of the pair are closed.
closed_or_safe :
    (blocker blocked at : ℕ) (k : Block) (bs : List Block) (m : Match)
    → k.blocker_id ≡ blocker
    → k.blocked_id ≡ blocked
    → IsSafeMatch bs m
    → IsSafeMatch (k ∷ bs) (
        if is_pair (min blocker blocked) (max blocker blocked) m && is_open m
        then close blocker at m
        else m)
closed_or_safe blocker blocked at k bs m p q s = ground arith

closed_or_same :
    (blocker blocked at : ℕ) (bs : List Block) (m : Match)
    → IsSafeMatch bs m
    → IsSafeMatch bs (
        if is_pair (min blocker blocked) (max blocker blocked) m && is_open m
        then close blocker at m
        else m)
closed_or_same blocker blocked at bs m s = ground arith

unmatch_pair_for_block-IsSafe :
    (blocker blocked at : ℕ) (t : Tables)
    → IsSafe t
    → IsSafe (unmatch_pair_for_block blocker blocked at t)
unfolding unmatch_pair_for_block
unmatch_pair_for_block-IsSafe blocker blocked at t h =
    All-update_where (IsSafeMatch t.blocks) (IsSafeMatch t.blocks)
      (λ m. is_pair (min blocker blocked) (max blocker blocked) m && is_open m) (close blocker at)
      t.matches (closed_or_same blocker blocked at t.blocks) h

block_stored-IsSafe :
    (k : Block) (at : ℕ) (t : Tables)
    → IsSafe t
    → IsSafe
        (unmatch_pair_for_block k.blocker_id k.blocked_id at (record t { blocks = k ∷ t.blocks }))
unfolding unmatch_pair_for_block
block_stored-IsSafe k at t h =
    All-update_where (IsSafeMatch t.blocks) (IsSafeMatch (k ∷ t.blocks))
      (λ m. is_pair (min k.blocker_id k.blocked_id) (max k.blocker_id k.blocked_id) m && is_open m)
      (close k.blocker_id at) t.matches
      (λ m s. closed_or_safe k.blocker_id k.blocked_id at k t.blocks m refl refl s) h

-- A block leaves no active match between two users of whom one has blocked the other.
pub block_effect-IsSafe :
    (blocker blocked at : ℕ) (t : Tables) → IsSafe t → IsSafe (block_effect blocker blocked at t).1
unfolding block_effect insert_block
block_effect-IsSafe blocker blocked at t h =
    let k : Block = record { blocker_id = blocker; blocked_id = blocked; created_at = at } in
    ground
      (arith, unmatch_pair_for_block-IsSafe blocker blocked at t h, block_stored-IsSafe k at t h)

-- An unmatch only closes matches.
pub unmatch_rows-IsSafe :
    (match_id actor at : ℕ) (t : Tables) → IsSafe t → IsSafe (unmatch_rows match_id actor at t).1
unfolding unmatch_rows
unmatch_rows-IsSafe match_id actor at t h =
    All-update_where (IsSafeMatch t.blocks) (IsSafeMatch t.blocks)
      (λ m. m.id == match_id && takes_part actor m && is_open m) (close actor at) t.matches
      (λ m s. ground arith) h

new_match-IsSafeMatch :
    (s : Swipe) (match_id : ℕ) (t : Tables)
    → is_blocked s.actor_id s.target_id t ≡ false
    → s.actor_id ≢ s.target_id
    → IsSafeMatch t.blocks (new_match s match_id)
unfolding new_match ordered_pair is_blocked
new_match-IsSafeMatch s match_id t h ne =
    ground (arith, blocks_pair_comm s.actor_id s.target_id t.blocks)

-- A swipe makes no match across a block.
pub swipe_effect-IsSafe :
    (g : Postgis) (s : Swipe) (match_id : ℕ) (t : Tables)
    → IsSafe t
    → IsSafe (swipe_effect g s match_id t).1
unfolding swipe_effect insert_swipe insert_match
swipe_effect-IsSafe g s match_id t h = ground (arith, new_match-IsSafeMatch s match_id t)

-- If no active match stands across a block, none does after a recorded swipe, whatever statement of
-- its transaction fails.
pub record_swipe-IsSafe :
    (g : Postgis) (s : Swipe) (match_id : ℕ) (c : Conn Tables)
    → IsSafe c.tables
    → IsSafe (record_swipe g s match_id c).1.tables
record_swipe-IsSafe g s match_id c h = elim (record_swipe-swipe_effect g s match_id c) [
  | inl (_, e) ↦ rw e (swipe_effect-IsSafe g s match_id c.tables h)
  | inr (_, e) ↦ rw e h
]

-- If no active match stands across a block, none does after one more block, which closes the match
-- of its pair, whatever statement of its transaction fails.
pub block-IsSafe :
    (blocker blocked at : ℕ) (c : Conn Tables)
    → IsSafe c.tables
    → IsSafe (block blocker blocked at c).1.tables
block-IsSafe blocker blocked at c h = elim (block-block_effect blocker blocked at c) [
  | inl (_, e) ↦ rw e (block_effect-IsSafe blocker blocked at c.tables h)
  | inr (_, e) ↦ rw e h
]

-- If no active match stands across a block, none does after an unmatch, whatever statement fails.
pub unmatch-IsSafe :
    (match_id actor at : ℕ) (c : Conn Tables)
    → IsSafe c.tables
    → IsSafe (unmatch match_id actor at c).1.tables
unmatch-IsSafe match_id actor at c h = elim (unmatch-unmatch_rows match_id actor at c) [
  | inl e ↦ rw e (unmatch_rows-IsSafe match_id actor at c.tables h)
  | inr e ↦ rw e h
]
