-- ===== src/Postgres/Messaging/Sending.antt =====
-- Send and GetActiveParticipants of messaging_repository.go: nonces, and who takes part.
use llm_dating_app.Prelude.{
  ℕ, ◌≡◌, ◌≢◌, inl, inr, Bool, true, false, not, ◌&&◌, some, List, [], ◌∷◌, arith, ◌==◌,
  Option-cases, ok, find, any,
}
use llm_dating_app.Domain.Messaging.{Message, SendResult, Participants, includes}
use llm_dating_app.Postgres.Messaging.{
  send, get_active_participants_row, insert_message, has_nonce, get_message_by_nonce, Conn, Tables,
  is_open, is_coherent, takes_part, blocks_pair, get_active_participants,
}
use llm_dating_app.Domain.Matching.{Match}
use llm_dating_app.Postgres.Matching.Atomicity.{block_effect, block-block_effect}
use llm_dating_app.Postgres.Queries.{
  is_blocked, insert_block, unmatch_pair_for_block, is_open, takes_part, blocks_pair,
}
use llm_dating_app.Connection.{Conn}
use llm_dating_app.Postgres.Schema.{Tables, Block}
use llm_dating_app.Postgres.Matching.{block}
use llm_dating_app.Postgres.Matching.Safety.{blocks_pair_comm}

-- With no failing statement, a message that was sent answers the next send of its sender under the
-- same nonce, whatever the later content, if that is one that could be stored: the first message comes
-- back as not new, and nothing changes.
pub send-again :
    (at later : ℕ) (m again : Message) (c : Conn Tables) (r : SendResult)
    → c.faults ≡ []
    → (send at m c).0 ≡ ok r
    → again.sender_id ≡ m.sender_id
    → again.client_nonce ≡ m.client_nonce
    → is_coherent again.type again.content again.storage_key ≡ true
    → let c' = (send at m c).1 in
      ((send later again c').0 ≡ ok (record r { created = false }))
      × ((send later again c').1.tables ≡ c'.tables)
unfolding send insert_message get_message_by_nonce
send-again at later m again c r nf e same_sender same_nonce coherent = ground arith

-- No sender has two messages under one nonce.
abbrev pub AllDistinct : List Message → Type 0
AllDistinct [] = Unit
AllDistinct (m ∷ ms) = (any (has_nonce m.sender_id m.client_nonce) ms ≡ false) × AllDistinct ms

-- If no sender has two messages under one nonce, none has after a send, whatever statements fail.
pub send-AllDistinct :
    (at : ℕ) (m : Message) (c : Conn Tables)
    → AllDistinct c.tables.messages
    → AllDistinct (send at m c).1.tables.messages
unfolding send insert_message
send-AllDistinct at m c h = ground arith

find-holds : (p : Match → Bool) (ms : List Match) (m : Match) → find p ms ≡ some m → p m ≡ true
find-holds p [] m e = cc
find-holds p (x ∷ ms) m e = ground (arith, find-holds p ms m)

-- A conversation that is open to a viewer is the active match of that id, the viewer takes part in
-- it, and there is no block between its two users.
pub get_active_participants_row-allowed :
    (match_id viewer : ℕ) (t : Tables) (m : Match)
    → get_active_participants_row match_id viewer t ≡ some m
    → (m.id ≡ match_id)
      × (is_open m ≡ true)
      × (takes_part viewer m ≡ true)
      × (is_blocked m.user_low_id m.user_high_id t ≡ false)
unfolding get_active_participants_row is_blocked
get_active_participants_row-allowed match_id viewer t m e =
    let h =
      find-holds
        (λ m.
          m.id == match_id
          && is_open m
          && takes_part viewer m
          && not (any (blocks_pair m.user_low_id m.user_high_id) t.blocks))
        t.matches m e in
    ground (arith, h)

blocks_pair_of_row :
    (blocker blocked : ℕ) (bs : List Block)
    → any (λ k. k.blocker_id == blocker && k.blocked_id == blocked) bs ≡ true
    → any (blocks_pair blocker blocked) bs ≡ true
blocks_pair_of_row blocker blocked [] h = cc
blocks_pair_of_row blocker blocked (k ∷ bs) h =
    ground (arith, blocks_pair_of_row blocker blocked bs)

block_effect-is_blocked :
    (blocker blocked at : ℕ) (t : Tables)
    → (block_effect blocker blocked at t).0 ≡ ok tt
    → is_blocked blocker blocked (block_effect blocker blocked at t).1 ≡ true
unfolding block_effect insert_block unmatch_pair_for_block is_blocked
block_effect-is_blocked blocker blocked at t e =
    ground (arith, blocks_pair_of_row blocker blocked t.blocks)

pub block-is_blocked :
    (blocker blocked at : ℕ) (c : Conn Tables)
    → (block blocker blocked at c).0 ≡ ok tt
    → is_blocked blocker blocked (block blocker blocked at c).1.tables ≡ true
block-is_blocked blocker blocked at c e = elim (block-block_effect blocker blocked at c) [
  | inl (p, q) ↦ rw q (block_effect-is_blocked blocker blocked at c.tables (cc p))
  | inr (p, _) ↦ cc p
]

pub is_blocked_comm : (a b : ℕ) (t : Tables) → is_blocked a b t ≡ is_blocked b a t
unfolding is_blocked
is_blocked_comm a b t = blocks_pair_comm a b t.blocks

participants_unblocked :
    (match_id viewer : ℕ) (c : Conn Tables) (p : Participants)
    → (get_active_participants match_id viewer c).0 ≡ ok p
    → is_blocked p.user_low_id p.user_high_id c.tables ≡ false
unfolding get_active_participants
participants_unblocked match_id viewer c p e =
    elim (Option-cases (get_active_participants_row match_id viewer c.tables)) [
      | inl h ↦ ground arith
      | inr (m, h) ↦
          ground (arith, get_active_participants_row-allowed match_id viewer c.tables m h)
    ]

-- After a block of another user that succeeds, no conversation that anyone may open has both of the
-- two as its participants.
pub block-get_active_participants :
    (blocker blocked at match_id viewer : ℕ) (c : Conn Tables) (p : Participants)
    → blocker ≢ blocked
    → (block blocker blocked at c).0 ≡ ok tt
    → (get_active_participants match_id viewer (block blocker blocked at c).1).0 ≡ ok p
    → (includes p blocker && includes p blocked) ≡ false
unfolding includes
block-get_active_participants blocker blocked at match_id viewer c p ne e f = ground (
  arith,
  ne,
  block-is_blocked blocker blocked at c e,
  participants_unblocked match_id viewer (block blocker blocked at c).1 p f,
  is_blocked_comm blocker blocked (block blocker blocked at c).1.tables,
)
