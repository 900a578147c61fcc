-- ===== src/Postgres/Sessions/Family.antt =====
-- Rotation families in session_repository.go: how many tokens of a family are still good.
use llm_dating_app.Prelude.{
  ℕ, ◌+◌, ◌≤◌, ◌≡◌, refl, ◌≢◌, inl, inr, not, ◌&&◌, Option, none, some, [], ◌∷◌, arith, ◌==◌,
  if◌then◌else◌, is_some, count_where,
}
use llm_dating_app.Domain.Session.{RefreshToken, RevokeReason, rotated, reuse_detected, reused}
use llm_dating_app.Postgres.Sessions.{
  Tokens, get_refresh_token_for_update, replace_refresh_token, revoke_refresh_token_family,
  revoke_all_refresh_tokens_for_user, create_refresh_token, mark_replaced, rotate, ok, err,
}
use llm_dating_app.Postgres.Sessions.Rotation.{
  rotation_of, rotation, rotate-rotation, rotate-rotation_no_faults,
}
use llm_dating_app.Connection.{Conn}

-- The tokens of a family that are not revoked.
abbrev pub live : ℕ → Tokens → ℕ
live f = count_where (λ t. t.family_id == f && not (is_some t.revoked_at))

abbrev pub AtMostOneLive : Tokens → Type 0
AtMostOneLive ts = (f : ℕ) → live f ts ≤ 1

pub live-revoke_family :
    (f g at : ℕ) (r : RevokeReason) (ts : Tokens)
    → live f (revoke_refresh_token_family g at r ts) ≡ (if f == g then 0 else live f ts)
unfolding revoke_refresh_token_family
live-revoke_family f g at r [] = ground arith
live-revoke_family f g at r (t ∷ ts) = ground (arith, live-revoke_family f g at r ts)

live-revoke_all-le :
    (f u at : ℕ) (r : RevokeReason) (ts : Tokens)
    → live f (revoke_all_refresh_tokens_for_user u at r ts) ≤ live f ts
unfolding revoke_all_refresh_tokens_for_user
live-revoke_all-le f u at r [] = omega arith
live-revoke_all-le f u at r (t ∷ ts) = ground (arith, live-revoke_all-le f u at r ts)

live-replace-le :
    (f id by at : ℕ) (r : RevokeReason) (ts : Tokens)
    → live f (replace_refresh_token id by at r ts) ≤ live f ts
unfolding replace_refresh_token
live-replace-le f id by at r [] = omega arith
live-replace-le f id by at r (t ∷ ts) = ground (arith, live-replace-le f id by at r ts)

-- To replace a good token takes it from its family.
live-replace-lt :
    (id by at : ℕ) (r : RevokeReason) (ts : Tokens) (t : RefreshToken)
    → get_refresh_token_for_update id ts ≡ some t
    → t.revoked_at ≡ none
    → live t.family_id (replace_refresh_token id by at r ts) + 1 ≤ live t.family_id ts
unfolding get_refresh_token_for_update replace_refresh_token
live-replace-lt id by at r [] t e h = cc
live-replace-lt id by at r (x ∷ ts) t e h =
    ground (arith, live-replace-lt id by at r ts t, live-replace-le t.family_id id by at r ts)

get-id :
    (id : ℕ) (ts : Tokens) (t : RefreshToken)
    → get_refresh_token_for_update id ts ≡ some t
    → t.id ≡ id
unfolding get_refresh_token_for_update
get-id id [] t e = cc
get-id id (x ∷ ts) t e = ground (arith, get-id id ts t)

live-create-next :
    (f id now : ℕ) (next t : RefreshToken) (ts : Tokens)
    → get_refresh_token_for_update id ts ≡ some t
    → t.revoked_at ≡ none
    → next.family_id ≡ t.family_id
    → live f (replace_refresh_token t.id next.id now rotated (create_refresh_token next ts))
      ≤ live f ts
unfolding create_refresh_token replace_refresh_token
live-create-next f id now next t ts e h same = grind (
  arith,
  get-id id ts t e,
  live-replace-lt id next.id now rotated ts t e h,
  live-replace-le f id next.id now rotated ts,
)

rotation_of-AtMostOneLive :
    (o : Option RefreshToken) (id now : ℕ) (next : RefreshToken) (ts : Tokens)
    → get_refresh_token_for_update id ts ≡ o
    → ((t : RefreshToken) → o ≡ some t → next.family_id ≡ t.family_id)
    → AtMostOneLive ts
    → AtMostOneLive (rotation_of o next now ts).1
unfolding rotation_of
rotation_of-AtMostOneLive none id now next ts e same inv = inv
rotation_of-AtMostOneLive (some t) id now next ts e same inv = λ f. ground (
  arith,
  inv f,
  same t refl,
  live-revoke_family f t.family_id now reuse_detected ts,
  live-create-next f id now next t ts e,
)

-- A rotation within the family of the token that it consumes, whatever statements fail, leaves at
-- most one good token in every family, if that held before.
pub rotate-AtMostOneLive :
    (id now : ℕ) (next : RefreshToken) (c : Conn Tokens)
    → ((t : RefreshToken)
        → get_refresh_token_for_update id c.tables ≡ some t
        → next.family_id ≡ t.family_id)
    → AtMostOneLive c.tables
    → AtMostOneLive (rotate id next now c).1.tables
unfolding rotation
rotate-AtMostOneLive id now next c same inv = elim (rotate-rotation id next now c) [
  | inl (_, e) ↦ rw e (rotation_of-AtMostOneLive _ id now next c.tables refl same inv)
  | inr (_, e) ↦ rw e inv
]

get-replace :
    (id by at : ℕ) (r : RevokeReason) (ts : Tokens) (t : RefreshToken)
    → get_refresh_token_for_update id ts ≡ some t
    → get_refresh_token_for_update id (replace_refresh_token id by at r ts)
      ≡ some (mark_replaced by at r t)
unfolding get_refresh_token_for_update replace_refresh_token
get-replace id by at r [] t e = cc
get-replace id by at r (x ∷ ts) t e = ground (arith, get-replace id by at r ts t)

get-create_ne :
    (id : ℕ) (next : RefreshToken) (ts : Tokens)
    → next.id ≢ id
    → get_refresh_token_for_update id (create_refresh_token next ts)
      ≡ get_refresh_token_for_update id ts
unfolding get_refresh_token_for_update create_refresh_token
get-create_ne id next ts h = ground arith

-- A token that was rotated is spent: presenting it again, with whatever successor, is reported as
-- reuse and leaves no good token in its family, not even the successor that the first use got.
pub rotate_twice :
    (id now later : ℕ) (next again t : RefreshToken) (c : Conn Tokens)
    → c.faults ≡ []
    → get_refresh_token_for_update id c.tables ≡ some t
    → next.id ≢ id
    → (rotate id next now c).0 ≡ ok tt
    → let (r, c') = rotate id again later (rotate id next now c).1 in
      (r ≡ err reused) × (live t.family_id c'.tables ≡ 0)
unfolding rotation rotation_of
rotate_twice id now later next again t c nf e fresh done = grind (
  arith,
  rotate-rotation_no_faults id next now c nf,
  rotate-rotation_no_faults id again later (rotate id next now c).1,
  get-id id c.tables t e,
  get-create_ne id next c.tables fresh,
  get-replace id next.id now rotated (create_refresh_token next c.tables) t,
  live-revoke_family t.family_id t.family_id later reuse_detected,
)
