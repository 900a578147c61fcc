-- ===== src/Postgres/Sessions/Revocation.antt =====
-- RevokeFamily and RevokeAllForUser of session_repository.go.
use llm_dating_app.Prelude.{
  ℕ, ◌≡◌, refl, ◌⊎◌, not, ◌&&◌, [], ◌∷◌, arith, ◌==◌, is_some, ok, err, select, count_where,
}
use llm_dating_app.Domain.Session.{infra, RevokeReason}
use llm_dating_app.Postgres.Sessions.{
  Tokens, revoke_all_refresh_tokens_for_user, revoke_all_for_user, Conn,
}
use llm_dating_app.Connection.{Conn}

-- The good tokens of a user.
abbrev pub live_of_user : ℕ → Tokens → ℕ
live_of_user u = count_where (λ t. t.user_id == u && not (is_some t.revoked_at))

abbrev pub of_others : ℕ → Tokens → Tokens
of_others u = select (λ t. not (t.user_id == u))

live_of_user-revoke_all :
    (u at : ℕ) (r : RevokeReason) (ts : Tokens)
    → live_of_user u (revoke_all_refresh_tokens_for_user u at r ts) ≡ 0
unfolding revoke_all_refresh_tokens_for_user
live_of_user-revoke_all u at r [] = refl
live_of_user-revoke_all u at r (t ∷ ts) = ground (arith, live_of_user-revoke_all u at r ts)

of_others-revoke_all :
    (u at : ℕ) (r : RevokeReason) (ts : Tokens)
    → of_others u (revoke_all_refresh_tokens_for_user u at r ts) ≡ of_others u ts
unfolding revoke_all_refresh_tokens_for_user
of_others-revoke_all u at r [] = refl
of_others-revoke_all u at r (t ∷ ts) = ground (arith, of_others-revoke_all u at r ts)

-- Revoking all tokens of a user either fails and changes nothing, or leaves the user no good token;
-- in both cases the tokens of the other users stay as they were.
pub revoke_all_for_user-live_of_user :
    (u at : ℕ) (r : RevokeReason) (c : Conn Tokens)
    → let (x, c') = revoke_all_for_user u r at c in
      (((x ≡ ok tt) × (live_of_user u c'.tables ≡ 0)) ⊎ ((x ≡ err infra) × (c'.tables ≡ c.tables)))
      × (of_others u c'.tables ≡ of_others u c.tables)
unfolding revoke_all_for_user
revoke_all_for_user-live_of_user u at r c =
    ground (arith, live_of_user-revoke_all u at r c.tables, of_others-revoke_all u at r c.tables)
