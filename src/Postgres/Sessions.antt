-- ===== src/Postgres/Sessions.antt =====
-- backend/internal/adapters/postgres/repositories/session_repository.go, over the table
-- refresh_tokens and the statements of sqlc/sessions.sql.go.
pub mod Rotation
pub mod Family
pub mod Revocation
use llm_dating_app.Prelude.{
  ℕ, Bool, ◌&&◌, ◌||◌, not, Option, none, some, List, ◌∷◌, Result, ok, err, Action, ◌>>=◌, ◌>>◌,
  pure, fail, or_fail, if◌then◌else◌, ◌==◌, is_some, find, update_where,
}
use llm_dating_app.Domain.Session.{
  RefreshToken, RevokeReason, rotated, reuse_detected, Error, not_found, reused, infra,
}
use llm_dating_app.Connection.{Conn, query, exec, commit, transaction}

abbrev pub Tokens : Type 0
Tokens = List RefreshToken

unfoldable pub create_refresh_token : RefreshToken → Tokens → Tokens
create_refresh_token t ts =
    record t { replaced_by = none; last_used_at = none; revoked_at = none; revoke_reason = none }
    ∷ ts

unfoldable pub get_refresh_token_by_hash : ℕ → Tokens → Option RefreshToken
get_refresh_token_by_hash h = find (λ t. t.token_hash == h)

unfoldable pub get_refresh_token_for_update : ℕ → Tokens → Option RefreshToken
get_refresh_token_for_update id = find (λ t. t.id == id)

abbrev pub mark_replaced : ℕ → ℕ → RevokeReason → RefreshToken → RefreshToken
mark_replaced by at reason t = record t {
  replaced_by = some by;
  revoked_at = some at;
  revoke_reason = some reason;
  last_used_at = some at;
}

abbrev pub mark_revoked : ℕ → RevokeReason → RefreshToken → RefreshToken
mark_revoked at reason t = record t { revoked_at = some at; revoke_reason = some reason }

unfoldable pub replace_refresh_token : ℕ → ℕ → ℕ → RevokeReason → Tokens → Tokens
replace_refresh_token id by at reason = update_where (λ t. t.id == id) (mark_replaced by at reason)

unfoldable pub revoke_refresh_token_family : ℕ → ℕ → RevokeReason → Tokens → Tokens
revoke_refresh_token_family family at reason =
    update_where (λ t. t.family_id == family && not (is_some t.revoked_at)) (mark_revoked at reason)

unfoldable pub revoke_all_refresh_tokens_for_user : ℕ → ℕ → RevokeReason → Tokens → Tokens
revoke_all_refresh_tokens_for_user user at reason =
    update_where (λ t. t.user_id == user && not (is_some t.revoked_at)) (mark_revoked at reason)

unfoldable pub create : RefreshToken → Action (Conn Tokens) Error (Unit {0})
unfolding create_refresh_token
create token = exec infra (create_refresh_token token)

unfoldable pub find_by_hash : ℕ → Action (Conn Tokens) Error RefreshToken
unfolding get_refresh_token_by_hash
find_by_hash h = do row ← query infra (get_refresh_token_by_hash h); or_fail row not_found

-- The two ways on from the locked row: a token that is spent gives its family away, a fresh one is
-- replaced by `next`.
unfoldable pub rotate_current :
    RefreshToken → RefreshToken → ℕ → Action (Conn Tokens) Error (Unit {0})
unfolding create_refresh_token replace_refresh_token revoke_refresh_token_family
rotate_current current next now =
    if is_some current.revoked_at || is_some current.replaced_by
    then (do
      exec infra (revoke_refresh_token_family current.family_id now reuse_detected)
      commit infra
      fail reused)
    else (do
      exec infra (create_refresh_token next)
      exec infra (replace_refresh_token current.id next.id now rotated)
      commit infra)

unfoldable pub rotate : ℕ → RefreshToken → ℕ → Action (Conn Tokens) Error (Unit {0})
unfolding rotate_current get_refresh_token_for_update
rotate current_id next now = transaction infra (do
  row ← query infra (get_refresh_token_for_update current_id)
  current ← or_fail row not_found
  rotate_current current next now)

unfoldable pub revoke_family : ℕ → RevokeReason → ℕ → Action (Conn Tokens) Error (Unit {0})
unfolding revoke_refresh_token_family
revoke_family family reason at = exec infra (revoke_refresh_token_family family at reason)

unfoldable pub revoke_all_for_user : ℕ → RevokeReason → ℕ → Action (Conn Tokens) Error (Unit {0})
unfolding revoke_all_refresh_tokens_for_user
revoke_all_for_user user reason at = exec infra (revoke_all_refresh_tokens_for_user user at reason)
