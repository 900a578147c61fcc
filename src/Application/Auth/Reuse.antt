-- ===== src/Application/Auth/Reuse.antt =====
-- Refresh and LogoutAll of application/auth/service.go, over PostgreSQL and Redis.
use llm_dating_app.Prelude.{
  ℕ, ◌*◌, ◌/◌, ◌<◌, ◌≡◌, true, false, ◌||◌, some, [], arith, is_some, Result, ok, err, Text,
}
use llm_dating_app.Domain.User.{User, is_active}
use llm_dating_app.Domain.Session.{RefreshToken, is_expired, reuse_detected}
use llm_dating_app.Postgres.Users
use llm_dating_app.Postgres.Sessions
use llm_dating_app.Redis.Denylist as Revoking
use llm_dating_app.Application.Auth.{
  Error, Tokens, Texts, PasswordHasher, RefreshInput, invalid_refresh_token, AuthResult,
}
use llm_dating_app.Application.Auth.Live.{
  World, live_users, live_sessions, live_denylist, live_limiter,
}
use llm_dating_app.Application.Auth.Service as Auth
use llm_dating_app.Redis.RateLimiter.{Limits}
use llm_dating_app.Postgres.Sessions.Rotation.{rotation, rotation_of, rotate-rotation_no_faults}
use llm_dating_app.Postgres.Sessions.Family.{live, live-revoke_family}
use llm_dating_app.Redis.Denylist.{denylist_all_active-is_revoked}

module _ (citext : Text → Text) (seconds : ℕ → ℕ) (limits : Limits) (now : ℕ)
    (hasher : PasswordHasher) (tokens : Tokens) (texts : Texts) (refresh_ttl : ℕ) where
  abbrev pub live_refresh : RefreshInput → ℕ → World → Result Error AuthResult × World
  live_refresh input id =
      Auth.refresh (live_users citext seconds limits now) (live_sessions citext seconds limits now)
        hasher tokens (live_denylist citext seconds limits now)
        (live_limiter citext seconds limits now) texts refresh_ttl input now id

  -- When a refresh token that is spent, but not past its date, is presented for an active user while
  -- the stores answer, the call is refused, the family of the token has no good token left, and every
  -- access token that is registered for the user is revoked until it expires.
  pub live_refresh-reused :
      (input : RefreshInput) (id jti expires later : ℕ) (token_hash : ℕ) (t : RefreshToken)
      (u : User) (fresh : Text × ℕ) (w : World)
      → w.users.faults ≡ []
      → w.sessions.faults ≡ []
      → w.revocations.faults ≡ []
      → tokens.hash input.refresh_token ≡ some token_hash
      → tokens.fresh ≡ some fresh
      → Sessions.get_refresh_token_by_hash token_hash w.sessions.tables ≡ some t
      → Sessions.get_refresh_token_for_update t.id w.sessions.tables ≡ some t
      → (is_some t.revoked_at || is_some t.replaced_by) ≡ true
      → is_expired t now ≡ false
      → Users.get_user_by_id t.user_id w.users.tables ≡ some u
      → is_active u ≡ true
      → Revoking.IsSetOf (w.revocations.tables.active t.user_id)
      → Revoking.score_of jti (w.revocations.tables.active t.user_id) ≡ some expires
      → now / 1000 < expires
      → later < expires * 1000
      → let (r, w') = live_refresh input id w in
        (r ≡ err invalid_refresh_token)
        × (live t.family_id w'.sessions.tables ≡ 0)
        × ((Revoking.is_revoked later jti w'.revocations).0 ≡ ok true)
  unfolding Auth.refresh Auth.refresh_current Auth.after_rotate Sessions.find_by_hash
      Users.find_by_id rotation rotation_of
  live_refresh-reused input id jti expires later token_hash t u fresh w nu ns nr h f row locked
        spent good owner active' set score soon until =
      let next =
        Auth.new_refresh_token (live_users citext seconds limits now)
          (live_sessions citext seconds limits now) hasher tokens
          (live_denylist citext seconds limits now) (live_limiter citext seconds limits now) texts
          refresh_ttl id t.user_id t.family_id fresh.1 t.device_label input.user_agent input.ip
          now in
      ground (
        arith,
        rotate-rotation_no_faults t.id next now w.sessions ns,
        live-revoke_family t.family_id t.family_id now reuse_detected w.sessions.tables,
        denylist_all_active-is_revoked now later t.user_id jti expires w.revocations nr set score
            soon until,
      )
