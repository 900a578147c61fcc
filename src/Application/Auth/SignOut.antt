-- ===== src/Application/Auth/SignOut.antt =====
-- LogoutAll of application/auth/service.go, over PostgreSQL and Redis.
use llm_dating_app.Prelude.{
  ℕ, ◌*◌, ◌/◌, ◌<◌, ◌≡◌, ◌⊎◌, true, some, [], arith, Result, ok, err, Text,
}
use llm_dating_app.Domain.Session.{RevokeReason}
use llm_dating_app.Redis.Denylist as Revoking
use llm_dating_app.Application.Auth.{Error, Tokens, Texts, PasswordHasher}
use llm_dating_app.Application.Auth.Service as Auth
use llm_dating_app.Application.Auth.Live.{
  World, live_users, live_sessions, live_denylist, live_limiter,
}
use llm_dating_app.Redis.RateLimiter.{Limits}
use llm_dating_app.Postgres.Sessions.Revocation.{live_of_user, revoke_all_for_user-live_of_user}
use llm_dating_app.Application.Auth.Service.{logout_all}
use llm_dating_app.Redis.Denylist.{denylist_all_active-is_revoked}

module _ (citext : Text → Text) (seconds : ℕ → ℕ) (limits : Limits) (now : ℕ)
    (hasher : PasswordHasher) (tokens : Tokens) (texts : Texts) (refresh_ttl : ℕ) where
  abbrev pub live_logout_all : ℕ → World → Result Error (Unit {0}) × World
  live_logout_all user =
      Auth.logout_all (live_users citext seconds limits now)
        (live_sessions citext seconds limits now) hasher tokens
        (live_denylist citext seconds limits now) (live_limiter citext seconds limits now) texts
        refresh_ttl user now

  -- A LogoutAll that succeeds, while Redis answers, leaves the user no good refresh token, and revokes
  -- every access token that is registered for the user until it expires. One that fails because of
  -- PostgreSQL has revoked the access tokens too.
  pub live_logout_all-revoked :
      (user jti expires later : ℕ) (w : World)
      → w.revocations.faults ≡ []
      → Revoking.IsSetOf (w.revocations.tables.active user)
      → Revoking.score_of jti (w.revocations.tables.active user) ≡ some expires
      → now / 1000 < expires
      → later < expires * 1000
      → let (r, w') = live_logout_all user w in
        ((Revoking.is_revoked later jti w'.revocations).0 ≡ ok true)
        × (((r ≡ ok tt) × (live_of_user user w'.sessions.tables ≡ 0))
            ⊎ ((r ≡ err Error.infra) × (w'.sessions.tables ≡ w.sessions.tables)))
  unfolding Auth.logout_all
  live_logout_all-revoked user jti expires later w nr set score soon until = ground (
    arith,
    revoke_all_for_user-live_of_user user now RevokeReason.logout_all w.sessions,
    denylist_all_active-is_revoked now later user jti expires w.revocations nr set score soon until,
  )
