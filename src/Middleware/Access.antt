-- ===== src/Middleware/Access.antt =====
-- The access check over Redis.
use llm_dating_app.Prelude.{
  ℕ, ◌*◌, ◌/◌, ◌<◌, ◌≡◌, true, Option, some, [], arith, Action, Result, ok, err, Text,
}
use llm_dating_app.Redis.Denylist as Revoking
use llm_dating_app.Middleware
use llm_dating_app.Middleware.{AccessClaims, Identity, Refusal, unauthorized, auth, bearer_token}
use llm_dating_app.Application.Auth.{Tokens, Texts, PasswordHasher}
use llm_dating_app.Application.Auth.Live.{World, on_revocations}
use llm_dating_app.Application.Auth.SignOut.{live_logout_all, live_logout_all-revoked}
use llm_dating_app.Redis.RateLimiter.{Limits}

module _ {A : Type 0} (parse : Text → Option AccessClaims) (parse_uuid : Text → Option ℕ) (at : ℕ)
    (next : Identity → Action World Refusal A) where
  abbrev pub live_auth : Text → World → Result Refusal A × World
  live_auth = auth parse parse_uuid (λ jti. on_revocations (Revoking.is_revoked at jti)) next

  -- A token that is denied runs no handler.
  auth-revoked :
      (header token : Text) (claims : AccessClaims) (w : World)
      → bearer_token header ≡ some token
      → parse token ≡ some claims
      → (Revoking.is_revoked at claims.id w.revocations).0 ≡ ok true
      → (live_auth header w).0 ≡ err unauthorized
  unfolding auth Middleware.authenticate
  auth-revoked header token claims w h p denied = ground arith

module _ {A : Type 0} (citext : Text → Text) (seconds : ℕ → ℕ) (limits : Limits) (now : ℕ)
    (hasher : PasswordHasher) (tokens : Tokens) (texts : Texts) (refresh_ttl : ℕ)
    (parse : Text → Option AccessClaims) (parse_uuid : Text → Option ℕ)
    (next : Identity → Action World Refusal A) where
  -- After a LogoutAll while Redis answers, whatever it answers itself, a request with an access token
  -- that was registered for the user reaches no handler until the token expires.
  pub signed_out-unauthorized :
      (user later : ℕ) (header token : Text) (claims : AccessClaims) (w : World)
      → bearer_token header ≡ some token
      → parse token ≡ some claims
      → w.revocations.faults ≡ []
      → Revoking.IsSetOf (w.revocations.tables.active user)
      → Revoking.score_of claims.id (w.revocations.tables.active user) ≡ some claims.expires_at
      → now / 1000 < claims.expires_at
      → later < claims.expires_at * 1000
      → let w' =
          (live_logout_all citext seconds limits now hasher tokens texts refresh_ttl user w).1 in
        (live_auth parse parse_uuid later next header w').0 ≡ err unauthorized
  signed_out-unauthorized user later header token claims w h p nr set score soon until =
      let w' =
        (live_logout_all citext seconds limits now hasher tokens texts refresh_ttl user w).1 in
      auth-revoked parse parse_uuid later next header token claims w' h p
        (live_logout_all-revoked citext seconds limits now hasher tokens texts refresh_ttl user
          claims.id claims.expires_at later w nr set score soon until).0
