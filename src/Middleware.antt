-- ===== src/Middleware.antt =====
-- backend/internal/platform/middleware/auth.go: the access check in front of the protected handlers.
-- The check of a token's signature and claims, and the reading of a UUID, are parameters.
pub mod Access
use llm_dating_app.Prelude.{
  ℕ, Bool, Option, none, some, [], ◌∷◌, Action, ◌>>=◌, ◌>>◌, pure, or_else, or_fail, fail_if, Text,
  trim_space, cut_prefix,
}
use llm_dating_app.Redis.Keys.{Failure}

-- The claims that the check reads.
pub record AccessClaims : Type 0 where
  pub id : ℕ
  pub subject : Text
  pub expires_at : ℕ

pub record Identity : Type 0 where
  pub user_id : ℕ
  pub jti : ℕ
  pub expires_at : ℕ

-- 401 UNAUTHORIZED, and 503 AUTH_DEPENDENCY_UNAVAILABLE.
pub data Refusal : Type 0 where
  unauthorized auth_dependency_unavailable : Refusal

abbrev pub bearer : Text
bearer = b'B' ∷ b'e' ∷ b'a' ∷ b'r' ∷ b'e' ∷ b'r' ∷ b' ' ∷ []

abbrev pub nonempty : Text → Option Text
nonempty [] = none
nonempty (c ∷ s) = some (c ∷ s)

abbrev pub trimmed : Option Text → Option Text
trimmed none = none
trimmed (some rest) = nonempty (trim_space rest)

-- Of the header Authorization, which is empty where the request has none.
unfoldable pub bearer_token : Text → Option Text
unfolding cut_prefix
bearer_token header = trimmed (cut_prefix bearer header)

module _ {W : Type 0} (parse : Text → Option AccessClaims) (parse_uuid : Text → Option ℕ)
    (is_revoked : ℕ → Action W Failure Bool) where
  unfoldable pub authenticate : Text → Action W Refusal Identity
  unfolding bearer_token
  authenticate header = do
    token ← or_fail (bearer_token header) unauthorized
    claims ← or_fail (parse token) unauthorized
    revoked ← or_else (λ _. auth_dependency_unavailable) (is_revoked claims.id)
    fail_if revoked unauthorized
    user ← or_fail (parse_uuid claims.subject) unauthorized
    pure (record { user_id = user; jti = claims.id; expires_at = claims.expires_at })

  -- The handler `next` behind the check.
  unfoldable pub auth : {A : Type 0} → (Identity → Action W Refusal A) → Text → Action W Refusal A
  unfolding authenticate
  auth next header = do identity ← authenticate header; next identity
