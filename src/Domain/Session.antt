-- ===== src/Domain/Session.antt =====
-- backend/internal/domain/session: refresh tokens and their errors.
use llm_dating_app.Prelude.{ℕ, Bool, not, ◌&&◌, Option, ltb, is_some, Text}

pub data RevokeReason : Type 0 where
  rotated reuse_detected logout logout_all : RevokeReason

pub record RefreshToken : Type 0 where
  pub id : ℕ
  pub user_id : ℕ
  pub family_id : ℕ
  pub token_hash : ℕ
  pub replaced_by : Option ℕ
  pub device_label : Option Text
  pub user_agent : Option Text
  pub ip : Option ℕ
  pub expires_at : ℕ
  pub last_used_at : Option ℕ
  pub revoked_at : Option ℕ
  pub revoke_reason : Option RevokeReason
  pub created_at : ℕ

unfoldable pub is_revoked : RefreshToken → Bool
is_revoked r = is_some r.revoked_at

unfoldable pub is_expired : RefreshToken → ℕ → Bool
is_expired r at = ltb r.expires_at at

unfoldable pub is_usable : RefreshToken → ℕ → Bool
unfolding is_revoked is_expired
is_usable r at = not (is_revoked r) && not (is_expired r at) && not (is_some r.replaced_by)

pub data Error : Type 0 where
  not_found reused revoked expired infra : Error
