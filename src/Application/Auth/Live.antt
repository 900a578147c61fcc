-- ===== src/Application/Auth/Live.antt =====
-- The authentication service over PostgreSQL and Redis, as cmd/api/main.go wires it.
use llm_dating_app.Prelude.{ℕ, Bool, false, if◌then◌else◌, Action, Text, text_eq}
use llm_dating_app.Domain.User
use llm_dating_app.Domain.Session
use llm_dating_app.Postgres.Users
use llm_dating_app.Postgres.Sessions
use llm_dating_app.Redis.Denylist as Revoking
use llm_dating_app.Redis.RateLimiter as Lockout
use llm_dating_app.Redis.RateLimiter.{Limits}
use llm_dating_app.Redis.Keys.{Failure}
use llm_dating_app.Application.Auth.{
  UserRepository, SessionRepository, RateLimiter, Denylist, RateScope, register_ip, login_ip,
  login_email,
}
use llm_dating_app.Connection.{Conn}

pub record World : Type 0 where
  pub users : Conn Users.Users
  pub sessions : Conn Sessions.Tokens
  pub revocations : Conn Revoking.Revocations
  -- The keys of each scope.
  pub limits : RateScope → Conn Lockout.Scope

abbrev pub is_scope : RateScope → RateScope → Bool
is_scope (register_ip a) (register_ip b) = text_eq a b
is_scope (login_ip a) (login_ip b) = text_eq a b
is_scope (login_email a) (login_email b) = text_eq a b
is_scope _ _ = false

abbrev pub on_users :
    {A : Type 0} → Action (Conn Users.Users) User.Error A → Action World User.Error A
on_users m w = let (r, c) = m w.users in (r, record w { users = c })

abbrev pub on_sessions :
    {A : Type 0} → Action (Conn Sessions.Tokens) Session.Error A → Action World Session.Error A
on_sessions m w = let (r, c) = m w.sessions in (r, record w { sessions = c })

abbrev pub on_revocations :
    {A : Type 0} → Action (Conn Revoking.Revocations) Failure A → Action World Failure A
on_revocations m w = let (r, c) = m w.revocations in (r, record w { revocations = c })

abbrev pub on_limits :
    {A : Type 0} → RateScope → Action (Conn Lockout.Scope) Failure A → Action World Failure A
on_limits scope m w =
    let (r, c) = m (w.limits scope) in
    (r, record w { limits = λ s. if is_scope s scope then c else w.limits s })

module _ (citext : Text → Text) (seconds : ℕ → ℕ) (limits : Limits) (now : ℕ) where
  abbrev pub live_users : UserRepository World
  live_users = record {
    create = λ u. on_users (Users.create citext now u);
    find_by_email = λ email. on_users (Users.find_by_email citext email);
    find_by_id = λ id. on_users (Users.find_by_id id);
    update_password_hash =
        λ id password_hash at. on_users (Users.update_password_hash id password_hash at now);
  }

  abbrev pub live_sessions : SessionRepository World
  live_sessions = record {
    create = λ t. on_sessions (Sessions.create t);
    find_by_hash = λ h. on_sessions (Sessions.find_by_hash h);
    rotate = λ id t. on_sessions (Sessions.rotate id t now);
    revoke_family = λ family reason at. on_sessions (Sessions.revoke_family family reason at);
    revoke_all_for_user =
        λ user reason at. on_sessions (Sessions.revoke_all_for_user user reason at);
  }

  abbrev pub live_denylist : Denylist World
  live_denylist = record {
    register_active = λ user jti at. on_revocations (Revoking.register_active user jti at);
    denylist = λ jti at. on_revocations (Revoking.denylist now jti at);
    denylist_all_active = λ user. on_revocations (Revoking.denylist_all_active now user);
  }

  abbrev pub live_limiter : RateLimiter World
  live_limiter = record {
    allowed = λ s. on_limits s (Lockout.allowed seconds now);
    record_failure = λ s. on_limits s (Lockout.record_failure limits now);
    reset = λ s. on_limits s Lockout.reset;
  }
