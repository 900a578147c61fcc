-- ===== src/Tests/Auth.antt =====
-- Accounts: user 1 with a spent refresh token 10 of the family 7 and its good successor 11, and a
-- registered access token 500.
use llm_dating_app.Prelude.{
  ℕ, ◌/◌, ◌≡◌, refl, ◌⊎◌, inr, true, false, not, Option, none, some, [], ◌∷◌, ◌++◌, arith, ◌==◌,
  if◌then◌else◌, Result, ok, err, any, Text, text_eq, trim_space, is_below,
}
use llm_dating_app.Domain.User.{User, is_active, Date, Status, age, is_before}
use llm_dating_app.Domain.User.Age.{age-birthday}
use llm_dating_app.Domain.Session.{is_expired, RefreshToken, rotated}
use llm_dating_app.Postgres.Users
use llm_dating_app.Postgres.Sessions
use llm_dating_app.Postgres.Sessions.Family.{live}
use llm_dating_app.Redis.Denylist as Revoking
use llm_dating_app.Redis.RateLimiter.{new_rate_limiter, allowed}
use llm_dating_app.Application.Auth
use llm_dating_app.Application.Auth.{
  Tokens, Texts, PasswordHasher, RegisterInput, LoginInput, RefreshInput, Moment,
  invalid_refresh_token, normalize_email,
}
use llm_dating_app.Application.Auth.Service
use llm_dating_app.Application.Auth.Live.{
  World, live_users, live_sessions, live_denylist, live_limiter,
}
use llm_dating_app.Application.Auth.Enumeration.{login-refused, refused}
use llm_dating_app.Application.Auth.Reuse.{live_refresh, live_refresh-reused}
use llm_dating_app.Application.Auth.SignOut.{live_logout_all}
use llm_dating_app.Application.Auth.Registration.{live_register, live_register-users}
use llm_dating_app.Middleware.{AccessClaims, bearer, Identity, bearer_token, Refusal, unauthorized}
use llm_dating_app.Middleware.Access.{live_auth, signed_out-unauthorized}

abbrev leap_day : Date
leap_day = record { year = 2004; month = 2; day = 29 }

abbrev day_before : Date
day_before = record { year = 2022; month = 2; day = 28 }

abbrev account : User
account = record {
  id = 1;
  email = 97 ∷ [];
  password_hash = 33 ∷ [];
  display_name = 65 ∷ [];
  birth_date = leap_day;
  gender = [];
  status = Status.active;
  email_verified_at = none;
  password_changed_at = 0;
  created_at = 0;
  updated_at = 0;
}

age-birthday_example :
    is_below 18 (age account day_before)
    ≡ is_before day_before (record { year = 2022; month = 2; day = 29 })
age-birthday_example = age-birthday account day_before 18 refl

abbrev good_token : RefreshToken
good_token = record {
  id = 11;
  user_id = 1;
  family_id = 7;
  token_hash = 111;
  replaced_by = none;
  device_label = none;
  user_agent = none;
  ip = none;
  expires_at = 100_000;
  last_used_at = none;
  revoked_at = none;
  revoke_reason = none;
  created_at = 0;
}

abbrev spent_token : RefreshToken
spent_token = record good_token {
  id = 10;
  token_hash = 110;
  replaced_by = some 11;
  revoked_at = some 40;
  revoke_reason = some rotated;
}

abbrev auth_world : World
auth_world = record {
  users = record { tables = account ∷ []; saved = none; faults = [] };
  sessions = record { tables = good_token ∷ spent_token ∷ []; saved = none; faults = [] };
  revocations = record {
    tables = record {
      denied = λ j. none;
      active = λ u. if u == 1 then record { jti = 500; expires = 60 } ∷ [] else [];
    };
    saved = none;
    faults = [];
  };
  limits = λ s. record {
    tables = record { attempts = none; lockout = none; violations = none };
    saved = none;
    faults = [];
  };
}

-- Every password but `wrong` is right.
abbrev some_hasher : PasswordHasher
some_hasher = record {
  hash = λ password. some (1 ∷ password);
  verify = λ password old. some (not (text_eq password (119 ∷ [])));
  needs_rehash = λ old. some false;
}

abbrev some_tokens : Tokens
some_tokens = record {
  issue = λ user. some (record { signed = user ∷ []; jti = 501; expires_at = 70 });
  fresh = some (2 ∷ [], 112);
  hash = λ token. elim token [ [] ↦ none | c ∷ s ↦ some c ];
}

abbrev some_texts : Texts
some_texts = record { to_lower = λ c. c; fold = λ c. c; parse_addr = λ s. none }

abbrev seconds_of : ℕ → ℕ
seconds_of ms = ms / 1000

abbrev same_text : Text → Text
same_text s = s

abbrev presented : RefreshInput
presented = record { refresh_token = 110 ∷ []; ip = []; user_agent = [] }

live_refresh-reused_example :
    let (r, w) =
      live_refresh same_text seconds_of new_rate_limiter 5000 some_hasher some_tokens some_texts 900
        presented 12 auth_world in
    (r ≡ err invalid_refresh_token)
    × (live 7 w.sessions.tables ≡ 0)
    × ((Revoking.is_revoked 6000 500 w.revocations).0 ≡ ok true)
unfolding Sessions.get_refresh_token_by_hash Sessions.get_refresh_token_for_update
    Users.get_user_by_id is_active is_expired
live_refresh-reused_example =
    live_refresh-reused same_text seconds_of new_rate_limiter 5000 some_hasher some_tokens
      some_texts 900 presented 12 500 60 6000 110 spent_token account (2 ∷ [], 112) auth_world refl
      refl refl refl refl refl refl refl refl refl refl (ground arith) refl (omega arith)
      (omega arith)

abbrev applicant : RegisterInput
applicant = record {
  email = 98 ∷ [];
  password = 1 ∷ 2 ∷ 3 ∷ 4 ∷ 5 ∷ 6 ∷ 7 ∷ 8 ∷ 9 ∷ 10 ∷ 11 ∷ 12 ∷ [];
  display_name = 66 ∷ [];
  birth_date = leap_day;
  gender = [];
  ip = [];
}

abbrev today : Moment
today = record { time = 5000; day = record { year = 2024; month = 5; day = 1 } }

live_register-users_example :
    let us = auth_world.users.tables in
    let us' =
      (live_register same_text seconds_of new_rate_limiter today some_hasher some_tokens some_texts
        900 applicant 2 auth_world).1.users.tables in
    let email = normalize_email some_texts applicant.email in
    (us' ≡ us)
    ⊎ ((u : User) × (us' ≡ u ∷ us)
        × (u.id ≡ 2)
        × (u.email ≡ email)
        × (u.status ≡ Status.active)
        × (u.birth_date ≡ applicant.birth_date)
        × (some_hasher.hash applicant.password ≡ some u.password_hash)
        × (Auth.is_valid_password some_texts applicant.password email ≡ true)
        × (is_below 18 (age u today.day) ≡ false)
        × (any (Users.has_email same_text email) us ≡ false))
live_register-users_example =
    live_register-users same_text seconds_of new_rate_limiter today some_hasher some_tokens
      some_texts 900 applicant 2 auth_world

abbrev wrong_password : LoginInput
wrong_password = record {
  email = 97 ∷ [];
  password = 119 ∷ [];
  ip = [];
  user_agent = [];
  device_label = [];
}

login-refused_example :
    Service.login
      (live_users same_text seconds_of new_rate_limiter 5000)
      (live_sessions same_text seconds_of new_rate_limiter 5000)
      some_hasher
      some_tokens
      (live_denylist same_text seconds_of new_rate_limiter 5000)
      (live_limiter same_text seconds_of new_rate_limiter 5000)
      some_texts
      900
      wrong_password
      5000
      8
      13
      auth_world
    ≡ refused
        (live_users same_text seconds_of new_rate_limiter 5000)
        (live_sessions same_text seconds_of new_rate_limiter 5000)
        some_hasher
        some_tokens
        (live_denylist same_text seconds_of new_rate_limiter 5000)
        (live_limiter same_text seconds_of new_rate_limiter 5000)
        some_texts
        900
        wrong_password
        auth_world
unfolding Service.check_rate_limit Users.find_by_email Users.get_user_by_email Auth.normalize_email
    allowed text_eq trim_space is_active
login-refused_example =
    login-refused (live_users same_text seconds_of new_rate_limiter 5000)
      (live_sessions same_text seconds_of new_rate_limiter 5000) some_hasher some_tokens
      (live_denylist same_text seconds_of new_rate_limiter 5000)
      (live_limiter same_text seconds_of new_rate_limiter 5000) some_texts 900 wrong_password 5000 8
      13 auth_world (inr refl)

-- One token text is good.
abbrev parse_token : Text → Option AccessClaims
parse_token s = some (record { id = 500; subject = 1 ∷ []; expires_at = 60 })

abbrev bearer_header : Text
bearer_header = bearer ++ 5 ∷ []

abbrev answer_user : Identity → World → Result Refusal ℕ × World
answer_user i w = (ok i.user_id, w)

signed_out-unauthorized_example :
    let w =
      (live_logout_all same_text seconds_of new_rate_limiter 5000 some_hasher some_tokens some_texts
        900 1 auth_world).1 in
    (live_auth parse_token (λ s. some 1) 6000 answer_user bearer_header w).0 ≡ err unauthorized
unfolding bearer_token trim_space
signed_out-unauthorized_example =
    signed_out-unauthorized same_text seconds_of new_rate_limiter 5000 some_hasher some_tokens
      some_texts 900 parse_token (λ s. some 1) answer_user 1 6000 bearer_header (5 ∷ [])
      (record { id = 500; subject = 1 ∷ []; expires_at = 60 }) auth_world refl refl refl
      (ground arith) refl (omega arith) (omega arith)
