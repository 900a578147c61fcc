-- ===== src/Application/Auth/Registration.antt =====
-- Register of application/auth/service.go, over PostgreSQL and Redis.
use llm_dating_app.Prelude.{
  ℕ, ◌≡◌, refl, ◌∙◌, ◌⊎◌, inl, inr, Bool, true, false, not, ◌||◌, none, some, List, [], ◌∷◌, arith,
  ◌==◌, Option-cases, Result, ok, err, any, Text, is_below,
}
use llm_dating_app.Domain.User
use llm_dating_app.Domain.User.{User, age, email_taken, not_found, not_active, underage, Status}
use llm_dating_app.Postgres.Users
use llm_dating_app.Application.Auth.{
  Error, Tokens, Texts, PasswordHasher, RateScope, RegisterInput, Moment, is_valid_password,
  register_ip, weak_password, of_user, normalize_email,
}
use llm_dating_app.Application.Auth.Service as Auth
use llm_dating_app.Application.Auth.Live.{
  World, live_users, live_sessions, live_denylist, live_limiter,
}
use llm_dating_app.Redis.RateLimiter.{Limits}

any-or :
    (p q : User → Bool) (us : Users.Users) → any (λ v. p v || q v) us ≡ false → any q us ≡ false
any-or p q [] h = refl
any-or p q (v ∷ us) h = ground (arith, any-or p q us)

module _ (citext : Text → Text) (seconds : ℕ → ℕ) (limits : Limits) (now : Moment)
    (hasher : PasswordHasher) (tokens : Tokens) (texts : Texts) (refresh_ttl : ℕ) where
  abbrev pub live_register : RegisterInput → ℕ → World → Result Error User × World
  live_register input id =
      Auth.register (live_users citext seconds limits now.time)
        (live_sessions citext seconds limits now.time) hasher tokens
        (live_denylist citext seconds limits now.time) (live_limiter citext seconds limits now.time)
        texts refresh_ttl input now id

  abbrev live_check : List RateScope → World → Result Error (Unit {0}) × World
  live_check =
      Auth.check_rate_limit (live_users citext seconds limits now.time)
        (live_sessions citext seconds limits now.time) hasher tokens
        (live_denylist citext seconds limits now.time) (live_limiter citext seconds limits now.time)
        texts refresh_ttl

  abbrev live_refuse : Bool → List RateScope → Error → World → Result Error (Unit {0}) × World
  live_refuse =
      Auth.refuse_if (live_users citext seconds limits now.time)
        (live_sessions citext seconds limits now.time) hasher tokens
        (live_denylist citext seconds limits now.time) (live_limiter citext seconds limits now.time)
        texts refresh_ttl

  abbrev live_after : RateScope → Result User.Error User → World → Result Error User × World
  live_after =
      Auth.after_create (live_users citext seconds limits now.time)
        (live_sessions citext seconds limits now.time) hasher tokens
        (live_denylist citext seconds limits now.time) (live_limiter citext seconds limits now.time)
        texts refresh_ttl

  abbrev registered : RegisterInput → Text → ℕ → User
  registered input password_hash id =
      Auth.new_user (live_users citext seconds limits now.time)
        (live_sessions citext seconds limits now.time) hasher tokens
        (live_denylist citext seconds limits now.time) (live_limiter citext seconds limits now.time)
        texts refresh_ttl input password_hash now id

  check_rate_limit-users : (s : RateScope) (w : World) → (live_check (s ∷ []) w).1.users ≡ w.users
  unfolding Auth.check_rate_limit
  check_rate_limit-users s w = ground arith

  refuse_if-users :
      (b : Bool) (s : RateScope) (e : Error) (w : World)
      → (live_refuse b (s ∷ []) e w).1.users ≡ w.users
  unfolding Auth.refuse_if Auth.record_failures
  refuse_if-users false s e w = refl
  refuse_if-users true s e w = ground arith

  refuse_if-goes_on :
      (b : Bool) (s : RateScope) (e : Error) (w : World)
      → (live_refuse b (s ∷ []) e w).0 ≡ ok tt
      → b ≡ false
  unfolding Auth.refuse_if Auth.record_failures
  refuse_if-goes_on false s e w h = refl
  refuse_if-goes_on true s e w h = ground arith

  after_create-users :
      (s : RateScope) (r : Result User.Error User) (w : World)
      → (live_after s r w).1.users ≡ w.users
  unfolding Auth.after_create Auth.record_failures
  after_create-users s (ok u) w = ground arith
  after_create-users s (err email_taken) w = ground arith
  after_create-users s (err not_found) w = refl
  after_create-users s (err not_active) w = refl
  after_create-users s (err underage) w = refl
  after_create-users s (err User.Error.infra) w = refl

  age-registered :
      (input : RegisterInput) (a b : Text) (id : ℕ)
      → age (registered input a id) now.day ≡ age (registered input b id) now.day
  unfolding age
  age-registered input a b id = refl

  age-stored :
      (u : User)
      → is_below 18 (age (Users.stored_user now.time u) now.day) ≡ is_below 18 (age u now.day)
  unfolding age
  age-stored u = refl

  hashed-users :
      (input : RegisterInput) (id : ℕ) (password_hash : Text) (w : World)
      → hasher.hash input.password ≡ some password_hash
      → let us = w.users.tables in
        let us' = (live_register input id w).1.users.tables in
        let u = registered input password_hash id in
        (us' ≡ us)
        ⊎ ((us' ≡ Users.stored_user now.time u ∷ us)
            × (is_valid_password texts input.password u.email ≡ true)
            × (is_below 18 (age u now.day) ≡ false)
            × (any (Users.has_email citext u.email) us ≡ false))
  unfolding Auth.register Users.create Users.create_user
  hashed-users input id password_hash w e =
      let s = register_ip input.ip in
      let u = registered input password_hash id in
      let weak = not (is_valid_password texts input.password u.email) in
      let young = is_below 18 (age (registered input [] id) now.day) in
      let w1 = (live_check (s ∷ []) w).1 in
      let w2 = (live_refuse weak (s ∷ []) weak_password w1).1 in
      let w3 = (live_refuse young (s ∷ []) (of_user underage) w2).1 in
      let created = (live_users citext seconds limits now.time).create u w3 in
      ground (
        arith,
        any-or (λ v. v.id == id) (Users.has_email citext u.email) w.users.tables,
        age-registered input [] password_hash id,
        check_rate_limit-users s w,
        refuse_if-users weak s weak_password w1,
        refuse_if-goes_on weak s weak_password w1,
        refuse_if-users young s (of_user underage) w2,
        refuse_if-goes_on young s (of_user underage) w2,
        after_create-users s created.0 created.1,
      )

  not_hashed-users :
      (input : RegisterInput) (id : ℕ) (w : World)
      → hasher.hash input.password ≡ none
      → (live_register input id w).1.users.tables ≡ w.users.tables
  unfolding Auth.register
  not_hashed-users input id w e =
      let s = register_ip input.ip in
      let u = registered input [] id in
      let weak = not (is_valid_password texts input.password u.email) in
      let young = is_below 18 (age u now.day) in
      let w1 = (live_check (s ∷ []) w).1 in
      let w2 = (live_refuse weak (s ∷ []) weak_password w1).1 in
      ground (
        arith,
        e,
        check_rate_limit-users s w,
        refuse_if-users weak s weak_password w1,
        refuse_if-users young s (of_user underage) w2,
      )

  -- Whatever fails and whatever the answer, a registration leaves the accounts as they were, or stores
  -- the one new account, active and with the normalized address; and that only for a valid password, a
  -- user of eighteen years at least, a hash of the password, and an address that no account has.
  pub live_register-users :
      (input : RegisterInput) (id : ℕ) (w : World)
      → let us = w.users.tables in
        let us' = (live_register input id w).1.users.tables in
        let email = normalize_email texts input.email in
        (us' ≡ us)
        ⊎ ((u : User) × (us' ≡ u ∷ us)
            × (u.id ≡ id)
            × (u.email ≡ email)
            × (u.status ≡ Status.active)
            × (u.birth_date ≡ input.birth_date)
            × (hasher.hash input.password ≡ some u.password_hash)
            × (is_valid_password texts input.password email ≡ true)
            × (is_below 18 (age u now.day) ≡ false)
            × (any (Users.has_email citext email) us ≡ false))
  live_register-users input id w = elim (Option-cases (hasher.hash input.password)) [
    | inl e ↦ inl (not_hashed-users input id w e)
    | inr (password_hash, e) ↦ elim (hashed-users input id password_hash w e) [
      | inl same ↦ inl same
      | inr (stored, valid, grown, free) ↦
          let u = registered input password_hash id in
          inr (
            Users.stored_user now.time u,
            stored,
            refl,
            refl,
            refl,
            refl,
            e,
            valid,
            age-stored u ∙ grown,
            free,
          )
    ]
  ]
