-- ===== src/Postgres/Users.antt =====
-- backend/internal/adapters/postgres/repositories/user_repository.go, over the table users and the
-- statements of sqlc/users.sql.go. How the type citext folds a text for comparison is PostgreSQL's own:
-- `citext`.
use llm_dating_app.Prelude.{
  ℕ, Bool, ◌||◌, Option, none, List, ◌∷◌, ltb, ◌==◌, if◌then◌else◌, Action, ◌>>=◌, pure, fail,
  or_fail, length, find, any, update_where, Text, text_eq,
}
use llm_dating_app.Domain.User.{User, Error, infra, not_found, email_taken, Status}
use llm_dating_app.Connection.{Conn, statement, query, exec}

abbrev pub Users : Type 0
Users = List User

pub data Created : Type 0 where
  stored : User → Created
  duplicate refused : Created

-- The row that is stored: the columns that the statement names, and the defaults of the others.
abbrev pub stored_user : ℕ → User → User
stored_user at u = record u {
  status = Status.active;
  email_verified_at = none;
  password_changed_at = at;
  created_at = at;
  updated_at = at;
}

module _ (citext : Text → Text) where
  abbrev pub has_email : Text → User → Bool
  has_email email u = text_eq (citext u.email) (citext email)

  -- The width of `display_name` comes first, then the unique keys.
  unfoldable pub create_user : ℕ → User → Users → Created × Users
  create_user at u us =
      if ltb 100 (length u.display_name)
      then (refused, us)
      else if any (λ v. v.id == u.id || has_email u.email v) us
      then (duplicate, us)
      else (stored (stored_user at u), stored_user at u ∷ us)

  unfoldable pub get_user_by_email : Text → Users → Option User
  get_user_by_email email = find (has_email email)

  abbrev pub created_or_fail : Created → Action (Conn Users) Error User
  created_or_fail (stored u) = pure u
  created_or_fail duplicate = fail email_taken
  created_or_fail refused = fail infra

  unfoldable pub create : ℕ → User → Action (Conn Users) Error User
  create at u = do result ← statement infra (create_user at u); created_or_fail result

  unfoldable pub find_by_email : Text → Action (Conn Users) Error User
  unfolding get_user_by_email
  find_by_email email = do row ← query infra (get_user_by_email email); or_fail row not_found

unfoldable pub get_user_by_id : ℕ → Users → Option User
get_user_by_id id = find (λ u. u.id == id)

unfoldable pub update_user_password_hash : ℕ → Text → ℕ → ℕ → Users → Users
update_user_password_hash id password_hash changed_at at =
    update_where (λ u. u.id == id)
      (λ u. record u {
        password_hash = password_hash;
        password_changed_at = changed_at;
        updated_at = at;
      })

unfoldable pub find_by_id : ℕ → Action (Conn Users) Error User
unfolding get_user_by_id
find_by_id id = do row ← query infra (get_user_by_id id); or_fail row not_found

-- `at` is the clock of the database.
unfoldable pub update_password_hash : ℕ → Text → ℕ → ℕ → Action (Conn Users) Error (Unit {0})
update_password_hash id password_hash changed_at at =
    exec infra (update_user_password_hash id password_hash changed_at at)
