-- ===== src/Domain/User.antt =====
-- backend/internal/domain/user: accounts, their status and errors. A birth date is a calendar day.
pub mod Age
use llm_dating_app.Prelude.{
  ℕ, ◌+◌, ◌%◌, Bool, true, false, not, ◌&&◌, ◌||◌, Option, ltb, ◌==◌, if◌then◌else◌, Text, sub_ℕ, ℤ,
}

pub data Status : Type 0 where
  active suspended deleted : Status

pub record Date : Type 0 where
  pub year : ℕ
  pub month : ℕ
  pub day : ℕ

pub record User : Type 0 where
  pub id : ℕ
  pub email : Text
  pub password_hash : Text
  pub display_name : Text
  pub birth_date : Date
  pub gender : Text
  pub status : Status
  pub email_verified_at : Option ℕ
  pub password_changed_at : ℕ
  pub created_at : ℕ
  pub updated_at : ℕ

abbrev pub is_active_status : Status → Bool
is_active_status active = true
is_active_status suspended = false
is_active_status deleted = false

unfoldable pub is_active : User → Bool
is_active u = is_active_status u.status

-- Years with a 29th of February.
abbrev pub is_leap : ℕ → Bool
is_leap y = (y % 4 == 0 && not (y % 100 == 0)) || y % 400 == 0

-- `time.Date` of a birth date's month and day in a year: the 29th of February of a year without one
-- is the 1st of March.
unfoldable pub anniversary : ℕ → Date → Date
anniversary y d =
    if d.month == 2 && d.day == 29 && not (is_leap y)
    then record { year = y; month = 3; day = 1 }
    else record { year = y; month = d.month; day = d.day }

-- `Before`, by the day.
abbrev pub is_before : Date → Date → Bool
is_before a b =
    ltb a.year b.year
    || (a.year == b.year && (ltb a.month b.month || (a.month == b.month && ltb a.day b.day)))

unfoldable pub age : User → Date → ℤ
unfolding anniversary
age u at =
    if is_before at (anniversary at.year u.birth_date)
    then sub_ℕ at.year (u.birth_date.year + 1)
    else sub_ℕ at.year u.birth_date.year

-- `errors.go`; `infra` is any error that no code tells apart from others.
pub data Error : Type 0 where
  not_found email_taken not_active underage infra : Error
