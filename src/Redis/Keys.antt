-- ===== src/Redis/Keys.antt =====
-- The Redis commands that the scripts and adapters use, on one key. A key holds a number and may
-- expire; times are in milliseconds and lifetimes in seconds.
use llm_dating_app.Prelude.{ℕ, Option, some, Bool, if◌then◌else◌, ◌+◌, ◌-◌, true, none, ◌*◌, ltb}

pub data Failure : Type 0 where
  failure : Failure

pub record Entry : Type 0 where
  pub value : ℕ
  pub expires : Option ℕ

abbrev pub Key : Type 0
Key = Option Entry

abbrev pub is_alive : ℕ → Option ℕ → Bool
is_alive now none = true
is_alive now (some e) = ltb now e

-- What a key holds at a time: nothing once it has expired.
abbrev pub current : ℕ → Key → Key
current now none = none
current now (some e) = if is_alive now e.expires then some e else none

-- GET, with 0 for a missing key.
abbrev pub get_or_zero : Key → ℕ
get_or_zero none = 0
get_or_zero (some e) = e.value

abbrev pub expiry : Key → Option ℕ
expiry none = none
expiry (some e) = e.expires

-- INCR creates a missing key without an expiry, and keeps the expiry of another.
abbrev pub incr : ℕ → Key → Key
incr now k =
    some (record { value = get_or_zero (current now k) + 1; expires = expiry (current now k) })

-- DECR of a key that holds a positive number.
abbrev pub decr : ℕ → Key → Key
decr now k =
    some (record { value = get_or_zero (current now k) - 1; expires = expiry (current now k) })

-- EXPIRE
abbrev pub expire_in : ℕ → ℕ → Key → Key
expire_in now seconds none = none
expire_in now seconds (some e) = some (record e { expires = some (now + seconds * 1000) })

-- SET … EX
abbrev pub set_ex : ℕ → ℕ → ℕ → Key
set_ex now value seconds = some (record { value = value; expires = some (now + seconds * 1000) })

-- The milliseconds until a key expires; none for a missing key or one without an expiry, for which
-- TTL is negative.
abbrev pub remaining_of : ℕ → Option ℕ → Option ℕ
remaining_of now none = none
remaining_of now (some e) = some (e - now)

abbrev pub remaining : ℕ → Key → Option ℕ
remaining now k = remaining_of now (expiry (current now k))
