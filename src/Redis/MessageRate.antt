-- ===== src/Redis/MessageRate.antt =====
-- backend/internal/adapters/redis/message_rate_limiter.go: a fixed window of sends per user.
pub mod Answers
use llm_dating_app.Prelude.{
  ℕ, suc, ◌+◌, ◌-◌, ◌*◌, ◌≤◌, ◌<◌, ◌≡◌, inl, inr, Bool, true, false, ◌&&◌, Option, none, some, List,
  [], ◌∷◌, arith, ltb, ◌==◌, if◌then◌else◌, Bool-cases, Action, ◌>>=◌, ◌>>◌, pure, All,
}
use llm_dating_app.Redis.Keys.{
  Key, get_or_zero, incr, Failure, remaining, expire_in, failure, current,
}
use llm_dating_app.Connection.{Conn, statement}

pub record Window : Type 0 where
  pub window : ℕ  -- seconds
  pub limit : ℕ

abbrev open_window : Window → ℕ → Key → Key
open_window w now k = if get_or_zero k == 1 then expire_in now w.window k else k

module _ (seconds : ℕ → ℕ) where
  -- The lifetime that TTL reports, or the whole window where it is negative.
  abbrev ttl_or_window : Window → Option ℕ → ℕ
  ttl_or_window w none = w.window
  ttl_or_window w (some ms) = seconds ms

  -- `messageRateScript`: the count, or minus the seconds to wait. A pair of the sign and the
  -- magnitude; minus zero is zero, which is not negative.
  unfoldable pub message_rate_script : Window → ℕ → Key → (Bool × ℕ) × Key
  message_rate_script w now k =
      let counted = open_window w now (incr now k) in
      let wait = ttl_or_window w (remaining now counted) in
      if ltb w.limit (get_or_zero counted)
      then ((ltb 0 wait, wait), counted)
      else ((false, get_or_zero counted), counted)

  -- `Allow`: a negative answer is a refusal, with the seconds to wait.
  unfoldable pub allow : Window → ℕ → Action (Conn Key) Failure (Bool × ℕ)
  unfolding message_rate_script
  allow w now = do
    (negative, n) ← statement failure (message_rate_script w now)
    pure (if negative then (false, n) else (true, 0))

-- A counter with a count and an expiry.
abbrev pub counted : ℕ → ℕ → Key
counted n x = some (record { value = n; expires = some x })

module _ (seconds : ℕ → ℕ) where
  abbrev pub answer : Bool × ℕ → Bool × ℕ
  answer (negative, n) = if negative then (false, n) else (true, 0)

  -- A send inside a running window that has counted one before counts once more, and is refused
  -- beyond the limit only while the server does not round the rest of the window to zero: over the
  -- limit, with zero seconds left, it is allowed.
  pub message_rate_script-counted :
      (w : Window) (now v x : ℕ)
      → now < x
      → let (r, k) = message_rate_script seconds w now (counted (v + 1) x) in
        (k ≡ counted (v + 2) x)
        × (answer r ≡ (
            if ltb w.limit (v + 2) && ltb 0 (seconds (x - now))
            then (false, seconds (x - now))
            else (true, 0)))
  unfolding message_rate_script
  message_rate_script-counted w now v x h = ground arith

  -- How many sends at the given times are allowed.
  pub admitted : Window → List ℕ → Key → ℕ
  admitted w [] k = 0
  admitted w (t ∷ ts) k =
      let (r, k') = message_rate_script seconds w t k in
      let rest = admitted w ts k' in if (answer r).0 then suc rest else rest

  admitted-nil : (w : Window) (k : Key) (n : ℕ) → admitted w [] k ≤ n
  unfolding admitted
  admitted-nil w k n = omega arith

  admitted-cons :
      (w : Window) (x t : ℕ) (ts : List ℕ) (v : ℕ)
      → t < x
      → 0 < seconds (x - t)
      → admitted w (t ∷ ts) (counted (v + 1) x) ≡ (
          if ltb w.limit (v + 2)
          then admitted w ts (counted (v + 2) x)
          else suc (admitted w ts (counted (v + 2) x)))
  unfolding admitted
  admitted-cons w x t ts v h up =
      let s = message_rate_script-counted w t v x h in
      rw (s.0, s.1)
        (elim (Bool-cases (ltb w.limit (v + 2))) [
          | inl e ↦ rw e (ground (arith, e))
          | inr e ↦ rw e (ground (arith, e))
        ])

  admitted-counted :
      (w : Window) (x : ℕ) (ts : List ℕ) (v : ℕ)
      → ((ms : ℕ) → 0 < ms → 0 < seconds ms)
      → All (λ t. t < x) ts
      → admitted w ts (counted (v + 1) x) ≤ w.limit - (v + 1)
  admitted-counted w x [] v up h = admitted-nil w (counted (v + 1) x) (w.limit - (v + 1))
  admitted-counted w x (t ∷ ts) v up h = ground (
    arith,
    admitted-cons w x t ts v h.0 (up (x - t) (omega arith)),
    admitted-counted w x ts (v + 1) up h.1,
  )

  first_send :
      (w : Window) (now : ℕ) (k : Key)
      → current now k ≡ none
      → 0 < w.limit
      → let (r, k') = message_rate_script seconds w now k in
        (k' ≡ counted 1 (now + w.window * 1000)) × (answer r ≡ (true, 0))
  unfolding message_rate_script
  first_send w now k e h = ground arith

  -- Within the window that a first send opens no more sends are allowed than a positive limit,
  -- provided that the server rounds no positive lifetime to zero seconds.
  pub admitted-le-limit :
      (w : Window) (first : ℕ) (ts : List ℕ) (k : Key)
      → ((ms : ℕ) → 0 < ms → 0 < seconds ms)
      → current first k ≡ none
      → 0 < w.limit
      → All (λ t. t < first + w.window * 1000) ts
      → admitted w (first ∷ ts) k ≤ w.limit
  unfolding admitted
  admitted-le-limit w first ts k up e h within =
      let s = first_send w first k e h in
      rw (s.0, s.1) (omega (arith, admitted-counted w (first + w.window * 1000) ts 0 up within))
