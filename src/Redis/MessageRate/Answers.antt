-- ===== src/Redis/MessageRate/Answers.antt =====
-- What Allow of backend/internal/adapters/redis/message_rate_limiter.go answers to a row of sends.
use llm_dating_app.Redis.MessageRate.{Window, allow, message_rate_script, counted}
use llm_dating_app.Redis.Keys.{Key, Failure, current}
use llm_dating_app.Connection.{Conn}
use llm_dating_app.Prelude.{
  ℕ, ◌+◌, ◌-◌, ◌*◌, ◌≤◌, ◌<◌, ◌≡◌, refl, Bool, true, false, none, List, [], ◌∷◌, arith, leb, ◌==◌,
  if◌then◌else◌, Result, ok, All,
}

module _ (seconds : ℕ → ℕ) where
  -- The answers of Allow to sends at the given times, one after the other.
  abbrev pub allow_all : Window → List ℕ → Conn Key → List (Result Failure (Bool × ℕ))
  allow_all w [] c = []
  allow_all w (t ∷ ts) c = let (r, c') = allow seconds w t c in r ∷ allow_all w ts c'

  -- The answers to the n-th send and those after it in a window that ends at `x`.
  abbrev pub answers : Window → ℕ → ℕ → List ℕ → List (Result Failure (Bool × ℕ))
  answers w x n [] = []
  answers w x n (t ∷ ts) =
      ok (
        if leb n w.limit
        then (true, 0)
        else if seconds (x - t) == 0
        then (true, 0)
        else (false, seconds (x - t)))
      ∷ answers w x (n + 1) ts

  allow-counted :
      (w : Window) (t n x : ℕ) (c : Conn Key)
      → t < x
      → 1 ≤ n
      → c.faults ≡ []
      → c.tables ≡ counted n x
      → let (r, c') = allow seconds w t c in
        (r
          ≡ ok (
              if leb (n + 1) w.limit
              then (true, 0)
              else if seconds (x - t) == 0
              then (true, 0)
              else (false, seconds (x - t))))
        × (c'.faults ≡ [])
        × (c'.tables ≡ counted (n + 1) x)
  unfolding allow message_rate_script
  allow-counted w t n x c h one nf e = ground arith

  allow_all-counted :
      (w : Window) (x n : ℕ) (ts : List ℕ) (c : Conn Key)
      → All (λ t. t < x) ts
      → 1 ≤ n
      → c.faults ≡ []
      → c.tables ≡ counted n x
      → allow_all w ts c ≡ answers w x (n + 1) ts
  allow_all-counted w x n [] c h one nf e = refl
  allow_all-counted w x n (t ∷ ts) c h one nf e =
      let (r, nf', e') = allow-counted w t n x c h.0 one nf e in
      let rest =
        allow_all-counted w x (n + 1) ts (allow seconds w t c).1 h.1 (omega arith) nf' e' in
      ground (arith, r, rest)

  allow-fresh :
      (w : Window) (t : ℕ) (c : Conn Key)
      → 0 < w.window
      → c.faults ≡ []
      → current t c.tables ≡ none
      → let x = t + w.window * 1000 in
        let (r, c') = allow seconds w t c in
        (r
          ≡ ok (
              if leb 1 w.limit
              then (true, 0)
              else if seconds (x - t) == 0
              then (true, 0)
              else (false, seconds (x - t))))
        × (c'.faults ≡ [])
        × (c'.tables ≡ counted 1 x)
  unfolding allow message_rate_script
  allow-fresh w t c some_time nf e = ground arith

  -- While Redis answers, the sends of a user whose window is not open are answered by their number up
  -- to the end of the window that the first one opens: those up to the limit are allowed, and a later
  -- one is refused with the seconds to wait, unless the server rounds the rest of the window to zero
  -- seconds, in which case it is allowed.
  pub allow_all-fresh :
      (w : Window) (first : ℕ) (ts : List ℕ) (c : Conn Key)
      → 0 < w.window
      → c.faults ≡ []
      → current first c.tables ≡ none
      → All (λ t. t < first + w.window * 1000) ts
      → allow_all w (first ∷ ts) c ≡ answers w (first + w.window * 1000) 1 (first ∷ ts)
  allow_all-fresh w first ts c some_time nf e h =
      let (r, nf', e') = allow-fresh w first c some_time nf e in
      let rest =
        allow_all-counted w (first + w.window * 1000) 1 ts (allow seconds w first c).1 h
          (omega arith) nf' e' in
      ground (arith, r, rest)
