-- ===== src/Redis/RateLimiter/Lockouts.antt =====
-- Sequences of failures on the script of rate_limiter.go, and the lockouts they lead to.
use llm_dating_app.Prelude.{
  ℕ, zero, suc, ◌+◌, ◌-◌, ◌*◌, ◌^◌, ◌≤◌, ◌<◌, min, ◌≡◌, refl, ap, ◌∙◌, true, false, ◌&&◌, none,
  some, List, [], ◌∷◌, ◌++◌, arith, ltb, if◌then◌else◌, length, All,
}
use llm_dating_app.Redis.RateLimiter.{
  Limits, record_failure_script, Scope, lockout_seconds, ttl_allows,
}
use llm_dating_app.Redis.Keys.{Key, set_ex, current, get_or_zero, expire_in, incr, remaining}
use native.Mathlib.Nat.{pow-suc}

-- Failures at the given times, in that order, on the keys of one scope.
unfoldable pub fail_at : Limits → List ℕ → Scope → Scope
fail_at l [] s = s
fail_at l (t ∷ ts) s = fail_at l ts (record_failure_script l t s).1

-- An attempts key with a count and an expiry.
abbrev pub counted : ℕ → ℕ → Key
counted n x = some (record { value = n; expires = some x })

-- The scope once a violation is recorded at a time.
abbrev pub locked : Limits → ℕ → Scope → Scope
locked l t s = record {
  attempts = none;
  lockout = set_ex t 1 (lockout_seconds l (get_or_zero (current t s.violations) + 1));
  violations = expire_in t 86400 (incr t s.violations);
}

fail_at-append :
    (l : Limits) (ts : List ℕ) (t : ℕ) (s : Scope)
    → fail_at l (ts ++ t ∷ []) s ≡ (record_failure_script l t (fail_at l ts s)).1
unfolding fail_at
fail_at-append l [] t s = refl
fail_at-append l (x ∷ ts) t s = fail_at-append l ts t (record_failure_script l x s).1

count_one_more :
    (l : Limits) (t x v : ℕ) (s : Scope)
    → s.attempts ≡ counted (v + 1) x
    → t < x
    → v + 2 < l.max_attempts
    → record_failure_script l t s ≡ (0, record s { attempts = counted (v + 2) x })
unfolding record_failure_script
count_one_more l t x v s e h m = ground arith

fail_at-counted :
    (l : Limits) (x : ℕ) (ts : List ℕ) (v : ℕ) (s : Scope)
    → s.attempts ≡ counted (v + 1) x
    → All (λ t. t < x) ts
    → v + 1 + length ts < l.max_attempts
    → fail_at l ts s ≡ record s { attempts = counted (v + 1 + length ts) x }
unfolding fail_at
fail_at-counted l x [] v s e h m = ground arith
fail_at-counted l x (t ∷ ts) v s e h m = rw (count_one_more l t x v s e h.0 (omega arith)) (
    ground (
      arith,
      fail_at-counted l x ts (v + 1) (record s { attempts = counted (v + 2) x }) (ground arith) h.1
          (omega arith),
    ))

first_failure :
    (l : Limits) (t : ℕ) (s : Scope)
    → current t s.attempts ≡ none
    → 1 < l.max_attempts
    → record_failure_script l t s ≡ (0, record s { attempts = counted 1 (t + l.window * 1000) })
unfolding record_failure_script
first_failure l t s e m = ground arith

last_failure :
    (l : Limits) (t x v : ℕ) (s : Scope)
    → s.attempts ≡ counted (v + 1) x
    → t < x
    → l.max_attempts ≡ v + 2
    → record_failure_script l t s
      ≡ (lockout_seconds l (get_or_zero (current t s.violations) + 1), locked l t s)
unfolding record_failure_script
last_failure l t x v s e h m = ground arith

module _ (l : Limits) (first : ℕ) (ts : List ℕ) (s : Scope) (idle : current first s.attempts ≡ none)
    (within : All (λ t. t < first + l.window * 1000) ts) where
  fail_at_below :
      length ts + 1 < l.max_attempts
      → fail_at l (first ∷ ts) s
        ≡ record s { attempts = counted (length ts + 1) (first + l.window * 1000) }
  unfolding fail_at
  fail_at_below m = rw (first_failure l first s idle (omega arith)) (
      ground (
        arith,
        fail_at-counted l (first + l.window * 1000) ts 0
            (record s { attempts = counted 1 (first + l.window * 1000) }) (ground arith) within
            (omega arith),
      ))

  -- Exactly `max_attempts` failures within one window lock the scope: the earlier ones only count
  -- attempts, and the last one sets a lockout from the number of violations so far, counts the
  -- violation and clears the attempts.
  pub fail_at_locks :
      (last : ℕ)
      → length ts + 2 ≡ l.max_attempts
      → last < first + l.window * 1000
      → (fail_at l (first ∷ ts) s
          ≡ record s { attempts = counted (length ts + 1) (first + l.window * 1000) })
        × (fail_at l (first ∷ ts ++ last ∷ []) s ≡ locked l last s)
  fail_at_locks last m h = (
    fail_at_below (omega arith),
    fail_at-append l (first ∷ ts) last s
        ∙ (rw (fail_at_below (omega arith)) (
            ap (λ p. p.1)
              (last_failure l last (first + l.window * 1000) (length ts)
                (record s { attempts = counted (length ts + 1) (first + l.window * 1000) }) refl h
                (omega arith)))),
  )

pow-pos : (n : ℕ) → 1 ≤ 2 ^ n
pow-pos zero = omega arith
pow-pos (suc n) = rw (pow-suc 2 n) (omega (arith, pow-pos n))

-- A lockout is never shorter than the base nor longer than the maximum.
pub lockout_seconds_bounds :
    (l : Limits) (v : ℕ)
    → l.base_lockout ≤ l.max_lockout
    → (l.base_lockout ≤ lockout_seconds l v) × (lockout_seconds l v ≤ l.max_lockout)
unfolding lockout_seconds
lockout_seconds_bounds l v h = grind (arith, pow-pos (v - 1))

pow_next : (v : ℕ) → 2 ^ (v + 2 - 1) ≡ 2 * 2 ^ (v + 1 - 1)
pow_next v =
    let a : v + 2 - 1 ≡ suc v = omega arith in
    let b : v + 1 - 1 ≡ v = omega arith in rw (a, b, pow-suc 2 v) (omega arith)

-- The next violation doubles the lockout, until it reaches the maximum.
pub lockout_seconds-suc :
    (l : Limits) (v : ℕ)
    → lockout_seconds l (v + 2) ≡ min (2 * lockout_seconds l (v + 1)) l.max_lockout
unfolding lockout_seconds
lockout_seconds-suc l v =
    let e : 2 ^ (v + 2 - 1) ≡ 2 * 2 ^ (v + 1 - 1) = pow_next v in
    grind (arith, e, ap (λ (n : ℕ). l.base_lockout * n) e)

-- While a lockout lasts the scope is refused, with the time that is left, provided that the server
-- does not round that time to zero; afterwards it is allowed.
pub allowed-locked :
    (seconds : ℕ → ℕ) (l : Limits) (t now : ℕ) (s : Scope)
    → let wait = lockout_seconds l (get_or_zero (current t s.violations) + 1) in
      let left = t + wait * 1000 - now in
      ttl_allows seconds (remaining now (locked l t s).lockout) ≡ (
        if ltb now (t + wait * 1000) && ltb 0 (seconds left)
        then (false, seconds left)
        else (true, 0))
allowed-locked seconds l t now s = ground arith
