-- ===== src/Http/Health.antt =====
-- backend/internal/adapters/http/health/handler.go
use mathlib.Core.List.{Perm}
use llm_dating_app.Prelude.{◌≡◌, Bool, true, false, List, arith, if◌then◌else◌, any}
use llm_dating_app.Application.Health.{
  Status, healthy, degraded, liveness, Result, readiness, Finished, HasDistinctNames,
  readiness-Perm,
}
use llm_dating_app.Http.{write_json, Response}

unfoldable pub live : Response Result
unfolding write_json liveness
live = write_json 200 liveness

abbrev is_degraded : Status → Bool
is_degraded healthy = false
is_degraded degraded = true

unfoldable pub ready : List Finished → Response Result
unfolding write_json readiness
ready finished =
    let result = readiness finished in
    write_json (if is_degraded result.status then 503 else 200) result

-- The ready endpoint answers 503 exactly where a check has failed, in whatever order checkers of
-- different names finish, and 200 otherwise.
pub ready-Perm :
    (checkers order : List Finished)
    → Perm order checkers
    → HasDistinctNames order
    → (ready order).status ≡ (if any (λ f. f.has_failed) checkers then 503 else 200)
unfolding ready
ready-Perm checkers order h d = ground (arith, readiness-Perm checkers order h d)
