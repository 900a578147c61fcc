-- ===== src/Postgres/Sessions/Rotation.antt =====
-- Rotate of session_repository.go against a description of its outcome without failures.
use llm_dating_app.Prelude.{
  ℕ, ◌≡◌, ◌⊎◌, ◌||◌, Option, none, some, [], arith, if◌then◌else◌, is_some, Result, ok, err,
}
use llm_dating_app.Domain.Session.{
  RefreshToken, rotated, reuse_detected, Error, not_found, reused, infra,
}
use llm_dating_app.Connection.{Conn}
use llm_dating_app.Postgres.Sessions.{
  Tokens, create_refresh_token, get_refresh_token_for_update, replace_refresh_token,
  revoke_refresh_token_family, rotate,
}

-- The outcome of a rotation with no failing statement, on the table alone.
unfoldable pub rotation_of :
    Option RefreshToken → RefreshToken → ℕ → Tokens → Result Error (Unit {0}) × Tokens
rotation_of none next now ts = (err not_found, ts)
rotation_of (some t) next now ts =
    if is_some t.revoked_at || is_some t.replaced_by
    then (err reused, revoke_refresh_token_family t.family_id now reuse_detected ts)
    else (ok tt, replace_refresh_token t.id next.id now rotated (create_refresh_token next ts))

unfoldable pub rotation : ℕ → RefreshToken → ℕ → Tokens → Result Error (Unit {0}) × Tokens
rotation id next now ts = rotation_of (get_refresh_token_for_update id ts) next now ts

-- Whatever statements fail, a rotation does all of its work, or reports an error of the
-- infrastructure and leaves the table as it was.
pub rotate-rotation :
    (id : ℕ) (next : RefreshToken) (now : ℕ) (c : Conn Tokens)
    → let (r, c') = rotate id next now c in
      let (s, ts) = rotation id next now c.tables in
      ((r ≡ s) × (c'.tables ≡ ts)) ⊎ ((r ≡ err infra) × (c'.tables ≡ c.tables))
unfolding rotate rotation rotation_of
rotate-rotation id next now c = ground arith

-- With no failing statement a rotation does all of its work.
pub rotate-rotation_no_faults :
    (id : ℕ) (next : RefreshToken) (now : ℕ) (c : Conn Tokens)
    → c.faults ≡ []
    → let (r, c') = rotate id next now c in
      let (s, ts) = rotation id next now c.tables in (r ≡ s) × (c'.tables ≡ ts) × (c'.faults ≡ [])
unfolding rotate rotation rotation_of
rotate-rotation_no_faults id next now c h = ground arith
