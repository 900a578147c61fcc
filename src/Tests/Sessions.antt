-- ===== src/Tests/Sessions.antt =====
-- Refresh tokens: one family of user 1, its token 10, and the successors 11 and 12.
use llm_dating_app.Prelude.{ℕ, ◌+◌, ◌≡◌, refl, true, false, none, some, [], ◌∷◌, arith, ok, err}
use llm_dating_app.Domain.Session.{RefreshToken, reused}
use llm_dating_app.Connection.{Conn}
use llm_dating_app.Postgres.Sessions.Family.{
  AtMostOneLive, rotate-AtMostOneLive, live, rotate_twice,
}
use llm_dating_app.Postgres.Sessions.{get_refresh_token_for_update, rotate, Tokens, rotate_current}

abbrev token : ℕ → RefreshToken
token id = record {
  id = id;
  user_id = 1;
  family_id = 7;
  token_hash = 100 + id;
  replaced_by = none;
  device_label = none;
  user_agent = none;
  ip = none;
  expires_at = 1000;
  last_used_at = none;
  revoked_at = none;
  revoke_reason = none;
  created_at = 0;
}

abbrev healthy : Conn Tokens
healthy = record { tables = token 10 ∷ []; saved = none; faults = [] }

-- The commit fails.
abbrev failing : Conn Tokens
failing = record healthy { faults = false ∷ false ∷ false ∷ false ∷ true ∷ [] }

one_live : AtMostOneLive healthy.tables
one_live f = ground arith

same_family :
    (t : RefreshToken)
    → get_refresh_token_for_update 10 healthy.tables ≡ some t
    → (token 11).family_id ≡ t.family_id
unfolding get_refresh_token_for_update
same_family t e = ground arith

rotate_once : (rotate 10 (token 11) 5 healthy).0 ≡ ok tt
unfolding rotate rotate_current get_refresh_token_for_update
rotate_once = refl

rotate_twice_example :
    let (r, c) = rotate 10 (token 12) 6 (rotate 10 (token 11) 5 healthy).1 in
    (r ≡ err reused) × (live 7 c.tables ≡ 0)
unfolding get_refresh_token_for_update
rotate_twice_example =
    rotate_twice 10 5 6 (token 11) (token 12) (token 10) healthy refl refl (omega arith) rotate_once

rotate-AtMostOneLive_example : AtMostOneLive (rotate 10 (token 11) 5 healthy).1.tables
rotate-AtMostOneLive_example = rotate-AtMostOneLive 10 5 (token 11) healthy same_family one_live
