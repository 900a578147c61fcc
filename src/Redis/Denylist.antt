-- ===== src/Redis/Denylist.antt =====
-- backend/internal/adapters/redis/token_denylist.go: revoked access tokens, and the tokens to revoke
-- for each user. The clock counts milliseconds; the scores of the sorted sets are seconds.
use llm_dating_app.Prelude.{
  ℕ, ◌-◌, ◌*◌, ◌/◌, ◌≤◌, ◌<◌, ◌≡◌, refl, inl, inr, Bool, true, Option, none, some, List, [], ◌∷◌,
  arith, ltb, leb, ◌==◌, if◌then◌else◌, is_some, Bool-cases, Action, pure, ok,
}
use llm_dating_app.Redis.Keys.{Key, Failure, set_ex, failure, current}
use llm_dating_app.Connection.{Conn, query, exec}

pub record Active : Type 0 where
  pub jti : ℕ
  pub expires : ℕ  -- seconds

pub record Revocations : Type 0 where
  pub denied : ℕ → Key
  pub active : ℕ → List Active

abbrev pub deny : ℕ → Key → (ℕ → Key) → ℕ → Key
deny jti k m j = if j == jti then k else m j

unfoldable pub is_revoked : ℕ → ℕ → Action (Conn Revocations) Failure Bool
is_revoked now jti = query failure (λ r. is_some (current now (r.denied jti)))

-- A token that has expired needs no entry, and no command is sent.
unfoldable pub denylist : ℕ → ℕ → ℕ → Action (Conn Revocations) Failure (Unit {0})
denylist now jti expires_at =
    if leb expires_at now
    then pure tt
    else exec failure (λ r. record r {
      denied = deny jti (some (record { value = 1; expires = some expires_at })) r.denied;
    })

-- ZADD
abbrev pub z_add : ℕ → ℕ → List Active → List Active
z_add jti score [] = record { jti = jti; expires = score } ∷ []
z_add jti score (a ∷ as') =
    if a.jti == jti then record a { expires = score } ∷ as' else a ∷ z_add jti score as'

unfoldable pub register_active : ℕ → ℕ → ℕ → Action (Conn Revocations) Failure (Unit {0})
register_active user jti expires_at = exec failure (λ r. record r {
  active = λ u. if u == user then z_add jti (expires_at / 1000) (r.active u) else r.active u;
})

-- The loop of `denylistAllActiveScript` over the members whose score is not before `at`, in seconds.
unfoldable pub deny_all : ℕ → ℕ → List Active → (ℕ → Key) → ℕ → Key
deny_all now at [] m = m
deny_all now at (a ∷ as') m =
    deny_all now at as'
      (if ltb at a.expires then deny a.jti (set_ex now 1 (a.expires - at)) m else m)

unfoldable pub denylist_all_active : ℕ → ℕ → Action (Conn Revocations) Failure (Unit {0})
unfolding deny_all
denylist_all_active now user = exec failure (λ r. record {
  denied = deny_all now (now / 1000) (r.active user) r.denied;
  active = λ u. if u == user then [] else r.active u;
})

-- A key that lives until a second at least.
abbrev LastsUntil : ℕ → Key → Type 0
LastsUntil end none = ⊥
LastsUntil end (some e) = elim e.expires [ none ↦ Unit {0} | some x ↦ end * 1000 ≤ x ]

abbrev pub score_of : ℕ → List Active → Option ℕ
score_of jti [] = none
score_of jti (a ∷ as') = if a.jti == jti then some a.expires else score_of jti as'

-- No token has two scores, as in a sorted set.
abbrev pub IsSetOf : List Active → Type 0
IsSetOf [] = Unit
IsSetOf (a ∷ as') = (score_of a.jti as' ≡ none) × IsSetOf as'

deny_all_others :
    (now at jti : ℕ) (l : List Active) (m : ℕ → Key)
    → score_of jti l ≡ none
    → deny_all now at l m jti ≡ m jti
unfolding deny_all
deny_all_others now at jti [] m h = refl
deny_all_others now at jti (a ∷ l) m h = ground (
  arith,
  deny_all_others now at jti l
      (if ltb at a.expires then deny a.jti (set_ex now 1 (a.expires - at)) m else m),
)

deny_all-LastsUntil :
    (now jti e : ℕ) (l : List Active) (m : ℕ → Key)
    → IsSetOf l
    → score_of jti l ≡ some e
    → now / 1000 < e
    → LastsUntil e (deny_all now (now / 1000) l m jti)
unfolding deny_all
deny_all-LastsUntil now jti e [] m u s h = cc
deny_all-LastsUntil now jti e (a ∷ l) m u s h =
    let m' =
      if ltb (now / 1000) a.expires
      then deny a.jti (set_ex now 1 (a.expires - now / 1000)) m
      else m in
    elim (Bool-cases (a.jti == jti)) [
      | inl hit ↦
          let same : a.jti ≡ jti = ground arith in
          let score : a.expires ≡ e = ground arith in
          rw (deny_all_others now (now / 1000) jti l m' (rw same at (u.0))) (ground arith)
      | inr miss ↦ deny_all-LastsUntil now jti e l m' u.1 (ground arith) h
    ]

z_add-score_of :
    (jti j e : ℕ) (l : List Active)
    → score_of j (z_add jti e l) ≡ (if j == jti then some e else score_of j l)
z_add-score_of jti j e [] = ground arith
z_add-score_of jti j e (a ∷ l) = ground (arith, z_add-score_of jti j e l)

z_add-IsSetOf : (jti e : ℕ) (l : List Active) → IsSetOf l → IsSetOf (z_add jti e l)
z_add-IsSetOf jti e [] u = (refl, tt)
z_add-IsSetOf jti e (a ∷ l) u =
    ground (arith, z_add-IsSetOf jti e l u.1, z_add-score_of jti a.jti e l)

LastsUntil-current :
    (t e : ℕ) (k : Key) → LastsUntil e k → t < e * 1000 → is_some (current t k) ≡ true
LastsUntil-current t e none h l = absurd h
LastsUntil-current t e (some k) h l = ground arith

-- To revoke a user's tokens, with a server that answers, revokes every token that is registered for
-- the user and has not expired, from then until its expiry, and leaves no token registered for them.
pub denylist_all_active-is_revoked :
    (now t user jti e : ℕ) (c : Conn Revocations)
    → c.faults ≡ []
    → IsSetOf (c.tables.active user)
    → score_of jti (c.tables.active user) ≡ some e
    → now / 1000 < e
    → t < e * 1000
    → let (r, c') = denylist_all_active now user c in
      (r ≡ ok tt) × ((is_revoked t jti c').0 ≡ ok true) × (c'.tables.active user ≡ [])
unfolding denylist_all_active is_revoked
denylist_all_active-is_revoked now t user jti e c nf u s h l =
    let d = deny_all-LastsUntil now jti e (c.tables.active user) c.tables.denied u s h in
    let v = LastsUntil-current t e _ d l in ground (arith, v)
