-- ===== src/Postgres/Profiles/Consenting.antt =====
-- Genders and consents in the tables of profile_repository.go and consent_repository.go.
use llm_dating_app.Prelude.{
  ℕ, ◌≡◌, refl, ◌≢◌, Bool, true, false, not, ◌||◌, none, some, List, [], ◌∷◌, arith, ◌==◌,
  if◌then◌else◌, is_some, find, any, update_where, All, All-mono, All-update_where, Text,
}
use llm_dating_app.Domain.Profile.{Consent, Preferences, gender_preferences}
use llm_dating_app.Postgres.Profiles

abbrev pub has_genders : Preferences → Bool
has_genders p = elim p.genders [ [] ↦ false | g ∷ gs ↦ true ]

-- A row names genders only while its user's consent is active.
abbrev pub IsCovered : List Consent → Preferences → Type 0
IsCovered cs p =
    (not (has_genders p) || any (Profiles.is_active_for p.user_id gender_preferences) cs) ≡ true

abbrev pub IsConsented : Profiles.Tables → Type 0
IsConsented t = All (IsCovered t.consents) t.preferences

pub upsert_preferences-IsConsented :
    (at : ℕ) (p : Preferences) (t : Profiles.Tables)
    → IsConsented t
    → IsConsented (Profiles.upsert_preferences at p t).1
unfolding Profiles.upsert_preferences
upsert_preferences-IsConsented at p t h = ground (
  arith,
  All-update_where (IsCovered t.consents) (IsCovered t.consents) (λ q. q.user_id == p.user_id)
      (λ q. record q {
        min_age = p.min_age;
        max_age = p.max_age;
        max_distance_km = p.max_distance_km;
        updated_at = at;
      })
      t.preferences (λ q c. ground arith) h,
)

pub update_genders-IsConsented :
    (at user : ℕ) (genders : List Text) (t : Profiles.Tables)
    → any (Profiles.is_active_for user gender_preferences) t.consents ≡ true
    → IsConsented t
    → IsConsented (Profiles.update_genders at user genders t)
unfolding Profiles.update_genders
update_genders-IsConsented at user genders t active h =
    All-update_where (IsCovered t.consents) (IsCovered t.consents) (λ q. q.user_id == user)
      (λ q. record q { genders = genders; updated_at = at }) t.preferences
      (λ q c. ground (arith, active)) h

pub grant_consent-IsConsented :
    (at id : ℕ) (c : Consent) (t : Profiles.Tables)
    → IsConsented t
    → IsConsented (Profiles.grant_consent at id c t).1
unfolding Profiles.grant_consent
grant_consent-IsConsented at id c t h =
    let row : Consent = record c {
      id = id;
      granted_at = at;
      withdrawn_at = none;
      created_at = at;
    } in
    ground (
      arith,
      All-mono (IsCovered t.consents) (IsCovered (row ∷ t.consents)) t.preferences
          (λ q k. ground arith) h,
    )

-- The withdrawal of one user's consents leaves those of the others.
any-withdrawn :
    (user other at : ℕ) (cs : List Consent)
    → other ≢ user
    → any (Profiles.is_active_for other gender_preferences) (
        update_where
          (Profiles.is_active_for user gender_preferences)
          (λ c. record c { withdrawn_at = some at })
          cs)
      ≡ any (Profiles.is_active_for other gender_preferences) cs
any-withdrawn user other at [] ne = refl
any-withdrawn user other at (c ∷ cs) ne = ground (arith, any-withdrawn user other at cs ne)

withdrawn-IsCovered :
    (user at : ℕ) (cs : List Consent) (p : Preferences)
    → IsCovered cs p
    → IsCovered
        (update_where
          (Profiles.is_active_for user gender_preferences)
          (λ c. record c { withdrawn_at = some at })
          cs)
        (if p.user_id == user then record p { genders = []; updated_at = at } else p)
withdrawn-IsCovered user at cs p h = ground (arith, any-withdrawn user p.user_id at cs)

-- A withdrawal and the clearing of the genders, together.
pub withdrawn-IsConsented :
    (user now : ℕ) (t : Profiles.Tables)
    → IsConsented t
    → IsConsented (
        Profiles.clear_genders now user
          (Profiles.withdraw_active_consent user gender_preferences now t))
unfolding Profiles.clear_genders Profiles.withdraw_active_consent
withdrawn-IsConsented user now t h =
    All-update_where (IsCovered t.consents)
      (IsCovered (
        update_where (Profiles.is_active_for user gender_preferences)
          (λ c. record c { withdrawn_at = some now }) t.consents))
      (λ q. q.user_id == user) (λ q. record q { genders = []; updated_at = now }) t.preferences
      (withdrawn-IsCovered user now t.consents) h

pub find-any : (p : Consent → Bool) (cs : List Consent) → is_some (find p cs) ≡ any p cs
find-any p [] = refl
find-any p (c ∷ cs) = ground (arith, find-any p cs)
