-- ===== src/Application/Profile/Consents.antt =====
-- UpdatePreferences of application/profile/service.go with the grants and withdrawals of
-- application/account/privacy.go, over PostgreSQL: the genders that are stored.
use llm_dating_app.Prelude.{
  ℕ, ◌≡◌, true, Option, none, some, List, [], ◌∷◌, arith, ok, any, Text, pos_part,
}
use llm_dating_app.Domain.Profile.{gender_preferences, Preferences, Consent}
use llm_dating_app.Postgres.Profiles
use llm_dating_app.Postgres.Profiles.Consenting.{
  IsConsented, update_genders-IsConsented, withdrawn-IsConsented, find-any,
  grant_consent-IsConsented, upsert_preferences-IsConsented,
}
use llm_dating_app.Postgres.Profiles.Repository as Rows
use llm_dating_app.Application.Profile
use llm_dating_app.Application.Profile.{Storage, UpdatePreferencesInput, Preferences, Consent}
use llm_dating_app.Application.Profile.Service
use llm_dating_app.Application.Profile.Live.{
  World, live_has_consent, live_repository, live_consents, live_storage,
}

-- A call that writes preferences or consents, with what it draws: the clock of the database, an id.
pub data Call : Type 0 where
  update_preferences : ℕ → ℕ → UpdatePreferencesInput → Call
  grant : ℕ → ℕ → ℕ → Text → Call
  withdraw : ℕ → ℕ → Call

has_consent-any :
    {S : Type 0} (at user : ℕ) (w : World S)
    → let (r, w') = live_has_consent at user w in
      (w'.db.tables ≡ w.db.tables)
      × (r ≡ ok true
          → any (Profiles.is_active_for user gender_preferences) w.db.tables.consents ≡ true)
unfolding Profile.has_active_gender_preference_consent Rows.find_active Profiles.find_active_consent
has_consent-any at user w = (
  ground arith,
  λ e.
      ground
        (arith, find-any (Profiles.is_active_for user gender_preferences) w.db.tables.consents),
)

module _ {S : Type 0} (storage : Storage S) (key_of : ℕ → ℕ → Text) where
  abbrev live_update_preferences : ℕ → ℕ → UpdatePreferencesInput → World S → World S
  live_update_preferences at user input w =
      (Service.update_preferences (live_repository at) (live_storage storage) (live_has_consent at)
        key_of user input w).1

  abbrev live_change_genders : ℕ → ℕ → Option (List Text) → World S → World S
  live_change_genders at user genders w =
      (Service.change_genders (live_repository at) (live_storage storage) (live_has_consent at)
        key_of user genders w).1

  change_genders-IsConsented :
      (at user : ℕ) (genders : Option (List Text)) (w : World S)
      → IsConsented w.db.tables
      → IsConsented (live_change_genders at user genders w).db.tables
  unfolding Service.change_genders Rows.update_genders
  change_genders-IsConsented at user none w h = h
  change_genders-IsConsented at user (some genders) w h =
      let known = has_consent-any at user w in
      ground (arith, known.0, known.1, update_genders-IsConsented at user genders w.db.tables)

  update_preferences-IsConsented :
      (at user : ℕ) (input : UpdatePreferencesInput) (w : World S)
      → IsConsented w.db.tables
      → IsConsented (live_update_preferences at user input w).db.tables
  unfolding Service.update_preferences Rows.upsert_preferences Rows.get_preferences
  update_preferences-IsConsented at user input w h =
      let row : Preferences = record {
        user_id = user;
        min_age = pos_part input.min_age;
        max_age = pos_part input.max_age;
        max_distance_km = pos_part input.max_distance_km;
        genders = [];
        created_at = 0;
        updated_at = 0;
      } in
      let w1 = ((live_repository at).upsert_preferences row w).1 in
      ground (
        arith,
        upsert_preferences-IsConsented at row w.db.tables h,
        change_genders-IsConsented at user input.genders w1,
      )

  pub run_call : Call → World S → World S
  run_call (update_preferences at user input) w = live_update_preferences at user input w
  run_call (grant at id user source) w =
      (Profile.grant_gender_preference_consent (live_consents at id) user source w).1
  run_call (withdraw user now) w =
      (Profile.withdraw_gender_preference_consent (live_consents now 0) user now w).1

  pub run_calls : List Call → World S → World S
  run_calls [] w = w
  run_calls (c ∷ cs) w = run_calls cs (run_call c w)

  run_call-IsConsented :
      (c : Call) (w : World S) → IsConsented w.db.tables → IsConsented (run_call c w).db.tables
  unfolding run_call Profile.grant_gender_preference_consent
      Profile.withdraw_gender_preference_consent Rows.grant Rows.withdraw_gender_preference_consent
  run_call-IsConsented (update_preferences at user input) w h =
      update_preferences-IsConsented at user input w h
  run_call-IsConsented (grant at id user source) w h =
      let row : Consent = record {
        id = 0;
        user_id = user;
        purpose = gender_preferences;
        policy_version = Profile.current_privacy_policy_version;
        granted_at = 0;
        withdrawn_at = none;
        source = source;
        created_at = 0;
      } in
      ground (arith, grant_consent-IsConsented at id row w.db.tables h)
  run_call-IsConsented (withdraw user now) w h =
      ground (arith, withdrawn-IsConsented user now w.db.tables h)

  -- Whatever statements fail, calls that run one after the other keep to this: where the genders of a
  -- user's preferences are stored, the user's consent to that is active.
  pub run_calls-IsConsented :
      (cs : List Call) (w : World S)
      → IsConsented w.db.tables
      → IsConsented (run_calls cs w).db.tables
  unfolding run_calls
  run_calls-IsConsented [] w h = h
  run_calls-IsConsented (c ∷ cs) w h =
      run_calls-IsConsented cs (run_call c w) (run_call-IsConsented c w h)
