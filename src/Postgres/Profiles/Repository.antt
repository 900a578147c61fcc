-- ===== src/Postgres/Profiles/Repository.antt =====
-- The methods of adapters/postgres/repositories/{profile,consent}_repository.go.
use llm_dating_app.Prelude.{
  ℕ, ◌+◌, false, none, List, [], ◌∷◌, is_some, Action, ◌>>=◌, ◌>>◌, pure, fail, or_fail, Text, pos,
  negsuc,
}
use llm_dating_app.Domain.Profile.{
  Error, infra, Profile, Photo, Consent, Purpose, not_found, gender_preferences, Preferences,
  consent_active, preferences_not_found, photo_not_found, consent_not_found,
}
use llm_dating_app.Postgres.Profiles
use llm_dating_app.Postgres.Profiles.Photos
use llm_dating_app.Postgres.Profiles.{Tables, exec_checked, Conn}
use llm_dating_app.Connection.{Conn, query, exec, statement, transaction, commit}

-- What a read gives of the coordinates is only whether there are any.
abbrev pub read_profile : Profile → Profile
read_profile p = record p {
  location = none;
  clear_location = false;
  has_location = is_some p.location;
}

unfoldable pub get_profile : ℕ → Action (Conn Tables) Error Profile
get_profile user = do
  row ← query infra (Profiles.get_profile user)
  p ← or_fail row not_found
  pure (read_profile p)

unfoldable pub upsert_profile : ℕ → Profile → Action (Conn Tables) Error (Unit {0})
upsert_profile at p = exec_checked (Profiles.upsert_profile at p)

unfoldable pub get_preferences : ℕ → Action (Conn Tables) Error Preferences
get_preferences user = do
  row ← query infra (Profiles.get_preferences user)
  or_fail row preferences_not_found

unfoldable pub upsert_preferences : ℕ → Preferences → Action (Conn Tables) Error (Unit {0})
upsert_preferences at p = exec_checked (Profiles.upsert_preferences at p)

unfoldable pub update_genders : ℕ → ℕ → List Text → Action (Conn Tables) Error (Unit {0})
update_genders at user genders = exec infra (Profiles.update_genders at user genders)

unfoldable pub count_active_photos : ℕ → Action (Conn Tables) Error ℕ
count_active_photos user = query infra (Photos.count_active_photos user)

unfoldable pub list_photos : ℕ → Action (Conn Tables) Error (List Photo)
list_photos user = query infra (Photos.list_photos user)

unfoldable pub get_photo : ℕ → Action (Conn Tables) Error Photo
get_photo id = do row ← query infra (Photos.get_photo id); or_fail row photo_not_found

unfoldable pub create_photo : ℕ → Photo → Action (Conn Tables) Error Photo
create_photo at p = do row ← statement infra (Photos.create_photo at p); or_fail row infra

-- First every photo of the order goes to a negative position, -(i + 1).
unfoldable pub stage_positions : ℕ → ℕ → List ℕ → Action (Conn Tables) Error (Unit {0})
stage_positions user i [] = pure tt
stage_positions user i (id ∷ ids) = do
  exec_checked (Photos.set_photo_position id user (negsuc i))
  stage_positions user (i + 1) ids

unfoldable pub apply_positions : ℕ → ℕ → List ℕ → Action (Conn Tables) Error (Unit {0})
apply_positions user i [] = pure tt
apply_positions user i (id ∷ ids) = do
  exec_checked (Photos.set_photo_position id user (pos i))
  apply_positions user (i + 1) ids

unfoldable pub reorder_photos : ℕ → List ℕ → Action (Conn Tables) Error (Unit {0})
reorder_photos user ids =
    transaction infra (do stage_positions user 0 ids; apply_positions user 0 ids; commit infra)

unfoldable pub set_primary_photo : ℕ → ℕ → Action (Conn Tables) Error (Unit {0})
set_primary_photo user id = transaction infra (do
  exec infra (Photos.clear_primary_photo user)
  exec_checked (Photos.set_primary_photo id user)
  commit infra)

unfoldable pub soft_delete_photo : ℕ → ℕ → Action (Conn Tables) Error (Unit {0})
soft_delete_photo id at = exec infra (Photos.soft_delete_photo id at)

abbrev pub granted_or_fail : Profiles.Granted → Action (Conn Tables) Error Consent
granted_or_fail (Profiles.granted c) = pure c
granted_or_fail Profiles.already = fail consent_active
granted_or_fail Profiles.refused = fail infra

unfoldable pub grant : ℕ → ℕ → Consent → Action (Conn Tables) Error Consent
grant at id c = do result ← statement infra (Profiles.grant_consent at id c); granted_or_fail result

unfoldable pub find_active : ℕ → Purpose → Action (Conn Tables) Error Consent
find_active user purpose = do
  row ← query infra (Profiles.find_active_consent user purpose)
  or_fail row consent_not_found

unfoldable pub withdraw_gender_preference_consent : ℕ → ℕ → Action (Conn Tables) Error (Unit {0})
withdraw_gender_preference_consent user at = transaction infra (do
  exec infra (Profiles.withdraw_active_consent user gender_preferences at)
  exec infra (Profiles.clear_genders at user)
  commit infra)
