-- ===== src/Application/Profile/Live.antt =====
-- The profile and privacy services over PostgreSQL, as cmd/api/main.go wires them, and over any storage
-- of blobs.
use llm_dating_app.Prelude.{ℕ, Bool, Action}
use llm_dating_app.Domain.Profile.{Error}
use llm_dating_app.Postgres.Profiles.{Tables}
use llm_dating_app.Postgres.Profiles.Repository as Rows
use llm_dating_app.Application.Profile.{
  Repository, Storage, ConsentRepository, has_active_gender_preference_consent,
}
use llm_dating_app.Connection.{Conn}

pub record World (S : Type 0) : Type 0 where
  pub db : Conn Tables
  pub blobs : S

module _ {S : Type 0} where
  abbrev pub on_db : {A : Type 0} → Action (Conn Tables) Error A → Action (World S) Error A
  on_db m w = let (r, c) = m w.db in (r, record w { db = c })

  abbrev pub on_blobs : {A : Type 0} → Action S Error A → Action (World S) Error A
  on_blobs m w = let (r, s) = m w.blobs in (r, record w { blobs = s })

  -- `at` is the clock of the database.
  abbrev pub live_repository : ℕ → Repository (World S)
  live_repository at = record {
    get_profile = λ user. on_db (Rows.get_profile user);
    upsert_profile = λ p. on_db (Rows.upsert_profile at p);
    get_preferences = λ user. on_db (Rows.get_preferences user);
    upsert_preferences = λ p. on_db (Rows.upsert_preferences at p);
    update_genders = λ user genders. on_db (Rows.update_genders at user genders);
    count_active_photos = λ user. on_db (Rows.count_active_photos user);
    list_photos = λ user. on_db (Rows.list_photos user);
    get_photo = λ id. on_db (Rows.get_photo id);
    create_photo = λ p. on_db (Rows.create_photo at p);
    reorder_photos = λ user ids. on_db (Rows.reorder_photos user ids);
    set_primary_photo = λ user id. on_db (Rows.set_primary_photo user id);
    soft_delete_photo = λ id now. on_db (Rows.soft_delete_photo id now);
  }

  abbrev pub live_consents : ℕ → ℕ → ConsentRepository (World S)
  live_consents at id = record {
    grant = λ c. on_db (Rows.grant at id c);
    find_active = λ user purpose. on_db (Rows.find_active user purpose);
    withdraw_gender_preference_consent =
        λ user now. on_db (Rows.withdraw_gender_preference_consent user now);
  }

  abbrev pub live_storage : Storage S → Storage (World S)
  live_storage s = record {
    put = λ key mime_type content. on_blobs (s.put key mime_type content);
    get = λ key. on_blobs (s.get key);
    delete = λ key. on_blobs (s.delete key);
  }

  abbrev pub live_has_consent : ℕ → ℕ → Action (World S) Error Bool
  live_has_consent at user = has_active_gender_preference_consent (live_consents at 0) user
