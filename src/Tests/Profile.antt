-- ===== src/Tests/Profile.antt =====
-- Profiles: user 1 with the photos 11 and 12, of which 10 was deleted, over a storage that counts.
use llm_dating_app.Prelude.{
  ℕ, ◌+◌, ◌-◌, ◌≤◌, ◌≡◌, refl, true, false, none, some, List, [], ◌∷◌, arith, ◌==◌, is_ok, ok, Text,
  pos,
}
use llm_dating_app.Domain.Profile.{max_photos, Photo, Preferences, jpeg}
use llm_dating_app.Postgres.Profiles.{Tables}
use llm_dating_app.Postgres.Profiles.Consenting.{IsConsented}
use llm_dating_app.Postgres.Profiles.Photos
use llm_dating_app.Application.Profile.{Storage, NewPhotoInput, UpdatePreferencesInput}
use llm_dating_app.Application.Profile.Live.{World}
use llm_dating_app.Application.Profile.Photos.{
  live_reorder_photos, live_reorder_photos-refused, live_create_photo, live_create_photo-refused,
}
use llm_dating_app.Application.Profile.Consents.{
  Call, update_preferences, grant, withdraw, run_calls, run_calls-IsConsented,
}
use llm_dating_app.Postgres.Profiles.Limit.{writes, create, set_primary, delete, writes-max_photos}

abbrev photo : ℕ → ℕ → Photo
photo id position = record {
  id = id;
  user_id = 1;
  storage_key = id ∷ [];
  mime_type = jpeg;
  byte_size = 100;
  width = 10;
  height = 10;
  position = pos position;
  is_primary = position == 1;
  created_at = 0;
  deleted_at = none;
}

abbrev preferences_of : ℕ → Preferences
preferences_of user = record {
  user_id = user;
  min_age = 18;
  max_age = 30;
  max_distance_km = 50;
  genders = [];
  created_at = 0;
  updated_at = 0;
}

abbrev rows : Tables
rows = record {
  users = 1 ∷ 2 ∷ [];
  profiles = [];
  preferences = preferences_of 1 ∷ [];
  photos = record (photo 10 0) { deleted_at = some 5 } ∷ photo 11 1 ∷ photo 12 2 ∷ [];
  consents = [];
}

abbrev profile_world : World ℕ
profile_world = record { db = record { tables = rows; saved = none; faults = [] }; blobs = 3 }

-- The third statement fails.
abbrev failing_world : World ℕ
failing_world = record profile_world {
  db = record { tables = rows; saved = none; faults = false ∷ false ∷ true ∷ [] };
}

abbrev counting : Storage ℕ
counting = record {
  put = λ key mime_type content n. (ok tt, n + 1);
  get = λ key n. (ok key, n);
  delete = λ key n. (ok tt, n - 1);
}

abbrev key_of : ℕ → ℕ → Text
key_of user id = user ∷ id ∷ []

live_reorder_photos-refused_example :
    let (r, w) = live_reorder_photos counting key_of 9 1 (12 ∷ 11 ∷ []) profile_world in
    (is_ok r ≡ false) × (w.db.tables ≡ rows)
live_reorder_photos-refused_example =
    live_reorder_photos-refused counting key_of 9 1 (12 ∷ 11 ∷ []) profile_world refl

abbrev picture : NewPhotoInput
picture = record { mime_type = jpeg; width = 4; height = 4; byte_size = 9; content = 7 ∷ [] }

-- The rows before the first photo was deleted.
abbrev three_photos : Tables
three_photos = record rows { photos = photo 10 0 ∷ photo 11 1 ∷ photo 12 2 ∷ [] }

three_counted : Photos.count_active_photos 1 three_photos ≡ 2 + 1
unfolding Photos.count_active_photos
three_counted = refl

first_deleted : rows ≡ Photos.soft_delete_photo 10 5 three_photos
unfolding Photos.soft_delete_photo
first_deleted = refl

live_create_photo-refused_example :
    let (r, w) = live_create_photo counting key_of 9 1 picture 13 profile_world in
    (is_ok r ≡ false) × (w.db.tables ≡ rows)
live_create_photo-refused_example =
    live_create_photo-refused counting key_of 9 1 13 10 2 5 picture three_photos profile_world
      (ground arith) three_counted refl refl first_deleted

abbrev wish : UpdatePreferencesInput
wish = record {
  min_age = pos 20;
  max_age = pos 40;
  max_distance_km = pos 10;
  genders = some ((1 ∷ []) ∷ []);
}

abbrev calls : List Call
calls =
    update_preferences 1 1 wish ∷ grant 2 7 1 [] ∷ update_preferences 3 1 wish ∷ withdraw 1 4 ∷ []

run_calls-IsConsented_example :
    IsConsented (run_calls counting key_of calls failing_world).db.tables
run_calls-IsConsented_example = run_calls-IsConsented counting key_of calls failing_world (refl, tt)

writes-max_photos_example :
    Photos.count_active_photos 1
      (writes (create 9 (photo 13 0) ∷ set_primary 12 1 ∷ delete 11 8 ∷ []) rows)
    ≤ max_photos
writes-max_photos_example =
    writes-max_photos 1 (create 9 (photo 13 0) ∷ set_primary 12 1 ∷ delete 11 8 ∷ []) rows
      (ground arith)
