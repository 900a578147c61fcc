-- ===== src/Postgres/Profiles/Photos.antt =====
-- The statements on photos of adapters/postgres/sqlc/profiles.sql.go, with the constraints of
-- migrations/000003_profiles.up.sql.
use llm_dating_app.Prelude.{
  ℕ, Bool, true, false, not, ◌&&◌, ◌||◌, Option, none, some, List, [], ◌∷◌, ltb, leb, ◌==◌,
  if◌then◌else◌, find, any, select, update_where, count_where, text_eq, same_int, is_le, ℤ, pos,
  negsuc,
}
use llm_dating_app.Domain.Profile.{Photo, is_deleted, MimeType, other_type, jpeg, png, webp}
use llm_dating_app.Postgres.Profiles.{Tables, is_user}

abbrev pub is_active_photo_of : ℕ → Photo → Bool
is_active_photo_of user p = p.user_id == user && not (is_deleted p)

-- `photos_position_check`
abbrev pub is_position : ℤ → Bool
is_position (pos n) = leb n 5
is_position (negsuc n) = false

abbrev pub is_allowed_type : MimeType → Bool
is_allowed_type (other_type _) = false
is_allowed_type jpeg = true
is_allowed_type png = true
is_allowed_type webp = true

abbrev pub is_checked : Photo → Bool
is_checked p =
    ltb 0 p.byte_size
    && ltb 0 p.width
    && ltb 0 p.height
    && is_position p.position
    && is_allowed_type p.mime_type

-- `photos_user_position_uq` and `photos_user_primary_uq`, for two rows.
abbrev pub clashes : Photo → Photo → Bool
clashes p q =
    not (is_deleted p)
    && not (is_deleted q)
    && p.user_id == q.user_id
    && (same_int p.position q.position || (p.is_primary && q.is_primary))

-- The same with the primary key and `photos_storage_key_uq`.
abbrev pub conflicts : Photo → Photo → Bool
conflicts p q = p.id == q.id || text_eq p.storage_key q.storage_key || clashes p q

unfoldable pub count_active_photos : ℕ → Tables → ℕ
count_active_photos user t = count_where (is_active_photo_of user) t.photos

unfoldable pub create_photo : ℕ → Photo → Tables → Option Photo × Tables
create_photo at p t =
    let row : Photo = record p { created_at = at; deleted_at = none } in
    if is_checked row && not (any (conflicts row) t.photos) && is_user p.user_id t
    then (some row, record t { photos = row ∷ t.photos })
    else (none, t)

unfoldable pub get_photo : ℕ → Tables → Option Photo
get_photo id t = find (λ p. p.id == id && not (is_deleted p)) t.photos

-- `ORDER BY position`
unfoldable pub insert_by_position : Photo → List Photo → List Photo
insert_by_position p [] = p ∷ []
insert_by_position p (q ∷ ps) =
    if is_le p.position q.position then p ∷ q ∷ ps else q ∷ insert_by_position p ps

unfoldable pub sort_by_position : List Photo → List Photo
sort_by_position [] = []
sort_by_position (p ∷ ps) = insert_by_position p (sort_by_position ps)

unfoldable pub list_photos : ℕ → Tables → List Photo
list_photos user t = sort_by_position (select (is_active_photo_of user) t.photos)

-- An update of the photo with an id, checked against the other rows.
unfoldable pub update_photo : (Photo → Bool) → (Photo → Photo) → List Photo → Bool × List Photo
update_photo p f ps =
    let refused =
      any
        (λ q.
          p q
          && (not (is_position (f q).position)
              || any (λ r. not (r.id == q.id) && clashes (f q) r) ps))
        ps in
    if refused then (false, ps) else (true, update_where p f ps)

unfoldable pub set_photo_position : ℕ → ℕ → ℤ → Tables → Bool × Tables
unfolding update_photo
set_photo_position id user position t =
    let (done, ps) =
      update_photo (λ p. p.id == id && p.user_id == user) (λ p. record p { position = position })
        t.photos in
    (done, record t { photos = ps })

unfoldable pub clear_primary_photo : ℕ → Tables → Tables
clear_primary_photo user t = record t {
  photos =
      update_where (λ p. p.user_id == user && p.is_primary && not (is_deleted p))
        (λ p. record p { is_primary = false }) t.photos;
}

unfoldable pub set_primary_photo : ℕ → ℕ → Tables → Bool × Tables
unfolding update_photo
set_primary_photo id user t =
    let (done, ps) =
      update_photo (λ p. p.id == id && p.user_id == user) (λ p. record p { is_primary = true })
        t.photos in
    (done, record t { photos = ps })

unfoldable pub soft_delete_photo : ℕ → ℕ → Tables → Tables
soft_delete_photo id at t = record t {
  photos = update_where (λ p. p.id == id) (λ p. record p { deleted_at = some at }) t.photos;
}
