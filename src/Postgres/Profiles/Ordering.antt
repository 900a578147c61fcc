-- ===== src/Postgres/Profiles/Ordering.antt =====
-- ReorderPhotos of profile_repository.go against the constraints of the table.
use llm_dating_app.Prelude.{
  ℕ, ◌≡◌, refl, sym, ◌∙◌, Bool, true, false, not, ◌&&◌, ◌||◌, List, [], ◌∷◌, arith, ◌==◌, err, any,
  select, negsuc,
}
use llm_dating_app.Domain.Profile.{infra, Photo}
use llm_dating_app.Postgres.Profiles.{Tables, Conn}
use llm_dating_app.Postgres.Profiles.Photos.{
  is_active_photo_of, is_position, set_photo_position, insert_by_position, sort_by_position,
  list_photos, clashes, update_photo,
}
use llm_dating_app.Postgres.Profiles.Repository as Rows
use llm_dating_app.Connection.{Conn}

abbrev pub is_photo_of : ℕ → ℕ → Photo → Bool
is_photo_of user id p = p.id == id && p.user_id == user

refused_below_zero :
    (id user i : ℕ) (all ps : List Photo)
    → any (is_photo_of user id) ps ≡ true
    → any
        (λ q.
          is_photo_of user id q
          && (not (is_position (negsuc i))
              || any (λ r. not (r.id == q.id) && clashes (record q { position = negsuc i }) r) all))
        ps
      ≡ true
refused_below_zero id user i all [] h = cc
refused_below_zero id user i all (p ∷ ps) h = ground (arith, refused_below_zero id user i all ps)

-- A photo of the user cannot be moved to a negative position.
set_photo_position-negative :
    (id user i : ℕ) (t : Tables)
    → any (is_photo_of user id) t.photos ≡ true
    → set_photo_position id user (negsuc i) t ≡ (false, t)
unfolding set_photo_position update_photo
set_photo_position-negative id user i t h =
    ground (arith, refused_below_zero id user i t.photos t.photos h)

-- An order that begins with a photo of the user is refused, whatever statements fail, and no row
-- changes: the first statement moves that photo to a negative position, which the table refuses.
pub reorder_photos-refused :
    (user id : ℕ) (ids : List ℕ) (c : Conn Tables)
    → any (is_photo_of user id) c.tables.photos ≡ true
    → let (r, c') = Rows.reorder_photos user (id ∷ ids) c in
      (r ≡ err infra) × (c'.tables ≡ c.tables)
unfolding Rows.reorder_photos Rows.stage_positions
reorder_photos-refused user id ids c h =
    ground (arith, set_photo_position-negative id user 0 c.tables h)

any-insert_by_position :
    (f : Photo → Bool) (p : Photo) (ps : List Photo)
    → any f (insert_by_position p ps) ≡ (f p || any f ps)
unfolding insert_by_position
any-insert_by_position f p [] = ground arith
any-insert_by_position f p (q ∷ ps) = ground (arith, any-insert_by_position f p ps)

pub any-sort_by_position :
    (f : Photo → Bool) (ps : List Photo) → any f (sort_by_position ps) ≡ any f ps
unfolding sort_by_position
any-sort_by_position f [] = refl
any-sort_by_position f (p ∷ ps) =
    ground (arith, any-insert_by_position f p (sort_by_position ps), any-sort_by_position f ps)

any-select-is_photo_of :
    (user id : ℕ) (ps : List Photo)
    → any (λ p. p.id == id) (select (is_active_photo_of user) ps) ≡ true
    → any (is_photo_of user id) ps ≡ true
any-select-is_photo_of user id [] h = cc
any-select-is_photo_of user id (p ∷ ps) h = ground (arith, any-select-is_photo_of user id ps)

-- What a listing of a user's photos has is a photo of the user.
pub any-list_photos :
    (user id : ℕ) (t : Tables)
    → any (λ p. p.id == id) (list_photos user t) ≡ true
    → any (is_photo_of user id) t.photos ≡ true
unfolding list_photos
any-list_photos user id t h =
    any-select-is_photo_of user id t.photos
      (sym (any-sort_by_position (λ p. p.id == id) (select (is_active_photo_of user) t.photos)) ∙ h)
