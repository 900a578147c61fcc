-- ===== src/Postgres/Profiles/Validity.antt =====
-- The constraints of the table photos along the statements of sqlc/profiles.sql.go.
use llm_dating_app.Prelude.{
  ℕ, ◌≡◌, refl, ap, ◌∙◌, Bool, true, false, not, ◌&&◌, none, some, List, [], ◌∷◌, arith, ◌==◌,
  if◌then◌else◌, any, update_where, any-uncons, any-cons,
}
use llm_dating_app.Domain.Profile.{Photo, is_deleted}
use llm_dating_app.Postgres.Profiles.{Tables}
use llm_dating_app.Postgres.Profiles.Photos
use llm_dating_app.Postgres.Profiles.Photos.{is_position, clashes, conflicts}

abbrev pub has_id : ℕ → Photo → Bool
has_id id p = p.id == id

-- Distinct ids, positions in range, and of the active photos of a user no two at one position and no
-- two primary.
abbrev pub IsValid : List Photo → Type 0
IsValid [] = Unit
IsValid (p ∷ ps) =
    (is_position p.position ≡ true)
    × (any (has_id p.id) ps ≡ false)
    × (any (clashes p) ps ≡ false)
    × IsValid ps

any-conflicts_id :
    (p : Photo) (ps : List Photo) → any (conflicts p) ps ≡ false → any (has_id p.id) ps ≡ false
any-conflicts_id p [] h = refl
any-conflicts_id p (q ∷ ps) h = ground (arith, any-conflicts_id p ps)

any-conflicts_clash :
    (p : Photo) (ps : List Photo) → any (conflicts p) ps ≡ false → any (clashes p) ps ≡ false
any-conflicts_clash p [] h = refl
any-conflicts_clash p (q ∷ ps) h = ground (arith, any-conflicts_clash p ps)

pub create_photo-IsValid :
    (at : ℕ) (p : Photo) (t : Tables)
    → IsValid t.photos
    → IsValid (Photos.create_photo at p t).1.photos
unfolding Photos.create_photo
create_photo-IsValid at p t h =
    let row : Photo = record p { created_at = at; deleted_at = none } in
    ground (arith, any-conflicts_id row t.photos, any-conflicts_clash row t.photos)

pub any-has_id_kept :
    (p : Photo → Bool) (f : Photo → Photo) (same_id : (q : Photo) → (f q).id ≡ q.id) (id : ℕ)
    (ps : List Photo)
    → any (has_id id) (update_where p f ps) ≡ any (has_id id) ps
any-has_id_kept p f same_id id [] = refl
any-has_id_kept p f same_id id (q ∷ ps) =
    ground (arith, same_id q, any-has_id_kept p f same_id id ps)

-- An update that keeps ids and positions and makes no two photos clash.
module _ (p : Photo → Bool) (f : Photo → Photo) (same_id : (q : Photo) → (f q).id ≡ q.id)
    (same_position : (q : Photo) → (f q).position ≡ q.position)
    (fewer : (q r : Photo)
      → clashes q r ≡ false
      → clashes (if p q then f q else q) (if p r then f r else r) ≡ false) where
  any-clashes_kept :
      (q : Photo) (ps : List Photo)
      → any (clashes q) ps ≡ false
      → any (clashes (if p q then f q else q)) (update_where p f ps) ≡ false
  any-clashes_kept q [] h = refl
  any-clashes_kept q (r ∷ ps) h =
      let k = any-uncons (clashes q) r ps h in
      any-cons (clashes (if p q then f q else q)) (if p r then f r else r) (update_where p f ps)
        (fewer q r k.0) (any-clashes_kept q ps k.1)

  update_where-IsValid : (ps : List Photo) → IsValid ps → IsValid (update_where p f ps)
  update_where-IsValid [] h = tt
  update_where-IsValid (q ∷ ps) h =
      let id : (if p q then f q else q).id ≡ q.id = ground (arith, same_id q) in
      let position : (if p q then f q else q).position ≡ q.position =
        ground (arith, same_position q) in
      (
        ap is_position position ∙ h.0,
        ap (λ i. any (has_id i) (update_where p f ps)) id
            ∙ any-has_id_kept p f same_id q.id ps
            ∙ h.1,
        any-clashes_kept q ps h.2,
        update_where-IsValid ps h.3,
      )

pub soft_delete_photo-IsValid :
    (id at : ℕ) (t : Tables) → IsValid t.photos → IsValid (Photos.soft_delete_photo id at t).photos
unfolding Photos.soft_delete_photo
soft_delete_photo-IsValid id at t h =
    update_where-IsValid (λ p. p.id == id) (λ p. record p { deleted_at = some at }) (λ q. refl)
      (λ q. refl) (λ q r e. ground arith) t.photos h

pub clear_primary_photo-IsValid :
    (user : ℕ) (t : Tables) → IsValid t.photos → IsValid (Photos.clear_primary_photo user t).photos
unfolding Photos.clear_primary_photo
clear_primary_photo-IsValid user t h =
    update_where-IsValid (λ p. p.user_id == user && p.is_primary && not (is_deleted p))
      (λ p. record p { is_primary = false }) (λ q. refl) (λ q. refl) (λ q r e. ground arith)
      t.photos h
