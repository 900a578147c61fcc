-- ===== src/Application/Profile/Photos.antt =====
-- CreatePhoto and ReorderPhotos of application/profile/service.go, over PostgreSQL: what the table
-- refuses.
use llm_dating_app.Prelude.{
  ℕ, ◌+◌, ◌≡◌, refl, sym, subst, ◌∙◌, inl, inr, Bool, true, false, not, ◌&&◌, none, some, List, [],
  ◌∷◌, arith, ◌==◌, Bool-cases, is_ok, Result, any, select, update_where, count_where, All, Text,
  same_int, pos,
}
use llm_dating_app.Domain.Profile.{Error, Photo}
use llm_dating_app.Postgres.Profiles.{Tables}
use llm_dating_app.Postgres.Profiles.Photos
use llm_dating_app.Postgres.Profiles.Photos.{is_active_photo_of, conflicts}
use llm_dating_app.Postgres.Profiles.Repository as Rows
use llm_dating_app.Application.Profile.{Storage, NewPhotoInput, is_photo_order}
use llm_dating_app.Application.Profile.Service
use llm_dating_app.Application.Profile.Live.{World, live_repository, live_storage, live_has_consent}
use llm_dating_app.Postgres.Profiles.Ordering.{
  any-sort_by_position, reorder_photos-refused, any-list_photos,
}
use llm_dating_app.Connection.{later_faults}
use llm_dating_app.Keyset.Sorting.{HasDistinct}

any-select_every : (f : Photo → Bool) (ps : List Photo) → any (λ p. true) (select f ps) ≡ any f ps
any-select_every f [] = refl
any-select_every f (p ∷ ps) = ground (arith, any-select_every f ps)

any-list_photos_every :
    (user : ℕ) (t : Tables)
    → any (λ p. true) (Photos.list_photos user t) ≡ any (is_active_photo_of user) t.photos
unfolding Photos.list_photos
any-list_photos_every user t =
    any-sort_by_position (λ p. true) (select (is_active_photo_of user) t.photos)
    ∙ any-select_every (is_active_photo_of user) t.photos

-- An accepted order of photos that there are begins with one of them.
is_photo_order-head :
    (existing : List Photo) (ids : List ℕ)
    → is_photo_order existing ids ≡ true
    → any (λ p. true) existing ≡ true
    → (id : ℕ) × (rest : List ℕ) × (ids ≡ id ∷ rest) × (any (λ p. p.id == id) existing ≡ true)
unfolding is_photo_order
is_photo_order-head [] ids h some' = cc
is_photo_order-head (p ∷ ps) [] h some' = absurd (ground arith)
is_photo_order-head (p ∷ ps) (id ∷ rest) h some' = (id, rest, refl, ground arith)

-- The position that a new photo would take is taken.
abbrev IsGap : ℕ → Tables → Type 0
IsGap user t =
    any
      (λ p.
        is_active_photo_of user p && same_int p.position (pos (Photos.count_active_photos user t)))
      t.photos
    ≡ true

abbrev is_at : ℕ → ℕ → Photo → Bool
is_at user n p = is_active_photo_of user p && same_int p.position (pos n)

abbrev deleted_in : ℕ → ℕ → List Photo → List Photo
deleted_in id at = update_where (λ p. p.id == id) (λ p. record p { deleted_at = some at })

deleted_in-others :
    (id at : ℕ) (ps : List Photo) → All (λ p. (p.id == id) ≡ false) ps → deleted_in id at ps ≡ ps
deleted_in-others id at [] h = refl
deleted_in-others id at (p ∷ ps) h = ground (arith, h.0, deleted_in-others id at ps h.1)

any-others :
    (user id : ℕ) (ps : List Photo)
    → All (λ p. (p.id == id) ≡ false) ps
    → any (λ p. p.id == id && is_active_photo_of user p) ps ≡ false
any-others user id [] h = refl
any-others user id (p ∷ ps) h = ground (arith, h.0, any-others user id ps h.1)

count_where-deleted :
    (user id at : ℕ) (ps : List Photo)
    → HasDistinct (λ p. p.id) ps
    → any (λ p. p.id == id && is_active_photo_of user p) ps ≡ true
    → count_where (is_active_photo_of user) ps
      ≡ count_where (is_active_photo_of user) (deleted_in id at ps) + 1
count_where-deleted user id at [] d h = cc
count_where-deleted user id at (p ∷ ps) d h = elim (Bool-cases (p.id == id)) [
  | inr e ↦ ground (arith, e, count_where-deleted user id at ps d.1)
  | inl e ↦
      let same : p.id ≡ id = ground (arith, e) in
      let others : All (λ q. (q.id == id) ≡ false) ps =
        subst (λ i. All (λ (q : Photo). (q.id == i) ≡ false) ps) same d.0 in
      ground (arith, e, h, any-others user id ps others, deleted_in-others id at ps others)
]

any-deleted :
    (user id at n : ℕ) (ps : List Photo)
    → any (λ p. not (p.id == id) && is_at user n p) ps ≡ true
    → any (is_at user n) (deleted_in id at ps) ≡ true
any-deleted user id at n [] h = cc
any-deleted user id at n (p ∷ ps) h = ground (arith, any-deleted user id at n ps)

-- The number of photos after the deletion is the position of the last one.
IsGap-after :
    (user deleted last at : ℕ) (t : Tables)
    → HasDistinct (λ p. p.id) t.photos
    → Photos.count_active_photos user t ≡ last + 1
    → any (λ p. p.id == deleted && is_active_photo_of user p) t.photos ≡ true
    → any (λ p. not (p.id == deleted) && is_at user last p) t.photos ≡ true
    → IsGap user (Photos.soft_delete_photo deleted at t)
unfolding Photos.count_active_photos Photos.soft_delete_photo
IsGap-after user deleted last at t d n there still =
    let fewer = count_where-deleted user deleted at t.photos d there in
    let left : count_where (is_active_photo_of user) (deleted_in deleted at t.photos) ≡ last =
      omega arith in
    subst (λ k. any (is_at user k) (deleted_in deleted at t.photos) ≡ true) (sym left)
      (any-deleted user deleted at last t.photos still)

any-conflicts :
    (user n : ℕ) (row : Photo) (ps : List Photo)
    → row.user_id ≡ user
    → row.position ≡ pos n
    → row.deleted_at ≡ none
    → any (λ p. is_active_photo_of user p && same_int p.position (pos n)) ps ≡ true
    → any (conflicts row) ps ≡ true
any-conflicts user n row [] u e d h = cc
any-conflicts user n row (p ∷ ps) u e d h = ground (arith, any-conflicts user n row ps u e d)

module _ {S : Type 0} (storage : Storage S) (key_of : ℕ → ℕ → Text) (at : ℕ) where
  abbrev pub live_reorder_photos : ℕ → List ℕ → World S → Result Error (Unit {0}) × World S
  live_reorder_photos =
      Service.reorder_photos (live_repository at) (live_storage storage) (live_has_consent at)
        key_of

  abbrev pub live_create_photo : ℕ → NewPhotoInput → ℕ → World S → Result Error Photo × World S
  live_create_photo =
      Service.create_photo (live_repository at) (live_storage storage) (live_has_consent at) key_of

  -- A user who has a photo cannot reorder photos: every order that is asked for, also one of exactly
  -- the photos that there are, ends in an error and changes no row.
  pub live_reorder_photos-refused :
      (user : ℕ) (ids : List ℕ) (w : World S)
      → any (is_active_photo_of user) w.db.tables.photos ≡ true
      → let (r, w') = live_reorder_photos user ids w in
        (is_ok r ≡ false) × (w'.db.tables ≡ w.db.tables)
  unfolding Service.reorder_photos Rows.list_photos
  live_reorder_photos-refused user ids w h =
      let existing = Photos.list_photos user w.db.tables in
      elim (Bool-cases (is_photo_order existing ids)) [
        | inl good ↦
            let (id, rest, e, there) =
              is_photo_order-head existing ids good (any-list_photos_every user w.db.tables ∙ h) in
            let c = record w.db { faults = later_faults w.db.faults } in
            ground (
              arith,
              e,
              reorder_photos-refused user id rest c (any-list_photos user id w.db.tables there),
            )
        | inr bad ↦ ground arith
      ]

  gap-refused :
      (user id : ℕ) (input : NewPhotoInput) (w : World S)
      → IsGap user w.db.tables
      → let (r, w') = live_create_photo user input id w in
        (is_ok r ≡ false) × (w'.db.tables ≡ w.db.tables)
  unfolding Service.create_photo Service.after_create Rows.count_active_photos Rows.create_photo
      Photos.create_photo
  gap-refused user id input w h =
      let n = Photos.count_active_photos user w.db.tables in
      let p =
        Service.new_photo (live_repository at) (live_storage storage) (live_has_consent at) key_of
          user input id n in
      ground (
        arith,
        any-conflicts user n (record p { created_at = at; deleted_at = none }) w.db.tables.photos
            refl refl refl h,
      )

  -- A user with a photo at the position that is the number of the photos less one, of whose other photos
  -- one is deleted, cannot add a photo, although there may be fewer than the limit: the call ends in an
  -- error and changes no row.
  pub live_create_photo-refused :
      (user id deleted last moment : ℕ) (input : NewPhotoInput) (t : Tables) (w : World S)
      → HasDistinct (λ p. p.id) t.photos
      → Photos.count_active_photos user t ≡ last + 1
      → any (λ p. p.id == deleted && is_active_photo_of user p) t.photos ≡ true
      → any (λ p. not (p.id == deleted) && is_at user last p) t.photos ≡ true
      → w.db.tables ≡ Photos.soft_delete_photo deleted moment t
      → let (r, w') = live_create_photo user input id w in
        (is_ok r ≡ false) × (w'.db.tables ≡ w.db.tables)
  live_create_photo-refused user id deleted last moment input t w d n there still e =
      let gap = IsGap-after user deleted last moment t d n there still in
      gap-refused user id input w (subst (IsGap user) (sym e) gap)
