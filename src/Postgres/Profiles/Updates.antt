-- ===== src/Postgres/Profiles/Updates.antt =====
-- The updates of one photo, which the constraints of the table photos may refuse.
use llm_dating_app.Prelude.{
  ℕ, ◌≡◌, refl, sym, ap, ◌∙◌, inl, inr, Bool, true, false, not, ◌&&◌, ◌||◌, List, [], ◌∷◌, arith,
  ◌==◌, if◌then◌else◌, Bool-cases, any, update_where, any-uncons, any-cons, same_int, ℤ, pos,
  negsuc,
}
use llm_dating_app.Domain.Profile.{Photo}
use llm_dating_app.Postgres.Profiles.Photos
use llm_dating_app.Postgres.Profiles.Photos.{is_position, clashes, update_photo}
use llm_dating_app.Postgres.Profiles.Validity.{IsValid, has_id, any-has_id_kept}
use llm_dating_app.Postgres.Profiles.{Tables}

same_int_comm : (a b : ℤ) → same_int a b ≡ same_int b a
same_int_comm (pos a) (pos b) = ground arith
same_int_comm (pos a) (negsuc b) = refl
same_int_comm (negsuc a) (pos b) = refl
same_int_comm (negsuc a) (negsuc b) = ground arith

clashes_comm : (p q : Photo) → clashes p q ≡ clashes q p
clashes_comm p q = ground (arith, same_int_comm p.position q.position)

unmet : (b s c : Bool) → (b && (not s && c)) ≡ false → b ≡ true → s ≡ false → c ≡ false
unmet b s c h e n = ground arith

fine : (b x y : Bool) → (b && (not x || y)) ≡ false → b ≡ true → (x ≡ true) × (y ≡ false)
fine b x y h e = ground arith

module _ (id : ℕ) (t : Photo → Bool) (f : Photo → Photo) (same_id : (q : Photo) → (f q).id ≡ q.id)
    (only : (q : Photo) → t q ≡ true → q.id ≡ id) where
  abbrev meets : Photo → Photo → Bool
  meets q r = not (r.id == q.id) && clashes (f q) r

  -- The rows that the constraints refuse to update, next to the rows `xs`.
  abbrev is_refused : List Photo → Photo → Bool
  is_refused xs q = t q && (not (is_position (f q).position) || any (meets q) xs)

  any-is_refused_tail :
      (p : Photo) (xs ys : List Photo)
      → any (is_refused (p ∷ xs)) ys ≡ false
      → any (is_refused xs) ys ≡ false
  any-is_refused_tail p xs [] h = refl
  any-is_refused_tail p xs (q ∷ ys) h = ground (arith, any-is_refused_tail p xs ys)

  any-is_refused_head :
      (p : Photo) (xs ys : List Photo)
      → any (is_refused (p ∷ xs)) ys ≡ false
      → any (λ q. t q && meets q p) ys ≡ false
  any-is_refused_head p xs [] h = refl
  any-is_refused_head p xs (q ∷ ys) h = ground (arith, any-is_refused_head p xs ys)

  any-meets :
      (p : Photo) (xs : List Photo)
      → any (has_id p.id) xs ≡ false
      → any (meets p) xs ≡ false
      → any (clashes (f p)) xs ≡ false
  any-meets p [] i h = refl
  any-meets p (q ∷ xs) i h = ground (arith, any-meets p xs)

  update_where-others : (xs : List Photo) → any (has_id id) xs ≡ false → update_where t f xs ≡ xs
  update_where-others [] h = refl
  update_where-others (q ∷ xs) h = ground (arith, only q, update_where-others xs)

  clashes_updated :
      (p q : Photo)
      → has_id p.id q ≡ false
      → clashes p q ≡ false
      → (t q && meets q p) ≡ false
      → clashes p (if t q then f q else q) ≡ false
  clashes_updated p q i c m = elim (Bool-cases (t q)) [
    | inl e ↦
        let ne : (p.id == q.id) ≡ false = ground arith in
        rw e (clashes_comm p (f q) ∙ unmet (t q) (p.id == q.id) (clashes (f q) p) m e ne)
    | inr e ↦ rw e c
  ]

  any-clashes_updated :
      (p : Photo) (xs : List Photo)
      → any (has_id p.id) xs ≡ false
      → any (clashes p) xs ≡ false
      → any (λ q. t q && meets q p) xs ≡ false
      → any (clashes p) (update_where t f xs) ≡ false
  any-clashes_updated p [] i c m = refl
  any-clashes_updated p (q ∷ xs) i c m =
      let i' = any-uncons (has_id p.id) q xs i in
      let c' = any-uncons (clashes p) q xs c in
      let m' = any-uncons (λ q. t q && meets q p) q xs m in
      any-cons (clashes p) (if t q then f q else q) (update_where t f xs)
        (clashes_updated p q i'.0 c'.0 m'.0) (any-clashes_updated p xs i'.1 c'.1 m'.1)

  update_where-accepted :
      (xs : List Photo)
      → IsValid xs
      → any (is_refused xs) xs ≡ false
      → IsValid (update_where t f xs)
  update_where-accepted [] h a = tt
  update_where-accepted (p ∷ xs) h a =
      let tail = any-uncons (is_refused (p ∷ xs)) p xs a in
      let rest = update_where-accepted xs h.3 (any-is_refused_tail p xs xs tail.1) in
      let ids = any-has_id_kept t f same_id p.id xs ∙ h.1 in
      let apart = any-clashes_updated p xs h.1 h.2 (any-is_refused_head p xs xs tail.1) in
      elim (Bool-cases (t p)) [
        | inl e ↦
            let good = fine (t p) (is_position (f p).position) (any (meets p) (p ∷ xs)) tail.0 e in
            let inner = any-uncons (meets p) p xs good.1 in
            let same : update_where t f xs ≡ xs =
              update_where-others xs (ap (λ i. any (has_id i) xs) (sym (only p e)) ∙ h.1) in
            rw (e, same_id p)
              (good.0, ids, ap (any (clashes (f p))) same ∙ any-meets p xs h.1 inner.1, rest)
        | inr e ↦ rw e (h.0, ids, apart, rest)
      ]

  pub update_photo-IsValid : (xs : List Photo) → IsValid xs → IsValid (update_photo t f xs).1
  unfolding update_photo
  update_photo-IsValid xs h = elim (Bool-cases (any (is_refused xs) xs)) [
    | inl e ↦ rw e h
    | inr e ↦ rw e (update_where-accepted xs h e)
  ]

pub set_photo_position-IsValid :
    (id user : ℕ) (position : ℤ) (t : Tables)
    → IsValid t.photos
    → IsValid (Photos.set_photo_position id user position t).1.photos
unfolding Photos.set_photo_position
set_photo_position-IsValid id user position t h =
    update_photo-IsValid id (λ p. p.id == id && p.user_id == user)
      (λ p. record p { position = position }) (λ q. refl) (λ q e. ground arith) t.photos h

pub set_primary_photo-IsValid :
    (id user : ℕ) (t : Tables)
    → IsValid t.photos
    → IsValid (Photos.set_primary_photo id user t).1.photos
unfolding Photos.set_primary_photo
set_primary_photo-IsValid id user t h =
    update_photo-IsValid id (λ p. p.id == id && p.user_id == user)
      (λ p. record p { is_primary = true }) (λ q. refl) (λ q e. ground arith) t.photos h
