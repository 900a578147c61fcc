-- ===== src/Postgres/Profiles/Limit.antt =====
-- The number of photos of a user, along the statements of sqlc/profiles.sql.go.
use llm_dating_app.Prelude.{
  ℕ, suc, ◌+◌, ◌≤◌, ◌≡◌, refl, inl, inr, Bool, true, false, ◌&&◌, List, [], ◌∷◌, arith,
  if◌then◌else◌, Bool-cases, any, count_where, same_int, ℤ, pos, negsuc,
}
use llm_dating_app.Domain.Profile.{Photo, max_photos}
use llm_dating_app.Postgres.Profiles.{Tables}
use llm_dating_app.Postgres.Profiles.Photos
use llm_dating_app.Postgres.Profiles.Photos.{clashes, is_active_photo_of, is_position}
use llm_dating_app.Postgres.Profiles.Validity.{
  IsValid, create_photo-IsValid, soft_delete_photo-IsValid, clear_primary_photo-IsValid,
}
use llm_dating_app.Postgres.Profiles.Updates.{set_photo_position-IsValid, set_primary_photo-IsValid}

-- A statement that writes photos, with its arguments.
pub data Write : Type 0 where
  create : ℕ → Photo → Write
  set_position : ℕ → ℕ → ℤ → Write
  clear_primary : ℕ → Write
  set_primary delete : ℕ → ℕ → Write

unfoldable pub write : Write → Tables → Tables
write (create at p) t = (Photos.create_photo at p t).1
write (set_position id user position) t = (Photos.set_photo_position id user position t).1
write (clear_primary user) t = Photos.clear_primary_photo user t
write (set_primary id user) t = (Photos.set_primary_photo id user t).1
write (delete id at) t = Photos.soft_delete_photo id at t

unfoldable pub writes : List Write → Tables → Tables
unfolding write
writes [] t = t
writes (x ∷ xs) t = writes xs (write x t)

write-IsValid : (x : Write) (t : Tables) → IsValid t.photos → IsValid (write x t).photos
unfolding write
write-IsValid (create at p) t h = create_photo-IsValid at p t h
write-IsValid (set_position id user position) t h = set_photo_position-IsValid id user position t h
write-IsValid (clear_primary user) t h = clear_primary_photo-IsValid user t h
write-IsValid (set_primary id user) t h = set_primary_photo-IsValid id user t h
write-IsValid (delete id at) t h = soft_delete_photo-IsValid id at t h

writes-IsValid : (xs : List Write) (t : Tables) → IsValid t.photos → IsValid (writes xs t).photos
unfolding writes
writes-IsValid [] t h = h
writes-IsValid (x ∷ xs) t h = writes-IsValid xs (write x t) (write-IsValid x t h)

abbrev at_position : ℕ → ℕ → Photo → Bool
at_position user n p = is_active_photo_of user p && same_int p.position (pos n)

abbrev number_at : ℕ → ℕ → List Photo → ℕ
number_at user n = count_where (at_position user n)

-- Next to an active photo at a position there is no other.
number_at-clashes :
    (user n : ℕ) (p : Photo) (ps : List Photo)
    → at_position user n p ≡ true
    → any (clashes p) ps ≡ false
    → number_at user n ps ≡ 0
number_at-clashes user n p [] h c = refl
number_at-clashes user n p (q ∷ ps) h c = ground (arith, number_at-clashes user n p ps)

number_at-le : (user n : ℕ) (ps : List Photo) → IsValid ps → number_at user n ps ≤ 1
number_at-le user n [] h = omega arith
number_at-le user n (p ∷ ps) h = elim (Bool-cases (at_position user n p)) [
  | inl e ↦ ground (arith, number_at-clashes user n p ps)
  | inr e ↦ ground (arith, number_at-le user n ps)
]

abbrev bit : Bool → ℕ
bit b = if b then 1 else 0

add-bit : (b : Bool) (n : ℕ) → (if b then suc n else n) ≡ bit b + n
add-bit true n = omega arith
add-bit false n = omega arith

one_position :
    (b : Bool) (i : ℤ)
    → is_position i ≡ true
    → bit b
      ≤ bit (b && same_int i (pos 0))
        + bit (b && same_int i (pos 1))
        + bit (b && same_int i (pos 2))
        + bit (b && same_int i (pos 3))
        + bit (b && same_int i (pos 4))
        + bit (b && same_int i (pos 5))
one_position false i h = omega arith
one_position true (pos n) h = ground arith
one_position true (negsuc n) h = cc

-- Every active photo is at one of the positions.
count-number_at :
    (user : ℕ) (ps : List Photo)
    → IsValid ps
    → count_where (is_active_photo_of user) ps
      ≤ number_at user 0 ps
        + number_at user 1 ps
        + number_at user 2 ps
        + number_at user 3 ps
        + number_at user 4 ps
        + number_at user 5 ps
count-number_at user [] h = omega arith
count-number_at user (p ∷ ps) h =
    let a = is_active_photo_of user p in
    let rest = count-number_at user ps h.3 in
    let here = one_position a p.position h.0 in
    let e = add-bit a (count_where (is_active_photo_of user) ps) in
    let e0 = add-bit (at_position user 0 p) (number_at user 0 ps) in
    let e1 = add-bit (at_position user 1 p) (number_at user 1 ps) in
    let e2 = add-bit (at_position user 2 p) (number_at user 2 ps) in
    let e3 = add-bit (at_position user 3 p) (number_at user 3 ps) in
    let e4 = add-bit (at_position user 4 p) (number_at user 4 ps) in
    let e5 = add-bit (at_position user 5 p) (number_at user 5 ps) in omega arith

-- Whatever statements on photos run in whatever order, those of several calls at the same time included, a
-- user never has more active photos than the limit, if the constraints of the table held at first.
pub writes-max_photos :
    (user : ℕ) (xs : List Write) (t : Tables)
    → IsValid t.photos
    → Photos.count_active_photos user (writes xs t) ≤ max_photos
unfolding Photos.count_active_photos
writes-max_photos user xs t h =
    let ps = (writes xs t).photos in
    let valid = writes-IsValid xs t h in
    let total = count-number_at user ps valid in
    let n0 = number_at-le user 0 ps valid in
    let n1 = number_at-le user 1 ps valid in
    let n2 = number_at-le user 2 ps valid in
    let n3 = number_at-le user 3 ps valid in
    let n4 = number_at-le user 4 ps valid in let n5 = number_at-le user 5 ps valid in omega arith
