-- ===== src/Postgres/Rows.antt =====
-- What joins and look-ups find in the rows of a table.
use llm_dating_app.Prelude.{
  ℕ, ◌≤◌, ◌≡◌, refl, subst, inl, inr, Bool, true, false, not, Option, none, some, List, [], ◌∷◌,
  arith, ◌==◌, Bool-cases, Option-cases, length, find, any, All, All-mono,
}
use llm_dating_app.Keyset.Sorting.{HasDistinct}

-- The rows of a join that a function finds, if it finds one.
abbrev pub keep : {B : Type 0} → Option B → List B → List B
keep none ys = ys
keep (some y) ys = y ∷ ys

abbrev pub collect : {A B : Type 0} → (A → Option B) → List A → List B
collect f [] = []
collect f (x ∷ xs) = keep (f x) (collect f xs)

module _ {A : Type 0} where
  -- An entry that passes a test stands in its list.
  abbrev pub IsAmong : List A → A → Type 0
  IsAmong xs x = (p : A → Bool) → p x ≡ true → any p xs ≡ true

  pub All-IsAmong : (xs : List A) → All (IsAmong xs) xs
  All-IsAmong [] = tt
  All-IsAmong (x ∷ xs) = (
    λ p e. rw e refl,
    All-mono (IsAmong xs) (IsAmong (x ∷ xs)) xs (λ y h p e. ground (arith, h p e)) (All-IsAmong xs),
  )

  pub find-IsAmong :
      (p : A → Bool) (xs : List A) (x : A) → find p xs ≡ some x → (p x ≡ true) × IsAmong xs x
  find-IsAmong p [] x e = cc
  find-IsAmong p (y ∷ ys) x e = elim (Bool-cases (p y)) [
    | inl h ↦
        let same : y ≡ x = ground (arith, h, e) in
        subst (λ z. (p z ≡ true) × IsAmong (y ∷ ys) z) same (h, λ q k. rw k refl)
    | inr h ↦
        let rest = find-IsAmong p ys x (ground (arith, h, e)) in
        (rest.0, λ q k. ground (arith, rest.1 q k))
  ]

module _ {A : Type 0} (p : A → Bool) where
  any-not : (xs : List A) → All (λ x. p x ≡ true) xs → any (λ x. not (p x)) xs ≡ false
  any-not [] h = refl
  any-not (x ∷ xs) h = ground (arith, h.0, any-not xs h.1)

  -- What holds of every entry holds of one that stands in the list.
  pub IsAmong-All : (xs : List A) (x : A) → All (λ x. p x ≡ true) xs → IsAmong xs x → p x ≡ true
  IsAmong-All xs x h among = elim (Bool-cases (p x)) [
    | inl e ↦ e
    | inr e ↦ absurd (cc (any-not xs h, among (λ y. not (p y)) (ground (arith, e))))
  ]

pub find-none-any : {A : Type 0} (p : A → Bool) (xs : List A) → find p xs ≡ none → any p xs ≡ false
find-none-any p [] e = refl
find-none-any p (x ∷ xs) e = ground (arith, find-none-any p xs)

pub All-collect :
    {A B : Type 0} (P : B → Type 0) (f : A → Option B) (xs : List A)
    → All (λ x. (y : B) → f x ≡ some y → P y) xs
    → All P (collect f xs)
All-collect P f [] h = tt
All-collect P f (x ∷ xs) h = elim (Option-cases (f x)) [
  | inl e ↦ rw e (All-collect P f xs h.1)
  | inr (y, e) ↦ rw e (h.0 y e, All-collect P f xs h.1)
]

module _ {A B : Type 0} (f : A → Option B) (id : A → ℕ) (key : B → ℕ)
    (same : (x : A) (y : B) → f x ≡ some y → key y ≡ id x) where
  -- A join that keeps the key of its row keeps keys distinct.
  pub collect-HasDistinct : (xs : List A) → HasDistinct id xs → HasDistinct key (collect f xs)
  collect-HasDistinct [] d = tt
  collect-HasDistinct (x ∷ xs) d = elim (Option-cases (f x)) [
    | inl e ↦ rw e (collect-HasDistinct xs d.1)
    | inr (y, e) ↦
        let others =
          All-collect (λ z. (key z == key y) ≡ false) f xs
            (All-mono (λ a. (id a == id x) ≡ false)
              (λ a. (z : B) → f a ≡ some z → (key z == key y) ≡ false) xs
              (λ a n z k. ground (arith, n, same a z k, same x y e)) d.0) in
        rw e (others, collect-HasDistinct xs d.1)
  ]

pub length-collect :
    {A B : Type 0} (f : A → Option B) (xs : List A) → length (collect f xs) ≤ length xs
length-collect f [] = omega arith
length-collect f (x ∷ xs) = elim (Option-cases (f x)) [
  | inl e ↦ rw e (let rest = length-collect f xs in omega arith)
  | inr (y, e) ↦ rw e (let rest = length-collect f xs in omega arith)
]
