-- ===== src/Keyset/Selecting.antt =====
-- What `WHERE` and `LIMIT` keep of a list of rows.
use llm_dating_app.Prelude.{
  ℕ, zero, suc, ◌+◌, ◌≤◌, min, ◌≡◌, refl, ap, subst, inl, inr, Bool, true, ◌&&◌, none, some, List,
  [], ◌∷◌, ◌++◌, arith, Bool-cases, length, take, select, All,
}
use llm_dating_app.Keyset.{last}

module _ {A : Type 0} where
  pub All-select : (P : A → Type 0) (p : A → Bool) (ms : List A) → All P ms → All P (select p ms)
  All-select P p [] h = tt
  All-select P p (m ∷ ms) h = elim (Bool-cases (p m)) [
    | inl e ↦ rw e (h.0, All-select P p ms h.1)
    | inr e ↦ rw e (All-select P p ms h.1)
  ]

  pub select-whole : (p : A → Bool) (ms : List A) → All (λ m. p m ≡ true) ms → select p ms ≡ ms
  select-whole p [] h = refl
  select-whole p (m ∷ ms) h = ground (arith, select-whole p ms h.1)

  pub select-cong :
      (p q : A → Bool) (ms : List A) → ((m : A) → p m ≡ q m) → select p ms ≡ select q ms
  select-cong p q [] h = refl
  select-cong p q (m ∷ ms) h = ground (arith, h m, select-cong p q ms h)

  pub select-and :
      (p q : A → Bool) (ms : List A) → select (λ m. p m && q m) ms ≡ select q (select p ms)
  select-and p q [] = refl
  select-and p q (m ∷ ms) = ground (arith, select-and p q ms)

  pub select-holds : (p : A → Bool) (ms : List A) → All (λ m. p m ≡ true) (select p ms)
  select-holds p [] = tt
  select-holds p (m ∷ ms) = elim (Bool-cases (p m)) [
    | inl e ↦ rw e (e, select-holds p ms)
    | inr e ↦ rw e (select-holds p ms)
  ]

  pub length-select : (p : A → Bool) (ms : List A) → length (select p ms) ≤ length ms
  length-select p [] = omega arith
  length-select p (m ∷ ms) = ground (arith, length-select p ms)

  pub length-take : (n : ℕ) (ms : List A) → length (take n ms) ≡ min n (length ms)
  length-take zero ms = omega arith
  length-take (suc n) [] = omega arith
  length-take (suc n) (m ∷ ms) = omega (arith, length-take n ms)

  pub All-take : (P : A → Type 0) (n : ℕ) (ms : List A) → All P ms → All P (take n ms)
  All-take P zero ms h = tt
  All-take P (suc n) [] h = tt
  All-take P (suc n) (m ∷ ms) h = (h.0, All-take P n ms h.1)

  pub take-le : (n : ℕ) (ms : List A) → length ms ≤ n → take n ms ≡ ms
  take-le zero [] h = refl
  take-le zero (m ∷ ms) h = absurd (omega arith)
  take-le (suc n) [] h = refl
  take-le (suc n) (m ∷ ms) h = ap (λ l. m ∷ l) (take-le n ms (omega arith))

  pub take-take : (n : ℕ) (ms : List A) → take n (take (suc n) ms) ≡ take n ms
  take-take zero ms = refl
  take-take (suc n) [] = refl
  take-take (suc n) (m ∷ ms) = ap (λ l. m ∷ l) (take-take n ms)

  pub take_add : (n : ℕ) (ms : List A) → take (n + 1) ms ≡ take (suc n) ms
  take_add n ms = let e : n + 1 ≡ suc n = omega arith in ap (λ k. take k ms) e

  pub append-nil : (ms : List A) → ms ++ [] ≡ ms
  append-nil [] = refl
  append-nil (m ∷ ms) = ap (λ l. m ∷ l) (append-nil ms)

  pub length-append : (xs ys : List A) → length (xs ++ ys) ≡ length xs + length ys
  length-append [] ys = omega arith
  length-append (x ∷ xs) ys = ground (arith, length-append xs ys)

  pub last-All : (P : A → Type 0) (ms : List A) (x : A) → All P ms → last ms ≡ some x → P x
  last-All P [] x h e = cc
  last-All P (m ∷ []) x h e = subst (λ o. elim o [ none ↦ Unit | some y ↦ P y ]) e h.0
  last-All P (m ∷ n ∷ ms) x h e = last-All P (n ∷ ms) x h.1 e

  pub last-some : (ms : List A) → 1 ≤ length ms → (x : A) × (last ms ≡ some x)
  last-some [] h = absurd (omega arith)
  last-some (m ∷ []) h = (m, refl)
  last-some (m ∷ k ∷ ms) h = last-some (k ∷ ms) (omega arith)

  pub select-every : (ms : List A) → select (λ m. true) ms ≡ ms
  select-every [] = refl
  select-every (m ∷ ms) = ap (λ l. m ∷ l) (select-every ms)
